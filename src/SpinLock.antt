-- ===== src/SpinLock.antt =====
-- core/util/spinlock.h and seqlock.h: the lock of a sequence lock, whose atomic counter is the state.
mod Tests
use disaggregate_metadata_se.Base.{
  ℕ, zero, suc, ◌%◌, ◌≡◌, refl, Bool, true, false, List, [], ◌∷◌, ◌==◌, if◌then◌else◌,
}
use disaggregate_metadata_se.Base.Run.{Run, ok, out_of_fuel, ◌>>=◌}

unfoldable pub new_spin_lock : ℕ
new_spin_lock = 0

-- `counter.compare_exchange_strong(expected, desired)`: whether it took place, the variable `expected`
-- and the counter after it.
unfoldable pub compare_exchange : ℕ → ℕ → ℕ → Bool × ℕ × ℕ
compare_exchange counter expected desired =
    if counter == expected then (true, expected, desired) else (false, counter, counter)

-- The `while`, from the value of `locked`. It goes on as long as the exchange takes place.
unfoldable pub lock_loop : ℕ → ℕ → ℕ → Run ℕ
lock_loop zero counter locked = out_of_fuel
lock_loop (suc fuel) counter locked =
    let r = compare_exchange counter locked 0 in
    let again = lock_loop fuel r.2 r.1 in if r.0 then again else ok r.2

unfoldable pub lock : ℕ → ℕ → Run ℕ
lock fuel counter = lock_loop fuel counter 1

unfoldable pub unlock : ℕ → ℕ
unlock counter = 0

unfoldable pub is_writing : ℕ → Bool
is_writing counter = counter % 2 == 1

-- SeqLock
unfoldable pub begin_write : ℕ → ℕ → Run ℕ
begin_write fuel counter = lock fuel counter

unfoldable pub end_write : ℕ → ℕ
end_write counter = unlock counter

unfoldable pub begin_read : ℕ → ℕ → Run ℕ
begin_read zero counter = out_of_fuel
begin_read (suc fuel) counter =
    let again = begin_read fuel counter in if is_writing counter then again else ok counter

-- What threads do to one lock, in the order in which it takes place.
pub data Call : Type 0 where
  begins_write ends_write begins_read : Call

unfoldable pub calls : ℕ → List Call → Run ℕ
calls counter [] = ok counter
calls counter (Call.begins_write ∷ cs) = begin_write 1 counter >>= λ c. calls c cs
calls counter (Call.ends_write ∷ cs) = calls (end_write counter) cs
calls counter (Call.begins_read ∷ cs) = begin_read 1 counter >>= λ c. calls c cs

-- Whatever calls are made of a new lock, in whatever order, each returns in its first round, the
-- write of a second writer and the read within a write too, and the counter stays 0: nothing is
-- excluded.
pub calls-pass : (cs : List Call) → calls new_spin_lock cs ≡ ok 0
unfolding calls new_spin_lock begin_write lock lock_loop compare_exchange end_write unlock
    begin_read is_writing
calls-pass [] = refl
calls-pass (Call.begins_write ∷ cs) = calls-pass cs
calls-pass (Call.ends_write ∷ cs) = calls-pass cs
calls-pass (Call.begins_read ∷ cs) = calls-pass cs
