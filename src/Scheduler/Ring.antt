-- ===== src/Scheduler/Ring.antt =====
-- The ring of runnable coroutines: its links, its construction, and a coroutine put at its end.
use disaggregate_metadata_se.Base.{
  ℕ, zero, suc, ◌+◌, ◌-◌, ◌%◌, ◌<◌, ◌≤◌, ◌≡◌, refl, sym, inl, inr, true, false, List, [], ◌∷◌, ◌++◌,
  ◌==◌, u64_mod, mem, update, ==_refl, ==_ne, ==_iff, Bool-cases, not-mem_tail, not-mem_head,
  not-mem_of, not-mem-snoc, arith,
}
use disaggregate_metadata_se.Scheduler.{
  Scheduler, link_step, link_loop, loop_link_coroutine, append_coroutine,
}

-- From `x` the `next_coro` pointers lead through the distinct coroutines `ys` to the tail and from it
-- to the head, and the `prev_coro` pointers of `ys` lead back.
abbrev pub Linked : Scheduler → ℕ → List ℕ → Type 0
Linked s x [] = (s.coro_tail ≡ x) × (s.next_coro x ≡ s.coro_head)
Linked s x (y ∷ ys) =
    (s.next_coro x ≡ y) × (s.prev_coro y ≡ x) × (mem x (y ∷ ys) ≡ false) × Linked s y ys

-- The head, coroutine 0, polls. Its own `prev_coro` is not kept up to date.
abbrev pub IsRing : Scheduler → List ℕ → Type 0
IsRing s ys = Linked s s.coro_head ys

pub tail-mem :
    (s : Scheduler) (x : ℕ) (ys : List ℕ) → Linked s x ys → mem s.coro_tail (x ∷ ys) ≡ true
tail-mem s x [] l = ground (arith, l.0)
tail-mem s x (y ∷ ys) l = ground (arith, tail-mem s y ys l.3)

-- Coroutine `y`, which waited, comes last.
abbrev pub appended : Scheduler → ℕ → Scheduler
appended s y = record s {
  next_coro = update (update s.next_coro s.coro_tail y) y s.coro_head;
  prev_coro = update s.prev_coro y s.coro_tail;
  coro_tail = y;
}

pub append-appended :
    (s : Scheduler) (y : ℕ) → s.is_wait_poll y ≡ true → append_coroutine s y ≡ appended s y
unfolding append_coroutine
append-appended s y w = rw w

pub appended-Linked :
    (s : Scheduler) (y x : ℕ) (ys : List ℕ)
    → Linked s x ys
    → mem y (x ∷ ys) ≡ false
    → Linked (appended s y) x (ys ++ y ∷ [])
appended-Linked s y x [] l out =
    let ne : (x == y) ≡ false = ground (arith, out) in
    (rw (ne, l.0, ==_refl x), rw (==_refl y) l.0, ground (arith, ne), (refl, rw (==_refl y)))
appended-Linked s y x (z ∷ zs) l out =
    let out' = not-mem_tail y x (z ∷ zs) out in
    let x_y : (x == y) ≡ false = ==_ne x y (λ e. not-mem_head y x (z ∷ zs) out (sym e)) in
    let z_y : (z == y) ≡ false = ==_ne z y (λ e. not-mem_head y z zs out' (sym e)) in
    let x_tail : (x == s.coro_tail) ≡ false =
      not-mem_of x s.coro_tail (z ∷ zs) l.2 (tail-mem s z zs l.3) in
    (
      rw (x_y, x_tail) l.0,
      rw z_y l.1,
      not-mem-snoc x y (z ∷ zs) l.2 (λ e. not-mem_head y x (z ∷ zs) out (sym e)),
      appended-Linked s y z zs l.3 out',
    )

-- The indices from `i` up, `n` of them.
abbrev pub count_up : ℕ → ℕ → List ℕ
count_up i zero = []
count_up i (suc n) = i ∷ count_up (suc i) n

pub not-mem-count_up : (a i n : ℕ) → a < i → mem a (count_up i n) ≡ false
not-mem-count_up a i zero lt = refl
not-mem-count_up a i (suc n) lt =
    rw (==_ne a i (omega arith)) (not-mem-count_up a (suc i) n (omega arith))

-- What the loop leaves at each index: below its start, and within its range.
link_loop-below :
    (n i a : ℕ) (s : Scheduler)
    → a < i
    → ((link_loop n i s).next_coro a ≡ s.next_coro a)
      × ((link_loop n i s).prev_coro a ≡ s.prev_coro a)
unfolding link_loop
link_loop-below zero i a s lt = (refl, refl)
link_loop-below (suc n) i a s lt =
    let (next, prev) = link_loop-below n (i + 1) a (link_step i s) (omega arith) in
    let ne = ==_ne a i (omega arith) in (rw next (rw ne), rw prev (rw ne))

link_loop-within :
    (n i a : ℕ) (s : Scheduler)
    → i ≤ a
    → a < i + n
    → ((link_loop n i s).next_coro a ≡ a + 1)
      × ((link_loop n i s).prev_coro a ≡ (a + u64_mod - 1) % u64_mod)
unfolding link_loop
link_loop-within zero i a s lo hi = absurd (omega arith)
link_loop-within (suc n) i a s lo hi = elim (Bool-cases (a == i)) [
  | inl e ↦
      let same : a ≡ i = (==_iff a i).0 e in
      let (next, prev) = link_loop-below n (i + 1) a (link_step i s) (omega arith) in
      (rw next (rw e (rw same)), rw prev (rw e (rw same)))
  | inr e ↦ link_loop-within n (i + 1) a (link_step i s) (ground (arith, e)) (omega arith)
]

module _ (n : ℕ) (s : Scheduler) (fits : suc n < u64_mod) where
  abbrev made : Scheduler
  made = loop_link_coroutine (suc n) s

  made-next : (a : ℕ) → a < n → made.next_coro a ≡ suc a
  unfolding loop_link_coroutine
  made-next a lt =
      rw (==_ne a (suc n - 1) (omega arith))
        (omega (arith, (link_loop-within (suc n) 0 a s (omega arith) (omega arith)).0))

  made-prev : (a : ℕ) → a < n → made.prev_coro (suc a) ≡ a
  unfolding loop_link_coroutine
  made-prev a lt =
      rw (==_ne (suc a) 0 (omega arith))
        (omega (arith, (link_loop-within (suc n) 0 (suc a) s (omega arith) (omega arith)).1))

  made-Linked : (i k : ℕ) → i + k ≡ n → Linked made i (count_up (suc i) k)
  unfolding loop_link_coroutine
  made-Linked i zero e =
      let same : i ≡ suc n - 1 = omega arith in (omega arith, rw (same, ==_refl (suc n - 1)))
  made-Linked i (suc k) e = (
    made-next i (omega arith),
    made-prev i (omega arith),
    not-mem-count_up i (suc i) (suc k) (omega arith),
    made-Linked (suc i) k (omega arith),
  )

-- For fewer than 2^64 coroutines, the link loop makes a ring of all of them, in the order of their
-- indices behind coroutine 0.
pub loop_link-IsRing :
    (n : ℕ) (s : Scheduler)
    → suc n < u64_mod
    → IsRing (loop_link_coroutine (suc n) s) (count_up 1 n)
unfolding loop_link_coroutine
loop_link-IsRing n s fits = made-Linked n s fits 0 n (omega arith)
