-- ===== src/ThreadPool/Ends.antt =====
-- core/util/thread_pool.h: what becomes of a pool after its destructor has asked it to stop.
use disaggregate_metadata_se.Base.{
  count, count-le, one_if, ℕ, zero, suc, ◌+◌, ◌*◌, ◌<◌, ◌≡◌, ◌⊎◌, inl, inr, refl, ap, true, false,
  some, List, [], length, get_elem?, set, arith, Bool-cases,
}
use disaggregate_metadata_se.ThreadPool.{
  Worker, ready, waiting, running, returned, ThreadPool, new_thread_pool, set_worker, wait_and_take,
  execute, notify_one, notify_all,
}
use disaggregate_metadata_se.ThreadPool.Count.{
  is_ready, is_waiting, is_running, is_returned, number, number-index, number-runs, set-Moved,
  number-total, number-wake, zero_or_positive,
}
use disaggregate_metadata_se.ThreadPool.Steps.{
  Step, enqueues, notifies, notifies_none, stops, notifies_all, takes, executes, wakes, is_spurious,
  new_tasks, Reach, IsPool, enqueue-cases, wait_and_take-Taken, Step-IsPool, Reach-IsPool,
}

-- How many steps a stopped pool has left at most
pub measure : ThreadPool → ℕ
measure p =
    2 * length p.tasks
    + number is_ready p.workers
    + 2 * number is_running p.workers
    + 2 * number is_waiting p.workers
    + p.notifying
    + one_if p.notifying_all

-- Every order of steps from `p` comes to the return of the last worker, with each of the tasks run as
-- often as it was enqueued, and on the way a step can be made that needs no spurious wake-up.
pub data Ends (enqueued : List ℕ) : ThreadPool → Type 0 where
  joined :
      {p : ThreadPool}
      → p.notifying_all ≡ false
      → number is_returned p.workers ≡ length p.workers
      → ((t : ℕ) → count t p.executed ≡ count t enqueued)
      → Ends enqueued p
  goes_on :
      {p : ThreadPool} (q : ThreadPool) (s : Step p q)
      → is_spurious s ≡ false
      → ((r : ThreadPool) → Step p r → Ends enqueued r)
      → Ends enqueued p

-- A step of a stopped pool brings it nearer to the end, and enqueues nothing.
abbrev Nearer : (p q : ThreadPool) → Step p q → Type 0
Nearer p q s = (measure q < measure p) × (q.stop ≡ true) × (new_tasks s ≡ [])

module _ (p : ThreadPool) (stopped : p.stop ≡ true) where
  take-Nearer :
      (i : ℕ) (q : ThreadPool) (at : get_elem? p.workers i ≡ some ready)
      (e : wait_and_take p i ≡ some q)
      → Nearer p q (takes i at e)
  unfolding measure
  take-Nearer i q at e = elim (wait_and_take-Taken p i) [
    | inl (task, tasks, f, g) ↦
        let is : q ≡ record p { workers = set p.workers i (running task); tasks = tasks } = cc in
        let (a, b, c, d, e, m) = set-Moved p.workers i ready (running task) at in
        (rw is (omega (arith, ap length f, a, b, c)), rw is stopped, refl)
    | inr (inl (f, s, g)) ↦
        let is : q ≡ set_worker p i returned = cc in
        let (a, b, c, d, e, m) = set-Moved p.workers i ready returned at in
        (rw is (omega (arith, a, b, c)), rw is stopped, refl)
    | inr (inr (f, s, g)) ↦ absurd cc
  ]

  Step-Nearer : {q : ThreadPool} (s : Step p q) → Nearer p q s
  unfolding measure notify_one notify_all execute
  Step-Nearer (enqueues task e) = elim (enqueue-cases p task) [
    | inl (s, f) ↦ absurd cc
    | inr (s, f) ↦ absurd cc
  ]
  Step-Nearer (notifies i pos at e) =
      let (a, b, c, d, m, z) = set-Moved p.workers i waiting ready at in
      (rw e (omega (arith, a, b, c)), rw e stopped, refl)
  Step-Nearer (notifies_none pos all e) = (rw e (omega arith), rw e stopped, refl)
  Step-Nearer (stops going e) = absurd cc
  Step-Nearer (notifies_all due e) =
      let (a, b, c, m, z) = number-wake p.workers in
      (rw (e, due) (omega (arith, a, b, c)), rw e stopped, refl)
  Step-Nearer (takes i at e) = take-Nearer i _ at e
  Step-Nearer (executes i task at e) =
      let (a, b, c, d, m, z) = set-Moved p.workers i (running task) ready at in
      (rw e (omega (arith, a, b, c)), rw e stopped, refl)
  Step-Nearer (wakes i at e) =
      let (a, b, c, d, m, z) = set-Moved p.workers i waiting ready at in
      (rw e (omega (arith, a, b, c)), rw e stopped, refl)

-- A step that is none of the spurious wake-ups
abbrev CanStep : ThreadPool → Type 0
CanStep p = (q : ThreadPool) × (s : Step p q) × (is_spurious s ≡ false)

ready-CanStep : (p : ThreadPool) (i : ℕ) → get_elem? p.workers i ≡ some ready → CanStep p
ready-CanStep p i at = elim (wait_and_take-Taken p i) [
  | inl (task, tasks, f, g) ↦ (_, takes i at g, refl)
  | inr (inl (f, s, g)) ↦ (_, takes i at g, refl)
  | inr (inr (f, s, g)) ↦ (_, takes i at g, refl)
]

place-CanStep :
    (p : ThreadPool) (i : ℕ) (w : Worker)
    → get_elem? p.workers i ≡ some w
    → (is_ready w ≡ true) ⊎ (is_running w ≡ true)
    → CanStep p
place-CanStep p i ready at is = ready-CanStep p i at
place-CanStep p i waiting at is = absurd (ground arith)
place-CanStep p i (running task) at is = (_, executes i task at refl, refl)
place-CanStep p i returned at is = absurd (ground arith)

some-CanStep :
    (p : ThreadPool) → 0 < number is_ready p.workers + number is_running p.workers → CanStep p
some-CanStep p pos = elim (zero_or_positive (number is_ready p.workers)) [
  | inl e ↦
      let (i, w, at, is) = number-index is_running p.workers (omega arith) in
      place-CanStep p i w at (inr is)
  | inr lt ↦
      let (i, w, at, is) = number-index is_ready p.workers lt in place-CanStep p i w at (inl is)
]

module _ (threads : ℕ) (ts : List ℕ) (some_threads : 0 < threads) where
  -- Without a step to make, all workers have returned.
  stopped-cases :
      (p : ThreadPool)
      → IsPool threads ts p
      → p.stop ≡ true
      → CanStep p
        ⊎ ((p.notifying_all ≡ false)
            × (number is_returned p.workers ≡ length p.workers)
            × ((t : ℕ) → count t p.executed ≡ count t ts))
  stopped-cases p w stopped = elim (Bool-cases p.notifying_all) [
    | inl due ↦ inl (_, notifies_all due refl, refl)
    | inr done ↦ elim (zero_or_positive (number is_ready p.workers + number is_running p.workers)) [
      | inr lt ↦ inl (some-CanStep p lt)
      | inl e ↦
          let asleep : number is_waiting p.workers ≡ 0 = ground (arith, w.told) in
          let all : number is_returned p.workers ≡ length p.workers =
            omega (arith, number-total p.workers) in
          let empty : length p.tasks ≡ 0 = ground (arith, w.over, w.size) in
          inr (
            done,
            all,
            λ t. omega (arith, w.balance t, number-runs t p.workers, count-le t p.tasks),
          )
    ]
  ]

  stopped-Ends :
      (n : ℕ) (p : ThreadPool) → measure p < n → IsPool threads ts p → p.stop ≡ true → Ends ts p
  stopped-Ends zero p lt w stopped = absurd (omega arith)
  stopped-Ends (suc n) p lt w stopped = elim (stopped-cases p w stopped) [
    | inr (done, all, counts) ↦ joined done all counts
    | inl (q, s, regular) ↦ goes_on q s regular λ r. λ step.
        let (less, still, nothing) = Step-Nearer p stopped step in
        stopped-Ends n r (omega (arith, less))
          (rw nothing at (Step-IsPool threads ts p w some_threads step)) still
  ]

-- In a pool of at least one thread that any order of steps has brought to the stop: every order of
-- further steps ends, after finitely many, with all workers returned and each task run exactly as
-- often as it was enqueued, and until then there is a step to make that is not a spurious wake-up.
pub destructor-Ends :
    (threads : ℕ) (ts : List ℕ) (p : ThreadPool)
    → 0 < threads
    → Reach (new_thread_pool threads) ts p
    → p.stop ≡ true
    → Ends ts p
destructor-Ends threads ts p pos reach stopped =
    stopped-Ends threads ts pos (suc (measure p)) p (omega arith) (Reach-IsPool threads pos reach)
      stopped
