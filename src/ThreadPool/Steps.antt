-- ===== src/ThreadPool/Steps.antt =====
-- core/util/thread_pool.h: the steps of a pool in every order, and what they keep.
use disaggregate_metadata_se.Base.{
  count, count-append, ℕ, zero, suc, ◌+◌, ◌<◌, ◌≡◌, ◌⊎◌, inl, inr, refl, ap, ◌∙◌, Bool, true, false,
  none, some, List, [], ◌∷◌, ◌++◌, length, length-replicate, get_elem?, set, replicate, arith,
  Bool-cases,
}
use disaggregate_metadata_se.ThreadPool.{
  ready, waiting, running, returned, ThreadPool, new_thread_pool, is_empty, set_worker, take_front,
  wait_and_take, execute, enqueue, notify_one, request_stop, notify_all,
}
use disaggregate_metadata_se.ThreadPool.Count.{
  is_ready, is_waiting, is_running, is_returned, runs, number, set-Moved, number-total, number-wake,
  length-wake,
}

-- A step of one thread. The last is a wake-up without a notification, which the standard allows.
pub data Step (p q : ThreadPool) : Type 0 where
  enqueues : (task : ℕ) → enqueue p task ≡ some q → Step p q
  notifies :
      (i : ℕ)
      → 0 < p.notifying
      → get_elem? p.workers i ≡ some waiting
      → q ≡ notify_one p (some i)
      → Step p q
  notifies_none :
      0 < p.notifying → number is_waiting p.workers ≡ 0 → q ≡ notify_one p none → Step p q
  stops : p.stop ≡ false → q ≡ request_stop p → Step p q
  notifies_all : p.notifying_all ≡ true → q ≡ notify_all p → Step p q
  takes : (i : ℕ) → get_elem? p.workers i ≡ some ready → wait_and_take p i ≡ some q → Step p q
  executes :
      (i task : ℕ) → get_elem? p.workers i ≡ some (running task) → q ≡ execute p i task → Step p q
  wakes : (i : ℕ) → get_elem? p.workers i ≡ some waiting → q ≡ set_worker p i ready → Step p q

abbrev pub is_spurious : {p q : ThreadPool} → Step p q → Bool
is_spurious (enqueues task e) = false
is_spurious (notifies i pos at e) = false
is_spurious (notifies_none pos all e) = false
is_spurious (stops going e) = false
is_spurious (notifies_all due e) = false
is_spurious (takes i at e) = false
is_spurious (executes i task at e) = false
is_spurious (wakes i at e) = true

abbrev pub new_tasks : {p q : ThreadPool} → Step p q → List ℕ
new_tasks (enqueues task e) = task ∷ []
new_tasks (notifies i pos at e) = []
new_tasks (notifies_none pos all e) = []
new_tasks (stops going e) = []
new_tasks (notifies_all due e) = []
new_tasks (takes i at e) = []
new_tasks (executes i task at e) = []
new_tasks (wakes i at e) = []

-- `q` is reached from `p`, and the tasks are those that were enqueued on the way.
pub data Reach (p : ThreadPool) : List ℕ → ThreadPool → Type 0 where
  here : Reach p [] p
  next :
      {tasks : List ℕ} {q r : ThreadPool}
      → Reach p tasks q
      → (s : Step q r) → Reach p (new_tasks s ++ tasks) r

-- A pool in order, of so many threads and tasks enqueued: a task that is queued is on the way to a
-- worker, a worker that has returned left an empty queue behind, none sleeps through the stop, and each
-- task is in one place.
pub record IsPool (threads : ℕ) (enqueued : List ℕ) (p : ThreadPool) : Type 0 where
  pub size : length p.workers ≡ threads
  pub seen :
      (length p.tasks ≡ 0)
      ⊎ (0 < p.notifying + number is_ready p.workers + number is_running p.workers)
  pub over : (number is_returned p.workers ≡ 0) ⊎ ((p.stop ≡ true) × (length p.tasks ≡ 0))
  pub told : (p.stop ≡ false) ⊎ (p.notifying_all ≡ true) ⊎ (number is_waiting p.workers ≡ 0)
  pub balance :
      (t : ℕ) → count t p.executed + number (runs t) p.workers + count t p.tasks ≡ count t enqueued

-- Enqueue throws after the stop, and before it appends the task.
pub enqueue-cases :
    (p : ThreadPool) (task : ℕ)
    → ((p.stop ≡ true) × (enqueue p task ≡ none))
      ⊎ ((p.stop ≡ false)
          × (enqueue p task
              ≡ some (record p { tasks = p.tasks ++ task ∷ []; notifying = p.notifying + 1 })))
unfolding enqueue
enqueue-cases p task = elim (Bool-cases p.stop) [
  | inl e ↦ inl (e, rw e refl)
  | inr e ↦ inr (e, rw e refl)
]

-- A worker that gets the lock takes the first task, or waits, or returns after the stop.
abbrev pub Taken : ThreadPool → ℕ → Type 0
Taken p i =
    ((task : ℕ) × (tasks : List ℕ) × (p.tasks ≡ task ∷ tasks)
      × (wait_and_take p i
          ≡ some (record p { workers = set p.workers i (running task); tasks = tasks })))
    ⊎ ((p.tasks ≡ []) × (p.stop ≡ true) × (wait_and_take p i ≡ some (set_worker p i returned)))
    ⊎ ((p.tasks ≡ []) × (p.stop ≡ false) × (wait_and_take p i ≡ some (set_worker p i waiting)))

List-cases : (ts : List ℕ) → (ts ≡ []) ⊎ ((t : ℕ) × (rest : List ℕ) × (ts ≡ t ∷ rest))
List-cases [] = inl refl
List-cases (t ∷ rest) = inr (t, rest, refl)

pub wait_and_take-Taken : (p : ThreadPool) (i : ℕ) → Taken p i
unfolding wait_and_take take_front is_empty
wait_and_take-Taken p i = elim (List-cases p.tasks) [
  | inr (t, rest, e) ↦ elim (Bool-cases p.stop) [
    | inl s ↦ inl (t, rest, e, rw (s, e) refl)
    | inr s ↦ inl (t, rest, e, rw (s, e) refl)
  ]
  | inl e ↦ elim (Bool-cases p.stop) [
    | inl s ↦ inr (inl (e, s, rw (s, e) refl))
    | inr s ↦ inr (inr (e, s, rw (s, e) refl))
  ]
]

module _ (threads : ℕ) (ts : List ℕ) (p : ThreadPool) (w : IsPool threads ts p)
    (some_threads : 0 < threads) where
  enqueue-IsPool :
      (task : ℕ) (q : ThreadPool) → enqueue p task ≡ some q → IsPool threads (task ∷ ts) q
  unfolding enqueue
  enqueue-IsPool task q e = elim (enqueue-cases p task) [
    | inl (s, f) ↦ absurd cc
    | inr (s, f) ↦
        let is : q ≡ record p { tasks = p.tasks ++ task ∷ []; notifying = p.notifying + 1 } = cc in
        rw is (record {
          size = w.size;
          seen = inr (omega arith);
          over = ground (arith, w.over);
          told = inl s;
          balance = λ t. omega (arith, w.balance t, count-append t p.tasks (task ∷ []));
        })
  ]

  take-IsPool :
      (i : ℕ) (q : ThreadPool)
      → get_elem? p.workers i ≡ some ready
      → wait_and_take p i ≡ some q
      → IsPool threads ts q
  take-IsPool i q at e = elim (wait_and_take-Taken p i) [
    | inl (task, tasks, f, g) ↦
        let is : q ≡ record p { workers = set p.workers i (running task); tasks = tasks } = cc in
        let (a, b, c, d, e, m) = set-Moved p.workers i ready (running task) at in
        rw is (record {
          size = m ∙ w.size;
          seen = inr (omega (arith, c));
          over = ground (arith, w.over, d, f);
          told = ground (arith, w.told, b);
          balance = λ t. omega (arith, e t, w.balance t, ap (count t) f);
        })
    | inr (inl (f, s, g)) ↦
        let is : q ≡ set_worker p i returned = cc in
        let (a, b, c, d, e, m) = set-Moved p.workers i ready returned at in
        rw is (record {
          size = m ∙ w.size;
          seen = inl (ap length f);
          over = inr (s, ap length f);
          told = ground (arith, w.told, b);
          balance = λ t. omega (arith, e t, w.balance t);
        })
    | inr (inr (f, s, g)) ↦
        let is : q ≡ set_worker p i waiting = cc in
        let (a, b, c, d, e, m) = set-Moved p.workers i ready waiting at in
        rw is (record {
          size = m ∙ w.size;
          seen = inl (ap length f);
          over = ground (arith, w.over, d);
          told = inl s;
          balance = λ t. omega (arith, e t, w.balance t);
        })
  ]

  notify_one-IsPool :
      (i : ℕ)
      → 0 < p.notifying
      → get_elem? p.workers i ≡ some waiting
      → IsPool threads ts (notify_one p (some i))
  unfolding notify_one
  notify_one-IsPool i pos at =
      let (a, b, c, d, e, f) = set-Moved p.workers i waiting ready at in
      record {
        size = f ∙ w.size;
        seen = inr (omega (arith, a));
        over = ground (arith, w.over, d);
        told = ground (arith, w.told, b);
        balance = λ t. omega (arith, e t, w.balance t);
      }

  notify_none-IsPool :
      0 < p.notifying → number is_waiting p.workers ≡ 0 → IsPool threads ts (notify_one p none)
  unfolding notify_one
  notify_none-IsPool pos all = record {
    size = w.size;
    seen = ground (arith, w.seen, w.over, number-total p.workers, w.size);
    over = w.over;
    told = inr (inr all);
    balance = w.balance;
  }

  request_stop-IsPool : p.stop ≡ false → IsPool threads ts (request_stop p)
  unfolding request_stop
  request_stop-IsPool going = record {
    size = w.size;
    seen = w.seen;
    over = ground (arith, w.over);
    told = inr (inl refl);
    balance = w.balance;
  }

  notify_all-IsPool : IsPool threads ts (notify_all p)
  unfolding notify_all
  notify_all-IsPool =
      let (a, b, c, d, e) = number-wake p.workers in
      record {
        size = length-wake p.workers ∙ w.size;
        seen = ground (arith, w.seen, a, c);
        over = ground (arith, w.over, d);
        told = inr (inr b);
        balance = λ t. omega (arith, e t, w.balance t);
      }

  execute-IsPool :
      (i task : ℕ)
      → get_elem? p.workers i ≡ some (running task)
      → IsPool threads ts (execute p i task)
  unfolding execute
  execute-IsPool i task at =
      let (a, b, c, d, e, f) = set-Moved p.workers i (running task) ready at in
      record {
        size = f ∙ w.size;
        seen = inr (omega (arith, a));
        over = ground (arith, w.over, d);
        told = ground (arith, w.told, b);
        balance = λ t. omega (arith, e t, w.balance t);
      }

  wake-IsPool :
      (i : ℕ) → get_elem? p.workers i ≡ some waiting → IsPool threads ts (set_worker p i ready)
  wake-IsPool i at =
      let (a, b, c, d, e, f) = set-Moved p.workers i waiting ready at in
      record {
        size = f ∙ w.size;
        seen = inr (omega (arith, a));
        over = ground (arith, w.over, d);
        told = ground (arith, w.told, b);
        balance = λ t. omega (arith, e t, w.balance t);
      }

  pub Step-IsPool : {q : ThreadPool} (s : Step p q) → IsPool threads (new_tasks s ++ ts) q
  Step-IsPool (enqueues task e) = enqueue-IsPool task _ e
  Step-IsPool (notifies i pos at e) = rw e (notify_one-IsPool i pos at)
  Step-IsPool (notifies_none pos all e) = rw e (notify_none-IsPool pos all)
  Step-IsPool (stops going e) = rw e (request_stop-IsPool going)
  Step-IsPool (notifies_all due e) = rw e notify_all-IsPool
  Step-IsPool (takes i at e) = take-IsPool i _ at e
  Step-IsPool (executes i task at e) = rw e (execute-IsPool i task at)
  Step-IsPool (wakes i at e) = rw e (wake-IsPool i at)

-- No worker of a new pool has done anything.
new-counts :
    (threads : ℕ)
    → (number is_waiting (replicate threads ready) ≡ 0)
      × (number is_returned (replicate threads ready) ≡ 0)
      × ((t : ℕ) → number (runs t) (replicate threads ready) ≡ 0)
new-counts zero = (refl, refl, λ t. refl)
new-counts (suc n) =
    let (a, b, c) = new-counts n in (omega (arith, a), omega (arith, b), λ t. omega (arith, c t))

new-IsPool : (threads : ℕ) → IsPool threads [] (new_thread_pool threads)
unfolding new_thread_pool
new-IsPool threads =
    let (a, b, c) = new-counts threads in
    record {
      size = length-replicate threads ready;
      seen = inl refl;
      over = inl b;
      told = inl refl;
      balance = λ t. omega (arith, c t);
    }

-- Whatever order of steps a new pool of at least one thread makes: while a task is queued a
-- notification is under way or a worker is awake, a worker returns only after the stop and with the
-- queue empty, none waits once the stop is notified, and each task is as often queued, running and
-- run together as it was enqueued.
pub Reach-IsPool :
    (threads : ℕ) {ts : List ℕ} {p : ThreadPool}
    → 0 < threads
    → Reach (new_thread_pool threads) ts p
    → IsPool threads ts p
Reach-IsPool threads pos here = new-IsPool threads
Reach-IsPool threads pos (next r s) = Step-IsPool threads _ _ (Reach-IsPool threads pos r) pos s
