-- ===== src/ThreadPool.antt =====
-- core/util/thread_pool.h: the pool of threads. A section under the mutex is one step; a notification is
-- a step of its own, as the code sends it after it lets the mutex go. A task is a number, and what its
-- run does is only that it is in `executed`.
mod Count
pub mod Steps
pub mod Ends
mod Tests
use disaggregate_metadata_se.Base.{
  ℕ, ◌+◌, ◌-◌, ◌<◌, ◌≡◌, Bool, true, false, not, ◌&&◌, ◌||◌, Option, none, some, List, [], ◌∷◌,
  ◌++◌, map, ◌==◌, if◌then◌else◌, get_elem?, set, replicate,
}

-- A worker is about to lock the mutex, waits for the condition, runs a task or has returned.
pub data Worker : Type 0 where
  ready : Worker
  waiting : Worker
  running : ℕ → Worker
  returned : Worker

pub record ThreadPool : Type 0 where
  pub workers : List Worker
  pub tasks : List ℕ
  pub stop : Bool
  -- the calls of Enqueue, and whether the destructor, that are yet to notify
  pub notifying : ℕ
  pub notifying_all : Bool
  pub executed : List ℕ

pub new_thread_pool : ℕ → ThreadPool
new_thread_pool threads = record {
  workers = replicate threads ready;
  tasks = [];
  stop = false;
  notifying = 0;
  notifying_all = false;
  executed = [];
}

pub is_empty : List ℕ → Bool
is_empty [] = true
is_empty (t ∷ ts) = false

abbrev pub set_worker : ThreadPool → ℕ → Worker → ThreadPool
set_worker p i w = record p { workers = set p.workers i w }

-- `tasks.front()` and `tasks.pop()`, which are not defined on an empty queue
pub take_front : ThreadPool → ℕ → List ℕ → Option ThreadPool
take_front p i [] = none
take_front p i (task ∷ tasks) =
    some (record p { workers = set p.workers i (running task); tasks = tasks })

-- From the lock of the mutex to the end of its scope, or to the wait for the condition
pub wait_and_take : ThreadPool → ℕ → Option ThreadPool
unfolding is_empty take_front
wait_and_take p i =
    let empty = is_empty p.tasks in
    if p.stop || not empty
    then (if p.stop && empty then some (set_worker p i returned) else take_front p i p.tasks)
    else some (set_worker p i waiting)

-- `task()`, and back to the head of the loop
pub execute : ThreadPool → ℕ → ℕ → ThreadPool
execute p i task = record p { workers = set p.workers i ready; executed = task ∷ p.executed }

-- `none` where it throws
pub enqueue : ThreadPool → ℕ → Option ThreadPool
enqueue p task =
    if p.stop
    then none
    else some (record p { tasks = p.tasks ++ task ∷ []; notifying = p.notifying + 1 })

-- `notify_one`, which wakes one worker that waits, or nothing where none waits
pub notify_one : ThreadPool → Option ℕ → ThreadPool
notify_one p none = record p { notifying = p.notifying - 1 }
notify_one p (some i) = record p { workers = set p.workers i ready; notifying = p.notifying - 1 }

-- The first part of the destructor
pub request_stop : ThreadPool → ThreadPool
request_stop p = record p { stop = true; notifying_all = true }

abbrev pub wake : Worker → Worker
wake ready = ready
wake waiting = ready
wake (running task) = running task
wake returned = returned

pub notify_all : ThreadPool → ThreadPool
notify_all p = record p { workers = map wake p.workers; notifying_all = false }
