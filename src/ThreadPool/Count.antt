-- ===== src/ThreadPool/Count.antt =====
-- core/util/thread_pool.h: how many workers are at a place, and the same after one has moved.
use disaggregate_metadata_se.Base.{
  one_if, ℕ, zero, suc, ◌+◌, ◌≤◌, ◌<◌, ◌≡◌, Bool, true, false, some, List, [], ◌∷◌, map, ◌==◌, ap,
  length, get_elem?, set, replicate, arith, ap, refl, Bool-cases, ◌⊎◌, length-set, inl, inr,
}
use disaggregate_metadata_se.ThreadPool.{Worker, ready, waiting, running, returned, wake}

abbrev pub is_ready : Worker → Bool
is_ready ready = true
is_ready waiting = false
is_ready (running task) = false
is_ready returned = false

abbrev pub is_waiting : Worker → Bool
is_waiting ready = false
is_waiting waiting = true
is_waiting (running task) = false
is_waiting returned = false

abbrev pub is_running : Worker → Bool
is_running ready = false
is_running waiting = false
is_running (running task) = true
is_running returned = false

abbrev pub is_returned : Worker → Bool
is_returned ready = false
is_returned waiting = false
is_returned (running task) = false
is_returned returned = true

abbrev pub runs : ℕ → Worker → Bool
runs t ready = false
runs t waiting = false
runs t (running task) = t == task
runs t returned = false

-- How many workers are of the kind `f`
abbrev pub number : (Worker → Bool) → List Worker → ℕ
number f [] = 0
number f (w ∷ ws) = one_if (f w) + number f ws

pub number-set :
    (f : Worker → Bool) (ws : List Worker) (i : ℕ) (v w : Worker)
    → get_elem? ws i ≡ some v
    → number f (set ws i w) + one_if (f v) ≡ number f ws + one_if (f w)
number-set f [] i v w at = absurd (cc)
number-set f (x ∷ ws) zero v w at = let e : x ≡ v = cc in rw e (omega arith)
number-set f (x ∷ ws) (suc i) v w at = omega (arith, number-set f ws i v w at)

-- What is counted of the workers `ws` and of `us`, where one has gone from the place `v` to `w`
abbrev pub Moved : List Worker → List Worker → Worker → Worker → Type 0
Moved ws us v w =
    (number is_ready us + one_if (is_ready v) ≡ number is_ready ws + one_if (is_ready w))
    × (number is_waiting us + one_if (is_waiting v) ≡ number is_waiting ws + one_if (is_waiting w))
    × (number is_running us + one_if (is_running v) ≡ number is_running ws + one_if (is_running w))
    × (number is_returned us + one_if (is_returned v)
        ≡ number is_returned ws + one_if (is_returned w))
    × ((t : ℕ) → number (runs t) us + one_if (runs t v) ≡ number (runs t) ws + one_if (runs t w))
    × (length us ≡ length ws)

pub set-Moved :
    (ws : List Worker) (i : ℕ) (v w : Worker) → get_elem? ws i ≡ some v → Moved ws (set ws i w) v w
set-Moved ws i v w at = (
  number-set is_ready ws i v w at,
  number-set is_waiting ws i v w at,
  number-set is_running ws i v w at,
  number-set is_returned ws i v w at,
  λ t. number-set (runs t) ws i v w at,
  length-set ws i w,
)

-- Each worker is at one of the places.
pub number-total :
    (ws : List Worker)
    → number is_ready ws + number is_waiting ws + number is_running ws + number is_returned ws
      ≡ length ws
number-total [] = refl
number-total (ready ∷ ws) = omega (arith, number-total ws)
number-total (waiting ∷ ws) = omega (arith, number-total ws)
number-total (running task ∷ ws) = omega (arith, number-total ws)
number-total (returned ∷ ws) = omega (arith, number-total ws)

pub number-runs : (t : ℕ) (ws : List Worker) → number (runs t) ws ≤ number is_running ws
number-runs t [] = omega arith
number-runs t (ready ∷ ws) = omega (arith, number-runs t ws)
number-runs t (waiting ∷ ws) = omega (arith, number-runs t ws)
number-runs t (running task ∷ ws) = ground (arith, number-runs t ws)
number-runs t (returned ∷ ws) = omega (arith, number-runs t ws)

pub number-wake :
    (ws : List Worker)
    → (number is_ready (map wake ws) ≡ number is_ready ws + number is_waiting ws)
      × (number is_waiting (map wake ws) ≡ 0)
      × (number is_running (map wake ws) ≡ number is_running ws)
      × (number is_returned (map wake ws) ≡ number is_returned ws)
      × ((t : ℕ) → number (runs t) (map wake ws) ≡ number (runs t) ws)
number-wake [] = (refl, refl, refl, refl, λ t. refl)
number-wake (ready ∷ ws) =
    let (a, b, c, d, e) = number-wake ws in
    (omega arith, omega arith, omega arith, omega arith, λ t. omega (arith, e t))
number-wake (waiting ∷ ws) =
    let (a, b, c, d, e) = number-wake ws in
    (omega arith, omega arith, omega arith, omega arith, λ t. omega (arith, e t))
number-wake (running task ∷ ws) =
    let (a, b, c, d, e) = number-wake ws in
    (omega arith, omega arith, omega arith, omega arith, λ t. ground (arith, e t))
number-wake (returned ∷ ws) =
    let (a, b, c, d, e) = number-wake ws in
    (omega arith, omega arith, omega arith, omega arith, λ t. omega (arith, e t))

-- A worker that is at a place has an index.
pub number-index :
    (f : Worker → Bool) (ws : List Worker)
    → 0 < number f ws
    → (i : ℕ) × (w : Worker) × (get_elem? ws i ≡ some w) × (f w ≡ true)
number-index f [] pos = absurd (omega arith)
number-index f (x ∷ ws) pos = elim (Bool-cases (f x)) [
  | inl e ↦ (0, x, refl, e)
  | inr e ↦
      let (i, w, at, is) = number-index f ws (omega (arith, e, rw e at pos)) in (suc i, w, at, is)
]

pub number-replicate : (n : ℕ) → number is_ready (replicate n ready) ≡ n
number-replicate zero = refl
number-replicate (suc n) = omega (arith, number-replicate n)

pub length-wake : (ws : List Worker) → length (map wake ws) ≡ length ws
length-wake [] = refl
length-wake (w ∷ ws) = ap suc (length-wake ws)

pub zero_or_positive : (n : ℕ) → (n ≡ 0) ⊎ (0 < n)
zero_or_positive zero = inl refl
zero_or_positive (suc n) = inr (omega arith)
