-- ===== src/HashStore/Node.antt =====
-- The slots of a list of items: which holds a key, which is free, and what a write changes.
use disaggregate_metadata_se.Base.{
  ℕ, zero, suc, ◌+◌, ◌<◌, ◌≡◌, ◌≢◌, refl, true, false, Option, none, some, List, [], ◌∷◌, ◌++◌,
  if◌then◌else◌, length, get_elem?, set, modify, arith,
}
use disaggregate_metadata_se.Item.{DataItem, is_valid, hit}
use disaggregate_metadata_se.HashStore.{find_key, find_free, clear_valid}

-- The first item under a key, and how many there are.
abbrev pub lookup : ℕ → List DataItem → Option DataItem
lookup k [] = none
lookup k (d ∷ ds) = if hit k d then some d else lookup k ds

abbrev pub hits : ℕ → DataItem → ℕ
hits k d = if hit k d then 1 else 0

abbrev pub count : ℕ → List DataItem → ℕ
count k [] = 0
count k (d ∷ ds) = hits k d + count k ds

abbrev pub or_else {ℓ} : {A : Type ℓ} → Option A → Option A → Option A
or_else none b = b
or_else (some a) b = some a

pub or_else-none {ℓ} : {A : Type ℓ} (a : Option A) → or_else a none ≡ a
or_else-none none = refl
or_else-none (some a) = refl

pub lookup-append :
    (k : ℕ) (xs ys : List DataItem) → lookup k (xs ++ ys) ≡ or_else (lookup k xs) (lookup k ys)
lookup-append k [] ys = refl
lookup-append k (d ∷ xs) ys = ground (arith, lookup-append k xs ys)

pub count-append : (k : ℕ) (xs ys : List DataItem) → count k (xs ++ ys) ≡ count k xs + count k ys
count-append k [] ys = omega arith
count-append k (d ∷ xs) ys = omega (arith, count-append k xs ys)

pub lookup-count : (k : ℕ) (xs : List DataItem) → count k xs ≡ 0 → lookup k xs ≡ none
lookup-count k [] h = refl
lookup-count k (d ∷ xs) h = ground (arith, lookup-count k xs)

pub count-lookup : (k : ℕ) (xs : List DataItem) → lookup k xs ≡ none → count k xs ≡ 0
count-lookup k [] h = refl
count-lookup k (d ∷ xs) h = ground (arith, count-lookup k xs)

pub lookup-hit : (k : ℕ) (xs : List DataItem) (d : DataItem) → lookup k xs ≡ some d → hit k d ≡ true
lookup-hit k [] d h = ground arith
lookup-hit k (x ∷ xs) d h = ground (arith, lookup-hit k xs d)

pub find_key-lookup : (k : ℕ) (xs : List DataItem) → find_key k xs ≡ none → lookup k xs ≡ none
unfolding find_key
find_key-lookup k [] h = refl
find_key-lookup k (d ∷ xs) h = ground (arith, find_key-lookup k xs)

-- The slot found is the first under the key.
pub find_key-elem :
    (k : ℕ) (xs : List DataItem) (i : ℕ)
    → find_key k xs ≡ some i
    → (get_elem? xs i ≡ lookup k xs) × (i < length xs) × (lookup k xs ≢ none)
unfolding find_key
find_key-elem k [] i h = ground arith
find_key-elem k (d ∷ xs) zero h = ground (arith, find_key-elem k xs)
find_key-elem k (d ∷ xs) (suc i) h = ground (arith, find_key-elem k xs i)

pub find_key-set :
    (k : ℕ) (xs : List DataItem) (i : ℕ) (x : DataItem)
    → find_key k xs ≡ some i
    → hit k x ≡ true
    → lookup k (set xs i x) ≡ some x
unfolding find_key
find_key-set k [] i x h t = ground arith
find_key-set k (d ∷ xs) zero x h t = ground arith
find_key-set k (d ∷ xs) (suc i) x h t = ground (arith, find_key-set k xs i x)

pub find_free-elem :
    (xs : List DataItem) (i : ℕ)
    → find_free xs ≡ some i
    → (d : DataItem) × (get_elem? xs i ≡ some d) × (is_valid d ≡ false)
unfolding find_free
find_free-elem [] i h = absurd (ground arith)
find_free-elem (d ∷ xs) zero h = (d, refl, ground arith)
find_free-elem (d ∷ xs) (suc i) h = find_free-elem xs i (ground arith)

module _ (k : ℕ) where
  pub lookup-set_new :
      (xs : List DataItem) (i : ℕ) (x : DataItem)
      → lookup k xs ≡ none
      → i < length xs
      → hit k x ≡ true
      → lookup k (set xs i x) ≡ some x
  lookup-set_new [] i x n lt t = absurd (omega arith)
  lookup-set_new (d ∷ xs) zero x n lt t = ground arith
  lookup-set_new (d ∷ xs) (suc i) x n lt t = ground (arith, lookup-set_new xs i x)

  -- A write over an item that is not under the key, by one that is not, changes no lookup.
  pub lookup-set_other :
      (xs : List DataItem) (i : ℕ) (old x : DataItem)
      → get_elem? xs i ≡ some old
      → hit k old ≡ false
      → hit k x ≡ false
      → lookup k (set xs i x) ≡ lookup k xs
  lookup-set_other [] i old x e a b = refl
  lookup-set_other (d ∷ xs) zero old x e a b = ground arith
  lookup-set_other (d ∷ xs) (suc i) old x e a b = ground (arith, lookup-set_other xs i old x)

  pub count-set :
      (xs : List DataItem) (i : ℕ) (old x : DataItem)
      → get_elem? xs i ≡ some old
      → count k (set xs i x) + hits k old ≡ count k xs + hits k x
  count-set [] i old x e = absurd (ground arith)
  count-set (d ∷ xs) zero old x e = ground arith
  count-set (d ∷ xs) (suc i) old x e = omega (arith, count-set xs i old x e)

pub modify-set :
    (xs : List DataItem) (i : ℕ) (d : DataItem)
    → get_elem? xs i ≡ some d
    → modify xs i clear_valid ≡ set xs i (clear_valid d)
modify-set [] i d e = refl
modify-set (x ∷ xs) zero d e = ground arith
modify-set (x ∷ xs) (suc i) d e = ground (arith, modify-set xs i d)
