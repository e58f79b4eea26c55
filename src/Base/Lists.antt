-- ===== src/Base/Lists.antt =====
-- Lists measured and indexed by native numbers, under the library's names.
use Prim.Native.Nat.{ℕ, zero, suc, ◌+◌, ◌<◌, ◌≤◌}
use mathlib.Core.Path.{◌≡◌, refl, ap}
use mathlib.Core.Logic.{◌≢◌, ◌⊎◌}
use mathlib.Core.Bool.{Bool, true, false, ◌||◌}
use mathlib.Core.List.{List, [], ◌∷◌, ◌++◌}
use mathlib.Core.Option.{Option, none, some}
use native.Mathlib.Omega.{arith}
use disaggregate_metadata_se.Base.Tests.{◌==◌, if◌then◌else◌}

module _ {ℓ} {A : Type ℓ} where
  abbrev pub length : List A → ℕ
  length [] = 0
  length (x ∷ xs) = suc (length xs)

  abbrev pub get_elem? : List A → ℕ → Option A
  get_elem? [] i = none
  get_elem? (x ∷ xs) zero = some x
  get_elem? (x ∷ xs) (suc i) = get_elem? xs i

  -- A write out of bounds changes nothing.
  abbrev pub set : List A → ℕ → A → List A
  set [] i v = []
  set (x ∷ xs) zero v = v ∷ xs
  set (x ∷ xs) (suc i) v = x ∷ set xs i v

  abbrev pub modify : List A → ℕ → (A → A) → List A
  modify [] i f = []
  modify (x ∷ xs) zero f = f x ∷ xs
  modify (x ∷ xs) (suc i) f = x ∷ modify xs i f

  abbrev pub replicate : ℕ → A → List A
  replicate zero a = []
  replicate (suc n) a = a ∷ replicate n a

  pub length-append : (xs ys : List A) → length (xs ++ ys) ≡ length xs + length ys
  length-append [] ys = omega arith
  length-append (x ∷ xs) ys = omega (arith, length-append xs ys)

module _ {ℓ} {A : Type ℓ} where
  pub length-set : (xs : List A) (i : ℕ) (v : A) → length (set xs i v) ≡ length xs
  length-set [] i v = refl
  length-set (x ∷ xs) zero v = refl
  length-set (x ∷ xs) (suc i) v = ap suc (length-set xs i v)

  pub length-replicate : (n : ℕ) (a : A) → length (replicate n a) ≡ n
  length-replicate zero a = refl
  length-replicate (suc n) a = ap suc (length-replicate n a)

  pub length-modify : (xs : List A) (i : ℕ) (f : A → A) → length (modify xs i f) ≡ length xs
  length-modify [] i f = refl
  length-modify (x ∷ xs) zero f = refl
  length-modify (x ∷ xs) (suc i) f = ap suc (length-modify xs i f)

  pub get_elem?-set_self :
      (xs : List A) (i : ℕ) (v : A) → i < length xs → get_elem? (set xs i v) i ≡ some v
  get_elem?-set_self [] i v h = elim h [ ]
  get_elem?-set_self (x ∷ xs) zero v h = refl
  get_elem?-set_self (x ∷ xs) (suc i) v h = get_elem?-set_self xs i v (omega arith)

-- Membership of a number, as a test.
abbrev pub mem : ℕ → List ℕ → Bool
mem a [] = false
mem a (x ∷ xs) = (a == x) || mem a xs

pub mem-append : (a : ℕ) (xs ys : List ℕ) → mem a (xs ++ ys) ≡ (mem a xs || mem a ys)
mem-append a [] ys = refl
mem-append a (x ∷ xs) ys = ground (arith, mem-append a xs ys)

pub not-mem_tail : (a x : ℕ) (xs : List ℕ) → mem a (x ∷ xs) ≡ false → mem a xs ≡ false
not-mem_tail a x xs h = ground arith

pub not-mem_of : (a b : ℕ) (xs : List ℕ) → mem a xs ≡ false → mem b xs ≡ true → (a == b) ≡ false
not-mem_of a b xs h m = ground arith

pub mem-ne : (a b : ℕ) (xs : List ℕ) → mem a xs ≡ false → mem b xs ≡ true → (b == a) ≡ false
mem-ne a b xs h m = ground arith

pub not-mem_head : (a x : ℕ) (xs : List ℕ) → mem a (x ∷ xs) ≡ false → a ≢ x
not-mem_head a x xs h = ground arith

pub not-mem_cons : (a x : ℕ) (xs : List ℕ) → a ≢ x → mem a xs ≡ false → mem a (x ∷ xs) ≡ false
not-mem_cons a x xs ne h = ground arith

pub get_elem?-some {ℓ} :
    {A : Type ℓ} (xs : List A) (i : ℕ) → i < length xs → (x : A) × (get_elem? xs i ≡ some x)
get_elem?-some [] i lt = absurd (omega arith)
get_elem?-some (x ∷ xs) zero lt = (x, refl)
get_elem?-some (x ∷ xs) (suc i) lt = get_elem?-some xs i (omega arith)

pub mem-snoc : (a x : ℕ) (xs : List ℕ) → mem a (xs ++ x ∷ []) ≡ true → (mem a xs ≡ true) ⊎ (a ≡ x)
mem-snoc a x [] m = ground arith
mem-snoc a x (y ∷ xs) m = ground (arith, mem-snoc a x xs)

pub not-mem-snoc : (a x : ℕ) (xs : List ℕ) → mem a xs ≡ false → a ≢ x → mem a (xs ++ x ∷ []) ≡ false
not-mem-snoc a x [] h ne = ground arith
not-mem-snoc a x (y ∷ xs) h ne = ground (arith, not-mem-snoc a x xs)

abbrev pub one_if : Bool → ℕ
one_if b = if b then 1 else 0

-- How often a number is in a list
abbrev pub count : ℕ → List ℕ → ℕ
count t [] = 0
count t (x ∷ xs) = one_if (t == x) + count t xs

pub count-append : (t : ℕ) (xs ys : List ℕ) → count t (xs ++ ys) ≡ count t xs + count t ys
count-append t [] ys = omega arith
count-append t (x ∷ xs) ys = omega (arith, count-append t xs ys)

pub count-le : (t : ℕ) (xs : List ℕ) → count t xs ≤ length xs
count-le t [] = omega arith
count-le t (x ∷ xs) = ground (arith, count-le t xs)
