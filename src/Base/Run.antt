-- ===== src/Base/Run.antt =====
-- The outcome of a run of code that can abort, dereference a bad pointer, or not return.
use mathlib.Core.Path.{◌≡◌, sym, subst, ◌∙◌}
use mathlib.Core.Logic.{◌⊎◌, ◌≢◌, inl, inr}

pub data Run {ℓ} (A : Type ℓ) : Type ℓ where
  ok : A → Run A
  -- an `assert` or `abort()`
  aborted : Run A
  -- an access through a null pointer
  fault : Run A
  -- the rounds given to a loop did not suffice
  out_of_fuel : Run A

infixl 5 ◌>>=◌
abbrev pub ◌>>=◌ {ℓ κ} : {A : Type ℓ} {B : Type κ} → Run A → (A → Run B) → Run B
ok a >>= f = f a
aborted >>= f = aborted
fault >>= f = fault
out_of_fuel >>= f = out_of_fuel

-- `r` returns, with a result of which `P` holds.
abbrev pub Returns {ℓ κ} : {A : Type ℓ} → Run A → (A → Type κ) → Type (ℓ ⊔ κ)
Returns r P = (a : _) × (r ≡ ok a) × P a

abbrev pub ReturnsOrAborts {ℓ κ} : {A : Type ℓ} → Run A → (A → Type κ) → Type (ℓ ⊔ κ)
ReturnsOrAborts r P = Returns r P ⊎ (r ≡ aborted)

pub ok-not_aborted {ℓ} : {A : Type ℓ} (a : A) → ok a ≢ aborted
ok-not_aborted a e = cc

-- What is known of a result holds of the result that came.
abbrev OnOk {ℓ κ} : {A : Type ℓ} → (A → Type κ) → A → Run A → Type κ
OnOk P a (ok b) = P b
OnOk P a aborted = P a
OnOk P a fault = P a
OnOk P a out_of_fuel = P a

pub returned {ℓ κ} :
    {A : Type ℓ} (r : Run A) (P : A → Type κ) (a : A) → ReturnsOrAborts r P → r ≡ ok a → P a
returned r P a (inl (b, e, p)) q = subst (OnOk P a) (sym e ∙ q) p
returned r P a (inr e) q = absurd (ok-not_aborted a (sym q ∙ e))

pub ok-inj {ℓ} : {A : Type ℓ} {a b : A} → ok a ≡ ok b → a ≡ b
ok-inj e = cc
