-- ===== src/Dmc/Path.antt =====
-- core/metadata/dmc.cc (path_resolution) and dmc.h (compute_hash). A string is its characters, bytes;
-- `char` is signed.
use native.Mathlib.Nat.{mod-add-div', mod-add-mod, add-mul-mod_self_right, mul-le-mul_right}
use disaggregate_metadata_se.Base.{
  ℕ, zero, suc, ◌+◌, ◌-◌, ◌*◌, ◌/◌, ◌%◌, ◌<◌, ◌≤◌, ◌≡◌, ◌⊎◌, refl, sym, ap, ◌∙◌, inl, inr, true,
  Option, none, some, List, [], ◌∷◌, ◌++◌, ◌==◌, if◌then◌else◌, ltb, lt→ltb, mul64, add64, u64_mod,
  Option-cases, arith,
}
use disaggregate_metadata_se.Base.Run.{Run, ok, out_of_fuel}

-- `c - 'a' + 1`, as the word that the multiplication makes of the `int`.
abbrev pub letter : ℕ → ℕ
letter c = if ltb c 128 then (c + u64_mod - 96) % u64_mod else (c + u64_mod - 256 - 96) % u64_mod

abbrev pub hash_mod : ℕ
hash_mod = 1000000009

unfoldable pub hash_loop : ℕ → ℕ → List ℕ → ℕ
hash_loop hash_value p_pow [] = hash_value
hash_loop hash_value p_pow (c ∷ cs) =
    hash_loop (add64 hash_value (mul64 (letter c) p_pow) % hash_mod) (mul64 p_pow 31 % hash_mod) cs

unfoldable pub compute_hash : List ℕ → ℕ
compute_hash s = hash_loop 0 1 s

pub record NameId : Type 0 where
  pub key : ℕ
  pub name : List ℕ

abbrev shift : Option ℕ → Option ℕ
shift none = none
shift (some i) = some (suc i)

-- `find('/', from)`, none for `npos`, which as an `int` is -1
unfoldable pub find_slash : ℕ → List ℕ → Option ℕ
find_slash from [] = none
find_slash zero (c ∷ cs) =
    let rest : Option ℕ = shift (find_slash zero cs) in if c == 47 then some 0 else rest
find_slash (suc from) (c ∷ cs) = shift (find_slash from cs)

abbrev pub substr : ℕ → List ℕ → List ℕ
substr zero cs = []
substr (suc n) [] = []
substr (suc n) (c ∷ cs) = c ∷ substr n cs

-- The `while (true)`; every round looks for the first slash behind the first character.
unfoldable pub resolution_loop : ℕ → List ℕ → List NameId → Run (List NameId)
resolution_loop zero path path_ids = out_of_fuel
resolution_loop (suc fuel) path path_ids =
    let next : ℕ → Run (List NameId) = λ pos.
      let name = substr pos path in
      resolution_loop fuel path
        (path_ids ++ (record { key = compute_hash name; name = name }) ∷ []) in
    elim (find_slash 1 path) [
      | none ↦ ok path_ids
      | some pos ↦ if ltb 0 pos then next pos else ok path_ids
    ]

shift-pos : (o : Option ℕ) (pos : ℕ) → shift o ≡ some pos → ltb 0 pos ≡ true
shift-pos none pos e = absurd (ground (arith, e))
shift-pos (some i) pos e = ground (arith, e)

find_slash-pos : (path : List ℕ) (pos : ℕ) → find_slash 1 path ≡ some pos → ltb 0 pos ≡ true
unfolding find_slash
find_slash-pos [] pos e = absurd (ground (arith, e))
find_slash-pos (c ∷ cs) pos e = shift-pos (find_slash 0 cs) pos e

resolution-stuck :
    (fuel : ℕ) (path : List ℕ) (ids : List NameId) (pos : ℕ)
    → find_slash 1 path ≡ some pos
    → resolution_loop fuel path ids ≡ out_of_fuel
unfolding resolution_loop
resolution-stuck zero path ids pos e = refl
resolution-stuck (suc fuel) path ids pos e =
    rw (resolution_loop, e, find_slash-pos path pos e) (resolution-stuck fuel path _ pos e)

-- A path with a slash behind its first character is resolved for ever, however many rounds there
-- are, and any other path has no parts.
pub path_resolution-outcome :
    (fuel : ℕ) (path : List ℕ)
    → ((pos : ℕ) × (find_slash 1 path ≡ some pos) × (resolution_loop fuel path [] ≡ out_of_fuel))
      ⊎ ((find_slash 1 path ≡ none) × (resolution_loop (suc fuel) path [] ≡ ok []))
unfolding resolution_loop
path_resolution-outcome fuel path = elim (Option-cases (find_slash 1 path)) [
  | inr (pos, e) ↦ inl (pos, e, resolution-stuck fuel path [] pos e)
  | inl e ↦ inr (e, rw (resolution_loop, e))
]

-- The polynomial of a string in 31, and the strings of small letters.
abbrev pub poly : List ℕ → ℕ
poly [] = 0
poly (c ∷ cs) = (c - 96) + 31 * poly cs

abbrev pub SmallLetters : List ℕ → Type 0
SmallLetters [] = Unit
SmallLetters (c ∷ cs) = ((97 ≤ c) × (c ≤ 122)) × SmallLetters cs

letter-small : (c : ℕ) → 97 ≤ c → c ≤ 122 → letter c ≡ c - 96
letter-small c lo hi = rw (lt→ltb c 128 (omega arith)) (omega arith)

spread : (h p d r : ℕ) → h + (r + d * hash_mod) * p ≡ h + r * p + d * p * hash_mod
spread h p d r = omega arith

collect : (h x p q : ℕ) → h + x * p + p * 31 * q ≡ h + p * (x + 31 * q)
collect h x p q = omega arith

mul-mod_left : (h q p : ℕ) → (h + q % hash_mod * p) % hash_mod ≡ (h + q * p) % hash_mod
mul-mod_left h q p =
    let whole : h + q * p ≡ h + q % hash_mod * p + q / hash_mod * p * hash_mod =
      ap (λ z. h + z * p) (sym (mod-add-div' q hash_mod))
      ∙ spread h p (q / hash_mod) (q % hash_mod) in
    sym (
      ap (λ x. x % hash_mod) whole
      ∙ add-mul-mod_self_right (h + q % hash_mod * p) (q / hash_mod * p) hash_mod)

no_wrap :
    (h x p : ℕ)
    → h < hash_mod
    → x * p ≤ 26 * p
    → p < hash_mod
    → add64 h (mul64 x p) % hash_mod ≡ (h + x * p) % hash_mod
no_wrap h x p lh le lp = omega arith

hash_loop-poly :
    (cs : List ℕ) (h p : ℕ)
    → h < hash_mod
    → p < hash_mod
    → SmallLetters cs
    → hash_loop h p cs ≡ (h + p * poly cs) % hash_mod
unfolding hash_loop
hash_loop-poly [] h p lh lp small = omega arith
hash_loop-poly (c ∷ cs) h p lh lp small =
    let x = c - 96 in
    let h' : add64 h (mul64 (letter c) p) % hash_mod ≡ (h + x * p) % hash_mod =
      ap (λ l. add64 h (mul64 l p) % hash_mod) (letter-small c small.0.0 small.0.1)
      ∙ no_wrap h x p lh (mul-le-mul_right {m = x} {n = 26} p (omega (arith, small.0.1))) lp in
    let p' : mul64 p 31 % hash_mod ≡ p * 31 % hash_mod = omega arith in
    ap (λ q. hash_loop q (mul64 p 31 % hash_mod) cs) h'
    ∙ ap (λ q. hash_loop ((h + x * p) % hash_mod) q cs) p'
    ∙ hash_loop-poly cs ((h + x * p) % hash_mod) (p * 31 % hash_mod) (omega arith) (omega arith)
        small.1
    ∙ mod-add-mod (h + x * p) hash_mod (p * 31 % hash_mod * poly cs)
    ∙ mul-mod_left (h + x * p) (p * 31) (poly cs)
    ∙ ap (λ q. q % hash_mod) (collect h x p (poly cs))

-- The hash of a word of small letters is its polynomial in 31, modulo 10^9 + 9, with no wrap-around
-- on the way.
pub compute_hash-poly : (s : List ℕ) → SmallLetters s → compute_hash s ≡ poly s % hash_mod
unfolding compute_hash
compute_hash-poly s small =
    hash_loop-poly s 0 1 (omega arith) (omega arith) small ∙ ap (λ q. q % hash_mod) (omega arith)
