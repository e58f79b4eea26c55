-- ===== src/Ct/Reverse/Order.antt =====
-- core/util/ct.h: the order of the reversed hashes puts a bucket's head before the keys of the bucket and
-- behind its parent's head.
use Prim.Native.Nat.{}
use native.Mathlib.Nat.{
  div-div-eq-div-mul, zero-add, mod-one, mod-lt, mod-eq_of_lt, add-mul-mod_self_left, div-add-mod,
  one-le-pow, mul_assoc, pow-le-pow_right, div-eq_of_eq-mul_left, div-eq_of_lt-le,
}
use disaggregate_metadata_se.Base.{
  ℕ, zero, suc, ◌+◌, ◌-◌, ◌*◌, ◌/◌, ◌%◌, ◌^◌, ◌<◌, ◌≤◌, ◌≡◌, ap, sym, ◌∙◌, inl, inr, Bool-cases,
  ltb→lt, ltb→le, ltb, arith,
}
use disaggregate_metadata_se.Ct.{set_msb, regular_key, dummy_key, clz, get_bucket_parent}
use disaggregate_metadata_se.Ct.Reverse.{bits_reversed, double_pow, reverse-bits}

-- Digits that come first decide.
bits_reversed-lt : (n x y a b : ℕ) → a < b → bits_reversed n x a < bits_reversed n y b
unfolding bits_reversed
bits_reversed-lt zero x y a b lt = lt
bits_reversed-lt (suc n) x y a b lt = bits_reversed-lt n (x / 2) (y / 2) _ _ (omega arith)

bits_reversed-zero : (n x a b : ℕ) → a ≤ b → bits_reversed n 0 a ≤ bits_reversed n x b
unfolding bits_reversed
bits_reversed-zero zero x a b le = le
bits_reversed-zero (suc n) x a b le = bits_reversed-zero n (x / 2) _ _ (omega arith)

half_div : (x n : ℕ) → x / 2 / 2 ^ n ≡ x / 2 ^ suc n
half_div x n = rw double_pow (div-div-eq-div-mul x 2 (2 ^ n))

mod-double : (x k : ℕ) → ((x % 2 ^ suc k) % 2 ≡ x % 2) × (x % 2 ^ suc k / 2 ≡ x / 2 % 2 ^ k)
mod-double x k =
    let m = 2 ^ k in
    let q = x / 2 / m in
    let r = x / 2 % m in
    let e : x ≡ (2 * r + x % 2) + 2 * m * q =
      omega (arith, div-add-mod (x / 2) m, mul_assoc 2 m q) in
    let d : x % (2 * m) ≡ 2 * r + x % 2 =
      ap (λ t. t % (2 * m)) e
      ∙ add-mul-mod_self_left (2 * r + x % 2) (2 * m) q
      ∙ mod-eq_of_lt (omega (arith, mod-lt (x / 2) (one-le-pow k 2 (omega arith)))) in
    rw double_pow (rw d (omega arith, omega arith))

-- The low bits of a number, reversed, come no later than the number reversed.
low-le : (n p x a b : ℕ) → a ≤ b → bits_reversed n (x % 2 ^ p) a ≤ bits_reversed n x b
unfolding bits_reversed
low-le zero p x a b le = le
low-le (suc n) zero x a b le = rw (mod-one x) (bits_reversed-zero (suc n) x a b le)
low-le (suc n) (suc p) x a b le =
    let (bit, rest) = mod-double x p in
    rw (bit, rest) (low-le n p (x / 2) (2 * a + x % 2) (2 * b + x % 2) (omega arith))

-- Without its highest bit a number comes before itself.
low-lt : (n p x a : ℕ) → p < n → x / 2 ^ p ≡ 1 → bits_reversed n (x % 2 ^ p) a < bits_reversed n x a
unfolding bits_reversed
low-lt zero p x a lt e = absurd (omega arith)
low-lt (suc n) zero x a lt e =
    let one : x ≡ 1 = omega arith in
    rw one (bits_reversed-lt n 0 0 (2 * a + 0) (2 * a + 1) (omega arith))
low-lt (suc n) (suc p) x a lt e =
    let (bit, rest) = mod-double x p in
    rw (bit, rest) (low-lt n p (x / 2) (2 * a + x % 2) (omega arith) (half_div x p ∙ e))

-- The last bit is the highest one.
bits_reversed-parity : (n x a : ℕ) → bits_reversed (suc n) x a % 2 ≡ x / 2 ^ n % 2
unfolding bits_reversed
bits_reversed-parity zero x a = omega arith
bits_reversed-parity (suc n) x a =
    bits_reversed-parity n (x / 2) (2 * a + x % 2) ∙ ap (λ t. t % 2) (half_div x n)

pow-le : (i j : ℕ) → i ≤ j → 2 ^ i ≤ 2 ^ j
pow-le i j le = pow-le-pow_right (omega arith) le

pow-pos : (i : ℕ) → 0 < 2 ^ i
pow-pos i = one-le-pow i 2 (omega arith)

pow-add : (m n : ℕ) → 2 ^ (m + n) ≡ 2 ^ m * 2 ^ n
pow-add zero n = rw zero-add (sym (omega arith))
pow-add (suc m) n = grind (arith, double_pow m, double_pow (m + n), pow-add m n)

set_msb-low : (p hash : ℕ) → p < 64 → set_msb hash % 2 ^ p ≡ hash % 2 ^ p
set_msb-low p hash small =
    let t = 2 ^ p in
    let u = 2 ^ (63 - p) in
    let sum : p + (63 - p) ≡ 63 = omega arith in
    let whole : 2 ^ 63 ≡ t * u = ap (λ k. 2 ^ k) (sym sum) ∙ pow-add p (63 - p) in
    let r = hash % 2 ^ 63 in
    let q = hash / 2 ^ 63 in
    let product : 2 ^ 63 * q ≡ t * (u * q) = ap (λ m. m * q) whole ∙ mul_assoc t u q in
    let parts : hash ≡ r + t * (u * q) = omega (arith, product) in
    let marked : set_msb hash ≡ r + t * u = ap (λ m. r + m) whole in
    ap (λ m. m % t) marked
    ∙ add-mul-mod_self_left r t u
    ∙ sym (add-mul-mod_self_left r t (u * q))
    ∙ ap (λ m. m % t) (sym parts)

-- The last bit tells a dummy from a regular node.
pub dummy_key-even : (b : ℕ) → b < 2 ^ 63 → dummy_key b % 2 ≡ 0
unfolding dummy_key
dummy_key-even b small = rw reverse-bits (omega (arith, bits_reversed-parity 63 b 0))

pub regular_key-odd : (hash : ℕ) → regular_key hash % 2 ≡ 1
unfolding regular_key
regular_key-odd hash = rw reverse-bits (omega (arith, bits_reversed-parity 63 (set_msb hash) 0))

-- For fewer than 2^64 buckets, a power of 2, the place of a bucket's head in the list is strictly
-- before the place of each hash that falls into the bucket.
pub dummy-lt-regular : (p hash : ℕ) → p < 64 → dummy_key (hash % 2 ^ p) < regular_key hash
unfolding dummy_key regular_key
dummy-lt-regular p hash small =
    let b = hash % 2 ^ p in
    let h = set_msb hash in
    let low = low-le 64 p h 0 0 (omega arith) in
    let le = rw (set_msb-low p hash small) at low in
    let fits : 2 ^ p ≤ 2 ^ 63 = pow-le p 63 (omega arith) in
    let small : b < 2 ^ 63 = omega (arith, fits, mod-lt hash (pow-pos p)) in
    let even = dummy_key-even b small in
    let odd = regular_key-odd hash in
    let even' = rw reverse-bits at even in
    let odd' = rw reverse-bits at odd in
    rw (reverse-bits, reverse-bits) (omega (arith, le, even', odd'))

clz-bit :
    (n x : ℕ) → 0 < x → x < 2 ^ n → (m : ℕ) × (m + clz n x + 1 ≡ n) × (2 ^ m ≤ x) × (x < 2 ^ suc m)
unfolding clz
clz-bit zero x pos lt = absurd (omega arith)
clz-bit (suc n) x pos lt = elim (Bool-cases (ltb x (2 ^ n))) [
  | inl e ↦
      let (m, count, lo, hi) = clz-bit n x pos (ltb→lt x (2 ^ n) e) in
      (m, rw e (omega (arith, count)), lo, hi)
  | inr e ↦ (n, rw e (omega arith), ltb→le x (2 ^ n) e, lt)
]

highest_bit : (m c : ℕ) → m + c ≡ 63 → 2 ^ 63 / 2 ^ c ≡ 2 ^ m
highest_bit m c sum = div-eq_of_eq-mul_left (pow-pos c) (ap (λ k. 2 ^ k) (sym sum) ∙ pow-add m c)

bit_le : (n m b : ℕ) → b < 2 ^ suc n → 2 ^ m ≤ b → 2 ^ m ≤ 2 ^ n
bit_le n m b lt lo = elim (Bool-cases (ltb n m)) [
  | inl e ↦ absurd (omega (arith, pow-le (suc n) m (ltb→lt n m e)))
  | inr e ↦ pow-le m n (ltb→le n m e)
]

-- The parent of a bucket is the bucket without its highest bit: it is a lower bucket, and its head
-- comes strictly before.
pub parent-lt :
    (n b : ℕ)
    → n < 64
    → 0 < b
    → b < 2 ^ suc n
    → (get_bucket_parent b < 2 ^ n) × (dummy_key (get_bucket_parent b) < dummy_key b)
unfolding get_bucket_parent dummy_key
parent-lt n b small pos lt =
    let fits : 2 ^ suc n ≤ 2 ^ 64 = pow-le (suc n) 64 (omega arith) in
    let (m, count, lo, hi) = clz-bit 64 b pos (omega (arith, fits)) in
    let c = clz 64 b in
    let bit : 2 ^ 63 / 2 ^ c ≡ 2 ^ m = highest_bit m c (omega (arith, count)) in
    let quotient : b / 2 ^ m ≡ 1 =
      div-eq_of_lt-le {k = 1} (2 ^ m) (omega (arith, lo)) (omega (arith, hi, double_pow m)) in
    let parent : b - 2 ^ m ≡ b % 2 ^ m =
      omega (arith, div-add-mod b (2 ^ m), ap (λ t. 2 ^ m * t) quotient) in
    rw (reverse-bits, reverse-bits, bit)
      (
        omega (arith, hi, double_pow m, bit_le n m b lt lo),
        rw parent (low-lt 64 m b 0 (omega (arith, count)) quotient),
      )
