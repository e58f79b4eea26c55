-- ===== src/Ct/Reverse.antt =====
-- core/util/ct.h: the table of bytes reverses the 64 bits of a hash.
pub mod Order
use Prim.Native.Nat.{max, digits, bit_or-bitwise}
use native.Mathlib.Nat.{
  div-div-eq-div-mul, zero-add, mod-one, mod-lt, mod-eq_of_lt, add-mul-mod_self_left, div-add-mod,
  one-le-pow, mul_assoc, mul_comm, pow-le-pow_right, div-eq_of_eq-mul_left, div-eq_of_lt-le,
}
use disaggregate_metadata_se.Base.{
  ℕ, zero, suc, ◌+◌, ◌-◌, ◌*◌, ◌/◌, ◌%◌, ◌^◌, ◌<◌, ◌≤◌, ◌≡◌, refl, ap, sym, ◌∙◌, inl, inr, Bool,
  true, ◌&&◌, ◌==◌, ==_iff, Bool-cases, bit_or, ltb→lt, ltb→le, ltb, arith,
}
use disaggregate_metadata_se.Ct.{
  reverse, reverse8bits, set_msb, regular_key, dummy_key, clz, get_bucket_parent,
}

-- The lowest `n` bits of `x`, reversed, behind those of `acc`.
pub bits_reversed : ℕ → ℕ → ℕ → ℕ
bits_reversed zero x acc = acc
bits_reversed (suc n) x acc = bits_reversed n (x / 2) (2 * acc + x % 2)

-- The law of `bit_or` for the lowest digit.
or_digits-fuel :
    (n m a b : ℕ) → a ≤ n → a ≤ m → digits (λ b. b) max n a b ≡ digits (λ b. b) max m a b
or_digits-fuel zero zero a b p q = refl
or_digits-fuel zero (suc m) zero b p q = refl
or_digits-fuel zero (suc m) (suc a) b p q = absurd (omega arith)
or_digits-fuel (suc n) zero zero b p q = refl
or_digits-fuel (suc n) zero (suc a) b p q = absurd (omega arith)
or_digits-fuel (suc n) (suc m) zero b p q = refl
or_digits-fuel (suc n) (suc m) (suc a) b p q =
    omega (arith, or_digits-fuel n m (suc a / 2) (b / 2) (omega arith) (omega arith))

bit_or_step : (a b : ℕ) → bit_or a b ≡ bit_or (a / 2) (b / 2) * 2 + max (a % 2) (b % 2)
bit_or_step zero b = omega (arith, bit_or-bitwise 0 b, bit_or-bitwise 0 (b / 2))
bit_or_step (suc a) b = omega (
  arith,
  bit_or-bitwise (suc a) b,
  bit_or-bitwise (suc a / 2) (b / 2),
  or_digits-fuel a (suc a / 2) (suc a / 2) (b / 2) (omega arith) (omega arith),
)

bit_or-zero : (n a : ℕ) → a ≤ n → bit_or a 0 ≡ a
bit_or-zero n zero h = bit_or-bitwise 0 0
bit_or-zero zero (suc a) h = absurd (omega arith)
bit_or-zero (suc n) (suc a) h =
    omega (arith, bit_or_step (suc a) 0, bit_or-zero n (suc a / 2) (omega arith))

pub double_pow : (k : ℕ) → 2 ^ suc k ≡ 2 * 2 ^ k
double_pow k = omega arith

-- Bits that do not overlap are added.
bit_or-add : (k q c : ℕ) → c < 2 ^ k → bit_or (q * 2 ^ k) c ≡ q * 2 ^ k + c
bit_or-add zero q c h =
    let none : c ≡ 0 = omega arith in
    rw none (omega (arith, bit_or-zero (q * 2 ^ 0) (q * 2 ^ 0) (omega arith)))
bit_or-add (suc k) q c h =
    let t = q * 2 ^ k in
    let twice : q * 2 ^ suc k ≡ 2 * t =
      rw (double_pow k) (sym (mul_assoc q 2 (2 ^ k)) ∙ rw (mul_comm q 2) (mul_assoc 2 q (2 ^ k))) in
    let half : 2 * t / 2 ≡ t = omega arith in
    let rest = bit_or-add k q (c / 2) (omega (arith, double_pow k)) in
    let whole = bit_or_step (2 * t) c in
    let step = rw half at whole in rw twice (omega (arith, rest, step))

byte_reversed : ℕ → ℕ
byte_reversed v = bits_reversed 8 v 0

all_below : ℕ → (ℕ → Bool) → Bool
all_below zero p = true
all_below (suc n) p = p n && all_below n p

all_below-holds : (n : ℕ) (p : ℕ → Bool) (x : ℕ) → all_below n p ≡ true → x < n → p x ≡ true
unfolding all_below
all_below-holds zero p x h lt = absurd (omega arith)
all_below-holds (suc n) p x h lt = ground (arith, all_below-holds n p x)

table_reversed : all_below 256 (λ v. reverse8bits v == byte_reversed v) ≡ true
unfolding all_below reverse8bits byte_reversed bits_reversed
table_reversed = refl

table_byte : (x : ℕ) → reverse8bits (x % 256) ≡ byte_reversed (x % 256)
table_byte x = (==_iff _ _).0 (all_below-holds 256 _ (x % 256) table_reversed (omega arith))

byte_reversed-lt : (v : ℕ) → byte_reversed v < 256
unfolding byte_reversed bits_reversed
byte_reversed-lt v = omega arith

-- Eight rounds take a byte.
bits_reversed-byte :
    (n x acc : ℕ)
    → bits_reversed (suc (suc (suc (suc (suc (suc (suc (suc n)))))))) x acc
      ≡ bits_reversed n (x / 256) (256 * acc + byte_reversed (x % 256))
unfolding bits_reversed byte_reversed
bits_reversed-byte n x acc =
    let p : x / 2 / 2 / 2 / 2 / 2 / 2 / 2 / 2 ≡ x / 256 = omega arith in
    let q : (2
            * (2
                  * (2
                        * (2
                              * (2 * (2 * (2 * (2 * acc + x % 2) + x / 2 % 2) + x / 2 / 2 % 2)
                                  + x / 2 / 2 / 2 % 2)
                            + x / 2 / 2 / 2 / 2 % 2)
                      + x / 2 / 2 / 2 / 2 / 2 % 2)
                + x / 2 / 2 / 2 / 2 / 2 / 2 % 2)
          + x / 2 / 2 / 2 / 2 / 2 / 2 / 2 % 2)
        ≡ 256 * acc + byte_reversed (x % 256) =
      omega arith in
    λ i. bits_reversed n (p i) (q i)

-- A byte goes in below those before it.
byte-join :
    (m k q r : ℕ)
    → 2 ^ m ≡ 256 * 2 ^ k
    → r < 256
    → bit_or (q * 2 ^ m) (r * 2 ^ k) ≡ (256 * q + r) * 2 ^ k
byte-join m k q r e lt =
    let t = 2 ^ k in
    let below : r * 2 ^ k < 2 ^ m = rw e (grind (arith, one-le-pow k 2)) in
    bit_or-add m q (r * t) below ∙ rw e (grind arith)

bits_reversed-end : (x acc : ℕ) → bits_reversed 0 x acc ≡ acc
unfolding bits_reversed
bits_reversed-end x acc = refl

times_one : (t : ℕ) → t * 2 ^ 0 ≡ t
times_one t = omega arith

-- The reversal of a word by the table of reversed bytes is its reversal bit by bit, of all 64.
pub reverse-bits : (x : ℕ) → reverse x ≡ bits_reversed 64 x 0
unfolding reverse
reverse-bits x =
    let d0 : x / 2 ^ 0 ≡ x = omega arith in
    let d2 : x / 2 ^ 16 ≡ x / 256 / 256 = omega arith in
    let d3 : x / 2 ^ 24 ≡ x / 256 / 256 / 256 = omega arith in
    let d4 : x / 2 ^ 32 ≡ x / 256 / 256 / 256 / 256 = omega arith in
    let d5 : x / 2 ^ 40 ≡ x / 256 / 256 / 256 / 256 / 256 = omega arith in
    let d6 : x / 2 ^ 48 ≡ x / 256 / 256 / 256 / 256 / 256 / 256 = omega arith in
    let d7 : x / 2 ^ 56 ≡ x / 256 / 256 / 256 / 256 / 256 / 256 / 256 = omega arith in
    let v0 = byte_reversed (x % 256) in
    let v1 = byte_reversed (x / 256 % 256) in
    let v2 = byte_reversed (x / 256 / 256 % 256) in
    let v3 = byte_reversed (x / 256 / 256 / 256 % 256) in
    let v4 = byte_reversed (x / 256 / 256 / 256 / 256 % 256) in
    let v5 = byte_reversed (x / 256 / 256 / 256 / 256 / 256 % 256) in
    let v6 = byte_reversed (x / 256 / 256 / 256 / 256 / 256 / 256 % 256) in
    let v7 = byte_reversed (x / 256 / 256 / 256 / 256 / 256 / 256 / 256 % 256) in
    let j1 = byte-join 56 48 (v0) v1 refl (byte_reversed-lt (x / 256 % 256)) in
    let j2 = byte-join 48 40 (256 * (v0) + v1) v2 refl (byte_reversed-lt (x / 256 / 256 % 256)) in
    let j3 =
      byte-join 40 32 (256 * (256 * (v0) + v1) + v2) v3 refl
        (byte_reversed-lt (x / 256 / 256 / 256 % 256)) in
    let j4 =
      byte-join 32 24 (256 * (256 * (256 * (v0) + v1) + v2) + v3) v4 refl
        (byte_reversed-lt (x / 256 / 256 / 256 / 256 % 256)) in
    let j5 =
      byte-join 24 16 (256 * (256 * (256 * (256 * (v0) + v1) + v2) + v3) + v4) v5 refl
        (byte_reversed-lt (x / 256 / 256 / 256 / 256 / 256 % 256)) in
    let j6 =
      byte-join 16 8 (256 * (256 * (256 * (256 * (256 * (v0) + v1) + v2) + v3) + v4) + v5) v6 refl
        (byte_reversed-lt (x / 256 / 256 / 256 / 256 / 256 / 256 % 256)) in
    let j7 =
      byte-join 8 0
        (256 * (256 * (256 * (256 * (256 * (256 * (v0) + v1) + v2) + v3) + v4) + v5) + v6) v7 refl
        (byte_reversed-lt (x / 256 / 256 / 256 / 256 / 256 / 256 / 256 % 256)) in
    let t0 = table_byte (x) in
    let t1 = table_byte (x / 256) in
    let t2 = table_byte (x / 256 / 256) in
    let t3 = table_byte (x / 256 / 256 / 256) in
    let t4 = table_byte (x / 256 / 256 / 256 / 256) in
    let t5 = table_byte (x / 256 / 256 / 256 / 256 / 256) in
    let t6 = table_byte (x / 256 / 256 / 256 / 256 / 256 / 256) in
    let t7 = table_byte (x / 256 / 256 / 256 / 256 / 256 / 256 / 256) in
    let first : 256 * 0 + v0 ≡ v0 = omega arith in
    let bits =
      bits_reversed-byte 56 x 0
      ∙ ap (bits_reversed 56 (x / 256)) first
      ∙ bits_reversed-byte 48 (x / 256) (v0)
      ∙ bits_reversed-byte 40 (x / 256 / 256) (256 * (v0) + v1)
      ∙ bits_reversed-byte 32 (x / 256 / 256 / 256) (256 * (256 * (v0) + v1) + v2)
      ∙ bits_reversed-byte 24 (x / 256 / 256 / 256 / 256)
          (256 * (256 * (256 * (v0) + v1) + v2) + v3)
      ∙ bits_reversed-byte 16 (x / 256 / 256 / 256 / 256 / 256)
          (256 * (256 * (256 * (256 * (v0) + v1) + v2) + v3) + v4)
      ∙ bits_reversed-byte 8 (x / 256 / 256 / 256 / 256 / 256 / 256)
          (256 * (256 * (256 * (256 * (256 * (v0) + v1) + v2) + v3) + v4) + v5)
      ∙ bits_reversed-byte 0 (x / 256 / 256 / 256 / 256 / 256 / 256 / 256)
          (256 * (256 * (256 * (256 * (256 * (256 * (v0) + v1) + v2) + v3) + v4) + v5) + v6)
      ∙ bits_reversed-end (x / 256 / 256 / 256 / 256 / 256 / 256 / 256 / 256) (
          256 * (256 * (256 * (256 * (256 * (256 * (256 * (v0) + v1) + v2) + v3) + v4) + v5) + v6)
          + v7) in
    rw (d0, d2, d3, d4, d5, d6, d7)
      (rw (t0, t1, t2, t3, t4, t5, t6, t7) (rw (j1, j2, j3, j4, j5, j6, j7, bits) (times_one _)))
