-- ===== src/Random.antt =====
-- core/util/fast_random.h: the linear congruential generators, on words of 64 bits.
mod Tests
use native.Mathlib.Nat.{mod-lt}
use disaggregate_metadata_se.Base.{
  ℕ, ◌+◌, ◌-◌, ◌*◌, ◌/◌, ◌%◌, ◌^◌, ◌<◌, ◌≤◌, ◌≡◌, refl, sym, ap, ◌∙◌, bit_xor, bit_and, add64,
  mul64, u64_mod, arith,
}

-- `& ((1L << 48) - 1)`
abbrev pub state_mod : ℕ
state_mod = 2 ^ 48

abbrev mask48 : ℕ → ℕ
mask48 x = x % state_mod

-- Rand
unfoldable pub next_u32 : ℕ → ℕ × ℕ
next_u32 state =
    let next = mask48 (add64 (mul64 state 0x5deece66d) 0xb) in (next / 2 ^ 16 % 2 ^ 32, next)

-- FastRand
unfoldable pub fast_rand : ℕ → ℕ × ℕ
fast_rand seed = let next = add64 (mul64 seed 1103515245) 12345 in (next / 2 ^ 32 % 2 ^ 32, next)

-- FastRandom, on its `seed`
unfoldable pub set_seed0 : ℕ → ℕ
set_seed0 sed = mask48 (bit_xor sed 0x5DEECE66D)

unfoldable pub next : ℕ → ℕ → ℕ × ℕ
next seed bits =
    let seed = mask48 (add64 (mul64 seed 0x5DEECE66D) 0xB) in (seed / 2 ^ (48 - bits), seed)

-- The order in which the two calls of `Next()` are made is open; this is from left to right.
unfoldable pub next_long : ℕ → ℕ × ℕ
next_long seed =
    let high = next seed 32 in
    let low = next high.1 32 in (add64 (mul64 high.0 (2 ^ 32)) low.0, low.1)

unfoldable pub next_random_u32 : ℕ → ℕ × ℕ
next_random_u32 seed = let r = next seed 32 in (r.0 % 2 ^ 32, r.1)

unfoldable pub next_u16 : ℕ → ℕ × ℕ
next_u16 seed = let r = next seed 16 in (r.0 % 2 ^ 16, r.1)

-- The step can be undone, so no state of 48 bits is lost: the generator permutes them.
unfoldable pub undo : ℕ → ℕ
undo seed = ((seed + state_mod - 0xB) * 0xDFE05BCB1365) % state_mod

-- From a state of 48 bits the step of the generator leaves one of 48 bits, from which the state
-- before can be computed, so no state is reached from two.
pub next-undo :
    (seed bits : ℕ)
    → seed < state_mod
    → ((next seed bits).1 < state_mod) × (undo (next seed bits).1 ≡ seed)
unfolding next undo
next-undo seed bits lt = (omega arith, omega arith)

-- From a state of 48 bits the long number has the first draw as its upper half and the second as
-- its lower, and the state before both can be computed.
pub next_long-halves :
    (seed : ℕ)
    → seed < state_mod
    → ((next_long seed).0 / 2 ^ 32 ≡ (next seed 32).0)
      × ((next_long seed).0 % 2 ^ 32 ≡ (next (next seed 32).1 32).0)
      × (undo (undo (next_long seed).1) ≡ seed)
unfolding next_long next undo
next_long-halves seed lt = (omega arith, omega arith, omega arith)
