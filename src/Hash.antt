-- ===== src/Hash.antt =====
-- core/util/hash.h: the hash that places a key in a bucket.
use disaggregate_metadata_se.Base.{ℕ, ◌/◌, ◌^◌, List, [], ◌∷◌, bit_xor, mul64}

abbrev m : ℕ
m = 0xc6a4a7935bd1e995

-- `k ^= k >> r` with r = 47
shift_mix : ℕ → ℕ
shift_mix k = bit_xor k (k / 2 ^ 47)

-- the `while (data != end)` loop, over the words from `data` up to `end`
mix_words : ℕ → List ℕ → ℕ
unfolding shift_mix
mix_words h [] = h
mix_words h (w ∷ ws) = mix_words (mul64 (bit_xor h (mul64 (shift_mix (mul64 w m)) m)) m) ws

-- The one word hashed is the key, so `end` is `data + 1`.
unfoldable pub murmur_hash64a : ℕ → ℕ → ℕ
unfolding mix_words shift_mix
murmur_hash64a key seed =
    let h = mix_words (bit_xor seed (mul64 8 m)) (key ∷ []) in shift_mix (mul64 (shift_mix h) m)
