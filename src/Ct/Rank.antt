-- ===== src/Ct/Rank.antt =====
-- The order of the nodes as the order of numbers.
use disaggregate_metadata_se.Base.{
  ℕ, ◌+◌, ◌*◌, ◌%◌, ◌^◌, ◌<◌, ◌≡◌, ◌≢◌, refl, inl, inr, true, false, Option, ◌==◌, ltb, leb,
  Bool-cases, if◌then◌else◌, arith,
}
use disaggregate_metadata_se.Ct.{
  Node, less, greater_or_equals, equals, dummy_node, regular_node, dummy_key, regular_key,
}
use disaggregate_metadata_se.Ct.Reverse.Order.{dummy_key-even, regular_key-odd}

-- What holds of each node that the constructors make.
pub record IsNode (n : Node) : Type 0 where
  pub parity : n.reverse_hash % 2 ≡ (if n.dummy then 0 else 1)
  pub no_key : n.dummy ≡ true → n.key ≡ 0
  pub key_fits : n.key < 2 ^ 64

abbrev pub rank : Node → ℕ
rank n = n.reverse_hash * 2 ^ 64 + n.key

-- The rank of a key with the hash.
abbrev pub key_rank : ℕ → ℕ → ℕ
key_rank hash key = regular_key hash * 2 ^ 64 + key

pub dummy_node-IsNode : (b : ℕ) → b < 2 ^ 63 → IsNode (dummy_node b)
unfolding dummy_node
dummy_node-IsNode b small = record {
  parity = dummy_key-even b small;
  no_key = λ e. refl;
  key_fits = omega arith;
}

pub regular_node-IsNode :
    (hash key : ℕ) (v : Option ℕ) → key < 2 ^ 64 → IsNode (regular_node hash key v)
unfolding regular_node
regular_node-IsNode hash key v fits = record {
  parity = regular_key-odd hash;
  no_key = λ e. absurd (cc);
  key_fits = fits;
}

module _ (a b : Node) (v : IsNode a) (w : IsNode b) where
  pub less-rank : less a b ≡ ltb (rank a) (rank b)
  unfolding less
  less-rank = elim (Bool-cases a.dummy) [
    | inl d ↦ elim (Bool-cases b.dummy) [
      | inl e ↦
          ground (arith, d, e, v.parity, w.parity, v.no_key d, w.no_key e, v.key_fits, w.key_fits)
      | inr e ↦ ground (arith, d, e, v.parity, w.parity, v.no_key d, v.key_fits, w.key_fits)
    ]
    | inr d ↦ elim (Bool-cases b.dummy) [
      | inl e ↦ ground (arith, d, e, v.parity, w.parity, w.no_key e, v.key_fits, w.key_fits)
      | inr e ↦ ground (arith, d, e, v.parity, w.parity, v.key_fits, w.key_fits)
    ]
  ]

  pub greater_or_equals-rank : greater_or_equals a b ≡ leb (rank b) (rank a)
  unfolding greater_or_equals
  greater_or_equals-rank = rw less-rank (ground arith)

pub equals-rank : (a b : Node) → IsNode a → IsNode b → equals a b ≡ (rank a == rank b)
unfolding equals
equals-rank a b v w = rw (less-rank a b v w, less-rank b a w v) (ground arith)

pub dummy_node-rank : (b : ℕ) → rank (dummy_node b) ≡ dummy_key b * 2 ^ 64
unfolding dummy_node
dummy_node-rank b = omega arith

pub regular_node-rank :
    (hash key : ℕ) (v : Option ℕ) → rank (regular_node hash key v) ≡ key_rank hash key
unfolding regular_node
regular_node-rank hash key v = refl

-- No dummy has the rank of a key.
pub dummy-ne-key :
    (b hash key : ℕ) → b < 2 ^ 63 → key < 2 ^ 64 → dummy_key b * 2 ^ 64 ≢ key_rank hash key
dummy-ne-key b hash key small fits e =
    absurd (omega (arith, e, dummy_key-even b small, regular_key-odd hash))

-- A node with the rank of a key is a regular node.
pub regular_of-rank :
    (n : Node) (hash key : ℕ)
    → IsNode n
    → key < 2 ^ 64
    → rank n ≡ key_rank hash key
    → n.dummy ≡ false
regular_of-rank n hash key v fits e = elim (Bool-cases n.dummy) [
  | inr r ↦ r
  | inl d ↦
      let even = v.parity in
      let even' = rw d at even in absurd (omega (arith, e, even', v.key_fits, regular_key-odd hash))
]

-- Keys with the same rank are the same.
pub key_rank-inj : (h g k j : ℕ) → k < 2 ^ 64 → j < 2 ^ 64 → key_rank h k ≡ key_rank g j → k ≡ j
key_rank-inj h g k j a b e = omega arith
