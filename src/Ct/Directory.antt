-- ===== src/Ct/Directory.antt =====
-- The tree of segments: storing a bucket changes that bucket alone.
use disaggregate_metadata_se.Base.{
  ℕ, ◌<◌, ◌≡◌, refl, inl, inr, Bool, true, ◌&&◌, ◌==◌, if◌then◌else◌, update, ==_iff, ==_refl,
  Bool-cases, arith,
}
use disaggregate_metadata_se.Ct.{
  Directory, digit, head_at, sub_array, allocate, new_segments, new_buckets,
  get_bucket_head_by_index, with_bucket, k_max_bucket_size,
}

abbrev path_head : Directory → ℕ → ℕ → ℕ → ℕ → ℕ
path_head d i3 i2 i1 i0 = head_at (sub_array (d i3) λ l2. sub_array (l2 i2) λ l3. l3 i1) i0

abbrev path_with : Directory → ℕ → ℕ → ℕ → ℕ → (ℕ → ℕ) → Directory
path_with d i3 i2 i1 i0 f = allocate d i3 new_segments λ l2.
    allocate l2 i2 new_segments
      λ l3. allocate l3 i1 new_buckets λ buckets. update buckets i0 (f (buckets i0))

path_head-with :
    (d : Directory) (i3 i2 i1 i0 j3 j2 j1 j0 : ℕ) (f : ℕ → ℕ)
    → path_head (path_with d i3 i2 i1 i0 f) j3 j2 j1 j0 ≡ (
        if j3 == i3 && (j2 == i2 && (j1 == i1 && j0 == i0))
        then f (path_head d j3 j2 j1 j0)
        else path_head d j3 j2 j1 j0)
unfolding head_at
path_head-with d i3 i2 i1 i0 j3 j2 j1 j0 f = ground arith

abbrev same_digits : ℕ → ℕ → Bool
same_digits a b =
    digit 3 a == digit 3 b
    && (digit 2 a == digit 2 b && (digit 1 a == digit 1 b && digit 0 a == digit 0 b))

digits_equal :
    (a b : ℕ)
    → same_digits a b ≡ true
    → (digit 3 a ≡ digit 3 b)
      × (digit 2 a ≡ digit 2 b)
      × (digit 1 a ≡ digit 1 b)
      × (digit 0 a ≡ digit 0 b)
digits_equal a b t = ground arith

eq_of_digits :
    (a b : ℕ)
    → a < k_max_bucket_size
    → b < k_max_bucket_size
    → digit 3 a ≡ digit 3 b
    → digit 2 a ≡ digit 2 b
    → digit 1 a ≡ digit 1 b
    → digit 0 a ≡ digit 0 b
    → a ≡ b
eq_of_digits a b p q e3 e2 e1 e0 = omega arith

digits-eq : (a b : ℕ) → a < k_max_bucket_size → b < k_max_bucket_size → same_digits a b ≡ (a == b)
digits-eq a b p q = elim (Bool-cases (a == b)) [
  | inl e ↦
      let same : a ≡ b = (==_iff a b).0 e in
      rw
        (
          same,
          ==_refl b,
          ==_refl (digit 3 b),
          ==_refl (digit 2 b),
          ==_refl (digit 1 b),
          ==_refl (digit 0 b),
        )
        refl
  | inr e ↦ elim (Bool-cases (same_digits a b)) [
    | inr f ↦ rw e f
    | inl t ↦
        let parts = digits_equal a b t in
        absurd (ground (arith, e, eq_of_digits a b p q parts.0 parts.1 parts.2 parts.3))
  ]
]

pub head-with_bucket :
    (d : Directory) (a b : ℕ) (f : ℕ → ℕ)
    → a < k_max_bucket_size
    → b < k_max_bucket_size
    → get_bucket_head_by_index (with_bucket d b f) a
      ≡ (if a == b then f (get_bucket_head_by_index d a) else get_bucket_head_by_index d a)
unfolding get_bucket_head_by_index with_bucket
head-with_bucket d a b f p q = rw (← digits-eq a b p q) (
    path_head-with d (digit 3 b) (digit 2 b) (digit 1 b) (digit 0 b) (digit 3 a) (digit 2 a)
      (digit 1 a) (digit 0 a) f)
