-- ===== src/Alloc/Buffer.antt =====
-- The buffers of one thread: within its region, and apart until the region is used again.
use mathlib.Core.Path.{subst}
use disaggregate_metadata_se.Base.{
  ℕ, ◌+◌, ◌≤◌, ◌≡◌, ◌⊎◌, refl, sym, inl, inr, true, false, List, [], ◌∷◌, ltb, Bool-cases, ltb→le,
  le→ltb, arith,
}
use disaggregate_metadata_se.Alloc.{RdmaBufferAllocator, alloc}

-- The bytes [q, q + size) lie in the region.
abbrev pub Inside : RdmaBufferAllocator → ℕ → ℕ → Type 0
Inside b q size = (b.start ≤ q) × (q + size ≤ b.end)

pub record IsAllocator (b : RdmaBufferAllocator) : Type 0 where
  pub used : b.start + b.cur_offset ≤ b.end

-- What an allocation gives. It moves on, or starts again at the front.
pub record Allocated (b : RdmaBufferAllocator) (size : ℕ) (r : ℕ × RdmaBufferAllocator)
    : Type 0 where
  pub inside : Inside b r.0 size
  pub well : IsAllocator r.1
  pub bounds : (r.1.start ≡ b.start) × (r.1.end ≡ b.end)
  pub next_to : r.1.start + r.1.cur_offset ≡ r.0 + size
  pub moves : (r.0 ≡ b.start + b.cur_offset) ⊎ (r.0 ≡ b.start)

alloc-front :
    (b : RdmaBufferAllocator) (size : ℕ)
    → ltb b.end (b.start + b.cur_offset + size) ≡ true
    → alloc b size ≡ (b.start + 0, record b { cur_offset = 0 + size })
unfolding alloc
alloc-front b size t = rw t

alloc-next :
    (b : RdmaBufferAllocator) (size : ℕ)
    → ltb b.end (b.start + b.cur_offset + size) ≡ false
    → alloc b size ≡ (b.start + b.cur_offset, record b { cur_offset = b.cur_offset + size })
unfolding alloc
alloc-next b size t = rw t

-- Where the cursor is within the region, a buffer no larger than the region lies in it, at the
-- cursor or at the front, the cursor moves to its end, and stays within the region.
pub alloc-Allocated :
    (b : RdmaBufferAllocator) (size : ℕ)
    → IsAllocator b
    → b.start + size ≤ b.end
    → Allocated b size (alloc b size)
alloc-Allocated b size w fits = elim (Bool-cases (ltb b.end (b.start + b.cur_offset + size))) [
  | inl t ↦ subst (Allocated b size) (sym (alloc-front b size t)) (record {
    inside = (omega arith, omega arith);
    well = record { used = omega arith };
    bounds = (refl, refl);
    next_to = omega arith;
    moves = inr (omega arith);
  })
  | inr t ↦ subst (Allocated b size) (sym (alloc-next b size t)) (record {
    inside = (omega arith, ltb→le _ _ t);
    well = record { used = omega (arith, ltb→le _ _ t) };
    bounds = (refl, refl);
    next_to = omega arith;
    moves = inl refl;
  })
]

-- A run of allocations: the buffers, in order.
abbrev pub alloc_all : RdmaBufferAllocator → List ℕ → List (ℕ × ℕ)
alloc_all b [] = []
alloc_all b (size ∷ sizes) = ((alloc b size).0, size) ∷ alloc_all (alloc b size).1 sizes

abbrev pub total : List ℕ → ℕ
total [] = 0
total (x ∷ xs) = x + total xs

-- The bytes of two buffers are apart.
abbrev pub Apart : ℕ × ℕ → ℕ × ℕ → Type 0
Apart a b = (a.0 + a.1 ≤ b.0) ⊎ (b.0 + b.1 ≤ a.0)

abbrev pub AllFrom : ℕ → List (ℕ × ℕ) → Type 0
AllFrom p [] = Unit
AllFrom p (a ∷ rest) = (p ≤ a.0) × AllFrom p rest

abbrev pub AllApart : List (ℕ × ℕ) → Type 0
AllApart [] = Unit
AllApart (a ∷ rest) = AllFrom (a.0 + a.1) rest × AllApart rest

-- With room for all of them, every buffer lies behind those before it.
alloc_all-from :
    (sizes : List ℕ) (b : RdmaBufferAllocator) (p : ℕ)
    → p ≤ b.start + b.cur_offset
    → b.start + b.cur_offset + total sizes ≤ b.end
    → AllFrom p (alloc_all b sizes)
alloc_all-from [] b p le fits = tt
alloc_all-from (size ∷ sizes) b p le fits =
    let t : ltb b.end (b.start + b.cur_offset + size) ≡ false = le→ltb _ _ (omega arith) in
    rw (alloc-next b size t) (
      le,
      alloc_all-from sizes (record b { cur_offset = b.cur_offset + size }) p (omega arith)
          (omega arith),
    )

-- Where the sizes together fit what is left of the region, the buffers of a run of allocations are
-- apart, each behind those before it.
pub alloc_all-AllApart :
    (sizes : List ℕ) (b : RdmaBufferAllocator)
    → b.start + b.cur_offset + total sizes ≤ b.end
    → AllApart (alloc_all b sizes)
alloc_all-AllApart [] b fits = tt
alloc_all-AllApart (size ∷ sizes) b fits =
    let t : ltb b.end (b.start + b.cur_offset + size) ≡ false = le→ltb _ _ (omega arith) in
    let b' : RdmaBufferAllocator = record b { cur_offset = b.cur_offset + size } in
    rw (alloc-next b size t) (
      alloc_all-from sizes b' (b.start + b.cur_offset + size) (omega arith) (omega arith),
      alloc_all-AllApart sizes b' (omega arith),
    )
