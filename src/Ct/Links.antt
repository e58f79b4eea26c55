-- ===== src/Ct/Links.antt =====
-- The list that the `next` pointers make, in the order of the ranks, and what a change of a link does.
use disaggregate_metadata_se.Base.{
  ℕ, ◌+◌, ◌<◌, ◌≤◌, ◌≡◌, refl, inl, inr, true, false, Option, none, List, [], ◌∷◌, ◌==◌,
  if◌then◌else◌, mem, length, ==_iff, ==_refl, Bool-cases, arith,
}
use disaggregate_metadata_se.Ct.{Node}
use disaggregate_metadata_se.Ct.Rank.{IsNode, rank}

abbrev pub head_of : List ℕ → ℕ
head_of [] = 0
head_of (p ∷ ps) = p

abbrev pub Above : (ℕ → Node) → ℕ → List ℕ → Type 0
Above h lo [] = Unit
Above h lo (q ∷ qs) = lo < rank (h q)

-- The nodes `ps`, none of them marked, are linked in the order of their ranks; `brk` is above them.
abbrev pub Linked : (ℕ → Node) → ℕ → List ℕ → Type 0
Linked h brk [] = Unit
Linked h brk (p ∷ ps) =
    (0 < p)
    × (p < brk)
    × IsNode (h p)
    × ((h p).marked ≡ false)
    × ((h p).next ≡ head_of ps)
    × Above h (rank (h p)) ps
    × Linked h brk ps

-- The value of the node of rank `r`
abbrev pub value_at : (ℕ → Node) → ℕ → List ℕ → Option ℕ
value_at h r [] = none
value_at h r (p ∷ ps) = if rank (h p) == r then (h p).value else value_at h r ps

pub mem-above :
    (h : ℕ → Node) (brk p a : ℕ) (ps : List ℕ)
    → Linked h brk (p ∷ ps)
    → mem a ps ≡ true
    → rank (h p) < rank (h a)
mem-above h brk p a [] l m = absurd (cc)
mem-above h brk p a (q ∷ qs) l m = elim (Bool-cases (a == q)) [
  | inl e ↦ let same : a ≡ q = (==_iff a q).0 e in rw same l.5
  | inr e ↦ omega (arith, l.5, mem-above h brk q a qs l.6 (ground (arith, e, m)))
]

pub mem-Linked :
    (h : ℕ → Node) (brk a : ℕ) (ps : List ℕ)
    → Linked h brk ps
    → mem a ps ≡ true
    → (0 < a) × (a < brk) × IsNode (h a) × ((h a).marked ≡ false)
mem-Linked h brk a [] l m = absurd (cc)
mem-Linked h brk a (q ∷ qs) l m = elim (Bool-cases (a == q)) [
  | inl e ↦ let same : a ≡ q = (==_iff a q).0 e in rw same (l.0, l.1, l.2, l.3)
  | inr e ↦ mem-Linked h brk a qs l.6 (ground (arith, e, m))
]

-- The list from one of its nodes on
pub record From (h : ℕ → Node) (brk p : ℕ) (ps : List ℕ) : Type 0 where
  pub tail : List ℕ
  pub linked : Linked h brk (p ∷ tail)
  pub within : (a : ℕ) → mem a (p ∷ tail) ≡ true → mem a ps ≡ true
  pub shorter : length (p ∷ tail) ≤ length ps

pub From-node :
    (h : ℕ → Node) (brk p : ℕ) (ps : List ℕ) → Linked h brk ps → mem p ps ≡ true → From h brk p ps
From-node h brk p [] l m = absurd (cc)
From-node h brk p (q ∷ qs) l m = elim (Bool-cases (p == q)) [
  | inl e ↦
      let same : p ≡ q = (==_iff p q).0 e in
      rw same (record { tail = qs; linked = l; within = λ a m. m; shorter = omega arith })
  | inr e ↦
      let f = From-node h brk p qs l.6 (ground (arith, e, m)) in
      record {
        tail = f.tail;
        linked = f.linked;
        within = λ a m. ground (arith, f.within a m);
        shorter = omega (arith, f.shorter);
      }
]

-- A node whose rank is not that of `r` may be passed over.
pub value_at_gap :
    (h : ℕ → Node) (brk p r : ℕ) (ps : List ℕ)
    → Linked h brk (p ∷ ps)
    → r < rank (h p)
    → value_at h r (p ∷ ps) ≡ none
value_at_gap h brk p r [] l lt = ground arith
value_at_gap h brk p r (q ∷ qs) l lt =
    ground (arith, value_at_gap h brk q r qs l.6 (omega (arith, l.5)))

-- How many nodes are regular
abbrev pub one_if_regular : Node → ℕ
one_if_regular n = if n.dummy then 0 else 1

abbrev pub regulars : (ℕ → Node) → List ℕ → ℕ
regulars h [] = 0
regulars h (p ∷ ps) = one_if_regular (h p) + regulars h ps

pub regulars-same :
    (h g : ℕ → Node) (ps : List ℕ)
    → ((q : ℕ) → mem q ps ≡ true → (g q).dummy ≡ (h q).dummy)
    → regulars g ps ≡ regulars h ps
regulars-same h g [] same = refl
regulars-same h g (p ∷ ps) same =
    rw (same p (rw (==_refl p)), regulars-same h g ps (λ q m. same q (ground (arith, m)))) refl
