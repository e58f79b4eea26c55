-- ===== src/Ct/Revalue.antt =====
-- core/util/ct.h: the list after the value of one of its nodes is exchanged.
use disaggregate_metadata_se.Base.{
  ℕ, ◌≡◌, refl, ap, inl, inr, true, Option, List, [], ◌∷◌, ◌==◌, if◌then◌else◌, mem, update, ==_iff,
  Bool-cases, arith,
}
use disaggregate_metadata_se.Ct.{Node}
use disaggregate_metadata_se.Ct.Rank.{IsNode, rank}
use disaggregate_metadata_se.Ct.Links.{Linked, Above, value_at, mem-above}
use disaggregate_metadata_se.Ct.Relink.{value_at-same, value_swap}

module _ (h : ℕ → Node) (brk p : ℕ) (v : Option ℕ) where
  abbrev revalued : ℕ → Node
  revalued = update h p (record (h p) { value = v })

  revalued-rank : (q : ℕ) → rank (revalued q) ≡ rank (h q)
  revalued-rank q = ground arith

  revalued-IsNode : (q : ℕ) → IsNode (h q) → IsNode (revalued q)
  revalued-IsNode q n = ground arith

  revalued-Above : (lo : ℕ) (ps : List ℕ) → Above h lo ps → Above revalued lo ps
  revalued-Above lo [] a = a
  revalued-Above lo (q ∷ qs) a = ground arith

  pub revalued-Linked : (ps : List ℕ) → Linked h brk ps → Linked revalued brk ps
  revalued-Linked [] l = l
  revalued-Linked (q ∷ qs) l = (
    l.0,
    l.1,
    revalued-IsNode q l.2,
    ground arith,
    ground arith,
    rw (revalued-rank q) (revalued-Above (rank (h q)) qs l.5),
    revalued-Linked qs l.6,
  )

  pub value_at-revalued :
      (r : ℕ) (ps : List ℕ)
      → Linked h brk ps
      → mem p ps ≡ true
      → value_at revalued r ps ≡ (if rank (h p) == r then v else value_at h r ps)
  value_at-revalued r [] l m = absurd (cc)
  value_at-revalued r (q ∷ qs) l m = elim (Bool-cases (q == p)) [
    | inl e ↦
        let here : q ≡ p = (==_iff q p).0 e in
        let rest =
          value_at-same h revalued r qs
            λ a i. ground (arith, mem-above h brk q a qs l i, ap (λ n. rank (h n)) here) in
        let ranks : rank (h q) ≡ rank (h p) = ap (λ n. rank (h n)) here in
        let value : (revalued q).value ≡ v = rw e refl in
        rw (revalued-rank q, value, rest, ranks) (ground arith)
    | inr e ↦
        let inside : mem p qs ≡ true = ground (arith, e, m) in
        let ih = value_at-revalued r qs l.6 inside in
        rw (e, ih) (value_swap (rank (h q)) (rank (h p)) r _ _ _ (mem-above h brk q p qs l inside))
  ]
