-- ===== src/Ct/Unlink.antt =====
-- What the change of a value, and the unlinking of a node, do to the list.
use disaggregate_metadata_se.Base.{
  ℕ, ◌+◌, ◌<◌, ◌≤◌, ◌≡◌, ◌≢◌, refl, sym, ◌∙◌, ap, inl, inr, true, Option, none, List, [], ◌∷◌, ◌==◌,
  if◌then◌else◌, mem, length, ==_iff, Bool-cases, arith,
}
use disaggregate_metadata_se.Ct.{Node}
use disaggregate_metadata_se.Ct.Rank.{rank}
use disaggregate_metadata_se.Ct.Links.{
  Linked, Above, head_of, value_at, value_at_gap, mem-above, regulars, one_if_regular,
}
use disaggregate_metadata_se.Ct.Relink.{
  Linked-same, Above-same, value_at-same, value_swap, IsNode-next,
}

abbrev pub tail : List ℕ → List ℕ
tail [] = []
tail (p ∷ ps) = ps

abbrev pub remove_after : ℕ → List ℕ → List ℕ
remove_after prev [] = []
remove_after prev (p ∷ ps) = if p == prev then p ∷ tail ps else p ∷ remove_after prev ps

head_of-remove_after : (prev : ℕ) (ps : List ℕ) → head_of (remove_after prev ps) ≡ head_of ps
head_of-remove_after prev [] = refl
head_of-remove_after prev (p ∷ ps) = ground arith

pub length-remove_after : (prev : ℕ) (ps : List ℕ) → length (remove_after prev ps) ≤ length ps
length-remove_after prev [] = omega arith
length-remove_after prev (p ∷ ps) = ground (arith, length-tail ps, length-remove_after prev ps)
  where
    length-tail : (ps : List ℕ) → length (tail ps) ≤ length ps
    length-tail [] = omega arith
    length-tail (p ∷ ps) = omega arith

pub mem-remove_after :
    (a prev : ℕ) (ps : List ℕ) → mem a (remove_after prev ps) ≡ true → mem a ps ≡ true
mem-remove_after a prev [] m = m
mem-remove_after a prev (p ∷ ps) m = elim (Bool-cases (p == prev)) [
  | inl e ↦ let m' = rw e at m in mem-cons_tail a p ps m'
  | inr e ↦ let m' = rw e at m in ground (arith, m', mem-remove_after a prev ps)
]
  where
    mem-cons_tail : (a p : ℕ) (ps : List ℕ) → mem a (p ∷ tail ps) ≡ true → mem a (p ∷ ps) ≡ true
    mem-cons_tail a p [] m = m
    mem-cons_tail a p (q ∷ qs) m = ground (arith, m)

Above-lower : (h : ℕ → Node) (lo hi : ℕ) (ps : List ℕ) → lo < hi → Above h hi ps → Above h lo ps
Above-lower h lo hi [] lt a = a
Above-lower h lo hi (p ∷ ps) lt a = omega (arith, lt, a)

-- Behind a node no other has its rank.
value_at-past :
    (h : ℕ → Node) (brk c : ℕ) (qs : List ℕ)
    → Linked h brk (c ∷ qs)
    → value_at h (rank (h c)) qs ≡ none
value_at-past h brk c [] l = refl
value_at-past h brk c (q ∷ qs) l = value_at_gap h brk q (rank (h c)) qs l.6 l.5

value_gap :
    (a b r : ℕ) (v w z : Option ℕ)
    → a < b
    → (b ≡ r → z ≡ none)
    → ◌≡◌ {A = Option ℕ}
        (if a == r then v else z)
        (if b == r then none else if a == r then v else if b == r then w else z)
value_gap a b r v w z lt past = elim (Bool-cases (b == r)) [
  | inl e ↦ let same : b ≡ r = (==_iff b r).0 e in rw (e, past same) (ground (arith, lt, same))
  | inr e ↦ rw e refl
]

module _ (h g : ℕ → Node) (brk prev cur : ℕ) (positive : 0 < cur) (to_cur : (h prev).next ≡ cur)
    (from_prev : g prev ≡ record (h prev) { next = (h cur).next })
    (same : (q : ℕ) → q ≢ prev → q ≢ cur → g q ≡ h q) where
  -- Behind the node that is taken out nothing changes.
  removed-rest :
      (p c : ℕ) (qs : List ℕ)
      → p ≡ prev
      → c ≡ cur
      → Linked h brk (p ∷ c ∷ qs)
      → (q : ℕ) → mem q qs ≡ true
      → g q ≡ h q
  removed-rest p c qs start out l q i =
      let above = mem-above h brk c q qs l.6 i in
      same q (λ z. absurd (omega (arith, above, l.5, ap (λ n. rank (h n)) (z ∙ sym start))))
        (λ z. absurd (omega (arith, above, ap (λ n. rank (h n)) (z ∙ sym out))))

  next_cur : (p c : ℕ) (qs : List ℕ) → p ≡ prev → Linked h brk (p ∷ c ∷ qs) → c ≡ cur
  next_cur p c qs start l = sym l.4 ∙ ap (λ n. (h n).next) start ∙ to_cur

  removed-prev : (p c : ℕ) → p ≡ prev → c ≡ cur → g p ≡ record (h p) { next = (h c).next }
  removed-prev p c start out = rw (start, out) from_prev

  -- A node before `prev` stays as it is.
  removed-before :
      (p : ℕ) (ps : List ℕ)
      → Linked h brk (p ∷ ps)
      → mem prev ps ≡ true
      → mem cur ps ≡ true
      → g p ≡ h p
  removed-before p ps l m c =
      same p (λ z. absurd (omega (arith, mem-above h brk p prev ps l m, ap (λ n. rank (h n)) z)))
        (λ z. absurd (omega (arith, mem-above h brk p cur ps l c, ap (λ n. rank (h n)) z)))

  head_inside : (p : ℕ) (ps : List ℕ) → p ≡ prev → Linked h brk (p ∷ ps) → mem cur (p ∷ ps) ≡ true
  head_inside p [] at l = absurd (omega (arith, l.4, to_cur, ap (λ n. (h n).next) at))
  head_inside p (c ∷ qs) at l = let next = next_cur p c qs at l in ground (arith, next)

  -- The node that `prev` points at stands in the list.
  pub next_inside : (ps : List ℕ) → Linked h brk ps → mem prev ps ≡ true → mem cur ps ≡ true
  next_inside [] l m = absurd (cc)
  next_inside (p ∷ ps) l m = elim (Bool-cases (p == prev)) [
    | inl e ↦ head_inside p ps ((==_iff p prev).0 e) l
    | inr e ↦ ground (arith, next_inside ps l.6 (ground (arith, e, m)))
  ]

  removed_here :
      (p : ℕ) (ps : List ℕ) → p ≡ prev → Linked h brk (p ∷ ps) → Linked g brk (p ∷ tail ps)
  removed_here p [] at l = absurd (omega (arith, l.4, to_cur, ap (λ n. (h n).next) at))
  removed_here p (c ∷ qs) at l =
      let out = next_cur p c qs at l in
      let link = removed-prev p c at out in
      let rest = removed-rest p c qs at out l in
      (
        l.0,
        l.1,
        rw link (IsNode-next (h p) (h c).next l.2),
        rw link l.3,
        rw link l.6.4,
        rw link (Above-same h g (rank (h p)) qs rest (Above-lower h _ _ qs l.5 l.6.5)),
        Linked-same h g brk brk qs (omega arith) rest l.6.6,
      )

  value_at-removed_here :
      (r p : ℕ) (ps : List ℕ)
      → p ≡ prev
      → Linked h brk (p ∷ ps)
      → value_at g r (p ∷ tail ps) ≡ (if rank (h cur) == r then none else value_at h r (p ∷ ps))
  value_at-removed_here r p [] at l = absurd (omega (arith, l.4, to_cur, ap (λ n. (h n).next) at))
  value_at-removed_here r p (c ∷ qs) at l =
      let out = next_cur p c qs at l in
      let link = removed-prev p c at out in
      let rest = value_at-same h g r qs (removed-rest p c qs at out l) in
      let gone = ap (λ n. rank (h n)) out in
      rw (link, rest, ← gone)
        (value_gap (rank (h p)) (rank (h c)) r _ _ _ l.5
          (λ e. rw (← e) (value_at-past h brk c qs l.6)))

  regulars-removed_here :
      (p : ℕ) (ps : List ℕ)
      → p ≡ prev
      → Linked h brk (p ∷ ps)
      → one_if_regular (h cur) + regulars h (p ∷ tail ps) ≡ regulars h (p ∷ ps)
  regulars-removed_here p [] start l =
      absurd (omega (arith, l.4, to_cur, ap (λ n. (h n).next) start))
  regulars-removed_here p (c ∷ qs) start l =
      omega (arith, ap (λ n. one_if_regular (h n)) (next_cur p c qs start l))

  removed-Above :
      (ps : List ℕ) (lo : ℕ)
      → Linked h brk ps
      → mem prev ps ≡ true
      → Above h lo ps
      → Above g lo (remove_after prev ps)
  removed-Above [] lo l m a = a
  removed-Above (p ∷ ps) lo l m a = elim (Bool-cases (p == prev)) [
    | inl e ↦
        let here : p ≡ prev = (==_iff p prev).0 e in
        let ranks : rank (g p) ≡ rank (h p) = rw here (rw from_prev refl) in rw e (rw ranks a)
    | inr e ↦
        let inside : mem prev ps ≡ true = ground (arith, e, m) in
        rw e (rw (removed-before p ps l inside (next_inside ps l.6 inside)) a)
  ]

  pub removed-Linked :
      (ps : List ℕ)
      → Linked h brk ps
      → mem prev ps ≡ true
      → mem cur ps ≡ true
      → Linked g brk (remove_after prev ps)
  removed-Linked [] l m c = absurd (cc)
  removed-Linked (p ∷ ps) l m c = elim (Bool-cases (p == prev)) [
    | inl e ↦ rw e (removed_here p ps ((==_iff p prev).0 e) l)
    | inr e ↦
        let inside : mem prev ps ≡ true = ground (arith, e, m) in
        let later = next_inside ps l.6 inside in
        let here = removed-before p ps l inside later in
        rw e (
          l.0,
          l.1,
          rw here l.2,
          rw here l.3,
          rw here (l.4 ∙ sym (head_of-remove_after prev ps)),
          rw here (removed-Above ps (rank (h p)) l.6 inside l.5),
          removed-Linked ps l.6 inside later,
        )
  ]

  pub value_at-removed :
      (r : ℕ) (ps : List ℕ)
      → Linked h brk ps
      → mem prev ps ≡ true
      → value_at g r (remove_after prev ps) ≡ (if rank (h cur) == r then none else value_at h r ps)
  value_at-removed r [] l m = absurd (cc)
  value_at-removed r (p ∷ ps) l m = elim (Bool-cases (p == prev)) [
    | inl e ↦ rw e (value_at-removed_here r p ps ((==_iff p prev).0 e) l)
    | inr e ↦
        let inside : mem prev ps ≡ true = ground (arith, e, m) in
        let later = next_inside ps l.6 inside in
        let here = removed-before p ps l inside later in
        rw (e, here, value_at-removed r ps l.6 inside)
          (value_swap (rank (h p)) (rank (h cur)) r _ _ _ (mem-above h brk p cur ps l later))
  ]

  mem-removed_here :
      (a p : ℕ) (ps : List ℕ)
      → p ≡ prev
      → Linked h brk (p ∷ ps)
      → mem a (p ∷ ps) ≡ true
      → a ≢ cur
      → mem a (p ∷ tail ps) ≡ true
  mem-removed_here a p [] at l i ne = i
  mem-removed_here a p (c ∷ qs) at l i ne = ground (arith, i, ne, next_cur p c qs at l)

  pub mem-removed :
      (a : ℕ) (ps : List ℕ)
      → Linked h brk ps
      → mem prev ps ≡ true
      → mem a ps ≡ true
      → a ≢ cur
      → mem a (remove_after prev ps) ≡ true
  mem-removed a [] l m i ne = absurd (cc)
  mem-removed a (p ∷ ps) l m i ne = elim (Bool-cases (p == prev)) [
    | inl e ↦ rw e (mem-removed_here a p ps ((==_iff p prev).0 e) l i ne)
    | inr e ↦ rw e (ground (arith, i, mem-removed a ps l.6 (ground (arith, e, m)), ne))
  ]

  pub regulars-removed :
      (ps : List ℕ)
      → Linked h brk ps
      → mem prev ps ≡ true
      → one_if_regular (h cur) + regulars h (remove_after prev ps) ≡ regulars h ps
  regulars-removed [] l m = absurd (cc)
  regulars-removed (p ∷ ps) l m = elim (Bool-cases (p == prev)) [
    | inl e ↦ rw e (regulars-removed_here p ps ((==_iff p prev).0 e) l)
    | inr e ↦ rw e (omega (arith, regulars-removed ps l.6 (ground (arith, e, m))))
  ]
