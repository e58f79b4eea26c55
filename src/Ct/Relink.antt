-- ===== src/Ct/Relink.antt =====
-- What the change of a link or of a value does to the list.
use disaggregate_metadata_se.Base.{
  ℕ, suc, ◌+◌, ◌<◌, ◌≤◌, ◌≡◌, ◌≢◌, refl, sym, ◌∙◌, ap, inl, inr, ◌⊎◌, true, false, ◌||◌, Option,
  List, [], ◌∷◌, ◌==◌, if◌then◌else◌, mem, length, ==_iff, ==_refl, Bool-cases, arith,
}
use disaggregate_metadata_se.Ct.{Node}
use disaggregate_metadata_se.Ct.Rank.{IsNode, rank}
use disaggregate_metadata_se.Ct.Links.{
  Linked, Above, head_of, value_at, mem-above, regulars, one_if_regular,
}

abbrev pub insert_after : ℕ → ℕ → List ℕ → List ℕ
insert_after prev new [] = []
insert_after prev new (p ∷ ps) = if p == prev then p ∷ new ∷ ps else p ∷ insert_after prev new ps

pub head_of-insert_after :
    (prev new : ℕ) (ps : List ℕ) → head_of (insert_after prev new ps) ≡ head_of ps
head_of-insert_after prev new [] = refl
head_of-insert_after prev new (p ∷ ps) = ground arith

pub IsNode-next : (n : Node) (q : ℕ) → IsNode n → IsNode (record n { next = q })
IsNode-next n q v = record { parity = v.parity; no_key = v.no_key; key_fits = v.key_fits }

pub Above-same :
    (h g : ℕ → Node) (lo : ℕ) (ps : List ℕ)
    → ((q : ℕ) → mem q ps ≡ true → g q ≡ h q)
    → Above h lo ps
    → Above g lo ps
Above-same h g lo [] same a = a
Above-same h g lo (p ∷ ps) same a = rw (same p (rw (==_refl p))) a

pub mem-insert_after :
    (a prev new : ℕ) (ps : List ℕ)
    → mem prev ps ≡ true
    → mem a (insert_after prev new ps) ≡ ((a == new) || mem a ps)
mem-insert_after a prev new [] m = absurd (cc)
mem-insert_after a prev new (p ∷ ps) m = ground (arith, mem-insert_after a prev new ps)

pub length-insert_after :
    (prev new : ℕ) (ps : List ℕ)
    → mem prev ps ≡ true
    → length (insert_after prev new ps) ≡ suc (length ps)
length-insert_after prev new [] m = absurd (cc)
length-insert_after prev new (p ∷ ps) m = ground (arith, length-insert_after prev new ps)

pub regulars-insert_after :
    (h : ℕ → Node) (prev new : ℕ) (ps : List ℕ)
    → mem prev ps ≡ true
    → regulars h (insert_after prev new ps) ≡ one_if_regular (h new) + regulars h ps
regulars-insert_after h prev new [] m = absurd (cc)
regulars-insert_after h prev new (p ∷ ps) m = elim (Bool-cases (p == prev)) [
  | inl e ↦ rw e (omega arith)
  | inr e ↦ rw e (omega (arith, regulars-insert_after h prev new ps (ground (arith, e, m))))
]

-- The list is linked the same in `g`, with other values and marks of nodes that are not in it.
pub Linked-same :
    (h g : ℕ → Node) (brk brk' : ℕ) (ps : List ℕ)
    → brk ≤ brk'
    → ((q : ℕ) → mem q ps ≡ true → g q ≡ h q)
    → Linked h brk ps
    → Linked g brk' ps
Linked-same h g brk brk' [] le same l = l
Linked-same h g brk brk' (p ∷ ps) le same l =
    let e = same p (rw (==_refl p)) in
    let rest = Linked-same h g brk brk' ps le (λ q m. same q (ground (arith, m))) l.6 in
    (
      l.0,
      omega (arith, l.1),
      rw e l.2,
      rw e l.3,
      rw e l.4,
      rw e (Above-same h g (rank (h p)) ps (λ q m. same q (ground (arith, m))) l.5),
      rest,
    )

pub value_at-same :
    (h g : ℕ → Node) (r : ℕ) (ps : List ℕ)
    → ((q : ℕ) → mem q ps ≡ true → g q ≡ h q)
    → value_at g r ps ≡ value_at h r ps
value_at-same h g r [] same = refl
value_at-same h g r (p ∷ ps) same =
    rw (same p (rw (==_refl p)), value_at-same h g r ps (λ q m. same q (ground (arith, m))))

-- Two tests that are not both true may change places.
pub value_swap :
    (a b r : ℕ) (v w z : Option ℕ)
    → a < b
    → ◌≡◌ {A = Option ℕ}
        (if a == r then v else if b == r then w else z)
        (if b == r then w else if a == r then v else z)
value_swap a b r v w z lt = ground arith

module _ (h g : ℕ → Node) (brk brk' prev new : ℕ) (more : brk ≤ brk') (fresh_lt : new < brk')
    (positive : 0 < new) (n : IsNode (g new)) (unmarked : (g new).marked ≡ false)
    (to_next : (g new).next ≡ (h prev).next) (from_prev : g prev ≡ record (h prev) { next = new })
    (before : rank (h prev) < rank (g new))
    (after : ((h prev).next ≡ 0) ⊎ (rank (g new) < rank (h (h prev).next))) where
  pub inserted-ranks : (q : ℕ) → (q ≢ prev → g q ≡ h q) → rank (g q) ≡ rank (h q)
  inserted-ranks q same = elim (Bool-cases (q == prev)) [
    | inl e ↦ let here : q ≡ prev = (==_iff q prev).0 e in rw here (rw from_prev refl)
    | inr e ↦ ap rank (same (λ z. absurd (ground (arith, e, z))))
  ]

  inserted-Above :
      (ps : List ℕ) (lo : ℕ)
      → ((q : ℕ) → mem q ps ≡ true → q ≢ prev → g q ≡ h q)
      → Above h lo ps
      → Above g lo (insert_after prev new ps)
  inserted-Above [] lo same a = a
  inserted-Above (p ∷ ps) lo same a =
      let ranks = inserted-ranks p (same p (rw (==_refl p))) in
      elim (Bool-cases (p == prev)) [ inl e ↦ rw e (rw ranks a) | inr e ↦ rw e (rw ranks a) ]

  behind_new :
      (ps : List ℕ)
      → ((q : ℕ) → mem q ps ≡ true → g q ≡ h q)
      → (h prev).next ≡ head_of ps
      → Linked h brk ps
      → Above g (rank (g new)) ps
  behind_new [] same to l = tt
  behind_new (q ∷ qs) same to l =
      let after' = rw to at after in
      rw (same q (rw (==_refl q)))
        (elim after' [ inl z ↦ absurd (omega (arith, l.0, z)) | inr lt ↦ lt ])

  -- No node behind `prev` is `prev`.
  inserted-rest :
      (p : ℕ) (ps : List ℕ)
      → (p == prev) ≡ true
      → ((q : ℕ) → mem q (p ∷ ps) ≡ true → q ≢ prev → g q ≡ h q)
      → Linked h brk (p ∷ ps)
      → (q : ℕ) → mem q ps ≡ true
      → g q ≡ h q
  inserted-rest p ps e same l q i = same q (ground (arith, i)) λ z.
      let here : p ≡ prev = (==_iff p prev).0 e in
      absurd (omega (arith, mem-above h brk p q ps l i, ap (λ n. rank (h n)) (z ∙ sym here)))

  pub inserted-Linked :
      (ps : List ℕ)
      → ((q : ℕ) → mem q ps ≡ true → q ≢ prev → g q ≡ h q)
      → Linked h brk ps
      → mem prev ps ≡ true
      → Linked g brk' (insert_after prev new ps)
  inserted-Linked [] same l m = absurd (cc)
  inserted-Linked (p ∷ ps) same l m = elim (Bool-cases (p == prev)) [
    | inl e ↦
        let here : p ≡ prev = (==_iff p prev).0 e in
        let l' = rw here at l in
        let rest = inserted-rest p ps e same l in
        rw (e, here)
          (
            l'.0,
            omega (arith, l'.1),
            rw from_prev (IsNode-next (h prev) new l'.2),
            rw from_prev l'.3,
            rw from_prev refl,
            rw from_prev before,
            (
              positive,
              fresh_lt,
              n,
              unmarked,
              to_next ∙ l'.4,
              behind_new ps rest l'.4 l.6,
              Linked-same h g brk brk' ps more rest l.6,
            ),
          )
    | inr e ↦
        let here = same p (rw (==_refl p)) (λ z. absurd (ground (arith, e, z))) in
        let rest = λ (q : ℕ) (i : mem q ps ≡ true). same q (ground (arith, i)) in
        rw e (
          l.0,
          omega (arith, l.1),
          rw here l.2,
          rw here l.3,
          rw here (l.4 ∙ sym (head_of-insert_after prev new ps)),
          rw here (inserted-Above ps (rank (h p)) rest l.5),
          inserted-Linked ps rest l.6 (ground (arith, e, m)),
        )
  ]

  pub value_at-inserted :
      (r : ℕ) (ps : List ℕ)
      → ((q : ℕ) → mem q ps ≡ true → q ≢ prev → g q ≡ h q)
      → Linked h brk ps
      → mem prev ps ≡ true
      → value_at g r (insert_after prev new ps)
        ≡ (if rank (g new) == r then (g new).value else value_at h r ps)
  value_at-inserted r [] same l m = absurd (cc)
  value_at-inserted r (p ∷ ps) same l m = elim (Bool-cases (p == prev)) [
    | inl e ↦
        let here : p ≡ prev = (==_iff p prev).0 e in
        let ranks = inserted-ranks p (same p (rw (==_refl p))) in
        let value : (g p).value ≡ (h p).value = rw here (rw from_prev refl) in
        let rest = value_at-same h g r ps (inserted-rest p ps e same l) in
        let lt = rw (← here) at before in
        rw e (rw (ranks, value, rest) (value_swap (rank (h p)) (rank (g new)) r _ _ _ lt))
    | inr e ↦
        let here = same p (rw (==_refl p)) (λ z. absurd (ground (arith, e, z))) in
        let inside : mem prev ps ≡ true = ground (arith, e, m) in
        let ih = value_at-inserted r ps (λ q i. same q (ground (arith, i))) l.6 inside in
        let lt : rank (h p) < rank (g new) =
          omega (arith, before, mem-above h brk p prev ps l inside) in
        rw e (rw (here, ih) (value_swap (rank (h p)) (rank (g new)) r _ _ _ lt))
  ]
