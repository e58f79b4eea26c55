-- ===== src/Ct/Search.antt =====
-- SearchNode on a list in order.
use disaggregate_metadata_se.Base.{
  ℕ, zero, suc, ◌<◌, ◌≤◌, ◌≡◌, refl, sym, ◌∙◌, inl, inr, ◌⊎◌, true, false, none, List, [], ◌∷◌,
  ◌==◌, mem, length, ==_refl, ==_ne, ==_iff, leb, leb→le, Bool-cases, arith,
}
use disaggregate_metadata_se.Base.Run.{Returns}
use disaggregate_metadata_se.Ct.{Ct, Node, Searched, search_loop, search_node, equals}
use disaggregate_metadata_se.Ct.Rank.{IsNode, rank, greater_or_equals-rank, equals-rank}
use disaggregate_metadata_se.Ct.Links.{
  Linked, head_of, value_at, value_at_gap, From-node, mem-above,
}

-- Where a search for the rank `r` stops: between a node below it and one that is not, or at the end.
pub record Stops (ct : Ct) (ps : List ℕ) (r : ℕ) (s : Searched) : Type 0 where
  pub same : s.ct ≡ ct
  pub before : mem s.prev ps ≡ true
  pub less : rank (ct.heap s.prev) < r
  pub next : (ct.heap s.prev).next ≡ s.cur
  pub after :
      ((s.cur ≡ 0) × (s.found ≡ false))
      ⊎ ((mem s.cur ps ≡ true)
          × (r ≤ rank (ct.heap s.cur))
          × (s.found ≡ (rank (ct.heap s.cur) == r)))

-- A stop in the list behind a node is one in the list with it.
mem-later : (p q a : ℕ) (qs : List ℕ) → mem a (q ∷ qs) ≡ true → mem a (p ∷ q ∷ qs) ≡ true
mem-later p q a qs m = ground arith

-- What a search that has found something has found.
pub found_at :
    (ct : Ct) (ps : List ℕ) (r : ℕ) (s : Searched)
    → Stops ct ps r s
    → s.found ≡ true
    → (mem s.cur ps ≡ true) × (rank (ct.heap s.cur) ≡ r)
found_at ct ps r s stops e = elim stops.after [
  | inl z ↦ absurd (ground (arith, z.1, e))
  | inr (m, le, found) ↦ (m, (==_iff _ r).0 (sym found ∙ e))
]

mem_second : (p q : ℕ) (qs : List ℕ) → mem q (p ∷ q ∷ qs) ≡ true
mem_second p q qs = ground arith

search_loop-Stops :
    (ct : Ct) (head prev fuel : ℕ) (node : Node) (qs : List ℕ)
    → Linked ct.heap ct.brk (prev ∷ qs)
    → IsNode node
    → rank (ct.heap prev) < rank node
    → length qs < fuel
    → Returns (search_loop fuel ct head node prev (head_of qs)) (Stops ct (prev ∷ qs) (rank node))
unfolding search_loop
search_loop-Stops ct head prev zero node qs l n lt enough = absurd (omega arith)
search_loop-Stops ct head prev (suc fuel) node [] l n lt enough = (
  record { found = false; prev = prev; cur = 0; ct = ct },
  rw (l.4, l.3),
  record {
    same = refl;
    before = rw (==_refl prev);
    less = lt;
    next = l.4;
    after = inl (refl, refl);
  },
)
search_loop-Stops ct head prev (suc fuel) node (q ∷ qs) l n lt enough =
    let h = ct.heap in
    let at_q = l.6 in
    let compared = greater_or_equals-rank (h q) node at_q.2 n in
    elim (Bool-cases (leb (rank node) (rank (h q)))) [
      | inl e ↦ (
        record { found = equals (h q) node; prev = prev; cur = q; ct = ct },
        rw (l.4, l.3, ==_refl q, ==_ne q 0 (omega arith), at_q.3, compared, e),
        record {
          same = refl;
          before = rw (==_refl prev);
          less = lt;
          next = l.4;
          after = inr (mem_second prev q qs, leb→le _ _ e, equals-rank (h q) node at_q.2 n);
        },
      )
      | inr e ↦
          let above : rank (h q) < rank node = ground (arith, e) in
          let (s, run, stops) =
            search_loop-Stops ct head q fuel node qs at_q n above (omega arith) in
          (
            s,
            rw (l.4, l.3, ==_refl q, ==_ne q 0 (omega arith), at_q.3, compared, e, at_q.4) run,
            record {
              same = stops.same;
              before = mem-later prev q s.prev qs stops.before;
              less = stops.less;
              next = stops.next;
              after = elim stops.after [
                | inl z ↦ inl z
                | inr (m, le, found) ↦ inr (mem-later prev q s.cur qs m, le, found)
              ];
            },
          )
    ]

-- A search from a node below the rank that is sought ends, and changes nothing.
pub search_node-Stops :
    (ct : Ct) (head : ℕ) (node : Node) (ps : List ℕ)
    → Linked ct.heap ct.brk ps
    → length ps < ct.brk
    → IsNode node
    → mem head ps ≡ true
    → rank (ct.heap head) < rank node
    → Returns (search_node ct head node) (Stops ct ps (rank node))
unfolding search_node
search_node-Stops ct head node ps l short n inside lt =
    let f = From-node ct.heap ct.brk head ps l inside in
    let (s, run, stops) =
      search_loop-Stops ct head head ct.brk node f.tail f.linked n lt (omega (arith, f.shorter)) in
    (
      s,
      rw f.linked.4 run,
      record {
        same = stops.same;
        before = f.within s.prev stops.before;
        less = stops.less;
        next = stops.next;
        after = elim stops.after [
          | inl z ↦ inl z
          | inr (m, le, found) ↦ inr (f.within s.cur m, le, found)
        ];
      },
    )

pub value_at-found :
    (h : ℕ → Node) (brk cur : ℕ) (ps : List ℕ)
    → Linked h brk ps
    → mem cur ps ≡ true
    → value_at h (rank (h cur)) ps ≡ (h cur).value
value_at-found h brk cur [] l m = absurd (cc)
value_at-found h brk cur (p ∷ ps) l m = elim (Bool-cases (cur == p)) [
  | inl e ↦ let same : cur ≡ p = (==_iff cur p).0 e in rw (same, ==_refl (rank (h p)))
  | inr e ↦
      let inside : mem cur ps ≡ true = ground (arith, e, m) in
      let above = mem-above h brk p cur ps l inside in
      rw (==_ne (rank (h p)) (rank (h cur)) (omega (arith, above)))
        (value_at-found h brk cur ps l.6 inside)
]

value_at-behind :
    (h : ℕ → Node) (brk cur r : ℕ) (ps : List ℕ)
    → Linked h brk ps
    → cur ≡ head_of ps
    → (cur ≡ 0) ⊎ (r < rank (h cur))
    → value_at h r ps ≡ none
value_at-behind h brk cur r [] l at after = refl
value_at-behind h brk cur r (q ∷ qs) l at (inl z) = absurd (omega (arith, l.0, z, at))
value_at-behind h brk cur r (q ∷ qs) l at (inr lt) =
    let lt' = rw at at lt in value_at_gap h brk q r qs l lt'

pub value_at-missing :
    (h : ℕ → Node) (brk prev cur r : ℕ) (ps : List ℕ)
    → Linked h brk ps
    → mem prev ps ≡ true
    → rank (h prev) < r
    → (h prev).next ≡ cur
    → (cur ≡ 0) ⊎ (r < rank (h cur))
    → value_at h r ps ≡ none
value_at-missing h brk prev cur r [] l m lt next after = refl
value_at-missing h brk prev cur r (p ∷ ps) l m lt next after = elim (Bool-cases (prev == p)) [
  | inl e ↦
      let same : prev ≡ p = (==_iff prev p).0 e in
      let lt' = rw same at lt in
      let next' = rw same at next in
      rw (==_ne (rank (h p)) r (omega (arith, lt')))
        (value_at-behind h brk cur r ps l.6 (sym next' ∙ l.4) after)
  | inr e ↦
      let inside : mem prev ps ≡ true = ground (arith, e, m) in
      let above = mem-above h brk p prev ps l inside in
      rw (==_ne (rank (h p)) r (omega (arith, above)))
        (value_at-missing h brk prev cur r ps l.6 inside lt next after)
]

-- Where a search finds nothing, no node has the rank.
pub missing_at :
    (ct : Ct) (ps : List ℕ) (r : ℕ) (s : Searched)
    → Linked ct.heap ct.brk ps
    → Stops ct ps r s
    → s.found ≡ false
    → value_at ct.heap r ps ≡ none
missing_at ct ps r s l stops e =
    value_at-missing ct.heap ct.brk s.prev s.cur r ps l stops.before stops.less stops.next
      (elim stops.after [
        | inl z ↦ inl z.0
        | inr (m, le, found) ↦ inr (ground (arith, le, found, e))
      ])
