-- ===== src/Ct/Link.antt =====
-- A node linked where a search for it has stopped.
use disaggregate_metadata_se.Base.{
  ℕ, suc, ◌+◌, ◌<◌, ◌≡◌, ◌≢◌, refl, ap, true, false, ◌||◌, none, List, ◌==◌, if◌then◌else◌, mem,
  length, ==_refl, ==_ne, Bool-cases, inl, inr, arith,
}
use disaggregate_metadata_se.Ct.{Ct, Node, Searched, set_next, points, allocate_node}
use disaggregate_metadata_se.Ct.Rank.{IsNode, rank}
use disaggregate_metadata_se.Ct.Links.{
  value_at, mem-Linked, regulars, one_if_regular, regulars-same,
}
use disaggregate_metadata_se.Ct.Search.{Stops}
use disaggregate_metadata_se.Ct.Relink.{
  insert_after, Linked-same, value_at-same, length-insert_after,
}
use disaggregate_metadata_se.Ct.State.{
  IsList, value_at-linked_in, mem-with_new, linked_in-rank, linked_in-IsList, was_missing,
  linked_in-regulars,
}

-- `ct'` is `ct` with the node `n` linked in.
pub record Links (ct : Ct) (ps : List ℕ) (n : ℕ) (ct' : Ct) : Type 0 where
  pub nodes : List ℕ
  pub list : IsList ct' nodes
  pub value :
      (r : ℕ)
      → value_at ct'.heap r nodes
        ≡ (if rank (ct.heap n) == r then (ct.heap n).value else value_at ct.heap r ps)
  pub members : (q : ℕ) → mem q nodes ≡ ((q == n) || mem q ps)
  pub ranks : (q : ℕ) → rank (ct'.heap q) ≡ rank (ct.heap q)
  pub counted : regulars ct'.heap nodes ≡ one_if_regular (ct.heap n) + regulars ct.heap ps
  pub longer : length nodes ≡ suc (length ps)
  pub others : (q : ℕ) → mem q ps ≡ false → q ≢ n → ct'.heap q ≡ ct.heap q
  pub rest : ct' ≡ record ct { heap = ct'.heap }

-- A node that is about to be linked
pub record IsFresh (ct : Ct) (ps : List ℕ) (n : ℕ) : Type 0 where
  pub fresh : mem n ps ≡ false
  pub positive : 0 < n
  pub below : n < ct.brk
  pub node : IsNode (ct.heap n)
  pub unmarked : (ct.heap n).marked ≡ false
  pub has_value : (ct.heap n).dummy ≡ false → (ct.heap n).value ≢ none
  pub room : length ps + 1 < ct.brk

module _ (ct : Ct) (ps : List ℕ) (n : ℕ) (s : Searched) (l : IsList ct ps) (f : IsFresh ct ps n)
    (stops : Stops ct ps (rank (ct.heap n)) s) where
  ne : (n == s.prev) ≡ false
  ne = ground (arith, stops.before, f.fresh)

  ne' : (s.prev == n) ≡ false
  ne' = ground (arith, ne)

  -- The compare and swap finds what the search found.
  pub points_at : points (set_next ct n s.cur) s.prev s.cur ≡ true
  points_at =
      let (_, _, _, unmarked) = mem-Linked ct.heap ct.brk s.prev ps l.linked stops.before in
      rw (ne', stops.next, unmarked, ==_refl s.cur) refl

  module _ (missing : s.found ≡ false) where
    abbrev g : ℕ → Node
    g = (set_next (set_next ct n s.cur) s.prev n).heap

    at_new : g n ≡ record (ct.heap n) { next = s.cur }
    at_new = rw (ne, ==_refl n) refl

    at_prev : g s.prev ≡ record (ct.heap s.prev) { next = n }
    at_prev = rw (==_refl s.prev, ne') refl

    others : (q : ℕ) → q ≢ s.prev → q ≢ n → g q ≡ ct.heap q
    others q a b = rw (==_ne q s.prev a, ==_ne q n b) refl

    pub linked_in : Links ct ps n (set_next (set_next ct n s.cur) s.prev n)
    linked_in = record {
      nodes = insert_after s.prev n ps;
      list =
          linked_in-IsList ct ps n s l f.fresh f.positive f.below f.node f.unmarked stops missing g
            at_new at_prev others f.has_value f.room;
      value =
          value_at-linked_in ct ps n s l f.fresh f.positive f.below f.node f.unmarked stops missing
            g at_new at_prev others;
      members =
          mem-with_new ct ps n s l f.fresh f.positive f.below f.node f.unmarked stops missing g
            at_new at_prev others;
      ranks =
          linked_in-rank ct ps n s l f.fresh f.positive f.below f.node f.unmarked stops missing g
            at_new at_prev others;
      counted =
          linked_in-regulars ct ps n s l f.fresh f.positive f.below f.node f.unmarked stops missing
            g at_new at_prev others;
      longer = length-insert_after s.prev n ps stops.before;
      others = λ q out b. others q (λ z. absurd (ground (arith, out, stops.before, z))) b;
      rest = refl;
    }

    pub is_missing : value_at ct.heap (rank (ct.heap n)) ps ≡ none
    is_missing =
        was_missing ct ps n s l f.fresh f.positive f.below f.node f.unmarked stops missing g at_new
          at_prev others

-- `new` puts a node behind all others.
module _ (ct : Ct) (ps : List ℕ) (l : IsList ct ps) (node : Node) where
  abbrev allocated : Ct
  allocated = allocate_node ct node

  pub brk-fresh : mem ct.brk ps ≡ false
  brk-fresh = elim (Bool-cases (mem ct.brk ps)) [
    | inl m ↦ absurd (omega (arith, mem-Linked ct.heap ct.brk ct.brk ps l.linked m))
    | inr m ↦ m
  ]

  pub allocated-same : (q : ℕ) → mem q ps ≡ true → allocated.heap q ≡ ct.heap q
  allocated-same q m = rw (==_ne q ct.brk (λ z. absurd (ground (arith, m, brk-fresh, z)))) refl

  pub allocated-below : (q : ℕ) → q < ct.brk → allocated.heap q ≡ ct.heap q
  allocated-below q lt = rw (==_ne q ct.brk (omega (arith, lt))) refl

  pub allocated-value : (r : ℕ) → value_at allocated.heap r ps ≡ value_at ct.heap r ps
  allocated-value r = value_at-same ct.heap allocated.heap r ps allocated-same

  pub allocated-regulars : regulars allocated.heap ps ≡ regulars ct.heap ps
  allocated-regulars =
      regulars-same ct.heap allocated.heap ps (λ q m. ap (λ n. n.dummy) (allocated-same q m))

  pub allocated-IsList : IsList allocated ps
  allocated-IsList = record {
    linked =
        Linked-same ct.heap allocated.heap ct.brk (ct.brk + 1) ps (omega arith) allocated-same
          l.linked;
    short = omega (arith, l.short);
    values = λ a m d. let e = allocated-same a m in rw e (l.values a m (rw e at d));
  }

  pub allocated-IsFresh :
      IsNode node
      → node.marked ≡ false
      → (node.dummy ≡ false → node.value ≢ none)
      → IsFresh allocated ps ct.brk
  allocated-IsFresh n unmarked value =
      let here : allocated.heap ct.brk ≡ node = rw (==_refl ct.brk) refl in
      record {
        fresh = brk-fresh;
        positive = omega (arith, l.short);
        below = omega arith;
        node = rw here n;
        unmarked = rw here unmarked;
        has_value = rw here value;
        room = omega (arith, l.short);
      }
