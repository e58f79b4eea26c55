-- ===== src/Ct/Table/Heads.antt =====
-- InitializeBucket: it ends with the bucket's head in the list, and the values are as before.
use disaggregate_metadata_se.Base.{
  ℕ, zero, suc, ◌+◌, ◌^◌, ◌<◌, ◌≤◌, ◌≡◌, ◌≢◌, refl, sym, ◌∙◌, ap, inl, inr, ◌⊎◌, true, false, none,
  List, ◌==◌, mem, length, ==_iff, ==_refl, ==_ne, Bool-cases, arith,
}
use disaggregate_metadata_se.Base.Run.{Returns}
use disaggregate_metadata_se.Ct.{
  Ct, Node, set_next, allocate_node, dummy_node, with_bucket, get_bucket_head_by_index,
  k_max_bucket_size,
}
use disaggregate_metadata_se.Ct.Rank.{
  rank, key_rank, dummy_node-rank, dummy_node-IsNode, dummy-ne-key,
}
use disaggregate_metadata_se.Ct.Links.{value_at, regulars}
use disaggregate_metadata_se.Ct.Search.{search_node-Stops, found_at}
use disaggregate_metadata_se.Ct.Directory.{head-with_bucket}
use disaggregate_metadata_se.Ct.State.{IsList, IsTable, IsHead, dummy_rank}
use disaggregate_metadata_se.Ct.Link.{
  allocated-IsList, allocated-IsFresh, allocated-same, allocated-below, allocated-value,
  allocated-regulars, Links, IsFresh, linked_in, points_at,
}
use disaggregate_metadata_se.Ct.Table.{
  Placed, Head, insert_dummy_loop, insert_dummy_node, make_head,
}

-- The new head is linked in, or there was one of its rank.
abbrev Places : Ct → List ℕ → ℕ → Placed → Type 0
Places ct ps n r =
    ((r.inserted ≡ true) × Links ct ps n r.ct)
    ⊎ ((r.inserted ≡ false)
        × (r.ct ≡ ct)
        × (mem r.real_head ps ≡ true)
        × (rank (ct.heap r.real_head) ≡ rank (ct.heap n)))

insert_dummy_loop-Places :
    (fuel : ℕ) (ct : Ct) (ps : List ℕ) (head n : ℕ)
    → 0 < fuel
    → IsList ct ps
    → IsFresh ct ps n
    → mem head ps ≡ true
    → rank (ct.heap head) < rank (ct.heap n)
    → Returns (insert_dummy_loop fuel ct head n) (Places ct ps n)
unfolding insert_dummy_loop
insert_dummy_loop-Places zero ct ps head n pos l f inside lt = absurd (omega arith)
insert_dummy_loop-Places (suc fuel) ct ps head n pos l f inside lt =
    let (s, run, stops) =
      search_node-Stops ct head (ct.heap n) ps l.linked l.short f.node inside lt in
    elim (Bool-cases s.found) [
      | inl e ↦
          let found = found_at ct ps (rank (ct.heap n)) s stops e in
          (
            record { inserted = false; real_head = s.cur; ct = s.ct },
            rw (run, e) refl,
            inr (refl, stops.same, found.0, found.1),
          )
      | inr e ↦ (
        record { inserted = true; real_head = n; ct = set_next (set_next ct n s.cur) s.prev n },
        rw (run, e, stops.same, points_at ct ps n s l f stops) refl,
        inl (refl, linked_in ct ps n s l f stops e),
      )
    ]

pub record Made (ct : Ct) (ps : List ℕ) (b : ℕ) (r : Head) : Type 0 where
  pub nodes : List ℕ
  pub table : IsTable r.ct nodes
  pub head : IsHead r.ct nodes b r.head
  pub kept :
      (hash key : ℕ)
      → key < 2 ^ 64
      → value_at r.ct.heap (key_rank hash key) nodes ≡ value_at ct.heap (key_rank hash key) ps
  pub power : r.ct.power_of_2 ≡ ct.power_of_2
  pub size : r.ct.size ≡ ct.size
  pub more : ct.brk ≤ r.ct.brk
  pub room : length nodes + ct.brk ≤ length ps + r.ct.brk
  pub outside :
      (q : ℕ) → q < ct.brk → mem q ps ≡ false → (mem q nodes ≡ false) × (r.ct.heap q ≡ ct.heap q)

dummy_node-dummy : (b : ℕ) → (dummy_node b).dummy ≡ true
unfolding dummy_node
dummy_node-dummy b = refl

unmarked_dummy : (b : ℕ) → (dummy_node b).marked ≡ false
unfolding dummy_node
unmarked_dummy b = refl

no_value : (b : ℕ) → (dummy_node b).dummy ≡ false → (dummy_node b).value ≢ none
unfolding dummy_node
no_value b e = absurd (cc)

-- A head is one after a change that keeps the list's nodes and their ranks.
pub IsHead-kept :
    (ct ct' : Ct) (ps nodes : List ℕ) (b p : ℕ)
    → ((q : ℕ) → mem q ps ≡ true → mem q nodes ≡ true)
    → ((q : ℕ) → mem q ps ≡ true → rank (ct'.heap q) ≡ rank (ct.heap q))
    → IsHead ct ps b p
    → IsHead ct' nodes b p
IsHead-kept ct ct' ps nodes b p stay ranks h = (stay p h.0, ranks p h.0 ∙ h.1)

-- `new` leaves the table in order.
pub allocated-IsTable :
    (ct : Ct) (ps : List ℕ) (node : Node) → IsTable ct ps → IsTable (allocate_node ct node) ps
allocated-IsTable ct ps node t = record {
  list = allocated-IsList ct ps t.list node;
  power = t.power;
  counted = t.counted ∙ sym (allocated-regulars ct ps t.list node);
  load = t.load;
  root = t.root;
  heads = λ a small. elim (t.heads a small) [
    | inl z ↦ inl z
    | inr h ↦ inr (
        IsHead-kept ct (allocate_node ct node) ps ps a _ (λ q m. m)
          (λ q m. ap rank (allocated-same ct ps t.list node q m)) h)
  ];
}

module _ (ct : Ct) (ps : List ℕ) (b : ℕ) (t : IsTable ct ps) (lt : b < k_max_bucket_size) where
  abbrev ct1 : Ct
  ct1 = allocate_node ct (dummy_node b)

  new_node : ct1.heap ct.brk ≡ dummy_node b
  new_node = rw (==_refl ct.brk) refl

  new_rank : rank (ct1.heap ct.brk) ≡ dummy_rank b
  new_rank = rw (==_refl ct.brk) (dummy_node-rank b)

  new_is_dummy : (ct1.heap ct.brk).dummy ≡ true
  new_is_dummy = ap (λ n. n.dummy) (new_node) ∙ dummy_node-dummy b

  kept_rank : (q : ℕ) → mem q ps ≡ true → rank (ct1.heap q) ≡ rank (ct.heap q)
  kept_rank q m = ap rank (allocated-same ct ps t.list (dummy_node b) q m)

  -- The head is there: nothing changes.
  pub there-Made : (head : ℕ) → IsHead ct ps b head → Made ct ps b (record { head = head; ct = ct })
  there-Made head h = record {
    nodes = ps;
    table = t;
    head = h;
    kept = λ hash key fits. refl;
    power = refl;
    size = refl;
    more = omega arith;
    room = omega arith;
    outside = λ q below out. (out, refl);
  }

  -- The list has a node of the rank: only memory is lost.
  lost-Made :
      (head : ℕ)
      → mem head ps ≡ true
      → rank (ct1.heap head) ≡ dummy_rank b
      → Made ct ps b (record { head = head; ct = ct1 })
  lost-Made head m e = record {
    nodes = ps;
    table = allocated-IsTable ct ps (dummy_node b) t;
    head = (m, e);
    kept = λ hash key fits. allocated-value ct ps t.list (dummy_node b) (key_rank hash key);
    power = refl;
    size = refl;
    more = omega arith;
    room = omega arith;
    outside = λ q below out. (out, allocated-below ct ps t.list (dummy_node b) q below);
  }

  module _ (ct2 : Ct) (links : Links ct1 ps ct.brk ct2) where
    abbrev ct3 : Ct
    ct3 = record ct2 { segments = with_bucket ct2.segments b (λ q. ct.brk) }

    segments_kept : ct2.segments ≡ ct.segments
    segments_kept = ap (λ c. c.segments) links.rest

    brk_next : ct2.brk ≡ ct.brk + 1
    brk_next = ap (λ c. c.brk) links.rest

    IsHead-in : IsHead ct3 links.nodes b ct.brk
    IsHead-in = (rw (links.members ct.brk, ==_refl ct.brk) refl, links.ranks ct.brk ∙ new_rank)

    stays : (q : ℕ) → mem q ps ≡ true → mem q links.nodes ≡ true
    stays q m = rw (links.members q) (ground (arith, m))

    linked-heads :
        (a : ℕ)
        → a < k_max_bucket_size
        → (get_bucket_head_by_index ct3.segments a ≡ 0)
          ⊎ IsHead ct3 links.nodes a (get_bucket_head_by_index ct3.segments a)
    linked-heads a small =
        let stored = head-with_bucket ct2.segments a b (λ q. ct.brk) small lt in
        elim (Bool-cases (a == b)) [
          | inl e ↦
              let here : a ≡ b = (==_iff a b).0 e in
              let at = rw e at stored in inr (rw (at, here) IsHead-in)
          | inr e ↦
              let unchanged = rw e at stored in
              let at = unchanged ∙ ap (λ d. get_bucket_head_by_index d a) segments_kept in
              elim (t.heads a small) [
                | inl z ↦ inl (at ∙ z)
                | inr h ↦ inr (
                    rw at (
                      IsHead-kept ct ct3 ps links.nodes a _ stays
                        (λ q m. links.ranks q ∙ kept_rank q m) h))
              ]
        ]

    linked-root : get_bucket_head_by_index ct3.segments 0 ≢ 0
    linked-root =
        let stored = head-with_bucket ct2.segments 0 b (λ q. ct.brk) (omega arith) lt in
        elim (Bool-cases (◌==◌ 0 b)) [
          | inl e ↦ let at = rw e at stored in λ z. absurd (omega (arith, t.list.short, at, z))
          | inr e ↦
              let unchanged = rw e at stored in
              let at = unchanged ∙ ap (λ d. get_bucket_head_by_index d 0) segments_kept in
              λ z. t.root (sym at ∙ z)
        ]

    linked-counted : regulars ct2.heap links.nodes ≡ regulars ct1.heap ps
    linked-counted = links.counted ∙ rw new_is_dummy (omega arith)

    linked-Made : Made ct ps b (record { head = ct.brk; ct = ct3 })
    linked-Made = record {
      nodes = links.nodes;
      table = record {
        list = record {
          linked = links.list.linked;
          short = links.list.short;
          values = links.list.values;
        };
        power = rw (ap (λ c. c.power_of_2) links.rest) t.power;
        counted =
            ap (λ c. c.size) links.rest
            ∙ t.counted
            ∙ sym (allocated-regulars ct ps t.list (dummy_node b))
            ∙ sym linked-counted;
        load = rw (ap (λ c. c.size) links.rest, ap (λ c. c.power_of_2) links.rest) t.load;
        root = linked-root;
        heads = linked-heads;
      };
      head = IsHead-in;
      kept = λ hash key fits.
          links.value (key_rank hash key)
          ∙ rw (new_rank, ==_ne _ _ (dummy-ne-key b hash key (omega arith) fits))
              (allocated-value ct ps t.list (dummy_node b) (key_rank hash key));
      power = ap (λ c. c.power_of_2) links.rest;
      size = ap (λ c. c.size) links.rest;
      more = omega (arith, brk_next);
      room = omega (arith, brk_next, links.longer);
      outside = λ q below out.
          let ne : q ≢ ct.brk = λ z. absurd (omega (arith, below, z)) in
          (
            rw (links.members q, out, ==_ne q ct.brk ne) refl,
            links.others q out ne ∙ allocated-below ct ps t.list (dummy_node b) q below,
          );
    }

  pub make_head-Made :
      (parent : ℕ)
      → mem parent ps ≡ true
      → rank (ct.heap parent) < dummy_rank b
      → Returns (make_head ct b parent) (Made ct ps b)
  unfolding make_head insert_dummy_node
  make_head-Made parent inside before =
      let head = get_bucket_head_by_index ct.segments b in
      let fresh =
        allocated-IsFresh ct ps t.list (dummy_node b) (dummy_node-IsNode b (omega arith))
          (unmarked_dummy b) (no_value b) in
      let (r, run, places) =
        insert_dummy_loop-Places (ct.brk + 1) ct1 ps parent ct.brk (omega arith)
          (allocated-IsList ct ps t.list (dummy_node b)) fresh inside
          (rw (new_rank, kept_rank parent inside) before) in
      elim (Bool-cases (head == 0)) [
        | inl e ↦ elim places [
          | inl (done, links) ↦ (_, rw (e, run, done) refl, linked-Made r.ct links)
          | inr (found, same, m, at) ↦
              (_, rw (e, run, found, same) refl, lost-Made r.real_head m (at ∙ new_rank))
        ]
        | inr e ↦ (
          record { head = head; ct = ct },
          rw e refl,
          there-Made head
              (elim (t.heads b lt) [ inl z ↦ absurd (ground (arith, e, z)) | inr h ↦ h ]),
        )
      ]
