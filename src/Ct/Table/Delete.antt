-- ===== src/Ct/Table/Delete.antt =====
-- Delete: the table becomes the one with nothing under the key.
use native.Mathlib.Nat.{pow-le-pow_right}
use disaggregate_metadata_se.Base.{
  ℕ, zero, suc, ◌+◌, ◌%◌, ◌^◌, ◌<◌, ◌≤◌, ◌≡◌, ◌≢◌, refl, sym, ◌∙◌, ap, inl, inr, Bool, true, false,
  not, none, List, ◌==◌, if◌then◌else◌, mem, sub64, ==_refl, ==_ne, Bool-cases, arith,
}
use disaggregate_metadata_se.Base.Run.{Returns}
use disaggregate_metadata_se.Ct.{Ct, Node, Searched, regular_node, set_next, points, search_node}
use disaggregate_metadata_se.Ct.Reverse.Order.{dummy-lt-regular}
use disaggregate_metadata_se.Ct.Rank.{
  rank, key_rank, key_rank-inj, regular_of-rank, regular_node-IsNode, regular_node-rank,
  dummy-ne-key,
}
use disaggregate_metadata_se.Ct.Links.{value_at, mem-Linked, regulars, regulars-same}
use disaggregate_metadata_se.Ct.Search.{
  Stops, search_node-Stops, found_at, value_at-found, missing_at,
}
use disaggregate_metadata_se.Ct.Unlink.{
  remove_after, removed-Linked, value_at-removed, mem-removed, length-remove_after,
  mem-remove_after, regulars-removed,
}
use disaggregate_metadata_se.Ct.State.{IsTable, view, is_none, is_none-of}
use disaggregate_metadata_se.Ct.Table.{
  Head, Deleted, gone, absent, set_mark, delete_loop, delete_node, delete,
}
use disaggregate_metadata_se.Ct.Table.Heads.{Made}
use disaggregate_metadata_se.Ct.Table.Init.{get_bucket_head_by_hash-Made}

-- The node `cur`, taken out behind `prev`
abbrev cut : Ct → ℕ → ℕ → Ct
cut ct prev cur =
    let marked = set_mark ct cur in
    set_next (record marked { size = sub64 marked.size 1 }) prev (ct.heap cur).next

module _ (ct : Ct) (ps : List ℕ) (hash key : ℕ) (fits : key < 2 ^ 64) (t : IsTable ct ps)
    (s : Searched) (stops : Stops ct ps (key_rank hash key) s) (inside : mem s.cur ps ≡ true)
    (at : rank (ct.heap s.cur) ≡ key_rank hash key) where
  abbrev g : ℕ → Node
  g = (cut ct s.prev s.cur).heap

  ne : (s.prev == s.cur) ≡ false
  ne =
      ==_ne s.prev s.cur (λ z. absurd (omega (arith, stops.less, at, ap (λ n. rank (ct.heap n)) z)))

  points_at : points (set_mark ct s.cur) s.prev s.cur ≡ true
  points_at =
      let (_, _, _, unmarked) = mem-Linked ct.heap ct.brk s.prev ps t.list.linked stops.before in
      rw (ne, stops.next, unmarked, ==_refl s.cur) refl

  from_prev : g s.prev ≡ record (ct.heap s.prev) { next = (ct.heap s.cur).next }
  from_prev = rw (==_refl s.prev, ne) refl

  same : (q : ℕ) → q ≢ s.prev → q ≢ s.cur → g q ≡ ct.heap q
  same q a b = rw (==_ne q s.prev a, ==_ne q s.cur b) refl

  ranks : (q : ℕ) → rank (g q) ≡ rank (ct.heap q)
  ranks q = ground arith

  dummies : (q : ℕ) → (g q).dummy ≡ (ct.heap q).dummy
  dummies q = ground arith

  node_values : (q : ℕ) → (g q).value ≡ (ct.heap q).value
  node_values q = ground arith

  abbrev nodes : List ℕ
  nodes = remove_after s.prev ps

  positive : 0 < s.cur
  positive = (mem-Linked ct.heap ct.brk s.cur ps t.list.linked inside).0

  -- A regular node less
  one_less : 1 + regulars g nodes ≡ regulars ct.heap ps
  one_less =
      let (_, _, n, _) = mem-Linked ct.heap ct.brk s.cur ps t.list.linked inside in
      let regular = regular_of-rank (ct.heap s.cur) hash key n fits at in
      let removed =
        regulars-removed ct.heap g ct.brk s.prev s.cur positive stops.next from_prev same ps
          t.list.linked stops.before in
      let removed' = rw regular at removed in
      omega (arith, removed', regulars-same ct.heap g nodes (λ q m. dummies q))

  few : ct.size < 2 ^ 64
  few =
      let most : 2 ^ ct.power_of_2 ≤ 2 ^ 24 = pow-le-pow_right (omega arith) t.power in
      omega (arith, t.load, most)

  cut-size : ct.size ≡ sub64 ct.size 1 + 1
  cut-size = omega (arith, one_less, t.counted, few)

  cut-IsTable : IsTable (cut ct s.prev s.cur) nodes
  cut-IsTable = record {
    list = record {
      linked =
          removed-Linked ct.heap g ct.brk s.prev s.cur positive stops.next from_prev same ps
            t.list.linked stops.before inside;
      short = omega (arith, t.list.short, length-remove_after s.prev ps);
      values = λ a m d.
          rw (node_values a)
            (t.list.values a (mem-remove_after a s.prev ps m) (sym (dummies a) ∙ d));
    };
    power = t.power;
    counted = omega (arith, one_less, t.counted, few);
    load = omega (arith, one_less, t.counted, few, t.load);
    root = t.root;
    heads = λ b small. elim (t.heads b small) [
      | inl z ↦ inl z
      | inr h ↦ inr (
        mem-removed ct.heap g ct.brk s.prev s.cur positive stops.next from_prev same _ ps
            t.list.linked stops.before h.0
            (λ z.
              dummy-ne-key b hash key (omega arith) fits
                (sym h.1 ∙ ap (λ n. rank (ct.heap n)) z ∙ at)),
        ranks _ ∙ h.1,
      )
    ];
  }

  cut-value :
      (r : ℕ)
      → value_at g r nodes ≡ (if rank (ct.heap s.cur) == r then none else value_at ct.heap r ps)
  cut-value r =
      value_at-removed ct.heap g ct.brk s.prev s.cur positive stops.next from_prev same r ps
        t.list.linked stops.before

abbrev pub state_after : Deleted → Ct
state_after (gone ct) = ct
state_after (absent ct) = ct

abbrev pub was_there : Deleted → Bool
was_there (gone ct) = true
was_there (absent ct) = false

-- Nothing is under the key, every other key is as it was, and the result and the size tell whether the key
-- was there.
pub record Deletes (hash_func : ℕ → ℕ) (ct : Ct) (ps : List ℕ) (key : ℕ) (r : Deleted)
    : Type 0 where
  pub nodes : List ℕ
  pub table : IsTable (state_after r) nodes
  pub at_key : view hash_func (state_after r) nodes key ≡ none
  pub others :
      (k : ℕ)
      → k < 2 ^ 64
      → k ≢ key
      → view hash_func (state_after r) nodes k ≡ view hash_func ct ps k
  pub told : not (was_there r) ≡ is_none (view hash_func ct ps key)
  pub size : ct.size ≡ (if was_there r then (state_after r).size + 1 else (state_after r).size)

module _ (hash_func : ℕ → ℕ) (ct : Ct) (ps : List ℕ) (key : ℕ) (fits : key < 2 ^ 64)
    (t : IsTable ct ps) where
  abbrev hash : ℕ
  hash = hash_func key

  abbrev node : Node
  node = regular_node hash key none

  abbrev rank_sought : ℕ
  rank_sought = key_rank hash key

  node_rank : rank node ≡ rank_sought
  node_rank = regular_node-rank hash key none

  other_rank : (k : ℕ) → k < 2 ^ 64 → k ≢ key → rank_sought ≢ key_rank (hash_func k) k
  other_rank k small ne z = ne (sym (key_rank-inj hash (hash_func k) key k fits small z))

  module _ (r : Head) (m : Made ct ps (hash % 2 ^ ct.power_of_2) r) where
    -- The search from the head of the bucket
    pub searched : Returns (search_node r.ct r.head node) (Stops r.ct m.nodes rank_sought)
    searched =
        let below = dummy-lt-regular ct.power_of_2 hash (omega (arith, t.power)) in
        let at = m.head.1 in
        let found =
          search_node-Stops r.ct r.head node m.nodes m.table.list.linked m.table.list.short
            (regular_node-IsNode hash key none fits) m.head.0
            (rw node_rank (omega (arith, below, at))) in
        rw node_rank at found

    absent-Deletes :
        (s : Searched)
        → Stops r.ct m.nodes rank_sought s
        → s.found ≡ false
        → Deletes hash_func ct ps key (absent r.ct)
    absent-Deletes s stops e =
        let none_there = missing_at r.ct m.nodes rank_sought s m.table.list.linked stops e in
        record {
          nodes = m.nodes;
          table = m.table;
          at_key = none_there;
          others = λ k small ne. m.kept (hash_func k) k small;
          told = ap is_none (sym none_there ∙ m.kept hash key fits);
          size = sym m.size;
        }

    gone-Deletes :
        (s : Searched)
        → Stops r.ct m.nodes rank_sought s
        → mem s.cur m.nodes ≡ true
        → rank (r.ct.heap s.cur) ≡ rank_sought
        → Deletes hash_func ct ps key (gone (cut r.ct s.prev s.cur))
    gone-Deletes s stops inside at =
        let l = m.table.list in
        let values = cut-value r.ct m.nodes hash key fits m.table s stops inside at in
        let (_, _, n, _) = mem-Linked r.ct.heap r.ct.brk s.cur m.nodes l.linked inside in
        let regular = regular_of-rank (r.ct.heap s.cur) hash key n fits at in
        let was : view hash_func ct ps key ≡ (r.ct.heap s.cur).value =
          sym (m.kept hash key fits)
          ∙ ap (λ k. value_at r.ct.heap k m.nodes) (sym at)
          ∙ value_at-found r.ct.heap r.ct.brk s.cur m.nodes l.linked inside in
        record {
          nodes = remove_after s.prev m.nodes;
          table = cut-IsTable r.ct m.nodes hash key fits m.table s stops inside at;
          at_key = values rank_sought ∙ rw (at, ==_refl rank_sought) refl;
          others = λ k small ne.
              values (key_rank (hash_func k) k)
              ∙ rw (at, ==_ne _ _ (other_rank k small ne)) (m.kept (hash_func k) k small);
          told = rw was (sym (is_none-of _ (l.values s.cur inside regular)));
          size = sym m.size ∙ cut-size r.ct m.nodes hash key fits m.table s stops inside at;
        }

    delete_loop-Deletes :
        (fuel : ℕ)
        → 0 < fuel
        → Returns (delete_loop fuel r.ct r.head node) (Deletes hash_func ct ps key)
    unfolding delete_loop
    delete_loop-Deletes zero pos = absurd (omega arith)
    delete_loop-Deletes (suc fuel) pos =
        let (s, run, stops) = searched in
        elim (Bool-cases s.found) [
          | inr e ↦ (_, rw (run, e, stops.same) refl, absent-Deletes s stops e)
          | inl e ↦
              let (inside, at) = found_at r.ct m.nodes rank_sought s stops e in
              let (_, _, _, unmarked) =
                mem-Linked r.ct.heap r.ct.brk s.cur m.nodes m.table.list.linked inside in
              (
                _,
                rw
                    (
                      run,
                      e,
                      stops.same,
                      unmarked,
                      points_at r.ct m.nodes hash key fits m.table s stops inside at,
                    )
                    refl,
                gone-Deletes s stops inside at,
              )
        ]

  -- On a table in order and a 64-bit key, Delete returns a table in order in which the key has no
  -- value and every other key has what it had, tells whether the key was there, and counts it off
  -- then.
  pub delete-Deletes : Returns (delete hash_func ct key) (Deletes hash_func ct ps key)
  unfolding delete delete_node
  delete-Deletes =
      let (r, run, m) = get_bucket_head_by_hash-Made ct ps hash t in
      rw run (delete_loop-Deletes r m r.ct.brk (omega (arith, m.table.list.short)))
