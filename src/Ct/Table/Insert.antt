-- ===== src/Ct/Table/Insert.antt =====
-- Insert: the table becomes the one with the value under the key.
use native.Mathlib.Nat.{pow-le-pow_right}
use native.Mathlib.Numerals.{}
use disaggregate_metadata_se.Base.{
  ℕ, ◌+◌, ◌%◌, ◌^◌, ◌<◌, ◌≤◌, ◌≡◌, ◌≢◌, refl, sym, ◌∙◌, ap, inl, inr, ◌⊎◌, true, false, none, some,
  List, if◌then◌else◌, mem, add64, ==_refl, ==_ne, arith,
}
use disaggregate_metadata_se.Base.Run.{Run, ok, aborted}
use disaggregate_metadata_se.Ct.{Ct, Node, allocate_node, regular_node}
use disaggregate_metadata_se.Ct.Reverse.Order.{dummy-lt-regular}
use disaggregate_metadata_se.Ct.Rank.{
  rank, key_rank, key_rank-inj, regular_of-rank, regular_node-IsNode, regular_node-rank,
}
use disaggregate_metadata_se.Ct.Links.{value_at, mem-Linked}
use disaggregate_metadata_se.Ct.Search.{value_at-found}
use disaggregate_metadata_se.Ct.Revalue.{value_at-revalued}
use disaggregate_metadata_se.Ct.State.{IsTable, view, is_none, is_none-of}
use disaggregate_metadata_se.Ct.Link.{Links, IsFresh, brk-fresh, allocated-value}
use disaggregate_metadata_se.Ct.Table.{Head, Inserted, set_value, insert_regular_node, insert}
use disaggregate_metadata_se.Ct.Table.Heads.{Made, IsHead-kept, allocated-IsTable}
use disaggregate_metadata_se.Ct.Table.Init.{get_bucket_head_by_hash-Made}
use disaggregate_metadata_se.Ct.Table.Store.{
  Goes, insert_loop-Goes, revalued-IsTable, grow-cases, regular_node-marked, regular_node-dummy,
  regular_node-value,
}

-- The value is under the key, every other key is as it was, and the result and the size tell whether the
-- key is new.
pub record Inserts (hash_func : ℕ → ℕ) (ct : Ct) (ps : List ℕ) (key value : ℕ) (r : Inserted)
    : Type 0 where
  pub nodes : List ℕ
  pub table : IsTable r.ct nodes
  pub at_key : view hash_func r.ct nodes key ≡ some value
  pub others : (k : ℕ) → k < 2 ^ 64 → k ≢ key → view hash_func r.ct nodes k ≡ view hash_func ct ps k
  pub told : r.inserted ≡ is_none (view hash_func ct ps key)
  pub size : r.ct.size ≡ (if r.inserted then ct.size + 1 else ct.size)

module _ (hash_func : ℕ → ℕ) (ct : Ct) (ps : List ℕ) (key value : ℕ) (fits : key < 2 ^ 64)
    (t : IsTable ct ps) where
  abbrev hash : ℕ
  hash = hash_func key

  abbrev node : Node
  node = regular_node hash key (some value)

  abbrev ct1 : Ct
  ct1 = allocate_node ct node

  -- Once the head of the bucket is there, the new node is on its own, behind the head.
  module _ (r : Head) (m : Made ct1 ps (hash % 2 ^ ct.power_of_2) r) where
    at_new : r.ct.heap ct.brk ≡ node
    at_new =
        let (out, same) = m.outside ct.brk (omega arith) (brk-fresh ct ps t.list node) in
        same ∙ rw (==_refl ct.brk) refl

    view_kept : (k : ℕ) → k < 2 ^ 64 → view hash_func r.ct m.nodes k ≡ view hash_func ct ps k
    view_kept k small =
        m.kept (hash_func k) k small ∙ allocated-value ct ps t.list node (key_rank (hash_func k) k)

    abbrev rank_sought : ℕ
    rank_sought = key_rank hash key

    new_rank : rank (r.ct.heap ct.brk) ≡ rank_sought
    new_rank = ap rank at_new ∙ regular_node-rank hash key (some value)

    new_value : (r.ct.heap ct.brk).value ≡ some value
    new_value = ap (λ n. n.value) at_new ∙ regular_node-value hash key (some value)

    new_regular : (r.ct.heap ct.brk).dummy ≡ false
    new_regular = ap (λ n. n.dummy) at_new ∙ regular_node-dummy hash key (some value)

    other_rank : (k : ℕ) → k < 2 ^ 64 → k ≢ key → rank_sought ≢ key_rank (hash_func k) k
    other_rank k small ne z = ne (sym (key_rank-inj hash (hash_func k) key k fits small z))

    exchanged-Inserts :
        (cur : ℕ)
        → mem cur m.nodes ≡ true
        → rank (r.ct.heap cur) ≡ rank (r.ct.heap ct.brk)
        → Inserts hash_func ct ps key value
            (record { inserted = false; ct = set_value r.ct cur (r.ct.heap ct.brk).value })
    exchanged-Inserts cur inside at =
        let l = m.table.list in
        let v = (r.ct.heap ct.brk).value in
        let cur_rank : rank (r.ct.heap cur) ≡ rank_sought = at ∙ new_rank in
        let values = value_at-revalued r.ct.heap r.ct.brk cur v in
        let (_, _, node, _) = mem-Linked r.ct.heap r.ct.brk cur m.nodes l.linked inside in
        let regular = regular_of-rank (r.ct.heap cur) hash key node fits cur_rank in
        let was : view hash_func ct ps key ≡ (r.ct.heap cur).value =
          sym (view_kept key fits)
          ∙ ap (λ k. value_at r.ct.heap k m.nodes) (sym cur_rank)
          ∙ value_at-found r.ct.heap r.ct.brk cur m.nodes l.linked inside in
        record {
          nodes = m.nodes;
          table = revalued-IsTable r.ct m.nodes cur v m.table (rw new_value (λ z. cc));
          at_key =
              values rank_sought m.nodes l.linked inside
              ∙ rw (cur_rank, ==_refl rank_sought) new_value;
          others = λ k small ne.
              values (key_rank (hash_func k) k) m.nodes l.linked inside
              ∙ rw (cur_rank, ==_ne _ _ (other_rank k small ne)) (view_kept k small);
          told = rw was (sym (is_none-of _ (l.values cur inside regular)));
          size = m.size;
        }

    linked-Inserts :
        (ct' : Ct) (p : ℕ)
        → Links r.ct m.nodes ct.brk ct'
        → value_at r.ct.heap (rank (r.ct.heap ct.brk)) m.nodes ≡ none
        → p ≤ 24
        → ct'.size + 1 ≤ 2 ^ p
        → Inserts hash_func ct ps key value (record {
          inserted = true;
          ct = record ct' { size = add64 ct'.size 1; power_of_2 = p };
        })
    linked-Inserts ct' p links missing le load =
        let most : 2 ^ p ≤ 2 ^ 24 = pow-le-pow_right (omega arith) le in
        let no_wrap : add64 ct'.size 1 ≡ ct'.size + 1 = omega (arith, load, most) in
        let size : ct'.size ≡ r.ct.size = ap (λ c. c.size) links.rest in
        let counted = links.counted in
        let counted' = rw new_regular at counted in
        let segments = ap (λ c. c.segments) links.rest in
        let was : view hash_func ct ps key ≡ none =
          sym (view_kept key fits)
          ∙ ap (λ k. value_at r.ct.heap k m.nodes) (sym new_rank)
          ∙ missing in
        record {
          nodes = links.nodes;
          table = record {
            list = record {
              linked = links.list.linked;
              short = links.list.short;
              values = links.list.values;
            };
            power = le;
            counted = omega (arith, no_wrap, size, m.table.counted, counted');
            load = omega (arith, no_wrap, load);
            root = rw segments m.table.root;
            heads = λ a small. rw segments (elim (m.table.heads a small) [
              | inl z ↦ inl z
              | inr h ↦ inr (
                  IsHead-kept r.ct ct' m.nodes links.nodes a _
                    (λ q i. rw (links.members q) (ground (arith, i))) (λ q i. links.ranks q) h)
            ]);
          };
          at_key = links.value rank_sought ∙ rw (new_rank, ==_refl rank_sought) new_value;
          others = λ k small ne.
              links.value (key_rank (hash_func k) k)
              ∙ rw (new_rank, ==_ne _ _ (other_rank k small ne)) (view_kept k small);
          told = rw was refl;
          size = omega (arith, no_wrap, size, m.size);
        }

    new_IsFresh : IsFresh r.ct m.nodes ct.brk
    new_IsFresh =
        let (out, same) = m.outside ct.brk (omega arith) (brk-fresh ct ps t.list node) in
        record {
          fresh = out;
          positive = omega (arith, t.list.short);
          below = omega (arith, m.more);
          node = rw at_new (regular_node-IsNode hash key (some value) fits);
          unmarked = ap (λ n. n.marked) at_new ∙ regular_node-marked hash key (some value);
          has_value = λ e. rw new_value (λ z. cc);
          room = omega (arith, m.room, t.list.short);
        }

    head_before : rank (r.ct.heap r.head) < rank (r.ct.heap ct.brk)
    head_before =
        let below = dummy-lt-regular ct.power_of_2 hash (omega (arith, t.power)) in
        let at = m.head.1 in rw new_rank (omega (arith, below, at))

    insert_regular-Inserts :
        (run : Run Inserted)
        → Goes r.ct m.nodes ct.brk run
        → ((s : Inserted) × (run ≡ ok s) × Inserts hash_func ct ps key value s)
          ⊎ ((run ≡ aborted) × (2 ^ 23 < ct.size + 1))
    insert_regular-Inserts run (inl (cur, e, inside, at)) =
        inl (_, e, exchanged-Inserts cur inside at)
    insert_regular-Inserts run (inr (ct', e, links, missing)) =
        let power : ct'.power_of_2 ≡ r.ct.power_of_2 = ap (λ c. c.power_of_2) links.rest in
        let size : ct'.size ≡ r.ct.size = ap (λ c. c.size) links.rest in
        elim (grow-cases ct' (rw power m.table.power) (rw (power, size) m.table.load)) [
          | inl (p, le, load, grown) ↦
              inl (_, e ∙ grown, linked-Inserts ct' p links missing le load)
          | inr (full, over) ↦ inr (e ∙ full, omega (arith, over, size, m.size))
        ]

  -- On a table in order and a 64-bit key, Insert returns a table in order in which the key has the
  -- value and every other key has what it had, tells whether the key was new, and counts it then;
  -- or it aborts, and then the size was 2^23 or more.
  pub insert-Inserts :
      ((r : Inserted) × (insert hash_func ct key value ≡ ok r)
        × Inserts hash_func ct ps key value r)
      ⊎ ((insert hash_func ct key value ≡ aborted) × (2 ^ 23 < ct.size + 1))
  unfolding insert insert_regular_node
  insert-Inserts =
      let (r, run, m) = get_bucket_head_by_hash-Made ct1 ps hash (allocated-IsTable ct ps node t) in
      let goes =
        insert_loop-Goes r.ct.brk r.ct m.nodes r.head ct.brk (omega (arith, m.more)) m.table.list
          (new_IsFresh r m) m.head.0 (head_before r m) in
      rw run (insert_regular-Inserts r m _ goes)
