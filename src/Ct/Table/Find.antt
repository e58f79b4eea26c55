-- ===== src/Ct/Table/Find.antt =====
-- Find, and the table that the constructor makes.
use disaggregate_metadata_se.Base.{
  ℕ, ◌*◌, ◌%◌, ◌^◌, ◌<◌, ◌≡◌, refl, sym, ◌∙◌, ap, inl, inr, ◌⊎◌, true, false, none, some, List, [],
  ◌∷◌, ◌==◌, if◌then◌else◌, ==_iff, ==_ne, Bool-cases, Option-cases, arith,
}
use disaggregate_metadata_se.Base.Run.{Returns}
use disaggregate_metadata_se.Ct.{
  Ct, regular_node, new_ct, dummy_node, dummy_key, reverse, reverse8bits, at_or, head_at,
  get_bucket_head_by_index, k_max_bucket_size,
}
use disaggregate_metadata_se.Ct.Rank.{
  rank, key_rank, regular_of-rank, dummy_node-IsNode, dummy_node-rank, dummy-ne-key,
}
use disaggregate_metadata_se.Ct.Links.{value_at, mem-Linked, regulars}
use disaggregate_metadata_se.Ct.Search.{found_at, value_at-found, missing_at}
use disaggregate_metadata_se.Ct.State.{IsTable, IsHead, view}
use disaggregate_metadata_se.Ct.Table.{Head, Found, find_node, find}
use disaggregate_metadata_se.Ct.Table.Heads.{Made}
use disaggregate_metadata_se.Ct.Table.Init.{get_bucket_head_by_hash-Made}
use disaggregate_metadata_se.Ct.Table.Delete.{searched}

-- What is under the key, and a table that has what it had.
pub record Finds (hash_func : ℕ → ℕ) (ct : Ct) (ps : List ℕ) (key : ℕ) (r : Found) : Type 0 where
  pub nodes : List ℕ
  pub table : IsTable r.ct nodes
  pub kept : (k : ℕ) → k < 2 ^ 64 → view hash_func r.ct nodes k ≡ view hash_func ct ps k
  pub value : r.value ≡ view hash_func ct ps key
  pub size : r.ct.size ≡ ct.size

module _ (hash_func : ℕ → ℕ) (ct : Ct) (ps : List ℕ) (key : ℕ) (fits : key < 2 ^ 64)
    (t : IsTable ct ps) where
  abbrev hash : ℕ
  hash = hash_func key

  find_node-Finds :
      (r : Head) (m : Made ct ps (hash % 2 ^ ct.power_of_2) r)
      → Returns (find_node r.ct r.head (regular_node hash key none)) (Finds hash_func ct ps key)
  unfolding find_node
  find_node-Finds r m =
      let (s, run, stops) = searched hash_func ct ps key fits t r m in
      let rank_sought = key_rank hash key in
      let l = m.table.list in
      let kept = λ (k : ℕ) (small : k < 2 ^ 64). m.kept (hash_func k) k small in
      elim (Bool-cases s.found) [
        | inr e ↦
            let none_there = missing_at r.ct m.nodes rank_sought s l.linked stops e in
            (
              record { value = none; ct = r.ct },
              rw (run, e, stops.same) refl,
              record {
                nodes = m.nodes;
                table = m.table;
                kept = kept;
                value = sym none_there ∙ m.kept hash key fits;
                size = m.size;
              },
            )
        | inl e ↦
            let (inside, at) = found_at r.ct m.nodes rank_sought s stops e in
            let (_, _, n, _) = mem-Linked r.ct.heap r.ct.brk s.cur m.nodes l.linked inside in
            let regular = regular_of-rank (r.ct.heap s.cur) hash key n fits at in
            let was : view hash_func ct ps key ≡ (r.ct.heap s.cur).value =
              sym (m.kept hash key fits)
              ∙ ap (λ k. value_at r.ct.heap k m.nodes) (sym at)
              ∙ value_at-found r.ct.heap r.ct.brk s.cur m.nodes l.linked inside in
            elim (Option-cases (r.ct.heap s.cur).value) [
              | inl z ↦ absurd (l.values s.cur inside regular z)
              | inr (v, z) ↦ (
                record { value = some v; ct = r.ct },
                rw (run, e, stops.same, z) refl,
                record {
                  nodes = m.nodes;
                  table = m.table;
                  kept = kept;
                  value = sym (was ∙ z);
                  size = m.size;
                },
              )
            ]
      ]

  pub find-Finds : Returns (find hash_func ct key) (Finds hash_func ct ps key)
  unfolding find
  find-Finds =
      let (r, run, m) = get_bucket_head_by_hash-Made ct ps hash t in rw run (find_node-Finds r m)

dummy_key-zero : dummy_key 0 ≡ 0
unfolding dummy_key reverse reverse8bits at_or
dummy_key-zero = refl

only_head :
    (b : ℕ)
    → b < k_max_bucket_size
    → get_bucket_head_by_index new_ct.segments b ≡ (if b == 0 then 1 else 0)
unfolding get_bucket_head_by_index new_ct head_at
only_head b lt = ground arith

first_rank : rank (dummy_node 0) ≡ 0
first_rank = dummy_node-rank 0 ∙ ap (λ k. k * 2 ^ 64) dummy_key-zero

first_unmarked :
    ((dummy_node 0).marked ≡ false) × ((dummy_node 0).next ≡ 0) × ((dummy_node 0).dummy ≡ true)
unfolding dummy_node
first_unmarked = (refl, refl, refl)

new_counted : regulars new_ct.heap (1 ∷ []) ≡ 0
unfolding new_ct dummy_node
new_counted = refl

new_view : (hash_func : ℕ → ℕ) (k : ℕ) → k < 2 ^ 64 → view hash_func new_ct (1 ∷ []) k ≡ none
unfolding new_ct
new_view hash_func k fits =
    rw (dummy_node-rank 0, ==_ne _ _ (dummy-ne-key 0 (hash_func k) k (omega arith) fits)) refl

first-IsHead : (b : ℕ) → b ≡ 0 → IsHead new_ct (1 ∷ []) b 1
unfolding new_ct
first-IsHead b here = (refl, rw (first_rank, here, dummy_key-zero) refl)

new_heads :
    (b : ℕ)
    → b < k_max_bucket_size
    → (get_bucket_head_by_index new_ct.segments b ≡ 0)
      ⊎ IsHead new_ct (1 ∷ []) b (get_bucket_head_by_index new_ct.segments b)
new_heads b lt = elim (Bool-cases (b == 0)) [
  | inr e ↦ inl (only_head b lt ∙ rw e refl)
  | inl e ↦
      let here : b ≡ 0 = (==_iff b 0).0 e in inr (rw (only_head b lt, e) (first-IsHead b here))
]

-- The constructor makes a table in order with nothing in it.
pub new_ct-IsTable :
    IsTable new_ct (1 ∷ [])
    × (new_ct.size ≡ 0)
    × ((hash_func : ℕ → ℕ) (k : ℕ) → k < 2 ^ 64 → view hash_func new_ct (1 ∷ []) k ≡ none)
unfolding new_ct
new_ct-IsTable = (
  record {
    list = record {
      linked = (
        omega arith,
        omega arith,
        dummy_node-IsNode 0 (omega arith),
        first_unmarked.0,
        first_unmarked.1,
        tt,
        tt,
      );
      short = omega arith;
      values = λ a m d. absurd (cc (first_unmarked.2));
    };
    power = omega arith;
    counted = sym new_counted;
    load = omega arith;
    root = rw (only_head 0 (omega arith)) (λ z. absurd (omega (arith, z)));
    heads = new_heads;
  },
  refl,
  new_view,
)
