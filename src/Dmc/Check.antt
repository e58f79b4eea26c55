-- ===== src/Dmc/Check.antt =====
-- core/metadata/dmc_check_reader.cc: what a compute node makes of the bucket nodes that it has read.
use disaggregate_metadata_se.Base.{
  ℕ, zero, suc, ◌≡◌, refl, Bool, true, false, not, ◌&&◌, Option, none, some, List, [], ◌∷◌, ◌++◌,
  ◌==◌, if◌then◌else◌, modify, ◌⊎◌, inl, inr, Bool-cases, Option-cases,
}
use disaggregate_metadata_se.Base.Run.{Run, ok, out_of_fuel}
use disaggregate_metadata_se.Item.{DataItem, is_valid}
use disaggregate_metadata_se.HashStore.{HashNode, hash_node_size}
use disaggregate_metadata_se.Dmc.{Dmc, DataSetItem, HashRead, Read, next_offset, post_read}

-- The `for` over the slots of a fetched node.
unfoldable pub find_item : ℕ → ℕ → List DataItem → Option DataItem
find_item key table_id [] = none
find_item key table_id (d ∷ ds) =
    let rest = find_item key table_id ds in
    if is_valid d && d.key == key && d.table_id == table_id then some d else rest

-- `*it = item; res.item->is_fetched = true`
abbrev pub fetched : DataItem → DataSetItem → DataSetItem
fetched d i = record i { item_ptr = d; is_fetched = true }

module _ (posted : Read → Bool) where
  -- The body of `check_hash_ro` for a fetched node: whether it goes on, the reads to come, the state.
  unfoldable pub check_hash_one :
      (ℕ → HashNode) → HashRead → DataItem → List HashRead → Dmc → Bool × List HashRead × Dmc
  unfolding find_item
  check_hash_one local res it next d =
      let node = local res.buf in
      let read : Read = record {
        qp = res.qp;
        buf = res.buf;
        offset = next_offset res.meta node.next;
        size = hash_node_size;
      } in
      let posted_read = post_read posted d read in
      elim (find_item it.key it.table_id node.data_items) [
        | some item ↦
            (true, next, record d { reader_set = modify d.reader_set res.item (fetched item) })
        | none ↦
            if node.next == 0
            then (false, next, d)
            else (posted_read.0, next ++ res ∷ [], posted_read.1)
      ]

  -- `items` is what the pointers of the pending reads point at.
  unfoldable pub check_hash_loop :
      (ℕ → HashNode)
      → (ℕ → DataItem)
      → List HashRead
      → List HashRead
      → Dmc
      → Bool × List HashRead × Dmc
  unfolding check_hash_one
  check_hash_loop local items [] next d = (true, next, d)
  check_hash_loop local items (res ∷ pending) next d =
      let one = check_hash_one local res (items res.item) next d in
      let rest = check_hash_loop local items pending one.1 one.2 in
      if not one.0 then (false, one.1, one.2) else rest

  -- `check_next_hash_ro`, whose loop moves on only behind an item that is not found. `rest` is the list
  -- from the iterator on.
  unfoldable pub check_next_loop :
      ℕ → (ℕ → HashNode) → (ℕ → DataItem) → List HashRead → Dmc → Run (Bool × Dmc)
  check_next_loop zero local items rest d = out_of_fuel
  check_next_loop (suc fuel) local items [] d = ok (true, d)
  check_next_loop (suc fuel) local items (res ∷ rest) d =
      let node = local res.buf in
      let it = items res.item in
      let read : Read = record {
        qp = res.qp;
        buf = res.buf;
        offset = next_offset res.meta node.next;
        size = hash_node_size;
      } in
      let posted_read = post_read posted d read in
      let on = check_next_loop fuel local items rest posted_read.1 in
      let again : DataItem → Run (Bool × Dmc) = λ item.
        check_next_loop fuel local items (res ∷ rest)
          (record d { reader_set = modify d.reader_set res.item (fetched item) }) in
      elim (find_item it.key it.table_id node.data_items) [
        | some item ↦ again item
        | none ↦
            if node.next == 0
            then ok (false, d)
            else if not posted_read.0
            then ok (false, posted_read.1)
            else on
      ]

-- A pass over the reads of next nodes that meets an item which is there never ends: its loop does not
-- move on behind it.
module _ (posted : Read → Bool) (local : ℕ → HashNode) (items : ℕ → DataItem) (res : HashRead) where
  -- A pass over the reads of next nodes whose first read has fetched an item that is there does not
  -- return, however many rounds its loop has.
  pub check_next-stuck :
      (fuel : ℕ) (rest : List HashRead) (d : Dmc) (item : DataItem)
      → find_item (items res.item).key (items res.item).table_id (local res.buf).data_items
        ≡ some item
      → check_next_loop posted fuel local items (res ∷ rest) d ≡ out_of_fuel
  unfolding check_next_loop
  check_next-stuck zero rest d item e = refl
  check_next-stuck (suc fuel) rest d item e =
      rw (check_next_loop, e) (check_next-stuck fuel rest _ item e)

-- A pass returns, or does not within the rounds that it has.
module _ (posted : Read → Bool) (local : ℕ → HashNode) (items : ℕ → DataItem) where
  pub check_next_loop-returns :
      (fuel : ℕ) (rest : List HashRead) (d : Dmc)
      → ((goes_on : Bool) × (after : Dmc) × (check_next_loop posted fuel local items rest d
            ≡ ok (goes_on, after)))
        ⊎ (check_next_loop posted fuel local items rest d ≡ out_of_fuel)
  unfolding check_next_loop
  check_next_loop-returns zero rest d = inr refl
  check_next_loop-returns (suc fuel) [] d = inl (true, d, refl)
  check_next_loop-returns (suc fuel) (res ∷ rest) d =
      let node = local res.buf in
      let it = items res.item in
      let read : Read = record {
        qp = res.qp;
        buf = res.buf;
        offset = next_offset res.meta node.next;
        size = hash_node_size;
      } in
      let posted_read = post_read posted d read in
      elim (Option-cases (find_item it.key it.table_id node.data_items)) [
        | inr (item, e) ↦
            rw (check_next_loop, e)
              (check_next_loop-returns fuel (res ∷ rest)
                (record d { reader_set = modify d.reader_set res.item (fetched item) }))
        | inl e ↦ elim (Bool-cases (node.next == 0)) [
          | inl f ↦ rw (check_next_loop, e, f) (inl (false, d, refl))
          | inr f ↦ elim (Bool-cases posted_read.0) [
            | inl g ↦
                rw (check_next_loop, e, f, g) (check_next_loop-returns fuel rest posted_read.1)
            | inr g ↦ rw (check_next_loop, e, f, g) (inl (false, posted_read.1, refl))
          ]
        ]
      ]
