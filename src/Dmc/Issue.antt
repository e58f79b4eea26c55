-- ===== src/Dmc/Issue.antt =====
-- core/metadata/dmc_issue.cc: the reads of a pass over the reader set.
use disaggregate_metadata_se.Base.{
  ℕ, suc, ◌≡◌, refl, Bool, true, false, not, some, List, [], ◌∷◌, ◌++◌, ◌==◌, if◌then◌else◌, modify,
}
use disaggregate_metadata_se.Base.Run.{Run, ok, fault, ◌>>=◌}
use disaggregate_metadata_se.Item.{DataItem, data_item_size}
use disaggregate_metadata_se.HashStore.{hash_node_size}
use disaggregate_metadata_se.Alloc.{alloc}
use disaggregate_metadata_se.Meta.{
  HashMeta, MetaManager, get_primary_hash_meta, get_primary_node_id,
}
use disaggregate_metadata_se.Dmc.{
  Dmc, DataSetItem, DirectRead, HashRead, Read, bucket_offset, post_read, not_found, new_set_item,
  add_to_reader_set,
}

abbrev pub sent_to : ℕ → DataSetItem → DataSetItem
sent_to node i = record i { read_which_node = some node }

abbrev pub located : DataSetItem → DataSetItem
located i = record i { item_ptr = record i.item_ptr { remote_offset = i.offset } }

-- The reads that a pass leaves pending, and the state.
pub record Pending : Type 0 where
  pub direct : List DirectRead
  pub hash : List HashRead
  pub dmc : Dmc

module _ (posted : Read → Bool) where
  -- The body of `issue_reader` for the item `i`, not fetched, that node `node` holds.
  pub issue_direct : ℕ → ℕ → ℕ → DataSetItem → Pending → Bool × Pending
  issue_direct i qp node item p =
      let got = alloc p.dmc.rdma_buffer_alloc data_item_size in
      let set = modify (modify p.dmc.reader_set i (sent_to node)) i located in
      let d : Dmc = record p.dmc { reader_set = set; rdma_buffer_alloc = got.1 } in
      let read : Read = record {
        qp = qp;
        buf = got.0;
        offset = item.offset;
        size = data_item_size;
      } in
      let result = post_read posted d read in
      let direct : DirectRead = record { qp = qp; item = i; buf = got.0; remote_node = node } in
      (result.0, record p { direct = p.direct ++ direct ∷ []; dmc = result.1 })

  pub issue_hash : ℕ → ℕ → ℕ → DataSetItem → HashMeta → Pending → Bool × Pending
  issue_hash i qp node item meta p =
      let got = alloc p.dmc.rdma_buffer_alloc hash_node_size in
      let d : Dmc = record p.dmc {
        reader_set = modify p.dmc.reader_set i (sent_to node);
        rdma_buffer_alloc = got.1;
      } in
      let read : Read = record {
        qp = qp;
        buf = got.0;
        offset = bucket_offset meta item.item_ptr.key;
        size = hash_node_size;
      } in
      let result = post_read posted d read in
      let hash : HashRead = record {
        qp = qp;
        item = i;
        buf = got.0;
        remote_node = node;
        meta = meta;
      } in
      (result.0, record p { hash = p.hash ++ hash ∷ []; dmc = result.1 })

  -- `m` is `global_meta_man`; `qp_of` is GetRemoteDataQPWithNodeID. A table without buckets is a
  -- division by zero.
  pub issue_one : MetaManager → (ℕ → ℕ) → ℕ → DataSetItem → Pending → Run (Bool × Pending)
  unfolding issue_direct issue_hash
  issue_one m qp_of i item p =
      let by_hash : ℕ → HashMeta → Run (Bool × Pending) = λ node meta.
        if meta.bucket_num == 0 then fault else ok (issue_hash i (qp_of node) node item meta p) in
      let by_node : ℕ → Run (Bool × Pending) = λ node.
        if not (item.offset == not_found)
        then ok (issue_direct i (qp_of node) node item p)
        else (get_primary_hash_meta m item.item_ptr.table_id >>= by_hash node) in
      if item.is_fetched
      then ok (true, p)
      else (get_primary_node_id m item.item_ptr.table_id >>= by_node)

  -- The `for` from item `i` on, over the items as they were.
  pub issue_loop : MetaManager → (ℕ → ℕ) → ℕ → List DataSetItem → Pending → Run (Bool × Pending)
  unfolding issue_one
  issue_loop m qp_of i [] p = ok (true, p)
  issue_loop m qp_of i (item ∷ items) p = issue_one m qp_of i item p >>= λ r.
      let rest = issue_loop m qp_of (suc i) items r.1 in if not r.0 then ok (false, r.1) else rest

  unfoldable pub issue_reader :
      MetaManager → (ℕ → ℕ) → List DirectRead → List HashRead → Dmc → Run (Bool × Pending)
  issue_reader m qp_of direct hash d =
      issue_loop m qp_of 0 d.reader_set (record { direct = direct; hash = hash; dmc = d })

-- Items as `add_to_reader_set` makes them, whatever the cache knew.
abbrev pub AllNew : List DataSetItem → Type 0
AllNew [] = Unit
AllNew (i ∷ is) = ((i.is_fetched ≡ false) × (i.offset ≡ 0)) × AllNew is

snoc-AllNew :
    (is : List DataSetItem) (item : DataItem) → AllNew is → AllNew (is ++ new_set_item item ∷ [])
snoc-AllNew [] item new = ((refl, refl), tt)
snoc-AllNew (i ∷ is) item new = (new.0, snoc-AllNew is item new.1)

pub add_to_reader_set-AllNew :
    (d : Dmc) (item : DataItem) → AllNew d.reader_set → AllNew (add_to_reader_set d item).reader_set
unfolding add_to_reader_set
add_to_reader_set-AllNew d item new = snoc-AllNew d.reader_set item new

-- No item, no read.
pub issue_reader-empty :
    (posted : Read → Bool) (m : MetaManager) (qp_of : ℕ → ℕ) (direct : List DirectRead)
    (hash : List HashRead) (d : Dmc)
    → d.reader_set ≡ []
    → issue_reader posted m qp_of direct hash d
      ≡ ok (true, record { direct = direct; hash = hash; dmc = d })
unfolding issue_reader issue_loop
issue_reader-empty posted m qp_of direct hash d e = rw e refl
