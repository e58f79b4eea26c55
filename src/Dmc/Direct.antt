-- ===== src/Dmc/Direct.antt =====
-- core/metadata/dmc_check_reader.cc (CheckDirectRO) and dmc_issue.cc (IssueUpdater). The address cache,
-- a copy of libcuckoo, is a parameter: its type and its removal.
use disaggregate_metadata_se.Base.{
  ℕ, suc, ◌<◌, ◌≡◌, ◌⊎◌, refl, inl, inr, Bool, true, false, not, ◌&&◌, List, [], ◌∷◌, ◌++◌, ◌==◌,
  if◌then◌else◌, modify, add64, u64_mod, sub64, Bool-cases, arith,
}
use disaggregate_metadata_se.Base.Run.{Run, ok, fault, ◌>>=◌, Returns}
use disaggregate_metadata_se.Item.{DataItem, data_item_size, is_valid}
use disaggregate_metadata_se.HashStore.{HashStore, hash_node_size, get_hash, bucket_addr}
use disaggregate_metadata_se.Scheduler.{Scheduler, rdma_read}
use disaggregate_metadata_se.Alloc.{alloc}
use disaggregate_metadata_se.Meta.{
  HashMeta, MetaManager, get_primary_hash_meta, get_primary_node_id, meta_of,
}
use disaggregate_metadata_se.Dmc.{
  Dmc, DataSetItem, DirectRead, HashRead, Read, bucket_offset, post_read,
}
use disaggregate_metadata_se.Dmc.Check.{fetched}
use disaggregate_metadata_se.Dmc.Remote.{bucket_offset-addr}

-- CasRead
pub record CasRead : Type 0 where
  pub qp : ℕ
  pub item : ℕ
  pub cas_buf : ℕ
  pub data_buf : ℕ
  pub primary_node_id : ℕ

-- Whether the pass goes on, the reads to come, the state and the cache.
pub record Checked (C : Type 0) : Type 0 where
  pub goes_on : Bool
  pub next : List HashRead
  pub dmc : Dmc
  pub cache : C

-- The read of a bucket that replaces one of a stale address.
unfoldable pub read_bucket :
    (Read → Bool)
    → {C : Type 0} → DirectRead
    → DataItem
    → ℕ
    → HashMeta
    → List HashRead
    → Dmc
    → C
    → Checked C
read_bucket posted res it node meta next d cache =
    let got = alloc d.rdma_buffer_alloc hash_node_size in
    let read : Read = record {
      qp = res.qp;
      buf = got.0;
      offset = bucket_offset meta it.key;
      size = hash_node_size;
    } in
    let result = post_read posted (record d { rdma_buffer_alloc = got.1 }) read in
    let hash : HashRead = record {
      qp = res.qp;
      item = res.item;
      buf = got.0;
      remote_node = node;
      meta = meta;
    } in
    record { goes_on = result.0; next = next ++ hash ∷ []; dmc = result.1; cache = cache }

module _ {C : Type 0} (remove : C → ℕ → ℕ → C) (posted : Read → Bool) (m : MetaManager) where
  -- The body of the loop; `local` is what the buffers hold.
  unfoldable pub check_direct_one :
      (ℕ → DataItem) → DirectRead → DataItem → List HashRead → Dmc → C → Run (Checked C)
  check_direct_one local res it next d cache =
      let got = local res.buf in
      let taken : Checked C = record {
        goes_on = true;
        next = next;
        dmc = record d { reader_set = modify d.reader_set res.item (fetched got) };
        cache = cache;
      } in
      let deleted : Checked C = record {
        goes_on = false;
        next = next;
        dmc = d;
        cache = remove cache res.remote_node it.key;
      } in
      let by_meta : ℕ → HashMeta → Run (Checked C) = λ node meta.
        if meta.bucket_num == 0
        then fault
        else ok (read_bucket posted res it node meta next d cache) in
      let by_node : ℕ → Run (Checked C) =
        λ node. get_primary_hash_meta m it.table_id >>= by_meta node in
      if got.key == it.key && got.table_id == it.table_id
      then (if is_valid got then ok taken else ok deleted)
      else (get_primary_node_id m it.table_id >>= by_node)

  -- `items` is what the pointers of the pending reads point at.
  unfoldable pub check_direct_loop :
      (ℕ → DataItem) → (ℕ → DataItem) → List DirectRead → List HashRead → Dmc → C → Run (Checked C)
  check_direct_loop local items [] next d cache =
      ok (record { goes_on = true; next = next; dmc = d; cache = cache })
  check_direct_loop local items (res ∷ pending) next d cache =
      check_direct_one local res (items res.item) next d cache >>= λ r.
      let rest = check_direct_loop local items pending r.next r.dmc r.cache in
      if not r.goes_on then ok r else rest

-- `issue_updater`, from item `i` on. It posts nothing.
unfoldable pub issue_updater_loop :
    MetaManager → (ℕ → ℕ) → ℕ → List DataSetItem → List CasRead → Dmc → Run (List CasRead × Dmc)
issue_updater_loop m qp_of i [] pending d = ok (pending, d)
issue_updater_loop m qp_of i (item ∷ items) pending d =
    let skipped = issue_updater_loop m qp_of (suc i) items pending d in
    let by_node : ℕ → Run (List CasRead × Dmc) = λ node.
      let cas = alloc d.rdma_buffer_alloc 8 in
      let item_buf = alloc cas.1 data_item_size in
      let read : CasRead = record {
        qp = qp_of node;
        item = i;
        cas_buf = cas.0;
        data_buf = item_buf.0;
        primary_node_id = node;
      } in
      issue_updater_loop m qp_of (suc i) items (pending ++ read ∷ [])
        (record d { rdma_buffer_alloc = item_buf.1 }) in
    if item.is_fetched then skipped else (get_primary_node_id m item.item_ptr.table_id >>= by_node)

rdma_read-tells :
    (b : Bool) (sched : Scheduler) (coro_id qp : ℕ) → (rdma_read b sched coro_id qp).0 ≡ b
unfolding rdma_read
rdma_read-tells true sched coro_id qp = refl
rdma_read-tells false sched coro_id qp = refl

-- What becomes of a direct read.
module _ {C : Type 0} (remove : C → ℕ → ℕ → C) (posted : Read → Bool) (m : MetaManager)
    (s : HashStore) (node : ℕ) (local : ℕ → DataItem) (res : DirectRead) (it : DataItem)
    (next : List HashRead) (d : Dmc) (cache : C) (buckets : (s.bucket_num == 0) ≡ false)
    (data_ptr_lt : s.data_ptr < u64_mod) (region_lt : s.region_start_ptr < u64_mod)
    (base : s.base_off ≡ sub64 s.data_ptr s.region_start_ptr)
    (known_meta : get_primary_hash_meta m it.table_id ≡ ok (meta_of s))
    (known_node : get_primary_node_id m it.table_id ≡ ok node) where
  abbrev got : DataItem
  got = local res.buf

  abbrev taken : Checked C
  taken = record {
    goes_on = true;
    next = next;
    dmc = record d {
      reader_set =
          modify d.reader_set res.item (λ i. record i { item_ptr = got; is_fetched = true });
    };
    cache = cache;
  }

  abbrev deleted : Checked C
  deleted = record {
    goes_on = false;
    next = next;
    dmc = d;
    cache = remove cache res.remote_node it.key;
  }

  abbrev at_bucket : Read
  at_bucket = record {
    qp = res.qp;
    buf = (alloc d.rdma_buffer_alloc hash_node_size).0;
    offset = bucket_offset (meta_of s) it.key;
    size = hash_node_size;
  }

  -- The buffer holds the item that was asked for.
  abbrev pub Asked : Type 0
  Asked = (got.key ≡ it.key) × (got.table_id ≡ it.table_id)

  -- The read of the bucket of the key: what is posted, and what the next pass finds of it
  abbrev pub Reread : Checked C → Type 0
  Reread r =
      (read : Read) × (r.dmc.reads ≡ d.reads ++ read ∷ [])
      × (add64 s.region_start_ptr read.offset ≡ bucket_addr s (get_hash s it.key))
      × (read.size ≡ hash_node_size)
      × (read.qp ≡ res.qp)
      × (r.next
          ≡ next
            ++ record {
              qp = res.qp;
              item = res.item;
              buf = read.buf;
              remote_node = node;
              meta = meta_of s;
            }
              ∷ [])
      × (r.goes_on ≡ posted read)
      × (r.dmc.reader_set ≡ d.reader_set)
      × (r.cache ≡ cache)

  abbrev pub Direct : Checked C → Type 0
  Direct r =
      (Asked × (is_valid got ≡ true) × (r ≡ taken))
      ⊎ (Asked × (is_valid got ≡ false) × (r ≡ deleted))
      ⊎ ((¬ Asked) × Reread r)

  asked : (got.key == it.key && got.table_id == it.table_id) ≡ true → Asked
  asked e = ground (arith, e)

  not_asked : (got.key == it.key && got.table_id == it.table_id) ≡ false → ¬ Asked
  not_asked e (k, i) = ground (arith, e, k, i)

  -- Where the manager knows the node and the meta data of the item's table, which has buckets,
  -- members below 2^64 and the base offset of its region: if the buffer has the key and the table
  -- of the item asked for, the check of a direct read takes it where it is valid, and where it is
  -- deleted drops its address from the cache and fails, either way changing nothing else; if not,
  -- it posts one read, of a node at the address of the key's bucket, lists it for the next pass,
  -- goes on if the post was taken, and leaves the reader set and the cache.
  pub check_direct_one-Direct :
      Returns (check_direct_one remove posted m local res it next d cache) Direct
  unfolding check_direct_one read_bucket meta_of rdma_read bucket_offset
  check_direct_one-Direct = elim (Bool-cases (got.key == it.key && got.table_id == it.table_id)) [
    | inl e ↦ elim (Bool-cases (is_valid got)) [
      | inl v ↦ (taken, rw (e, v), inl (asked e, v, refl))
      | inr v ↦ (deleted, rw (e, v), inr (inl (asked e, v, refl)))
    ]
    | inr e ↦ (
      read_bucket posted res it node (meta_of s) next d cache,
      rw (e, known_node, known_meta, buckets),
      inr (
          inr (
            not_asked e,
            (
              at_bucket,
              refl,
              bucket_offset-addr s data_ptr_lt region_lt base it.key,
              refl,
              refl,
              refl,
              rdma_read-tells (posted at_bucket) d.coro_sched d.coro_id res.qp,
              refl,
              refl,
            ),
          )),
    )
  ]
