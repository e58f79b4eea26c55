-- ===== src/Dmc/Remote.antt =====
-- One-sided reads: the offsets that a compute node computes are those of the nodes that the server made,
-- and what it finds in them is what the server's table has.
use disaggregate_metadata_se.Base.{
  ℕ, ◌<◌, ◌≡◌, ◌⊎◌, Bool, true, false, none, some, List, [], ◌∷◌, ◌++◌, modify, add64, sub64,
  u64_mod, ◌+◌, ◌≤◌, arith,
}
use disaggregate_metadata_se.Item.{DataItem, is_valid}
use disaggregate_metadata_se.HashStore.{
  HashStore, Heap, HashNode, MemStoreReserveParam, hash_node_size, get_hash, bucket_addr,
}
use disaggregate_metadata_se.HashStore.Node.{lookup}
use disaggregate_metadata_se.HashStore.Chain.{contents, head_of}
use disaggregate_metadata_se.HashStore.Table.{IsTable, view}
use disaggregate_metadata_se.Meta.{meta_of}
use disaggregate_metadata_se.Dmc.{Dmc, HashRead, Read, bucket_offset, next_offset}
use disaggregate_metadata_se.Dmc.Check.{check_hash_one}

module _ (s : HashStore) (data_ptr_lt : s.data_ptr < u64_mod)
    (region_lt : s.region_start_ptr < u64_mod)
    (base : s.base_off ≡ sub64 s.data_ptr s.region_start_ptr) where
  -- Where the table and the region start below 2^64 and the base offset is their distance, the
  -- remote offset that a compute node computes for a key, laid on the region's start, is the
  -- address of the key's bucket.
  pub bucket_offset-addr :
      (key : ℕ)
      → add64 s.region_start_ptr (bucket_offset (meta_of s) key) ≡ bucket_addr s (get_hash s key)
  unfolding bucket_offset meta_of get_hash bucket_addr
  bucket_offset-addr key = omega (arith, base)

  pub next_offset-addr :
      (next : ℕ) → next < u64_mod → add64 s.region_start_ptr (next_offset (meta_of s) next) ≡ next
  unfolding next_offset meta_of
  next_offset-addr next lt = omega (arith, base)

-- The valid slots carry the table's id.
abbrev pub AllOf : ℕ → List DataItem → Type 0
AllOf tid [] = Unit
AllOf tid (d ∷ ds) = ((is_valid d ≡ false) ⊎ (d.table_id ≡ tid)) × AllOf tid ds

-- What the check of a fetched first bucket comes to.
module _ (posted : Read → Bool) (s : HashStore) (h : Heap) (p : MemStoreReserveParam)
    (tail : ℕ → List ℕ) (t : IsTable s h p tail) (local : ℕ → HashNode) (res : HashRead)
    (it : DataItem) (pending : List HashRead) (d : Dmc)
    (read_bucket : local res.buf ≡ h (bucket_addr s (get_hash s it.key)))
    (of_table : AllOf it.table_id (h (bucket_addr s (get_hash s it.key))).data_items)
    (meta_is : res.meta ≡ meta_of s) (data_ptr_lt : s.data_ptr < u64_mod)
    (region_lt : s.region_start_ptr < u64_mod)
    (base : s.base_off ≡ sub64 s.data_ptr s.region_start_ptr)
    (words : p.reserve + p.reserve_offset ≤ u64_mod) where
  abbrev i : ℕ
  i = get_hash s it.key

  abbrev node : HashNode
  node = h (bucket_addr s i)

  abbrev result : Bool × List HashRead × Dmc
  result = check_hash_one posted local res it pending d

  -- A read of the node at `next`.
  abbrev read_at : ℕ → Read
  read_at next = record {
    qp = res.qp;
    buf = res.buf;
    offset = next_offset res.meta next;
    size = hash_node_size;
  }

  -- The item is there, and is what the server's table has.
  abbrev pub Found : Type 0
  Found =
      (item : DataItem) × (view s h tail it.key ≡ some item)
      × (result ≡ (
        true,
        pending,
        record d {
          reader_set =
              modify d.reader_set res.item (λ i. record i { item_ptr = item; is_fetched = true });
        },
      ))

  -- The pass fails, and the server's table has no such item.
  abbrev pub Absent : Type 0
  Absent = (view s h tail it.key ≡ none) × (result ≡ (false, pending, d))

  -- The rest of the chain is read next, from the address of its first node, and whether the item is in
  -- the table is a matter of that rest.
  abbrev pub Next : Type 0
  Next =
      (read : Read) × (0 < head_of (tail i))
      × (result.1 ≡ pending ++ res ∷ [])
      × (result.2.reads ≡ d.reads ++ read ∷ [])
      × (add64 s.region_start_ptr read.offset ≡ head_of (tail i))
      × (read.qp ≡ res.qp)
      × (read.buf ≡ res.buf)
      × (read.size ≡ hash_node_size)
      × (view s h tail it.key ≡ lookup it.key (contents h (tail i)))
