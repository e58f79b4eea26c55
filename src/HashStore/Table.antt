-- ===== src/HashStore/Table.antt =====
-- The whole table: every bucket's chain is in order, and no node belongs to two of them.
use disaggregate_metadata_se.Base.{
  ℕ, ◌+◌, ◌<◌, ◌≤◌, ◌≡◌, ◌≢◌, refl, inl, inr, true, false, Option, some, List, ◌∷◌, ◌==◌, length,
  get_elem?, mem, ==_iff, Bool-cases, length-set, arith,
}
use disaggregate_metadata_se.Base.Run.{Returns}
use disaggregate_metadata_se.Item.{DataItem, hit}
use disaggregate_metadata_se.HashStore.{
  Heap, Slot, HashStore, MemStoreReserveParam, get_hash, bucket_addr, write_slot, local_get,
}
use disaggregate_metadata_se.HashStore.Node.{lookup, count, hits}
use disaggregate_metadata_se.HashStore.Chain.{
  IsChain, contents, contents-SameOn, update-SameOn, read_slot, Within, get_loop-lookup,
}
use disaggregate_metadata_se.HashStore.Write.{IsChain-update, write-lookup_other, write-count}

-- `tail i` lists the nodes of bucket `i` behind its first.
abbrev pub chain : HashStore → (ℕ → List ℕ) → ℕ → List ℕ
chain s tail i = bucket_addr s i ∷ tail i

pub record IsTable (s : HashStore) (h : Heap) (p : MemStoreReserveParam) (tail : ℕ → List ℕ)
    : Type 0 where
  pub some_bucket : 0 < s.bucket_num
  pub chains : (i : ℕ) → i < s.bucket_num → IsChain h (chain s tail i)
  pub short : (i : ℕ) → i < s.bucket_num → length (tail i) ≤ s.node_num
  pub below :
      (i a : ℕ)
      → i < s.bucket_num
      → mem a (chain s tail i) ≡ true
      → a < p.reserve + p.reserve_offset
  pub apart :
      (i j a : ℕ)
      → i < s.bucket_num
      → j < s.bucket_num
      → i ≢ j
      → mem a (chain s tail i) ≡ true
      → mem a (chain s tail j) ≡ false

-- The slots of a key's bucket, the item that the table has under the key, and how many it has.
abbrev pub bucket : HashStore → Heap → (ℕ → List ℕ) → ℕ → List DataItem
bucket s h tail k = contents h (chain s tail (get_hash s k))

abbrev pub view : HashStore → Heap → (ℕ → List ℕ) → ℕ → Option DataItem
view s h tail k = lookup k (bucket s h tail k)

abbrev pub copies : HashStore → Heap → (ℕ → List ℕ) → ℕ → ℕ
copies s h tail k = count k (bucket s h tail k)

pub get_hash-lt : (s : HashStore) (k : ℕ) → 0 < s.bucket_num → get_hash s k < s.bucket_num
unfolding get_hash
get_hash-lt s k h = omega arith

module _ {s : HashStore} {h : Heap} {p : MemStoreReserveParam} {tail : ℕ → List ℕ}
    (t : IsTable s h p tail) where
  pub hash_lt : (k : ℕ) → get_hash s k < s.bucket_num
  hash_lt k = get_hash-lt s k t.some_bucket

  -- On a table in order, a search ends. It points at the first valid slot of the key's chain that
  -- has the key, within that chain, or nowhere where no slot has it.
  pub get_found :
      (k : ℕ)
      → Returns
          (local_get s h k)
          λ r. (read_slot h r ≡ view s h tail k) × Within (chain s tail (get_hash s k)) r
  unfolding local_get
  get_found k =
      let i = get_hash s k in
      get_loop-lookup h k (chain s tail i) (s.node_num + 2) (t.chains i (hash_lt k))
        (omega (arith, t.short i (hash_lt k)))

  -- A write to a slot leaves the table in order.
  pub write-IsTable : (sl : Slot) (d : DataItem) → IsTable s (write_slot h sl d) p tail
  write-IsTable sl d = record {
    some_bucket = t.some_bucket;
    chains = λ i lt.
        IsChain-update h (chain s tail i) sl.node _ (length-set (h sl.node).data_items sl.index d)
          refl (t.chains i lt);
    short = t.short;
    below = t.below;
    apart = t.apart;
  }

  module _ (b : ℕ) (lt : b < s.bucket_num) (sl : Slot) (old d : DataItem)
      (inside : mem sl.node (chain s tail b) ≡ true)
      (reads : get_elem? (h sl.node).data_items sl.index ≡ some old) where
    other_bucket :
        (i : ℕ)
        → i < s.bucket_num
        → b ≢ i
        → contents (write_slot h sl d) (chain s tail i) ≡ contents h (chain s tail i)
    other_bucket i lt_i ne =
        contents-SameOn h (write_slot h sl d) (chain s tail i)
          (update-SameOn h (chain s tail i) sl.node _ (t.apart b i sl.node lt lt_i ne inside))

    -- A write that neither takes nor gives a copy of a key leaves what the table has under it.
    pub write-view_other :
        (q : ℕ)
        → hit q old ≡ false
        → hit q d ≡ false
        → view s (write_slot h sl d) tail q ≡ view s h tail q
    write-view_other q was is = elim (Bool-cases (b == get_hash s q)) [
      | inl e ↦
          let same : b ≡ get_hash s q = (==_iff b (get_hash s q)).0 e in
          let here =
            write-lookup_other h (chain s tail b) sl old d (t.chains b lt) inside reads q was is in
          rw same at here
      | inr e ↦ rw (other_bucket (get_hash s q) (hash_lt q) (ground (arith, e)))
    ]

    pub write-copies :
        (q : ℕ)
        → b ≡ get_hash s q
        → copies s (write_slot h sl d) tail q + hits q old ≡ copies s h tail q + hits q d
    write-copies q same =
        let here = write-count h (chain s tail b) sl old d (t.chains b lt) inside reads q in
        rw same at here
