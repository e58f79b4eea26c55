-- ===== src/HashStore/Fresh.antt =====
-- A new table: empty, in order, and within its own part of the store.
use disaggregate_metadata_se.Base.{
  ℕ, zero, suc, ◌+◌, ◌*◌, ◌<◌, ◌≤◌, ◌≡◌, refl, sym, ◌∙◌, ap, true, none, [], ◌∷◌, ◌++◌, leb, length,
  mem, not-mem_cons, update, update_ne, ==_of, ==_ne, replicate, u64_mod, add64, sub64, mul64,
  le→leb, arith, Bool-cases, inl, inr, ◌⊎◌, ◌^◌, false,
}
use disaggregate_metadata_se.Base.Run.{Returns, ok, aborted}
use disaggregate_metadata_se.Item.{zero_item}
use disaggregate_metadata_se.HashStore.{
  Heap, MemStoreAllocParam, NewStore, new_hash_store, zero_nodes, zero_node, hash_node_size,
  item_num_per_node, get_hash, bucket_addr,
}
use disaggregate_metadata_se.HashStore.Node.{lookup}
use disaggregate_metadata_se.HashStore.Table.{IsTable, view, get_hash-lt}

zero_nodes-below : (n p a : ℕ) (h : Heap) → a < p → zero_nodes n p h a ≡ h a
unfolding zero_nodes
zero_nodes-below zero p a h lt = refl
zero_nodes-below (suc n) p a h lt =
    zero_nodes-below n (p + hash_node_size) a (update h p zero_node) (omega arith)
    ∙ update_ne h p a zero_node (omega arith)

zero_nodes-at :
    (n p i a : ℕ) (h : Heap) → i < n → a ≡ p + i * hash_node_size → zero_nodes n p h a ≡ zero_node
unfolding zero_nodes
zero_nodes-at zero p i a h lt e = absurd (omega arith)
zero_nodes-at (suc n) p zero a h lt e =
    zero_nodes-below n (p + hash_node_size) a (update h p zero_node) (omega arith)
    ∙ rw (==_of a p (omega arith))
zero_nodes-at (suc n) p (suc i) a h lt e =
    zero_nodes-at n (p + hash_node_size) i a (update h p zero_node) (omega arith) (omega arith)

lookup-zero : (k n : ℕ) → lookup k (replicate n zero_item) ≡ none
lookup-zero k zero = refl
lookup-zero k (suc n) = lookup-zero k n

-- The table has every bucket in order, holds nothing, and leaves the memory below it.
pub record IsFresh (p : MemStoreAllocParam) (h : Heap) (bucket_num : ℕ) (r : NewStore)
    : Type 0 where
  pub table :
      (offset end : ℕ)
      → IsTable r.store r.heap
          (record { reserve = p.mem_store_reserve; reserve_offset = offset; end = end })
          (λ _. [])
  pub empty : (k : ℕ) → view r.store r.heap (λ _. []) k ≡ none
  pub after :
      (i : ℕ)
      → i < bucket_num
      → (p.mem_store_start + p.mem_store_alloc_offset ≤ bucket_addr r.store i)
        × (bucket_addr r.store i + hash_node_size
            ≤ r.param.mem_store_start + r.param.mem_store_alloc_offset)
  pub below : (a : ℕ) → a < p.mem_store_start + p.mem_store_alloc_offset → r.heap a ≡ h a

only : (a x : ℕ) → mem a (x ∷ []) ≡ true → a ≡ x
only a x m = ground (arith, m)

module _ (table_id bucket_num : ℕ) (p : MemStoreAllocParam) (h : Heap)
    (some_bucket : 0 < bucket_num) (start : 0 < p.mem_store_start)
    (fits : p.mem_store_start + p.mem_store_alloc_offset + bucket_num * hash_node_size
      ≤ p.mem_store_reserve)
    (no_wrap : p.mem_store_reserve < u64_mod) where
  abbrev data_ptr : ℕ
  data_ptr = p.mem_store_start + p.mem_store_alloc_offset

  abbrev made : NewStore
  made = record {
    store = record {
      table_id = table_id;
      base_off = sub64 (add64 p.mem_store_start p.mem_store_alloc_offset) p.mem_region_start;
      bucket_num = bucket_num;
      data_ptr = add64 p.mem_store_start p.mem_store_alloc_offset;
      node_num = 0;
      table_size = mul64 bucket_num hash_node_size;
      region_start_ptr = p.mem_region_start;
    };
    param = record p {
      mem_store_alloc_offset = add64 p.mem_store_alloc_offset (mul64 bucket_num hash_node_size);
    };
    heap = zero_nodes bucket_num (add64 p.mem_store_start p.mem_store_alloc_offset) h;
  }

  data_ptr-add64 : add64 p.mem_store_start p.mem_store_alloc_offset ≡ data_ptr
  data_ptr-add64 = omega arith

  bucket_addr-made :
      (i : ℕ) → i < bucket_num → bucket_addr made.store i ≡ data_ptr + i * hash_node_size
  unfolding bucket_addr
  bucket_addr-made i lt = omega arith

  bucket_addr-inj :
      (i j : ℕ)
      → i < bucket_num
      → j < bucket_num
      → bucket_addr made.store i ≡ bucket_addr made.store j
      → i ≡ j
  bucket_addr-inj i j lt_i lt_j e =
      omega (arith, bucket_addr-made i lt_i, bucket_addr-made j lt_j, e)

  node-made : (i : ℕ) → i < bucket_num → made.heap (bucket_addr made.store i) ≡ zero_node
  node-made i lt =
      zero_nodes-at bucket_num (add64 p.mem_store_start p.mem_store_alloc_offset) i
        (bucket_addr made.store i) h lt (omega (arith, bucket_addr-made i lt, data_ptr-add64))

  made-empty : (k : ℕ) → view made.store made.heap (λ _. []) k ≡ none
  made-empty k =
      ap (λ d. lookup k (d.data_items ++ []))
        (node-made (get_hash made.store k) (get_hash-lt made.store k some_bucket))
      ∙ lookup-zero k item_num_per_node

  made-table :
      (offset end : ℕ)
      → IsTable made.store made.heap
          (record { reserve = p.mem_store_reserve; reserve_offset = offset; end = end })
          (λ _. [])
  made-table offset end = record {
    some_bucket = some_bucket;
    chains = λ i lt. (
      omega (arith, bucket_addr-made i lt),
      refl,
      ap (λ d. length d.data_items) (node-made i lt),
      ap (λ d. d.next) (node-made i lt),
      tt,
    );
    short = λ i lt. omega arith;
    below = λ i a lt m. ground (arith, bucket_addr-made i lt, only a (bucket_addr made.store i) m);
    apart = λ i j a lt_i lt_j ne m.
        not-mem_cons a (bucket_addr made.store j) []
          (λ e. ne (bucket_addr-inj i j lt_i lt_j (sym (only a (bucket_addr made.store i) m) ∙ e)))
          refl;
  }

  passes :
      leb
        (add64 (add64 p.mem_store_start p.mem_store_alloc_offset) (mul64 bucket_num hash_node_size))
        p.mem_store_reserve
      ≡ true
  passes = le→leb _ _ (omega arith)

  -- The distance of the new table from the start of the region, as a word
  abbrev pub distance : ℕ
  distance = sub64 data_ptr p.mem_region_start

  new_run :
      leb (2 ^ 63) (sub64 (add64 p.mem_store_start p.mem_store_alloc_offset) p.mem_region_start)
        ≡ false
      → new_hash_store table_id bucket_num p h ≡ ok made
  unfolding new_hash_store
  new_run near = rw (
    ==_ne bucket_num 0 (omega arith),
    passes,
    near,
    ==_ne (add64 p.mem_store_start p.mem_store_alloc_offset) 0 (omega arith),
  )

  new_aborts :
      leb (2 ^ 63) (sub64 (add64 p.mem_store_start p.mem_store_alloc_offset) p.mem_region_start)
        ≡ true
      → new_hash_store table_id bucket_num p h ≡ aborted
  unfolding new_hash_store
  new_aborts far = rw (==_ne bucket_num 0 (omega arith), passes, far)

  made-IsFresh : IsFresh p h bucket_num made
  made-IsFresh = record {
    table = made-table;
    empty = made-empty;
    after = λ i lt. (omega (arith, bucket_addr-made i lt), omega (arith, bucket_addr-made i lt));
    below = λ a lt.
        zero_nodes-below bucket_num (add64 p.mem_store_start p.mem_store_alloc_offset) a h
          (omega arith);
  }

  -- For at least one bucket, a store that starts behind address 0 and whose nodes end within the
  -- reserve's start, below 2^64: where the table's distance from the start of the region is below
  -- 2^63, so no negative number, the constructor returns a table in order with nothing in it, whose
  -- nodes lie between the allocation offset before and after, and the memory below it is unchanged;
  -- and otherwise it aborts.
  pub new-IsFresh :
      ((distance < 2 ^ 63)
        × Returns (new_hash_store table_id bucket_num p h) (IsFresh p h bucket_num))
      ⊎ ((2 ^ 63 ≤ distance) × (new_hash_store table_id bucket_num p h ≡ aborted))
  new-IsFresh =
      let word : ℕ = sub64 (add64 p.mem_store_start p.mem_store_alloc_offset) p.mem_region_start in
      let same : word ≡ distance = ap (λ d. sub64 d p.mem_region_start) data_ptr-add64 in
      elim (Bool-cases (leb (2 ^ 63) word)) [
        | inr near ↦ inl (ground (arith, near, same), (made, new_run near, made-IsFresh))
        | inl far ↦ inr (ground (arith, far, same), new_aborts far)
      ]
