-- ===== src/HashStore/Example.antt =====
-- A table of one bucket with one item, as the constructor and a write make it.
use disaggregate_metadata_se.Base.{ℕ, ◌+◌, ◌≡◌, refl, inl, inr, List, [], arith}
use disaggregate_metadata_se.Base.Run.{ok, returned}
use disaggregate_metadata_se.Item.{DataItem}
use disaggregate_metadata_se.HashStore.{
  Heap, slot, write_slot, zero_node, MemStoreAllocParam, MemStoreReserveParam, NewStore,
  new_hash_store, zero_nodes, hash_node_size,
}
use disaggregate_metadata_se.HashStore.Table.{IsTable, write-IsTable}
use disaggregate_metadata_se.HashStore.Fresh.{IsFresh, new-IsFresh}

abbrev pub memory : Heap
memory = λ _. record zero_node { next = 99 }

abbrev pub alloc_param : MemStoreAllocParam
alloc_param = record {
  mem_region_start = 1000;
  mem_store_start = 4096;
  mem_store_alloc_offset = 0;
  mem_store_reserve = 4096 + hash_node_size;
}

abbrev pub made : NewStore
made = record {
  store = record {
    table_id = 7;
    base_off = 3096;
    bucket_num = 1;
    data_ptr = 4096;
    node_num = 0;
    table_size = hash_node_size;
    region_start_ptr = 1000;
  };
  param = record alloc_param { mem_store_alloc_offset = hash_node_size };
  heap = zero_nodes 1 4096 memory;
}

made_run : new_hash_store 7 1 alloc_param memory ≡ ok made
unfolding new_hash_store
made_run = refl

pub made-IsFresh : IsFresh alloc_param memory 1 made
made-IsFresh =
    elim (new-IsFresh 7 1 alloc_param memory (omega arith) (omega arith) (omega arith)
      (omega arith)) [
        | inl (near, made_fresh) ↦
            returned (new_hash_store 7 1 alloc_param memory) (IsFresh alloc_param memory 1) made
              (inl made_fresh) made_run
        | inr (far, e) ↦ absurd (omega (arith, far))
      ]

abbrev pub param : MemStoreReserveParam
param = record { reserve = 4096 + hash_node_size; reserve_offset = 0; end = 100000 }

abbrev pub empty_tail : ℕ → List ℕ
empty_tail = λ _. []

abbrev pub item_of : ℕ → ℕ → DataItem
item_of key size = record {
  table_id = 7;
  value_size = size;
  key = key;
  remote_offset = 0;
  version = 0;
  lock = 0;
  value = [];
  valid = 1;
  user_insert = 0;
}

abbrev pub item : DataItem
item = item_of 5 8

abbrev pub heap : Heap
heap = write_slot made.heap (slot 4096 0) item

-- The table with one item, under key 5.
pub one_item : IsTable made.store heap param empty_tail
one_item = write-IsTable (made-IsFresh.table 0 100000) (slot 4096 0) item
