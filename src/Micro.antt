-- ===== src/Micro.antt =====
-- workload/micro/micro_db.cc: the table that a memory node loads before it serves.
-- The number of buckets comes from a configuration file and is a parameter.
pub mod Load
mod Tests
use disaggregate_metadata_se.Base.{
  ℕ, zero, suc, ◌+◌, ◌*◌, ◌%◌, Bool, true, false, not, List, [], ◌∷◌, ◌++◌, ◌==◌, leb,
  if◌then◌else◌, modify, update, add64,
}
use disaggregate_metadata_se.Base.Run.{Run, ok, aborted, fault, ◌>>=◌}
use disaggregate_metadata_se.Item.{DataItem, data_item_size}
use disaggregate_metadata_se.HashStore.{
  Heap, HashStore, Slot, MemStoreAllocParam, MemStoreReserveParam, Inserted, NewStore,
  new_hash_store, local_insert, get_item_remote_offset,
}
use disaggregate_metadata_se.Meta.{put_bytes}

abbrev pub max_item_size : ℕ
max_item_size = 664

-- `DataItem(table_id, size, key, val)`
abbrev pub record_of : ℕ → ℕ → ℕ → List ℕ → DataItem
record_of table_id val_size item_key val = record {
  table_id = table_id;
  value_size = val_size;
  key = item_key;
  remote_offset = 0;
  version = 0;
  lock = 0;
  value = val;
  valid = 1;
  user_insert = 0;
}

-- `inserted_item->remote_offset = off`
abbrev pub set_offset : ℕ → DataItem → DataItem
set_offset off d = record d { remote_offset = off }

abbrev pub install_offset : Heap → Slot → ℕ → Heap
install_offset h sl off =
    update h sl.node
      (record (h sl.node) { data_items = modify (h sl.node).data_items sl.index (set_offset off) })

abbrev pub slot_addr : Slot → ℕ
slot_addr sl = sl.node + sl.index * data_item_size

unfoldable pub load_record :
    HashStore → Heap → MemStoreReserveParam → ℕ → List ℕ → ℕ → ℕ → Run Inserted
load_record table h p item_key val val_size table_id =
    let inserted = local_insert table h p item_key (record_of table_id val_size item_key val) in
    if leb val_size max_item_size
    then (inserted >>= λ r. ok (record r {
      heap = install_offset r.heap r.item (get_item_remote_offset r.store (slot_addr r.item));
    }))
    else aborted

-- `micro_val`: five words from `micro_magic` on
abbrev pub micro_val : List ℕ
micro_val = put_bytes 8 97 ++ put_bytes 8 98 ++ put_bytes 8 99 ++ put_bytes 8 100 ++ put_bytes 8 101

pub record Loaded : Type 0 where
  pub store : HashStore
  pub heap : Heap
  pub param : MemStoreReserveParam

-- The loop from key `id` on, over the keys left. The table's id is 0.
unfoldable pub populate_loop : ℕ → ℕ → Loaded → Run Loaded
populate_loop zero id t = ok t
populate_loop (suc n) id t = load_record t.store t.heap t.param id micro_val 40 0 >>= λ r.
    populate_loop n (suc id) (record { store = r.store; heap = r.heap; param = r.param })

unfoldable pub populate_micro_table : ℕ → Loaded → Run Loaded
populate_micro_table num_keys_global t = populate_loop num_keys_global 0 t
