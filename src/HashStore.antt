-- ===== src/HashStore.antt =====
-- core/memstore/hash_store.h and mem_store.h: the bucket table that a memory node serves.
-- Memory is a function from a node's address to the node; a pointer to a slot is its node and index.
pub mod Node
pub mod Chain
pub mod Write
pub mod Search
pub mod Table
pub mod Grow
pub mod Insert
pub mod Put
pub mod Delete
pub mod Fresh
pub mod Example
mod Tests
use disaggregate_metadata_se.Base.{
  ℕ, zero, suc, ◌+◌, ◌*◌, ◌%◌, ◌^◌, Bool, true, false, not, Option, none, some, List, [], ◌∷◌, ◌==◌,
  leb, if◌then◌else◌, set, modify, replicate, update, add64, mul64, sub64,
}
use disaggregate_metadata_se.Base.Run.{Run, ok, aborted, fault, out_of_fuel, ◌>>=◌}
use disaggregate_metadata_se.Hash.{murmur_hash64a}
use disaggregate_metadata_se.Item.{DataItem, data_item_size, zero_item, is_valid, hit}

-- ITEM_NUM_PER_NODE and `sizeof(HashNode)`
abbrev pub item_num_per_node : ℕ
item_num_per_node = 22

abbrev pub hash_node_size : ℕ
hash_node_size = item_num_per_node * data_item_size + 8

-- A bucket: the slots, and the address of the next node, 0 for `nullptr`.
pub record HashNode : Type 0 where
  pub data_items : List DataItem
  pub next : ℕ

abbrev pub Heap : Type 0
Heap = ℕ → HashNode

abbrev pub zero_node : HashNode
zero_node = record { data_items = replicate item_num_per_node zero_item; next = 0 }

-- A `DataItem*`.
pub record Slot : Type 0 where
  pub node : ℕ
  pub index : ℕ

abbrev pub slot : ℕ → ℕ → Slot
slot p i = record { node = p; index = i }

-- `*ptr = d`
abbrev pub write_slot : Heap → Slot → DataItem → Heap
write_slot h s d =
    update h s.node (record (h s.node) { data_items = set (h s.node).data_items s.index d })

pub record MemStoreReserveParam : Type 0 where
  pub reserve : ℕ
  pub reserve_offset : ℕ
  pub end : ℕ

-- `node_num` counts nodes that are allocated, so it cannot wrap.
pub record HashStore : Type 0 where
  pub table_id : ℕ
  pub base_off : ℕ
  pub bucket_num : ℕ
  pub data_ptr : ℕ
  pub node_num : ℕ
  pub table_size : ℕ
  pub region_start_ptr : ℕ

pub record MemStoreAllocParam : Type 0 where
  pub mem_region_start : ℕ
  pub mem_store_start : ℕ
  pub mem_store_alloc_offset : ℕ
  pub mem_store_reserve : ℕ

-- `memset` of `n` nodes from `p` on.
unfoldable pub zero_nodes : ℕ → ℕ → Heap → Heap
zero_nodes zero p h = h
zero_nodes (suc n) p h = zero_nodes n (p + hash_node_size) (update h p zero_node)

pub record NewStore : Type 0 where
  pub store : HashStore
  pub param : MemStoreAllocParam
  pub heap : Heap

-- The constructor. `base_off` is an `int64_t`, so it is negative from 2^63 on.
pub new_hash_store : ℕ → ℕ → MemStoreAllocParam → Heap → Run NewStore
unfolding zero_nodes
new_hash_store table_id bucket_num p h =
    let table_size = mul64 bucket_num hash_node_size in
    let data_ptr = add64 p.mem_store_start p.mem_store_alloc_offset in
    if bucket_num == 0
    then aborted
    else if not (leb (add64 data_ptr table_size) p.mem_store_reserve)
    then aborted
    else if leb (2 ^ 63) (sub64 data_ptr p.mem_region_start)
    then aborted
    else if data_ptr == 0
    then aborted
    else ok (record {
      store = record {
        table_id = table_id;
        base_off = sub64 data_ptr p.mem_region_start;
        bucket_num = bucket_num;
        data_ptr = data_ptr;
        node_num = 0;
        table_size = table_size;
        region_start_ptr = p.mem_region_start;
      };
      param = record p { mem_store_alloc_offset = add64 p.mem_store_alloc_offset table_size };
      heap = zero_nodes bucket_num data_ptr h;
    })

unfoldable pub get_hash : HashStore → ℕ → ℕ
get_hash s key = murmur_hash64a key 0xdeadbeef % s.bucket_num

-- `(HashNode*)(hash * sizeof(HashNode) + data_ptr)`
unfoldable pub bucket_addr : HashStore → ℕ → ℕ
bucket_addr s hash = add64 (mul64 hash hash_node_size) s.data_ptr

unfoldable pub get_item_remote_offset : HashStore → ℕ → ℕ
get_item_remote_offset s item_ptr = sub64 item_ptr s.region_start_ptr

-- The `for` over the slots of one node: the first that holds the key.
pub find_key : ℕ → List DataItem → Option ℕ
find_key k [] = none
find_key k (d ∷ ds) =
    let rest : Option ℕ = elim (find_key k ds) [ none ↦ none | some i ↦ some (suc i) ] in
    if hit k d then some 0 else rest

-- The `for` of an insertion: the first slot that is free.
pub find_free : List DataItem → Option ℕ
find_free [] = none
find_free (d ∷ ds) =
    let rest : Option ℕ = elim (find_free ds) [ none ↦ none | some i ↦ some (suc i) ] in
    if is_valid d then rest else some 0

pub get_loop : ℕ → Heap → ℕ → ℕ → Run (Option Slot)
get_loop zero h key node = out_of_fuel
get_loop (suc fuel) h key node =
    let rest = get_loop fuel h key (h node).next in
    let here : Run (Option Slot) = elim (find_key key (h node).data_items) [
      | some i ↦ ok (some (slot node i))
      | none ↦ rest
    ] in
    if node == 0 then ok none else here

-- A chain has at most `node_num + 1` nodes, so the rounds suffice.
pub local_get : HashStore → Heap → ℕ → Run (Option Slot)
local_get s h key = get_loop (s.node_num + 2) h key (bucket_addr s (get_hash s key))

-- Where an insertion ends its search: at a free slot, or at the last node.
pub data Place : Type 0 where
  free : Slot → Place
  last : ℕ → Place

pub place_loop : ℕ → Heap → ℕ → Run Place
place_loop zero h node = out_of_fuel
place_loop (suc fuel) h node =
    let rest = place_loop fuel h (h node).next in
    let full = if (h node).next == 0 then ok (last node) else rest in
    let here : Run Place = elim (find_free (h node).data_items) [
      | some i ↦ ok (free (slot node i))
      | none ↦ full
    ] in
    if node == 0 then ok (last 0) else here

pub record Inserted : Type 0 where
  pub item : Slot
  pub store : HashStore
  pub heap : Heap
  pub param : MemStoreReserveParam

-- The allocation of a node for `d` behind `node`.
pub append_node : HashStore → Heap → MemStoreReserveParam → DataItem → ℕ → Run Inserted
append_node s h p d node =
    let new_node = p.reserve + p.reserve_offset in
    let fresh =
      update h new_node (record { data_items = set zero_node.data_items 0 d; next = 0 }) in
    if leb new_node p.end
    then (if node == 0
        then fault
        else ok (record {
          item = slot new_node 0;
          store = record s { node_num = s.node_num + 1 };
          heap = update fresh node (record (fresh node) { next = new_node });
          param = record p { reserve_offset = p.reserve_offset + hash_node_size };
        }))
    else aborted

-- The slot written is valid whatever `data_item.valid` says.
pub insert_at : HashStore → Heap → MemStoreReserveParam → DataItem → Place → Run Inserted
unfolding append_node
insert_at s h p d (free sl) =
    ok (record { item = sl; store = s; heap = write_slot h sl (record d { valid = 1 }); param = p })
insert_at s h p d (last node) = append_node s h p (record d { valid = 1 }) node

pub local_insert : HashStore → Heap → MemStoreReserveParam → ℕ → DataItem → Run Inserted
local_insert s h p key d =
    place_loop (s.node_num + 2) h (bucket_addr s (get_hash s key)) >>= insert_at s h p d

pub put_at : HashStore → Heap → MemStoreReserveParam → ℕ → DataItem → Option Slot → Run Inserted
put_at s h p key d (some sl) =
    ok (record { item = sl; store = s; heap = write_slot h sl d; param = p })
put_at s h p key d none = local_insert s h p key d

pub local_put : HashStore → Heap → MemStoreReserveParam → ℕ → DataItem → Run Inserted
unfolding put_at
local_put s h p key d = local_get s h key >>= put_at s h p key d

-- `data_item.valid = 0`
abbrev pub clear_valid : DataItem → DataItem
clear_valid d = record d { valid = 0 }

abbrev pub erase_slot : Heap → ℕ → ℕ → Heap
erase_slot h p i = update h p (record (h p) { data_items = modify (h p).data_items i clear_valid })

-- The `while (node)` of a deletion, which starts behind the first node.
pub delete_loop : ℕ → Heap → ℕ → ℕ → Run (Bool × Heap)
delete_loop zero h key node = out_of_fuel
delete_loop (suc fuel) h key node =
    let rest = delete_loop fuel h key (h node).next in
    let here : Run (Bool × Heap) = elim (find_key key (h node).data_items) [
      | some i ↦ ok (true, erase_slot h node i)
      | none ↦ rest
    ] in
    if node == 0 then ok (false, h) else here

pub local_delete : HashStore → Heap → ℕ → Run (Bool × Heap)
local_delete s h key =
    let node = bucket_addr s (get_hash s key) in
    elim (find_key key (h node).data_items) [
      | some i ↦ ok (true, erase_slot h node i)
      | none ↦ delete_loop (s.node_num + 1) h key (h node).next
    ]
