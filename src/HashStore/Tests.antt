-- ===== src/HashStore/Tests.antt =====
-- The hash store run on a table of one bucket.
use disaggregate_metadata_se.Base.{◌^◌, ◌<◌, ◌≤◌, ◌≡◌, ◌⊎◌, sub64, refl, none, some, arith}
use disaggregate_metadata_se.Base.Run.{ok, aborted, Returns}
use disaggregate_metadata_se.Hash.{murmur_hash64a}
use disaggregate_metadata_se.HashStore.{
  slot, new_hash_store, zero_nodes, get_loop, find_key, get_hash, bucket_addr, local_get,
  local_insert, local_put, local_delete,
}
use disaggregate_metadata_se.HashStore.Chain.{read_slot, Within}
use disaggregate_metadata_se.HashStore.Table.{chain, view, get_found}
use disaggregate_metadata_se.HashStore.Fresh.{IsFresh, new-IsFresh}
use disaggregate_metadata_se.HashStore.Insert.{InsertsOrAborts, insert-Added}
use disaggregate_metadata_se.HashStore.Put.{PutsOrAborts, put-Put}
use disaggregate_metadata_se.HashStore.Delete.{Deleted, delete-Deleted, delete-view_self}
use disaggregate_metadata_se.HashStore.Example.{
  memory, alloc_param, made, param, empty_tail, item_of, heap, one_item,
}

new-IsFresh_example :
    ((sub64 4096 1000 < 2 ^ 63)
      × Returns (new_hash_store 7 1 alloc_param memory) (IsFresh alloc_param memory 1))
    ⊎ ((2 ^ 63 ≤ sub64 4096 1000) × (new_hash_store 7 1 alloc_param memory ≡ aborted))
new-IsFresh_example =
    new-IsFresh 7 1 alloc_param memory (omega arith) (omega arith) (omega arith) (omega arith)

-- A store that lies before its region is refused.
refused : new_hash_store 7 1 (record alloc_param { mem_region_start = 5000 }) memory ≡ aborted
unfolding new_hash_store
refused = refl

get_found_example : Returns (local_get made.store heap 5) λ r.
    (read_slot heap r ≡ view made.store heap empty_tail 5)
    × Within (chain made.store empty_tail (get_hash made.store 5)) r
get_found_example = get_found one_item 5

put-Put_example :
    PutsOrAborts one_item (item_of 5 16) refl (local_put made.store heap param 5 (item_of 5 16))
put-Put_example = put-Put one_item (item_of 5 16) refl

insert-Added_example :
    InsertsOrAborts one_item (item_of 6 16) (local_insert made.store heap param 6 (item_of 6 16))
insert-Added_example = insert-Added one_item (item_of 6 16)

delete-Deleted_example :
    Returns (local_delete made.store heap 5) (Deleted made.store heap param empty_tail 5)
delete-Deleted_example = delete-Deleted one_item 5

delete-view_self_example : view made.store (delete-Deleted one_item 5).0.1 empty_tail 5 ≡ none
unfolding bucket_addr get_hash murmur_hash64a zero_nodes
delete-view_self_example = delete-view_self one_item 5 (delete-Deleted one_item 5).2 (omega arith)

-- The item is found, and no other key is.
get_item : local_get made.store heap 5 ≡ ok (some (slot 4096 0))
unfolding local_get get_loop bucket_addr get_hash murmur_hash64a find_key zero_nodes
get_item = refl

get_other : local_get made.store heap 6 ≡ ok none
unfolding local_get get_loop bucket_addr get_hash murmur_hash64a find_key zero_nodes
get_other = refl
