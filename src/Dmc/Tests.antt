-- ===== src/Dmc/Tests.antt =====
-- Reads of a table with one bucket and one item.
use disaggregate_metadata_se.Base.{
  ℕ, ◌+◌, ◌%◌, ◌≡◌, ◌⊎◌, refl, Bool, true, false, none, some, List, [], ◌∷◌, add64, replicate,
  arith,
}
use disaggregate_metadata_se.Base.Run.{ok, out_of_fuel, Returns}
use disaggregate_metadata_se.Item.{DataItem, zero_item}
use disaggregate_metadata_se.HashStore.{HashNode, HashStore, get_hash, bucket_addr}
use disaggregate_metadata_se.HashStore.Example.{made, item, heap}
use disaggregate_metadata_se.Scheduler.{new_scheduler}
use disaggregate_metadata_se.Alloc.{new_buffer_allocator}
use disaggregate_metadata_se.Meta.{MetaManager, meta_of, get_primary_hash_meta, get_primary_node_id}
use disaggregate_metadata_se.Dmc.{Dmc, DirectRead, HashRead, Read, bucket_offset}
use disaggregate_metadata_se.Dmc.Check.{find_item, check_next_loop, check_next-stuck}
use disaggregate_metadata_se.Dmc.ReadOnly.{check_read_loop, check_read_loop-outcome}
use disaggregate_metadata_se.Dmc.StatFile.{disaggregated, stat_file, stat_file-outcome}
use disaggregate_metadata_se.Dmc.Remote.{bucket_offset-addr}
use disaggregate_metadata_se.Dmc.Direct.{Direct, check_direct_one, check_direct_one-Direct}
use disaggregate_metadata_se.Dmc.Path.{
  find_slash, resolution_loop, path_resolution-outcome, compute_hash, poly, hash_mod,
  compute_hash-poly,
}

compute_hash-poly_example : compute_hash (97 ∷ 98 ∷ []) ≡ poly (97 ∷ 98 ∷ []) % hash_mod
compute_hash-poly_example =
    compute_hash-poly (97 ∷ 98 ∷ []) ((omega arith, omega arith), ((omega arith, omega arith), tt))

-- The path "/a/b"
abbrev path : List ℕ
path = 47 ∷ 97 ∷ 47 ∷ 98 ∷ []

path_resolution-outcome_example :
    ((pos : ℕ) × (find_slash 1 path ≡ some pos) × (resolution_loop 10 path [] ≡ out_of_fuel))
    ⊎ ((find_slash 1 path ≡ none) × (resolution_loop 11 path [] ≡ ok []))
path_resolution-outcome_example = path_resolution-outcome 10 path

slash_found : find_slash 1 path ≡ some 2
unfolding find_slash
slash_found = refl

abbrev store : HashStore
store = made.store

bucket_offset-addr_example :
    add64 1000 (bucket_offset (meta_of store) 5) ≡ bucket_addr store (get_hash store 5)
bucket_offset-addr_example = bucket_offset-addr store (omega arith) (omega arith) refl 5

abbrev dmc : Dmc
dmc = record {
  reader_set = [];
  updater_set = [];
  writer_set = [];
  insert_set = [];
  coro_id = 1;
  coro_sched = new_scheduler (λ _. 0) (λ _. 0) 0 0;
  rdma_buffer_alloc = new_buffer_allocator 0 100000;
  reads = [];
}

abbrev posted : Read → Bool
posted = λ _. true

abbrev res : HashRead
res = record { qp = 3; item = 0; buf = 50; remote_node = 0; meta = meta_of store }

abbrev node : HashNode
node = record { data_items = item ∷ replicate 21 zero_item; next = 0 }

item_there : find_item 5 7 node.data_items ≡ some item
unfolding find_item
item_there = refl

check_next-stuck_example :
    check_next_loop posted 1000 (λ _. node) (λ _. item) (res ∷ []) dmc ≡ out_of_fuel
check_next-stuck_example =
    check_next-stuck posted (λ _. node) (λ _. item) res 1000 [] dmc item item_there

check_read_loop-outcome_example :
    ((after : Dmc) × (check_read_loop posted
          (λ n d. d)
          (λ n. λ _. node)
          (λ n. λ _. zero_item)
          1000
          1
          (res ∷ [])
          dmc
        ≡ ok (false, after)))
    ⊎ (check_read_loop posted
          (λ n d. d)
          (λ n. λ _. node)
          (λ n. λ _. zero_item)
          1000
          1
          (res ∷ [])
          dmc
        ≡ out_of_fuel)
check_read_loop-outcome_example =
    check_read_loop-outcome posted (λ n d. d) (λ n. λ _. node) (λ n. λ _. zero_item) 1000 1 res []
      dmc

abbrev manager : MetaManager
manager = record {
  primary_hash_metas = λ _. some (meta_of store);
  primary_table_nodes = λ _. some 0;
  backup_hash_metas = λ _. [];
  backup_table_nodes = λ _. [];
}

-- The local buffers hold the bucket of key 5.
abbrev local : ℕ → HashNode
local = λ _. heap (bucket_addr store (get_hash store 5))

-- The buffer of a direct read holds an item of another key, so the bucket is read.
abbrev direct : DirectRead
direct = record { qp = 3; item = 0; buf = 60; remote_node = 0 }

abbrev stale : ℕ → DataItem
stale = λ _. record item { key = 6 }

abbrev drop : ℕ → ℕ → ℕ → ℕ
drop = λ cache _ _. cache

known_meta : get_primary_hash_meta manager 7 ≡ ok (meta_of store)
unfolding get_primary_hash_meta
known_meta = refl

known_node : get_primary_node_id manager 7 ≡ ok 0
unfolding get_primary_node_id
known_node = refl

check_direct_one-Direct_example :
    Returns (check_direct_one drop posted manager stale direct item [] dmc 9) (
      Direct drop posted manager store 0 stale direct item [] dmc 9 refl
        (omega arith)
        (omega arith)
        refl
        known_meta
        known_node)
check_direct_one-Direct_example =
    check_direct_one-Direct drop posted manager store 0 stale direct item [] dmc 9 refl
      (omega arith) (omega arith) refl known_meta known_node

-- The path "/a", with a cache that knows every key as a file's
stat_file-outcome_example :
    (stat_file
        (λ (c k i : ℕ). some false)
        (λ c k i. c)
        posted
        manager
        (λ n. n + 3)
        2
        (λ n d. d)
        (λ _. zero_item)
        (λ n. λ _. node)
        (λ n. λ _. zero_item)
        1000
        disaggregated
        (47 ∷ 97 ∷ [])
        dmc
        0
      ≡ out_of_fuel)
    ⊎ ((find_slash 1 (47 ∷ 97 ∷ []) ≡ none)
        × (stat_file
              (λ (c k i : ℕ). some false)
              (λ c k i. c)
              posted
              manager
              (λ n. n + 3)
              2
              (λ n d. d)
              (λ _. zero_item)
              (λ n. λ _. node)
              (λ n. λ _. zero_item)
              1000
              disaggregated
              (47 ∷ 97 ∷ [])
              dmc
              0
            ≡ ok (true, dmc, 0)))
stat_file-outcome_example =
    stat_file-outcome (λ (c k i : ℕ). some false) (λ c k i. c) posted manager (λ n. n + 3) 2
      (λ n d. d) (λ _. zero_item) (λ n. λ _. node) (λ n. λ _. zero_item) 999 disaggregated
      (47 ∷ 97 ∷ []) dmc 0 refl
