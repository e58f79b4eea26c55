-- ===== src/Dmc.antt =====
-- core/metadata/dmc.h, dmc_issue.cc, dmc_check.cc, dmc_check_reader.cc, inode.h: how a compute node reads
-- items of the memory nodes, by one-sided reads of an address it knows or of the bucket of the key.
-- A `DataSetItem*` is its index in `reader_set`. The local buffers are functions of their address, and
-- whether the network card takes a read is the parameter `posted`.
pub mod Issue
pub mod Check
pub mod Remote
pub mod Direct
pub mod ReadOnly
pub mod StatFile
pub mod Path
mod Tests
use disaggregate_metadata_se.Base.{
  ℕ, zero, suc, ◌+◌, ◌-◌, ◌*◌, ◌%◌, Bool, true, false, not, ◌&&◌, Option, none, some, List, [], ◌∷◌,
  ◌++◌, ◌==◌, if◌then◌else◌, modify, add64, mul64, sub64, u64_mod,
}
use disaggregate_metadata_se.Base.Run.{Run, ok, aborted, fault, out_of_fuel, ◌>>=◌}
use disaggregate_metadata_se.Hash.{murmur_hash64a}
use disaggregate_metadata_se.Item.{DataItem, data_item_size, is_valid}
use disaggregate_metadata_se.HashStore.{HashNode, hash_node_size}
use disaggregate_metadata_se.Scheduler.{Scheduler, rdma_read}
use disaggregate_metadata_se.Alloc.{RdmaBufferAllocator, alloc}
use disaggregate_metadata_se.Meta.{
  HashMeta, MetaManager, get_primary_hash_meta, get_primary_node_id,
}

-- `read_which_node` is an `int`, -1 at first.
pub record DataSetItem : Type 0 where
  pub item_ptr : DataItem
  pub is_fetched : Bool
  pub offset : ℕ
  pub read_which_node : Option ℕ

-- NOT_FOUND, -1 as a word
abbrev pub not_found : ℕ
not_found = u64_mod - 1

pub record DirectRead : Type 0 where
  pub qp : ℕ
  pub item : ℕ
  pub buf : ℕ
  pub remote_node : ℕ

pub record HashRead : Type 0 where
  pub qp : ℕ
  pub item : ℕ
  pub buf : ℕ
  pub remote_node : ℕ
  pub meta : HashMeta

-- A read that was given to a queue pair.
pub record Read : Type 0 where
  pub qp : ℕ
  pub buf : ℕ
  pub offset : ℕ
  pub size : ℕ

pub record Dmc : Type 0 where
  pub reader_set : List DataSetItem
  pub updater_set : List DataSetItem
  pub writer_set : List DataSetItem
  pub insert_set : List DataSetItem
  pub coro_id : ℕ
  pub coro_sched : Scheduler
  pub rdma_buffer_alloc : RdmaBufferAllocator
  pub reads : List Read

unfoldable pub begin : Dmc → Dmc
begin d = record d { reader_set = []; updater_set = []; writer_set = []; insert_set = [] }

-- The initializer names no `offset`, so it is 0.
abbrev pub new_set_item : DataItem → DataSetItem
new_set_item item = record {
  item_ptr = item;
  is_fetched = false;
  offset = 0;
  read_which_node = none;
}

unfoldable pub add_to_reader_set : Dmc → DataItem → Dmc
add_to_reader_set d item = record d { reader_set = d.reader_set ++ new_set_item item ∷ [] }

unfoldable pub add_to_updater_set : Dmc → DataItem → Dmc
add_to_updater_set d item = record d { updater_set = d.updater_set ++ new_set_item item ∷ [] }

unfoldable pub add_to_writer_set : Dmc → DataItem → Dmc
add_to_writer_set d item = record d { writer_set = d.writer_set ++ new_set_item item ∷ [] }

unfoldable pub add_to_insert_set : Dmc → DataItem → Dmc
add_to_insert_set d item = record d { insert_set = d.insert_set ++ new_set_item item ∷ [] }

-- The offset of a key's first bucket in the remote region, and of the node that a fetched one points at.
unfoldable pub bucket_offset : HashMeta → ℕ → ℕ
bucket_offset meta key =
    add64 (mul64 (murmur_hash64a key 0xdeadbeef % meta.bucket_num) meta.node_size) meta.base_off

unfoldable pub next_offset : HashMeta → ℕ → ℕ
next_offset meta next = add64 (sub64 next meta.data_ptr) meta.base_off

module _ (posted : Read → Bool) where
  -- `coro_sched->RDMARead`
  abbrev pub post_read : Dmc → Read → Bool × Dmc
  post_read d r =
      let result = rdma_read (posted r) d.coro_sched d.coro_id r.qp in
      (result.0, record d { coro_sched = result.1; reads = d.reads ++ r ∷ [] })
