-- ===== src/Alloc.antt =====
-- core/allocator/*.h: where a compute thread puts its RDMA buffers and its remote log entries.
-- An address is a number. `malloc` and the registration of the region are the parameter `global_mr`.
pub mod Buffer
pub mod Log
pub mod Region
mod Tests
use disaggregate_metadata_se.Base.{
  ℕ, zero, suc, ◌+◌, ◌*◌, ◌/◌, Bool, true, false, ltb, if◌then◌else◌, update,
}
use disaggregate_metadata_se.Base.Run.{Run, ok, aborted}

-- RDMABufferAllocator
pub record RdmaBufferAllocator : Type 0 where
  pub start : ℕ
  pub end : ℕ
  pub cur_offset : ℕ

abbrev pub new_buffer_allocator : ℕ → ℕ → RdmaBufferAllocator
new_buffer_allocator s e = record { start = s; end = e; cur_offset = 0 }

-- The buffer and the allocator. An exhausted region is used again from its front.
pub alloc : RdmaBufferAllocator → ℕ → ℕ × RdmaBufferAllocator
alloc b size =
    let cur_offset = if ltb b.end (b.start + b.cur_offset + size) then 0 else b.cur_offset in
    (b.start + cur_offset, record b { cur_offset = cur_offset + size })

-- LogOffsetAllocator
abbrev pub log_buffer_size : ℕ
log_buffer_size = 1024 * 1024 * 1024

-- BACKUP_DEGREE + 1
abbrev pub num_memory_nodes : ℕ
num_memory_nodes = 3

pub record LogOffsetAllocator : Type 0 where
  pub start_log_offsets : ℕ → ℕ
  pub end_log_offsets : ℕ → ℕ
  pub current_log_offsets : ℕ → ℕ

abbrev pub fill_log : ℕ → ℕ → ℕ → LogOffsetAllocator → LogOffsetAllocator
fill_log tid per_thread i a = record {
  start_log_offsets = update a.start_log_offsets i (tid * per_thread);
  end_log_offsets = update a.end_log_offsets i ((tid + 1) * per_thread);
  current_log_offsets = update a.current_log_offsets i 0;
}

-- The loop of the constructor from node `i`, over the nodes left.
pub log_loop : ℕ → ℕ → ℕ → ℕ → LogOffsetAllocator → LogOffsetAllocator
log_loop zero i tid per_thread a = a
log_loop (suc n) i tid per_thread a =
    log_loop n (i + 1) tid per_thread (fill_log tid per_thread i a)

-- `garbage` is what the arrays hold before the constructor.
pub new_log_allocator : LogOffsetAllocator → ℕ → ℕ → LogOffsetAllocator
unfolding log_loop
new_log_allocator garbage tid num_thread =
    log_loop num_memory_nodes 0 tid (log_buffer_size / num_thread) garbage

pub get_next_log_offset : LogOffsetAllocator → ℕ → ℕ → ℕ × LogOffsetAllocator
get_next_log_offset a node_id log_entry_size =
    let start = a.start_log_offsets node_id in
    let current =
      if ltb (a.end_log_offsets node_id) (start + a.current_log_offsets node_id + log_entry_size)
      then 0
      else a.current_log_offsets node_id in
    (
      start + current,
      record a {
        current_log_offsets = update a.current_log_offsets node_id (current + log_entry_size);
      },
    )

-- RDMARegionAllocator
abbrev pub per_thread_alloc_size : ℕ
per_thread_alloc_size = 500 * 1024 * 1024

pub record RdmaRegionAllocator : Type 0 where
  pub global_mr : ℕ
  pub thread_num : ℕ

abbrev pub global_mr_size : ℕ → ℕ
global_mr_size thread_num_per_machine = thread_num_per_machine * per_thread_alloc_size

-- The range [start, end) of a thread.
pub get_thread_local_region : RdmaRegionAllocator → ℕ → Run (ℕ × ℕ)
get_thread_local_region r tid =
    let range : ℕ × ℕ = (
      r.global_mr + tid * per_thread_alloc_size,
      r.global_mr + (tid + 1) * per_thread_alloc_size,
    ) in
    if ltb tid r.thread_num then ok range else aborted
