-- ===== src/Alloc/Tests.antt =====
-- The allocators run for the first two of four threads.
use disaggregate_metadata_se.Base.{◌+◌, ◌≤◌, ◌≡◌, refl, [], ◌∷◌, arith}
use disaggregate_metadata_se.Base.Run.{ok}
use disaggregate_metadata_se.Alloc.{
  RdmaBufferAllocator, RdmaRegionAllocator, LogOffsetAllocator, alloc, new_buffer_allocator,
  get_thread_local_region, new_log_allocator, get_next_log_offset, global_mr_size, log_buffer_size,
  per_thread_alloc_size,
}
use disaggregate_metadata_se.Alloc.Buffer.{IsAllocator, AllApart, alloc_all, alloc_all-AllApart}
use disaggregate_metadata_se.Alloc.Log.{new-IsLog, entries_apart}
use disaggregate_metadata_se.Alloc.Region.{buffers_apart}

-- Of 100 bytes 96 are used, so the next buffer is the first again.
abbrev small : RdmaBufferAllocator
small = record { start = 1000; end = 1100; cur_offset = 96 }

small-IsAllocator : IsAllocator small
small-IsAllocator = record { used = omega arith }

alloc_again : (alloc small 8).0 ≡ 1000
unfolding alloc
alloc_again = refl

alloc_all-AllApart_example :
    AllApart (alloc_all (new_buffer_allocator 1000 1100) (40 ∷ 40 ∷ 20 ∷ []))
alloc_all-AllApart_example =
    alloc_all-AllApart (40 ∷ 40 ∷ 20 ∷ []) (new_buffer_allocator 1000 1100) (omega arith)

abbrev regions : RdmaRegionAllocator
regions = record { global_mr = 4096; thread_num = 4 }

abbrev first : RdmaBufferAllocator
first = new_buffer_allocator 4096 (4096 + per_thread_alloc_size)

abbrev second : RdmaBufferAllocator
second =
    new_buffer_allocator (4096 + per_thread_alloc_size)
      (4096 + per_thread_alloc_size + per_thread_alloc_size)

first_region : get_thread_local_region regions 0 ≡ ok (first.start, first.end)
unfolding get_thread_local_region
first_region = refl

second_region : get_thread_local_region regions 1 ≡ ok (second.start, second.end)
unfolding get_thread_local_region
second_region = refl

first-IsAllocator : IsAllocator first
first-IsAllocator = record { used = omega arith }

second-IsAllocator : IsAllocator second
second-IsAllocator = record { used = omega arith }

buffers_apart_example :
    (4096 ≤ (alloc first 720).0)
    × ((alloc first 720).0 + 720 ≤ (alloc second 64).0)
    × ((alloc second 64).0 + 64 ≤ 4096 + global_mr_size 4)
buffers_apart_example =
    buffers_apart regions 0 1 (omega arith) (omega arith) first second first_region second_region
      first-IsAllocator second-IsAllocator 720 64 (omega arith) (omega arith)

abbrev garbage : LogOffsetAllocator
garbage = record {
  start_log_offsets = λ _. 9;
  end_log_offsets = λ _. 9;
  current_log_offsets = λ _. 9;
}

entries_apart_example :
    ((get_next_log_offset (new_log_allocator garbage 0 4) 0 100).0 + 100
      ≤ (get_next_log_offset (new_log_allocator garbage 1 4) 2 50).0)
    × ((get_next_log_offset (new_log_allocator garbage 1 4) 2 50).0 + 50 ≤ log_buffer_size)
entries_apart_example =
    entries_apart 4 0 1 0 2 100 50 (omega arith) (omega arith) (new_log_allocator garbage 0 4)
      (new_log_allocator garbage 1 4) (new-IsLog garbage 4 0) (new-IsLog garbage 4 1) (omega arith)
      (omega arith) (omega arith) (omega arith)
