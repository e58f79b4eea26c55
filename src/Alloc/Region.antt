-- ===== src/Alloc/Region.antt =====
-- The regions of the threads: within what is registered, and apart, so that the buffers of two threads
-- never share a byte.
use native.Mathlib.Nat.{mul-le-mul_right}
use disaggregate_metadata_se.Base.{ℕ, ◌+◌, ◌*◌, ◌<◌, ◌≤◌, ◌≡◌, refl, inl, lt→ltb, arith}
use disaggregate_metadata_se.Base.Run.{ok, returned}
use disaggregate_metadata_se.Alloc.{
  RdmaRegionAllocator, RdmaBufferAllocator, alloc, get_thread_local_region, global_mr_size,
  per_thread_alloc_size,
}
use disaggregate_metadata_se.Alloc.Buffer.{IsAllocator, alloc-Allocated}

-- The region of thread `tid`.
abbrev pub region_start : RdmaRegionAllocator → ℕ → ℕ
region_start r tid = r.global_mr + tid * per_thread_alloc_size

pub region-Returns :
    (r : RdmaRegionAllocator) (tid : ℕ)
    → tid < r.thread_num
    → get_thread_local_region r tid ≡ ok (region_start r tid, region_start r (tid + 1))
unfolding get_thread_local_region
region-Returns r tid lt = rw (lt→ltb tid r.thread_num lt)

-- The bounds of an allocator made of the region.
bounds-of :
    (r : RdmaRegionAllocator) (tid : ℕ) (b : RdmaBufferAllocator)
    → tid < r.thread_num
    → get_thread_local_region r tid ≡ ok (b.start, b.end)
    → (b.start ≡ region_start r tid) × (b.end ≡ region_start r (tid + 1))
bounds-of r tid b lt e =
    returned (get_thread_local_region r tid)
      (λ q. (q.0 ≡ region_start r tid) × (q.1 ≡ region_start r (tid + 1))) (b.start, b.end)
      (inl ((region_start r tid, region_start r (tid + 1)), region-Returns r tid lt, (refl, refl)))
      e

pub region_start-le :
    (r : RdmaRegionAllocator) (t u : ℕ) → t ≤ u → region_start r t ≤ region_start r u
region_start-le r t u le =
    let m : t * per_thread_alloc_size ≤ u * per_thread_alloc_size =
      mul-le-mul_right per_thread_alloc_size le in
    omega (arith, m)

module _ (r : RdmaRegionAllocator) (t u : ℕ) (before : t < u) (last : u < r.thread_num)
    (a b : RdmaBufferAllocator) (of_t : get_thread_local_region r t ≡ ok (a.start, a.end))
    (of_u : get_thread_local_region r u ≡ ok (b.start, b.end)) (well_a : IsAllocator a)
    (well_b : IsAllocator b) (x y : ℕ) (fits_a : x ≤ per_thread_alloc_size)
    (fits_b : y ≤ per_thread_alloc_size) where
  -- Of the allocators of two threads, each in its region with its cursor within it, buffers no
  -- larger than a region are both in the registered memory, and the earlier thread's ends before
  -- the later one's starts.
  pub buffers_apart :
      (r.global_mr ≤ (alloc a x).0)
      × ((alloc a x).0 + x ≤ (alloc b y).0)
      × ((alloc b y).0 + y ≤ r.global_mr + global_mr_size r.thread_num)
  buffers_apart =
      let bounds_a = bounds-of r t a (omega arith) of_t in
      let bounds_b = bounds-of r u b last of_u in
      let got_a = (alloc-Allocated a x well_a (omega (arith, bounds_a.0, bounds_a.1))).inside in
      let got_b = (alloc-Allocated b y well_b (omega (arith, bounds_b.0, bounds_b.1))).inside in
      let next = region_start-le r (t + 1) u (omega arith) in
      let end = region_start-le r (u + 1) r.thread_num (omega arith) in
      (
        omega (arith, got_a.0, bounds_a.0),
        omega (arith, got_a.1, got_b.0, bounds_a.1, bounds_b.0, next),
        omega (arith, got_b.1, bounds_b.1, end),
      )
