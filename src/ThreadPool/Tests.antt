-- ===== src/ThreadPool/Tests.antt =====
-- core/util/thread_pool.h: a pool of one thread with one task, as its destructor begins.
use disaggregate_metadata_se.Base.{◌≡◌, refl, true, [], ◌∷◌, arith}
use disaggregate_metadata_se.ThreadPool.{ThreadPool, new_thread_pool, enqueue, request_stop}
use disaggregate_metadata_se.ThreadPool.Steps.{
  Reach, here, next, enqueues, stops, IsPool, Reach-IsPool,
}
use disaggregate_metadata_se.ThreadPool.Ends.{Ends, destructor-Ends}

abbrev queued : ThreadPool
queued = record (new_thread_pool 1) { tasks = 7 ∷ []; notifying = 1 }

reach_queued : Reach (new_thread_pool 1) (7 ∷ []) queued
unfolding new_thread_pool enqueue
reach_queued = next here (enqueues 7 refl)

reach_stopped : Reach (new_thread_pool 1) (7 ∷ []) (request_stop queued)
unfolding new_thread_pool
reach_stopped = next reach_queued (stops refl refl)

stopped : (request_stop queued).stop ≡ true
unfolding request_stop
stopped = refl

Reach-IsPool_example : IsPool 1 (7 ∷ []) queued
Reach-IsPool_example = Reach-IsPool 1 (omega arith) reach_queued

destructor-Ends_example : Ends (7 ∷ []) (request_stop queued)
destructor-Ends_example =
    destructor-Ends 1 (7 ∷ []) (request_stop queued) (omega arith) reach_stopped stopped
