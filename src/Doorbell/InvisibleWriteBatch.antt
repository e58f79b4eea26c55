-- ===== src/Doorbell/InvisibleWriteBatch.antt =====
-- core/metadata/doorbell.cc, class InvisibleWriteBatch: an item made invisible, and the write of it.
use disaggregate_metadata_se.Base.{
  ℕ, ◌%◌, ◌≡◌, refl, Bool, true, false, none, some, [], ◌∷◌, ltb, if◌then◌else◌, add64,
}
use disaggregate_metadata_se.Scheduler.{Scheduler, rdma_batch_sync}
use disaggregate_metadata_se.Doorbell.{
  Request, Rcqp, Sent, u32_mod, DoorbellBatch, new_doorbell_batch, send_pair, send_pair_sync,
  set_cas, set_write, set_word, fill, fill_rdma,
}
use disaggregate_metadata_se.Doorbell.Verbs.{cas, write, pair_posted, low_key}

unfoldable pub set_invisible_req : DoorbellBatch → ℕ → ℕ → DoorbellBatch
set_invisible_req b local_addr remote_off = record b {
  first = set_word b.first local_addr remote_off;
}

unfoldable pub set_write_remote_req : DoorbellBatch → ℕ → ℕ → ℕ → DoorbellBatch
set_write_remote_req b local_addr remote_off size = record b {
  second = set_write b.second local_addr remote_off size;
}

-- The overload with a compare and swap.
unfoldable pub set_invisible_req_cas : DoorbellBatch → ℕ → ℕ → ℕ → ℕ → DoorbellBatch
set_invisible_req_cas b local_addr remote_off compare swap = record b {
  first = set_cas b.first local_addr remote_off compare swap;
}

unfoldable pub send_reqs : Bool → Scheduler → Rcqp → ℕ → Bool → DoorbellBatch → Sent DoorbellBatch
send_reqs posted s qp coro_id use_cas b = send_pair posted s qp coro_id (record {
  first = fill use_cas b.first qp.remote_mr qp.local_mr.key;
  second = fill_rdma b.second qp.remote_mr qp.local_mr.key;
})

unfoldable pub send_reqs_sync :
    Bool → Bool → Scheduler → Rcqp → ℕ → Bool → DoorbellBatch → Sent DoorbellBatch
send_reqs_sync posted polled s qp coro_id use_cas b =
    send_pair_sync posted polled s qp coro_id (record {
      first = fill use_cas b.first qp.remote_mr qp.local_mr.key;
      second = fill_rdma b.second qp.remote_mr qp.local_mr.key;
    })

sync_same : (posted polled : Bool) (s : Scheduler) → (rdma_batch_sync posted polled s).1 ≡ s
unfolding rdma_batch_sync
sync_same false polled s = refl
sync_same true false s = refl
sync_same true true s = refl

module _ (r0 r1 : Request) (qp : Rcqp) (coro_id : ℕ) (posted : Bool) (s : Scheduler)
    (lock_buf lock_off compare swap : ℕ) (write_buf write_off size : ℕ) where
  abbrev pub set_reqs : Bool → DoorbellBatch
  set_reqs use_cas =
      let b = new_doorbell_batch r0 r1 in
      let locked =
        if use_cas
        then set_invisible_req_cas b lock_buf lock_off compare swap
        else set_invisible_req b lock_buf lock_off in
      set_write_remote_req locked write_buf write_off size

  -- Whatever the memory of the batch held before, the requests posted are the marking, a compare
  -- and swap or an inline word as `use_cas` tells, and then the write, inline below 64 bytes, both
  -- at the absolute remote addresses, and only the write reports back, to its coroutine.
  pub invisible-posted :
      (use_cas : Bool)
      → pair_posted (send_reqs posted s qp coro_id use_cas (set_reqs use_cas)).batch
        ≡ (if use_cas
            then record {
              verb =
                  cas
                    (add64 lock_off qp.remote_mr.buf)
                    (qp.remote_mr.key % u32_mod)
                    compare
                    swap
                    lock_buf
                    qp.local_mr.key;
              inline = false;
              completes = none;
            }
            else record {
              verb =
                  write
                    (add64 lock_off qp.remote_mr.buf)
                    (qp.remote_mr.key % u32_mod)
                    lock_buf
                    8
                    qp.local_mr.key;
              inline = true;
              completes = none;
            })
          ∷ record {
            verb =
                write
                  (add64 write_off qp.remote_mr.buf)
                  (qp.remote_mr.key % u32_mod)
                  write_buf
                  (size % u32_mod)
                  qp.local_mr.key;
            inline = if ltb size 64 then true else false;
            completes = some coro_id;
          }
          ∷ []
  unfolding send_reqs set_write_remote_req set_invisible_req set_invisible_req_cas
      new_doorbell_batch
  invisible-posted true = rw (low_key r1.compare_add qp.remote_mr.key)
  invisible-posted false =
      rw (low_key r0.compare_add qp.remote_mr.key, low_key r1.compare_add qp.remote_mr.key)

  -- The send that waits on the spot posts the same requests as the one that does not, and leaves
  -- the scheduler as it was.
  pub invisible_sync-posted :
      (polled use_cas : Bool)
      → (pair_posted (send_reqs_sync posted polled s qp coro_id use_cas (set_reqs use_cas)).batch
          ≡ pair_posted (send_reqs posted s qp coro_id use_cas (set_reqs use_cas)).batch)
        × ((send_reqs_sync posted polled s qp coro_id use_cas (set_reqs use_cas)).coro_sched ≡ s)
  unfolding send_reqs send_reqs_sync
  invisible_sync-posted polled use_cas = (refl, sync_same posted polled s)
