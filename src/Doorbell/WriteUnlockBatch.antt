-- ===== src/Doorbell/WriteUnlockBatch.antt =====
-- core/metadata/doorbell.cc, class WriteUnlockBatch: a write to the primary and the release of its lock.
use disaggregate_metadata_se.Base.{
  ℕ, ◌%◌, ◌≡◌, Bool, true, false, none, some, [], ◌∷◌, ltb, if◌then◌else◌, add64,
}
use disaggregate_metadata_se.Scheduler.{Scheduler}
use disaggregate_metadata_se.Doorbell.{
  Request, Rcqp, Sent, u32_mod, DoorbellBatch, new_doorbell_batch, send_pair, set_cas, set_write,
  set_word, fill, fill_rdma,
}
use disaggregate_metadata_se.Doorbell.Verbs.{cas, write, pair_posted, low_key}

unfoldable pub set_write_primary_req : DoorbellBatch → ℕ → ℕ → ℕ → DoorbellBatch
set_write_primary_req b local_addr remote_off size = record b {
  first = set_write b.first local_addr remote_off size;
}

unfoldable pub set_unlock_req : DoorbellBatch → ℕ → ℕ → DoorbellBatch
set_unlock_req b local_addr remote_off = record b {
  second = set_word b.second local_addr remote_off;
}

-- The overload with a compare and swap.
unfoldable pub set_unlock_req_cas : DoorbellBatch → ℕ → ℕ → ℕ → ℕ → DoorbellBatch
set_unlock_req_cas b local_addr remote_off compare swap = record b {
  second = set_cas b.second local_addr remote_off compare swap;
}

unfoldable pub send_reqs : Bool → Scheduler → Rcqp → ℕ → Bool → DoorbellBatch → Sent DoorbellBatch
send_reqs posted s qp coro_id use_cas b = send_pair posted s qp coro_id (record {
  first = fill_rdma b.first qp.remote_mr qp.local_mr.key;
  second = fill use_cas b.second qp.remote_mr qp.local_mr.key;
})

module _ (r0 r1 : Request) (qp : Rcqp) (coro_id : ℕ) (posted : Bool) (s : Scheduler)
    (write_buf write_off size : ℕ) (lock_buf lock_off compare swap : ℕ) where
  -- The batch with the one or the other release.
  abbrev pub set_reqs : Bool → DoorbellBatch
  set_reqs use_cas =
      let b = set_write_primary_req (new_doorbell_batch r0 r1) write_buf write_off size in
      if use_cas
      then set_unlock_req_cas b lock_buf lock_off compare swap
      else set_unlock_req b lock_buf lock_off

  -- Whatever the memory of the batch held before, the requests posted are the write, inline below
  -- 64 bytes, and then the release, a compare and swap or an inline word as `use_cas` tells, both
  -- at the absolute remote addresses, and only the release reports back, to its coroutine.
  pub unlock-posted :
      (use_cas : Bool)
      → pair_posted (send_reqs posted s qp coro_id use_cas (set_reqs use_cas)).batch
        ≡ record {
          verb =
              write
                (add64 write_off qp.remote_mr.buf)
                (qp.remote_mr.key % u32_mod)
                write_buf
                (size % u32_mod)
                qp.local_mr.key;
          inline = if ltb size 64 then true else false;
          completes = none;
        }
          ∷ (if use_cas
              then record {
                verb =
                    cas
                      (add64 lock_off qp.remote_mr.buf)
                      (qp.remote_mr.key % u32_mod)
                      compare
                      swap
                      lock_buf
                      qp.local_mr.key;
                inline = false;
                completes = some coro_id;
              }
              else record {
                verb =
                    write
                      (add64 lock_off qp.remote_mr.buf)
                      (qp.remote_mr.key % u32_mod)
                      lock_buf
                      8
                      qp.local_mr.key;
                inline = true;
                completes = some coro_id;
              })
          ∷ []
  unfolding send_reqs set_write_primary_req set_unlock_req set_unlock_req_cas new_doorbell_batch
  unlock-posted true = rw (low_key r0.compare_add qp.remote_mr.key)
  unlock-posted false =
      rw (low_key r0.compare_add qp.remote_mr.key, low_key r1.compare_add qp.remote_mr.key)
