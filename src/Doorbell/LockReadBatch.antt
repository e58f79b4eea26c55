-- ===== src/Doorbell/LockReadBatch.antt =====
-- core/metadata/doorbell.cc, class LockReadBatch: a lock and a read of what it guards.
use disaggregate_metadata_se.Base.{ℕ, ◌%◌, ◌≡◌, Bool, false, none, some, [], ◌∷◌, add64}
use disaggregate_metadata_se.Scheduler.{Scheduler}
use disaggregate_metadata_se.Doorbell.{
  Request, Rcqp, Sent, u32_mod, DoorbellBatch, new_doorbell_batch, send_pair, set_cas, set_read,
  fill_atomic, fill_rdma,
}
use disaggregate_metadata_se.Doorbell.Verbs.{cas, read, pair_posted, low_key}

unfoldable pub set_lock_req : DoorbellBatch → ℕ → ℕ → ℕ → ℕ → DoorbellBatch
set_lock_req b local_addr remote_off compare swap = record b {
  first = set_cas b.first local_addr remote_off compare swap;
}

unfoldable pub set_read_req : DoorbellBatch → ℕ → ℕ → ℕ → DoorbellBatch
set_read_req b local_addr remote_off size = record b {
  second = set_read b.second local_addr remote_off size;
}

-- The batch that `fill_params` leaves. It promises a `bool` and returns none.
unfoldable pub fill_params : Rcqp → DoorbellBatch → DoorbellBatch
fill_params qp b = record {
  first = fill_atomic b.first qp.remote_mr qp.local_mr.key;
  second = fill_rdma b.second qp.remote_mr qp.local_mr.key;
}

unfoldable pub send_reqs : Bool → Scheduler → Rcqp → ℕ → DoorbellBatch → Sent DoorbellBatch
send_reqs posted s qp coro_id b = send_pair posted s qp coro_id (record {
  first = fill_atomic b.first qp.remote_mr qp.local_mr.key;
  second = fill_rdma b.second qp.remote_mr qp.local_mr.key;
})

module _ (r0 r1 : Request) (qp : Rcqp) (coro_id : ℕ) (posted : Bool) (s : Scheduler)
    (lock_buf lock_off compare swap : ℕ) (read_buf read_off size : ℕ) where
  -- Whatever the memory of the batch held before, the requests posted are the compare and swap and
  -- then the read, both at the absolute remote addresses with the keys of the queue pair, and only
  -- the read reports back, to the coroutine that sent them.
  pub send_reqs-posted :
      pair_posted
        (send_reqs posted s qp coro_id (
          set_read_req
            (set_lock_req (new_doorbell_batch r0 r1) lock_buf lock_off compare swap)
            read_buf
            read_off
            size)).batch
      ≡ record {
        verb =
            cas
              (add64 lock_off qp.remote_mr.buf)
              (qp.remote_mr.key % u32_mod)
              compare
              swap
              lock_buf
              qp.local_mr.key;
        inline = false;
        completes = none;
      }
        ∷ record {
          verb =
              read
                (add64 read_off qp.remote_mr.buf)
                (qp.remote_mr.key % u32_mod)
                read_buf
                (size % u32_mod)
                qp.local_mr.key;
          inline = false;
          completes = some coro_id;
        }
        ∷ []
  unfolding send_reqs set_read_req set_lock_req new_doorbell_batch
  send_reqs-posted = rw (low_key r1.compare_add qp.remote_mr.key)
