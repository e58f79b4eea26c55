-- ===== src/Doorbell/WriteFlushBatch.antt =====
-- core/metadata/doorbell.cc, class WriteFlushBatch: a write to a given region, and the read that flushes it.
use disaggregate_metadata_se.Base.{
  ℕ, ◌%◌, ◌≡◌, Bool, true, false, none, some, [], ◌∷◌, ltb, if◌then◌else◌, add64,
}
use disaggregate_metadata_se.Scheduler.{Scheduler}
use disaggregate_metadata_se.Doorbell.{
  Request, Rcqp, MemoryAttr, Sent, u32_mod, DoorbellBatch, new_doorbell_batch, send_pair, set_write,
  set_read, fill_rdma,
}
use disaggregate_metadata_se.Doorbell.Verbs.{write, read, pair_posted, low_key}

unfoldable pub set_write_remote_req : DoorbellBatch → ℕ → ℕ → ℕ → DoorbellBatch
set_write_remote_req b local_addr remote_off size = record b {
  first = set_write b.first local_addr remote_off size;
}

unfoldable pub set_read_remote_req : DoorbellBatch → ℕ → ℕ → ℕ → DoorbellBatch
set_read_remote_req b local_addr remote_off size = record b {
  second = set_read b.second local_addr remote_off size;
}

unfoldable pub send_reqs :
    Bool → Scheduler → Rcqp → ℕ → MemoryAttr → DoorbellBatch → Sent DoorbellBatch
send_reqs posted s qp coro_id remote_mr b = send_pair posted s qp coro_id (record {
  first = fill_rdma b.first remote_mr qp.local_mr.key;
  second = fill_rdma b.second remote_mr qp.local_mr.key;
})

module _ (r0 r1 : Request) (qp : Rcqp) (coro_id : ℕ) (posted : Bool) (s : Scheduler)
    (remote_mr : MemoryAttr) (write_buf write_off size : ℕ) (read_buf read_off read_size : ℕ) where
  -- Whatever the memory of the batch held before, the requests posted are the write, inline below
  -- 64 bytes, and then the flushing read, both into the region given and not the queue pair's own,
  -- and only the read reports back, to its coroutine.
  pub flush-posted :
      pair_posted
        (send_reqs posted s qp coro_id remote_mr (
          set_read_remote_req
            (set_write_remote_req (new_doorbell_batch r0 r1) write_buf write_off size)
            read_buf
            read_off
            read_size)).batch
      ≡ record {
        verb =
            write
              (add64 write_off remote_mr.buf)
              (remote_mr.key % u32_mod)
              write_buf
              (size % u32_mod)
              qp.local_mr.key;
        inline = if ltb size 64 then true else false;
        completes = none;
      }
        ∷ record {
          verb =
              read
                (add64 read_off remote_mr.buf)
                (remote_mr.key % u32_mod)
                read_buf
                (read_size % u32_mod)
                qp.local_mr.key;
          inline = false;
          completes = some coro_id;
        }
        ∷ []
  unfolding send_reqs set_write_remote_req set_read_remote_req new_doorbell_batch
  flush-posted = rw (low_key r0.compare_add remote_mr.key, low_key r1.compare_add remote_mr.key)
