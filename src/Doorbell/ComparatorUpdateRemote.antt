-- ===== src/Doorbell/ComparatorUpdateRemote.antt =====
-- core/metadata/doorbell.cc, class ComparatorUpdateRemote: an item made invisible, written and released.
use disaggregate_metadata_se.Base.{
  ℕ, ◌%◌, ◌≡◌, Bool, true, false, none, some, [], ◌∷◌, ltb, if◌then◌else◌, add64,
}
use disaggregate_metadata_se.Scheduler.{Scheduler}
use disaggregate_metadata_se.Doorbell.{
  Request, Rcqp, Sent, u32_mod, TripleBatch, new_triple_batch, send_triple, set_write, set_word,
  fill, fill_rdma,
}
use disaggregate_metadata_se.Doorbell.Verbs.{write, triple_posted, low_key}

unfoldable pub set_invisible_req : TripleBatch → ℕ → ℕ → TripleBatch
set_invisible_req b local_addr remote_off = record b {
  first = set_word b.first local_addr remote_off;
}

unfoldable pub set_write_remote_req : TripleBatch → ℕ → ℕ → ℕ → TripleBatch
set_write_remote_req b local_addr remote_off size = record b {
  second = set_write b.second local_addr remote_off size;
}

unfoldable pub set_release_req : TripleBatch → ℕ → ℕ → TripleBatch
set_release_req b local_addr remote_off = record b {
  third = set_word b.third local_addr remote_off;
}

unfoldable pub send_reqs : Bool → Scheduler → Rcqp → ℕ → Bool → TripleBatch → Sent TripleBatch
send_reqs posted s qp coro_id use_cas b = send_triple posted s qp coro_id (record {
  first = fill use_cas b.first qp.remote_mr qp.local_mr.key;
  second = fill_rdma b.second qp.remote_mr qp.local_mr.key;
  third = fill_rdma b.third qp.remote_mr qp.local_mr.key;
})

module _ (r0 r1 r2 : Request) (qp : Rcqp) (coro_id : ℕ) (posted : Bool) (s : Scheduler)
    (lock_buf lock_off : ℕ) (write_buf write_off size : ℕ) (release_buf release_off : ℕ) where
  -- Without `use_cas`, whatever the memory of the batch held before, the requests posted are the
  -- inline marking word, the write, inline below 64 bytes, and the inline releasing word, in this
  -- order at the absolute remote addresses, and only the last reports back, to its coroutine.
  pub release-posted :
      triple_posted
        (send_reqs posted s qp coro_id false (
          set_release_req
            (set_write_remote_req
              (set_invisible_req (new_triple_batch r0 r1 r2) lock_buf lock_off)
              write_buf
              write_off
              size)
            release_buf
            release_off)).batch
      ≡ record {
        verb =
            write
              (add64 lock_off qp.remote_mr.buf)
              (qp.remote_mr.key % u32_mod)
              lock_buf
              8
              qp.local_mr.key;
        inline = true;
        completes = none;
      }
        ∷ record {
          verb =
              write
                (add64 write_off qp.remote_mr.buf)
                (qp.remote_mr.key % u32_mod)
                write_buf
                (size % u32_mod)
                qp.local_mr.key;
          inline = if ltb size 64 then true else false;
          completes = none;
        }
        ∷ record {
          verb =
              write
                (add64 release_off qp.remote_mr.buf)
                (qp.remote_mr.key % u32_mod)
                release_buf
                8
                qp.local_mr.key;
          inline = true;
          completes = some coro_id;
        }
        ∷ []
  unfolding send_reqs set_invisible_req set_write_remote_req set_release_req new_triple_batch
  release-posted = rw (
    low_key r0.compare_add qp.remote_mr.key,
    low_key r1.compare_add qp.remote_mr.key,
    low_key r2.compare_add qp.remote_mr.key,
  )
