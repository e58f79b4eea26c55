-- ===== src/Doorbell/Tests.antt =====
-- Every batch sent once, over memory that held other requests before.
use disaggregate_metadata_se.Base.{◌+◌, ◌^◌, ◌≡◌, Bool, true, false, none, some, [], ◌∷◌}
use disaggregate_metadata_se.Scheduler.{Scheduler, new_scheduler}
use disaggregate_metadata_se.Doorbell.{Opcode, Request, Rcqp, new_doorbell_batch, new_triple_batch}
use disaggregate_metadata_se.Doorbell.Verbs.{
  Verb, Posted, cas, write, read, pair_posted, triple_posted,
}
use disaggregate_metadata_se.Doorbell.LockReadBatch
use disaggregate_metadata_se.Doorbell.WriteUnlockBatch
use disaggregate_metadata_se.Doorbell.InvisibleWriteBatch
use disaggregate_metadata_se.Doorbell.InvisibleWriteFlushBatch
use disaggregate_metadata_se.Doorbell.ComparatorUpdateRemote

abbrev old : Request
old = record {
  opcode = Opcode.rdma_read;
  signaled = true;
  inline = true;
  remote_addr = 5;
  compare_add = 2 ^ 40 + 6;
  swap = 7;
  atomic_rkey = 8;
  wr_id = 9;
  addr = 10;
  sge_length = 11;
  lkey = 12;
}

abbrev qp : Rcqp
qp = record {
  remote_mr = record { buf = 1000; key = 77 };
  local_mr = record { buf = 2000; key = 88 };
  id = 3;
}

abbrev s : Scheduler
s = new_scheduler (λ _. 0) (λ _. 0) 0 0

abbrev entry : Verb → Bool → Posted
entry verb inline = record { verb = verb; inline = inline; completes = none }

abbrev last_entry : Verb → Bool → Posted
last_entry verb inline = record { verb = verb; inline = inline; completes = some 4 }

send_reqs-posted_example :
    pair_posted
      (LockReadBatch.send_reqs true s qp 4 (
        LockReadBatch.set_read_req
          (LockReadBatch.set_lock_req (new_doorbell_batch old old) 100 16 0 1)
          200
          720
          720)).batch
    ≡ entry (cas 1016 77 0 1 100 88) false ∷ last_entry (read 1720 77 200 720 88) false ∷ []
send_reqs-posted_example = LockReadBatch.send_reqs-posted old old qp 4 true s 100 16 0 1 200 720 720

unlock-posted_example :
    pair_posted
      (WriteUnlockBatch.send_reqs true s qp 4 false
        (WriteUnlockBatch.set_reqs old old qp 4 true s 200 720 720 100 16 1 0 false)).batch
    ≡ entry (write 1720 77 200 720 88) false ∷ last_entry (write 1016 77 100 8 88) true ∷ []
unlock-posted_example =
    WriteUnlockBatch.unlock-posted old old qp 4 true s 200 720 720 100 16 1 0 false

invisible-posted_example :
    pair_posted
      (InvisibleWriteBatch.send_reqs true s qp 4 true
        (InvisibleWriteBatch.set_reqs old old qp 4 true s 100 16 0 1 200 720 32 true)).batch
    ≡ entry (cas 1016 77 0 1 100 88) false ∷ last_entry (write 1720 77 200 32 88) true ∷ []
invisible-posted_example =
    InvisibleWriteBatch.invisible-posted old old qp 4 true s 100 16 0 1 200 720 32 true

invisible_flush-posted_example :
    triple_posted
      (InvisibleWriteFlushBatch.send_reqs true s qp 4 false (
        InvisibleWriteFlushBatch.set_read_remote_req
          (InvisibleWriteFlushBatch.set_write_remote_req
            (InvisibleWriteFlushBatch.set_invisible_req (new_triple_batch old old old) 100 16)
            200
            720
            720)
          300
          720
          1)).batch
    ≡ entry (write 1016 77 100 8 88) true
      ∷ entry (write 1720 77 200 720 88) false
      ∷ last_entry (read 1720 77 300 1 88) false
      ∷ []
invisible_flush-posted_example =
    InvisibleWriteFlushBatch.invisible_flush-posted old old old qp 4 true s 100 16 200 720 720 300
      720 1

release-posted_example :
    triple_posted
      (ComparatorUpdateRemote.send_reqs true s qp 4 false (
        ComparatorUpdateRemote.set_release_req
          (ComparatorUpdateRemote.set_write_remote_req
            (ComparatorUpdateRemote.set_invisible_req (new_triple_batch old old old) 100 16)
            200
            720
            720)
          100
          16)).batch
    ≡ entry (write 1016 77 100 8 88) true
      ∷ entry (write 1720 77 200 720 88) false
      ∷ last_entry (write 1016 77 100 8 88) true
      ∷ []
release-posted_example =
    ComparatorUpdateRemote.release-posted old old old qp 4 true s 100 16 200 720 720 100 16
