-- ===== src/Doorbell.antt =====
-- core/metadata/doorbell.h and .cc: RDMA requests that go to a queue pair in one doorbell.
-- The arrays `sr` and `sge` of a batch are its requests in order, which is how the constructors link them.
-- The union `wr` is its words: the remote address, the compare word (whose low half is `rdma.rkey`),
-- the swap word and `atomic.rkey`. The flags of `send_flags` that the code uses are two Booleans.
pub mod Verbs
pub mod LockReadBatch
pub mod WriteUnlockBatch
pub mod InvisibleWriteBatch
pub mod WriteFlushBatch
pub mod InvisibleWriteFlushBatch
pub mod ComparatorUpdateRemote
mod Tests
use disaggregate_metadata_se.Base.{
  ℕ, ◌+◌, ◌*◌, ◌/◌, ◌%◌, ◌^◌, Bool, true, false, ltb, if◌then◌else◌, add64,
}
use disaggregate_metadata_se.Scheduler.{Scheduler, rdma_batch, rdma_batch_sync}

pub data Opcode : Type 0 where
  rdma_write rdma_read atomic_cmp_and_swp : Opcode

abbrev pub u32_mod : ℕ
u32_mod = 2 ^ 32

-- `ibv_send_wr` with its `ibv_sge`
pub record Request : Type 0 where
  pub opcode : Opcode
  pub signaled : Bool
  pub inline : Bool
  pub remote_addr : ℕ
  pub compare_add : ℕ
  pub swap : ℕ
  pub atomic_rkey : ℕ
  pub wr_id : ℕ
  pub addr : ℕ
  pub sge_length : ℕ
  pub lkey : ℕ

pub record MemoryAttr : Type 0 where
  pub buf : ℕ
  pub key : ℕ

-- What the code reads of an `RCQP`.
pub record Rcqp : Type 0 where
  pub remote_mr : MemoryAttr
  pub local_mr : MemoryAttr
  pub id : ℕ

-- `wr.rdma.rkey = key`, the low half of the compare word.
abbrev pub set_rdma_rkey : Request → ℕ → Request
set_rdma_rkey r key = record r { compare_add = r.compare_add / u32_mod * u32_mod + key % u32_mod }

-- The groups of assignments that the methods share.
abbrev pub set_cas : Request → ℕ → ℕ → ℕ → ℕ → Request
set_cas r local_addr remote_off compare swap = record r {
  opcode = Opcode.atomic_cmp_and_swp;
  remote_addr = remote_off;
  compare_add = compare;
  swap = swap;
  sge_length = 8;
  addr = local_addr;
}

abbrev pub set_write : Request → ℕ → ℕ → ℕ → Request
set_write r local_addr remote_off size = record r {
  opcode = Opcode.rdma_write;
  remote_addr = remote_off;
  addr = local_addr;
  sge_length = size % u32_mod;
  inline = if ltb size 64 then true else r.inline;
}

-- A word, always inline.
abbrev pub set_word : Request → ℕ → ℕ → Request
set_word r local_addr remote_off = record r {
  opcode = Opcode.rdma_write;
  inline = true;
  remote_addr = remote_off;
  addr = local_addr;
  sge_length = 8;
}

abbrev pub set_read : Request → ℕ → ℕ → ℕ → Request
set_read r local_addr remote_off size = record r {
  opcode = Opcode.rdma_read;
  remote_addr = remote_off;
  addr = local_addr;
  sge_length = size % u32_mod;
}

-- The address made absolute, and the keys, through the one or the other member of the union.
abbrev pub fill_atomic : Request → MemoryAttr → ℕ → Request
fill_atomic r mr lkey = record r {
  remote_addr = add64 r.remote_addr mr.buf;
  atomic_rkey = mr.key % u32_mod;
  lkey = lkey;
}

abbrev pub fill_rdma : Request → MemoryAttr → ℕ → Request
fill_rdma r mr lkey =
    set_rdma_rkey (record r { remote_addr = add64 r.remote_addr mr.buf; lkey = lkey }) mr.key

abbrev pub fill : Bool → Request → MemoryAttr → ℕ → Request
fill use_cas r mr lkey = if use_cas then fill_atomic r mr lkey else fill_rdma r mr lkey

-- DoorbellBatch. The memory it is made in holds any requests before.
pub record DoorbellBatch : Type 0 where
  pub first : Request
  pub second : Request

unfoldable pub new_doorbell_batch : Request → Request → DoorbellBatch
new_doorbell_batch r0 r1 = record {
  first = record r0 { signaled = false; inline = false };
  second = record r1 { signaled = true; inline = false };
}

-- What `RDMABatch` posts and reports; `posted` is what `post_batch` reports.
pub record Sent (B : Type 0) : Type 0 where
  pub batch : B
  pub result : Bool
  pub coro_sched : Scheduler

abbrev pub send_pair : Bool → Scheduler → Rcqp → ℕ → DoorbellBatch → Sent DoorbellBatch
send_pair posted s qp coro_id b =
    let r = rdma_batch posted s coro_id qp.id in
    record {
      batch = record b { second = record b.second { wr_id = coro_id } };
      result = r.0;
      coro_sched = r.1;
    }

-- `RDMABatchSync`; `polled` is what `poll_till_completion` reports.
abbrev pub send_pair_sync : Bool → Bool → Scheduler → Rcqp → ℕ → DoorbellBatch → Sent DoorbellBatch
send_pair_sync posted polled s qp coro_id b =
    let r = rdma_batch_sync posted polled s in
    record {
      batch = record b { second = record b.second { wr_id = coro_id } };
      result = r.0;
      coro_sched = r.1;
    }

-- The three requests of InvisibleWriteFlushBatch and ComparatorUpdateRemote.
pub record TripleBatch : Type 0 where
  pub first : Request
  pub second : Request
  pub third : Request

unfoldable pub new_triple_batch : Request → Request → Request → TripleBatch
new_triple_batch r0 r1 r2 = record {
  first = record r0 { signaled = false; inline = false };
  second = record r1 { signaled = false; inline = false };
  third = record r2 { signaled = true; inline = false };
}

abbrev pub send_triple : Bool → Scheduler → Rcqp → ℕ → TripleBatch → Sent TripleBatch
send_triple posted s qp coro_id b =
    let r = rdma_batch posted s coro_id qp.id in
    record {
      batch = record b { third = record b.third { wr_id = coro_id } };
      result = r.0;
      coro_sched = r.1;
    }
