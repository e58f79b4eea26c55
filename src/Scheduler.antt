-- ===== src/Scheduler.antt =====
-- core/scheduler/corotine_scheduler.h and .cc, coroutine.h: one thread's scheduler. A coroutine that
-- waits for network replies leaves the ring of runnable ones, and completions put it back.
-- A `Coroutine*` is its index in `coro_array`, an `RCQP*` a number. The NIC is the parameter: a post
-- succeeds or not, and each queue pair has a list of completions that a poll takes from the front.
pub mod Ring
pub mod Unlink
pub mod Awake
pub mod Complete
mod Card
mod Owes
pub mod World
pub mod Steps
mod Tests
use disaggregate_metadata_se.Base.{
  ℕ, zero, suc, ◌+◌, ◌-◌, ◌%◌, Bool, true, false, not, List, [], ◌∷◌, ◌++◌, ◌==◌, ltb,
  if◌then◌else◌, update, u64_mod,
}
use disaggregate_metadata_se.Base.Run.{Run, ok, aborted, ◌>>=◌}

-- `wc.status`: IBV_WC_SUCCESS, IBV_WC_RETRY_EXC_ERR, or another error.
pub data Status : Type 0 where
  success retry_exc_err other_err : Status

pub record Wc : Type 0 where
  pub status : Status
  pub wr_id : ℕ

abbrev pub Cq : Type 0
Cq = ℕ → List Wc

-- The counts are of requests in flight, far below the range of `int`.
pub record Scheduler : Type 0 where
  pub next_coro : ℕ → ℕ
  pub prev_coro : ℕ → ℕ
  pub is_wait_poll : ℕ → Bool
  pub coro_head : ℕ
  pub coro_tail : ℕ
  pub pending_qps : List ℕ
  pub pending_log_qps : List ℕ
  pub pending_counts : ℕ → ℕ
  pub pending_log_counts : ℕ → ℕ

-- The constructor; the pointers are not set before `loop_link_coroutine`.
unfoldable pub new_scheduler : (ℕ → ℕ) → (ℕ → ℕ) → ℕ → ℕ → Scheduler
new_scheduler next prev head tail = record {
  next_coro = next;
  prev_coro = prev;
  is_wait_poll = λ _. false;
  coro_head = head;
  coro_tail = tail;
  pending_qps = [];
  pending_log_qps = [];
  pending_counts = λ _. 0;
  pending_log_counts = λ _. 0;
}

unfoldable pub add_pending_qp : Scheduler → ℕ → ℕ → Scheduler
add_pending_qp s coro_id qp = record s {
  pending_qps = s.pending_qps ++ qp ∷ [];
  pending_counts = update s.pending_counts coro_id (s.pending_counts coro_id + 1);
}

unfoldable pub add_pending_log_qp : Scheduler → ℕ → ℕ → Scheduler
add_pending_log_qp s coro_id qp = record s {
  pending_log_qps = s.pending_log_qps ++ qp ∷ [];
  pending_log_counts = update s.pending_log_counts coro_id (s.pending_log_counts coro_id + 1);
}

-- A post whose completion is awaited; `posted` tells whether `post_send`, `post_batch` or `post_cas`
-- returned SUCC.
unfoldable pub rdma_batch : Bool → Scheduler → ℕ → ℕ → Bool × Scheduler
rdma_batch posted s coro_id qp =
    if not posted then (false, s) else (true, add_pending_qp s coro_id qp)

unfoldable pub rdma_write : Bool → Scheduler → ℕ → ℕ → Bool × Scheduler
rdma_write posted s coro_id qp =
    if not posted then (false, s) else (true, add_pending_qp s coro_id qp)

unfoldable pub rdma_write_to_mr : Bool → Scheduler → ℕ → ℕ → Bool × Scheduler
rdma_write_to_mr posted s coro_id qp =
    if not posted then (false, s) else (true, add_pending_qp s coro_id qp)

unfoldable pub rdma_log : Bool → Scheduler → ℕ → ℕ → Bool × Scheduler
rdma_log posted s coro_id qp =
    if not posted then (false, s) else (true, add_pending_log_qp s coro_id qp)

unfoldable pub rdma_read : Bool → Scheduler → ℕ → ℕ → Bool × Scheduler
rdma_read posted s coro_id qp =
    if not posted then (false, s) else (true, add_pending_qp s coro_id qp)

unfoldable pub rdma_send : Bool → Scheduler → ℕ → ℕ → Bool × Scheduler
rdma_send posted s coro_id qp =
    if not posted then (false, s) else (true, add_pending_qp s coro_id qp)

unfoldable pub rdma_rpc : Bool → Scheduler → ℕ → ℕ → Bool × Scheduler
rdma_rpc posted s coro_id qp =
    if not posted then (false, s) else (true, add_pending_qp s coro_id qp)

unfoldable pub rdma_cas : Bool → Scheduler → ℕ → ℕ → Bool × Scheduler
rdma_cas posted s coro_id qp =
    if not posted then (false, s) else (true, add_pending_qp s coro_id qp)

-- The variants that await nothing, or that wait on the spot; `polled` is what `poll_till_completion`
-- reported.
unfoldable pub rdma_read_inv : Bool → Scheduler → Bool × Scheduler
rdma_read_inv posted s = if not posted then (false, s) else (true, s)

unfoldable pub rdma_batch_sync : Bool → Bool → Scheduler → Bool × Scheduler
rdma_batch_sync posted polled s =
    if not posted then (false, s) else if not polled then (false, s) else (true, s)

unfoldable pub rdma_read_sync : Bool → Bool → Scheduler → Bool × Scheduler
rdma_read_sync posted polled s =
    if not posted then (false, s) else if not polled then (false, s) else (true, s)

-- The loop of `loop_link_coroutine` from index `i`, over the rounds left. The address before the
-- array, which index 0 gets at first, is written as the word -1.
abbrev pub link_step : ℕ → Scheduler → Scheduler
link_step i s = record s {
  prev_coro = update s.prev_coro i ((i + u64_mod - 1) % u64_mod);
  next_coro = update s.next_coro i (i + 1);
}

pub link_loop : ℕ → ℕ → Scheduler → Scheduler
link_loop zero i s = s
link_loop (suc n) i s = link_loop n (i + 1) (link_step i s)

pub loop_link_coroutine : ℕ → Scheduler → Scheduler
unfolding link_loop
loop_link_coroutine coro_num s =
    let linked = link_loop coro_num 0 s in
    record linked {
      coro_head = 0;
      coro_tail = coro_num - 1;
      prev_coro = update linked.prev_coro 0 (coro_num - 1);
      next_coro = update linked.next_coro (coro_num - 1) 0;
    }

-- The coroutine that runs next is `coro`.
unfoldable pub run_coroutine : Scheduler → ℕ → Scheduler
run_coroutine s coro = record s { is_wait_poll = update s.is_wait_poll coro false }

-- The removal of `coro` from the list.
unfoldable pub unlink : Scheduler → ℕ → Scheduler
unlink s coro =
    let next = s.next_coro coro in
    let prev = update s.prev_coro next (s.prev_coro coro) in
    record s {
      next_coro = update s.next_coro (s.prev_coro coro) next;
      prev_coro = prev;
      coro_tail = if s.coro_tail == coro then prev coro else s.coro_tail;
      is_wait_poll = update s.is_wait_poll coro true;
    }

-- `Yield`: the coroutine that gets the CPU, and the state. With nothing pending it keeps the CPU.
unfoldable pub yield_coro : Scheduler → ℕ → Run (ℕ × Scheduler)
yield_coro s cid =
    if s.pending_counts cid == 0
    then ok (cid, s)
    else if s.is_wait_poll cid
    then aborted
    else ok (s.next_coro cid, run_coroutine (unlink s cid) (s.next_coro cid))

unfoldable pub append_coroutine : Scheduler → ℕ → Scheduler
append_coroutine s coro = if not (s.is_wait_poll coro) then s else (record s {
  next_coro = update (update s.next_coro s.coro_tail coro) coro s.coro_head;
  prev_coro = update s.prev_coro coro s.coro_tail;
  coro_tail = coro;
})

-- What the polls of one queue pair in one visit come to.
pub data Polled : Type 0 where
  -- no completion, or one that is to be retried
  keep : Polled
  abort : Polled
  done : ℕ → Polled

-- A completion of request 0 is skipped, and the same queue pair is polled again.
pub poll_one : List Wc → Polled × List Wc
poll_one [] = (keep, [])
poll_one (wc ∷ rest) =
    let again = poll_one rest in
    elim wc.status [
      | Status.retry_exc_err ↦ (keep, rest)
      | Status.other_err ↦ (abort, rest)
      | Status.success ↦ if wc.wr_id == 0 then again else (done wc.wr_id, rest)
    ]

-- One request of `coro_id` is complete.
unfoldable pub complete : Scheduler → ℕ → Scheduler
complete s coro_id =
    let left = s.pending_counts coro_id - 1 in
    let t = record s { pending_counts = update s.pending_counts coro_id left } in
    if left == 0 then append_coroutine t coro_id else t

-- The `for` over the pending queue pairs; `kept` are those visited that stay.
pub poll_loop : List ℕ → List ℕ → Cq → Scheduler → Run (Scheduler × Cq)
poll_loop kept [] cq s = ok (record s { pending_qps = kept }, cq)
poll_loop kept (qp ∷ qps) cq s =
    let (polled, rest) = poll_one (cq qp) in
    let cq' = update cq qp rest in
    elim polled [
      | keep ↦ poll_loop (kept ++ qp ∷ []) qps cq' s
      | abort ↦ aborted
      | done coro_id ↦
          let rest_of_loop = poll_loop kept qps cq' (complete s coro_id) in
          if ltb 0 (s.pending_counts coro_id) then rest_of_loop else aborted
    ]

unfoldable pub poll_regular_completion : Cq → Scheduler → Run (Scheduler × Cq)
poll_regular_completion cq s = poll_loop [] s.pending_qps cq s

-- The log queue pairs: the counts fall, and no coroutine is appended.
pub poll_log_loop : List ℕ → List ℕ → Cq → Scheduler → Run (Scheduler × Cq)
poll_log_loop kept [] cq s = ok (record s { pending_log_qps = kept }, cq)
poll_log_loop kept (qp ∷ qps) cq s =
    let (polled, rest) = poll_one (cq qp) in
    let cq' = update cq qp rest in
    elim polled [
      | keep ↦ poll_log_loop (kept ++ qp ∷ []) qps cq' s
      | abort ↦ aborted
      | done coro_id ↦
          let t = record s {
            pending_log_counts =
                update s.pending_log_counts coro_id (s.pending_log_counts coro_id - 1);
          } in
          let rest_of_loop = poll_log_loop kept qps cq' t in
          if ltb 0 (s.pending_log_counts coro_id) then rest_of_loop else aborted
    ]

unfoldable pub check_log_ack : Cq → Scheduler → ℕ → Run (Bool × Scheduler × Cq)
check_log_ack cq s c_id =
    if s.pending_log_counts c_id == 0
    then ok (true, s, cq)
    else (poll_log_loop [] s.pending_log_qps cq s >>= λ r.
        ok (r.0.pending_log_counts c_id == 0, r.0, r.1))

-- `PollCompletion` of the worker, one round of its loop: the coroutine that the head gives the CPU to,
-- itself when the ring has no other, and the state.
unfoldable pub poll_completion : Cq → Scheduler → Run (ℕ × Scheduler × Cq)
poll_completion cq s = poll_regular_completion cq s >>= λ r.
    let next = r.0.next_coro r.0.coro_head in
    if next == 0 then ok (next, r.0, r.1) else ok (next, run_coroutine r.0 next, r.1)
