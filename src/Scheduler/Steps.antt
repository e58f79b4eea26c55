-- ===== src/Scheduler/Steps.antt =====
-- Whole runs of a thread: its coroutines post, yield, poll and run, in any order.
use disaggregate_metadata_se.Base.{
  ◌≢◌, ap, count, [], ◌∷◌, ℕ, zero, suc, ◌+◌, ◌<◌, ◌≡◌, ◌⊎◌, refl, inl, inr, true, false, List,
  ◌==◌, u64_mod, if◌then◌else◌, mem, Bool-cases, ==_ne, arith,
}
use disaggregate_metadata_se.Base.Run.{ok, Returns, ReturnsOrAborts, returned}
use disaggregate_metadata_se.Scheduler.{
  Scheduler, new_scheduler, add_pending_qp, run_coroutine, unlink, yield_coro, link_step, link_loop,
  loop_link_coroutine, Cq, Wc, Status, poll_completion,
}
use disaggregate_metadata_se.Scheduler.Ring.{IsRing, count_up, not-mem-count_up, loop_link-IsRing}
use disaggregate_metadata_se.Scheduler.Unlink.{remove, next-mem, next-mem_of, not-mem-remove_self}
use disaggregate_metadata_se.Scheduler.Awake.{
  Tracks, running-in, post-Tracks, run-Tracks, unlink-Tracks,
}
use disaggregate_metadata_se.Scheduler.Complete.{poll-Tracks}
use disaggregate_metadata_se.Scheduler.Card.{Request}
use disaggregate_metadata_se.Scheduler.World.{
  World, one_more, InFlight, report, Unawaited, IsWorld, Awaits, pending-Awaits, post-IsWorld,
  yield-IsWorld, succeed-IsWorld, fail-IsWorld, stray-IsWorld, poll-IsWorld,
}

-- What a yield of `c` leaves: another coroutine runs, one of the ring or the head, and `c` is out of it.
abbrev pub Yielded : List ℕ → ℕ → ℕ × Scheduler → Type 0
Yielded workers c r =
    (zs : List ℕ) × Tracks r.1 workers zs
    × (mem c zs ≡ false)
    × ((mem r.0 zs ≡ true) ⊎ (r.0 ≡ r.1.coro_head))

-- Where the ring is in order, the yield of a worker that runs and has requests in flight ends: the
-- ring stays in order, the worker is out of it, and the CPU goes to a coroutine of the ring or to
-- the head.
pub yield-Yielded :
    (s : Scheduler) (workers ys : List ℕ) (c : ℕ)
    → Tracks s workers ys
    → mem c workers ≡ true
    → s.is_wait_poll c ≡ false
    → 0 < s.pending_counts c
    → Returns (yield_coro s c) (Yielded workers c)
unfolding yield_coro run_coroutine unlink
yield-Yielded s workers ys c k w r p =
    let next = s.next_coro c in
    let left = unlink-Tracks s workers ys k c w r p in
    let c_in = running-in s workers ys k c w r in
    let to = next-mem_of s c s.coro_head ys k.ring c_in in
    (
      (next, run_coroutine (unlink s c) next),
      rw (==_ne (s.pending_counts c) 0 (omega arith), r),
      (
        remove c ys,
        run-Tracks (unlink s c) workers (remove c ys) left next to,
        not-mem-remove_self s c s.coro_head ys k.ring,
        to,
      ),
    )

-- A round of polling gives the CPU to the first coroutine of the ring, or keeps it.
module _ (workers : List ℕ) where
  abbrev pub Polls : ℕ × Scheduler × Cq → Type 0
  Polls r = (zs : List ℕ) × Tracks r.1 workers zs × ((mem r.0 zs ≡ true) ⊎ (r.0 ≡ r.1.coro_head))

  polled-Polls :
      (cq : Cq) (s : Scheduler) (zs : List ℕ)
      → Tracks s workers zs
      → ReturnsOrAborts
          (if s.next_coro s.coro_head == 0
            then ok (s.next_coro s.coro_head, s, cq)
            else ok (s.next_coro s.coro_head, run_coroutine s (s.next_coro s.coro_head), cq))
          Polls
  unfolding run_coroutine
  polled-Polls cq s zs k =
      let next = s.next_coro s.coro_head in
      let to = next-mem s s.coro_head zs k.ring in
      elim (Bool-cases (next == 0)) [
        | inl e ↦ inl ((next, s, cq), rw e, (zs, k, to))
        | inr e ↦
            inl
              ((next, run_coroutine s next, cq), rw e, (zs, run-Tracks s workers zs k next to, to))
      ]

  -- Where the ring is in order, a round of polling leaves it in order and gives the CPU to a
  -- coroutine of it or keeps it at the head; or it aborts.
  pub poll_completion-Polls :
      (s : Scheduler) (ys : List ℕ) (cq : Cq)
      → Tracks s workers ys
      → ReturnsOrAborts (poll_completion cq s) Polls
  unfolding poll_completion
  poll_completion-Polls s ys cq k = elim (poll-Tracks s workers ys cq k) [
    | inl (r, e, (zs, k')) ↦ rw e (polled-Polls r.1 r.0 zs k')
    | inr e ↦ inr (rw e)
  ]

-- One event: a running coroutine posts, a coroutine yields, the head polls; or the card reports a
-- request in flight done or failed with RETRY_EXC_ERR, or reports something that no coroutine awaits.
pub data Step (workers : List ℕ) (w : World) : World → Type 0 where
  posts :
      (c qp : ℕ)
      → mem c workers ≡ true
      → w.sched.is_wait_poll c ≡ false
      → Step workers w
          (record w { sched = add_pending_qp w.sched c qp; posted = one_more w.posted qp c })
  yields :
      (c : ℕ) (r : ℕ × Scheduler)
      → mem c workers ≡ true
      → yield_coro w.sched c ≡ ok r
      → Step workers w (record w { sched = r.1 })
  polls :
      (r : ℕ × Scheduler × Cq)
      → poll_completion w.cq w.sched ≡ ok r
      → Step workers w (record w { sched = r.1; cq = r.2 })
  succeeds :
      (q c : ℕ)
      → InFlight w q c
      → Step workers w (record w {
        cq = report w q (record { status = Status.success; wr_id = c });
        succeeded = one_more w.succeeded q c;
      })
  fails :
      (q c : ℕ)
      → InFlight w q c
      → Step workers w (record w {
        cq = report w q (record { status = Status.retry_exc_err; wr_id = c });
        failed = one_more w.failed q c;
      })
  strays : (q : ℕ) (wc : Wc) → Unawaited wc → Step workers w (record w { cq = report w q wc })

pub data Steps (workers : List ℕ) (w : World) : World → Type 0 where
  start : Steps workers w w
  then_step : (t u : World) → Steps workers w t → Step workers t u → Steps workers w u

yields-Tracked :
    (s : Scheduler) (workers ys : List ℕ) (c : ℕ)
    → Tracks s workers ys
    → mem c workers ≡ true
    → ReturnsOrAborts (yield_coro s c) (λ r. (zs : List ℕ) × Tracks r.1 workers zs)
unfolding yield_coro
yields-Tracked s workers ys c k w = elim (Bool-cases (s.pending_counts c == 0)) [
  | inl z ↦ inl ((c, s), rw z, (ys, k))
  | inr p ↦ elim (Bool-cases (s.is_wait_poll c)) [
    | inl q ↦ inr (rw (p, q))
    | inr q ↦
        let (r, e, l) = yield-Yielded s workers ys c k w q (ground (arith, p)) in
        inl (r, e, (l.0, l.1))
  ]
]

-- The ring and the accounts of a world are in order.
abbrev IsKept : List ℕ → World → Type 0
IsKept workers w =
    (zs : List ℕ) × Tracks w.sched workers zs × ((owed : List Request) × IsWorld w owed)

next-IsKept :
    (workers : List ℕ) (w u : World) → IsKept workers w → Step workers w u → IsKept workers u
next-IsKept workers w u (ys, k, (owed, o)) (posts c qp m r) =
    (ys, post-Tracks w.sched workers ys k c qp m r, ((qp, c) ∷ owed, post-IsWorld w owed o c qp))
next-IsKept workers w u (ys, k, (owed, o)) (yields c r m e) =
    let (zs, v) =
      returned (yield_coro w.sched c) (λ r'. (zs : List ℕ) × Tracks r'.1 workers zs) r
        (yields-Tracked w.sched workers ys c k m) e in
    (zs, v, (owed, yield-IsWorld w owed o c r e))
next-IsKept workers w u (ys, k, (owed, o)) (polls r e) =
    let p =
      returned (poll_completion w.cq w.sched) (Polls workers) r
        (poll_completion-Polls workers w.sched ys w.cq k) e in
    (p.0, p.1, poll-IsWorld w owed o workers ys r k e)
next-IsKept workers w u (ys, k, (owed, o)) (succeeds q c f) =
    (ys, k, (owed, succeed-IsWorld w owed o q c f))
next-IsKept workers w u (ys, k, (owed, o)) (fails q c f) =
    (ys, k, (owed, fail-IsWorld w owed o q c f))
next-IsKept workers w u (ys, k, (owed, o)) (strays q wc f) =
    (ys, k, (owed, stray-IsWorld w owed o q wc f))

run-IsKept :
    (workers : List ℕ) (w t : World) → IsKept workers w → Steps workers w t → IsKept workers t
run-IsKept workers w t k start = k
run-IsKept workers w t k (then_step u v r step) =
    next-IsKept workers u v (run-IsKept workers w u k r) step

-- A thread of `n` workers at its start.
abbrev pub linked : ℕ → Scheduler
linked n = loop_link_coroutine (suc n) (new_scheduler (λ _. 0) (λ _. 0) 0 0)

linked-pending :
    (n i c : ℕ) (s : Scheduler) → (link_loop n i s).pending_counts c ≡ s.pending_counts c
unfolding link_loop
linked-pending zero i c s = refl
linked-pending (suc n) i c s = linked-pending n (i + 1) c (link_step i s)

linked_queue : (n i : ℕ) (s : Scheduler) → (link_loop n i s).pending_qps ≡ s.pending_qps
unfolding link_loop
linked_queue zero i s = refl
linked_queue (suc n) i s = linked_queue n (i + 1) (link_step i s)

pub linked-Tracks : (n : ℕ) → suc n < u64_mod → Tracks (linked n) (count_up 1 n) (count_up 1 n)
unfolding loop_link_coroutine new_scheduler
linked-Tracks n fits = record {
  ring = loop_link-IsRing n (new_scheduler (λ _. 0) (λ _. 0) 0 0) fits;
  within = λ c i. i;
  head_out = not-mem-count_up 0 1 n (omega arith);
  away = λ c i o. absurd (ground (arith, i, o));
  idle = λ c i q. linked-pending (suc n) 0 c (new_scheduler (λ _. 0) (λ _. 0) 0 0);
  others = λ c o. linked-pending (suc n) 0 c (new_scheduler (λ _. 0) (λ _. 0) 0 0);
}

-- The thread with a card that has nothing of it
abbrev pub fresh_world : ℕ → World
fresh_world n = record {
  sched = linked n;
  cq = λ qp. [];
  posted = λ q c. 0;
  succeeded = λ q c. 0;
  failed = λ q c. 0;
}

fresh-IsWorld : (n : ℕ) → IsWorld (fresh_world n) []
unfolding loop_link_coroutine new_scheduler
fresh-IsWorld n = record {
  owes = record {
    places = λ q. ap (count q) (linked_queue (suc n) 0 (new_scheduler (λ _. 0) (λ _. 0) 0 0));
    counts = λ c. linked-pending (suc n) 0 c (new_scheduler (λ _. 0) (λ _. 0) 0 0);
    untaken = λ q c ne. refl;
  };
  once = λ q c. omega arith;
}

-- Whatever a freshly linked thread of fewer than 2^64 - 1 workers and its network card have done in
-- any order - posts of running workers, yields, polls, reports of requests done or failed with
-- RETRY_EXC_ERR, other reports: the links make a ring, and every worker is in it, or waits with a
-- count above 0 and a request on a queue pair that is among those polled, and this request is in
-- flight, or reported done and not yet taken, or the card has reported a failure of one of the
-- worker's requests there.
pub no_lost_wakeup :
    (n c : ℕ) (t : World)
    → suc n < u64_mod
    → Steps (count_up 1 n) (fresh_world n) t
    → mem c (count_up 1 n) ≡ true
    → (ys : List ℕ) × IsRing t.sched ys
      × ((mem c ys ≡ true)
          ⊎ ((t.sched.is_wait_poll c ≡ true) × (0 < t.sched.pending_counts c) × Awaits t c))
no_lost_wakeup n c t fits r m =
    let (ys, k, (owed, o)) =
      run-IsKept (count_up 1 n) (fresh_world n) t
        (count_up 1 n, linked-Tracks n fits, ([], fresh-IsWorld n)) r in
    elim (Bool-cases (mem c ys)) [
      | inl i ↦ (ys, k.ring, inl i)
      | inr out ↦
          let (waits, pending) = k.away c m out in
          let ne : c ≢ 0 = λ z. ground (arith, z, m, not-mem-count_up 0 1 n (omega arith)) in
          (ys, k.ring, inr (waits, pending, pending-Awaits t owed o c ne pending))
    ]
