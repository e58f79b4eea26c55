-- ===== src/Scheduler/World.antt =====
-- A thread's scheduler with its network card: what was posted, what the card has reported done and
-- failed, each by queue pair and coroutine, and the reports that no poll has taken.
use disaggregate_metadata_se.Base.{
  ℕ, ◌+◌, ◌≤◌, ◌<◌, ◌≡◌, ◌≢◌, ◌⊎◌, refl, sym, ap, ◌∙◌, inl, inr, ◌&&◌, List, [], ◌∷◌, ◌++◌, ◌==◌,
  update, count, count-append, one_if, ==_iff, ==_refl, Bool-cases, arith,
}
use disaggregate_metadata_se.Base.Run.{ok, ok-not_aborted, ok-inj}
use disaggregate_metadata_se.Scheduler.{
  Scheduler, Status, Wc, Cq, add_pending_qp, run_coroutine, unlink, yield_coro,
  poll_regular_completion, poll_completion,
}
use disaggregate_metadata_se.Scheduler.Awake.{Tracks}
use disaggregate_metadata_se.Scheduler.Complete.{poll-Tracks}
use disaggregate_metadata_se.Scheduler.Card.{
  completions, completions-append, reports, is_success, Request, coro_request,
}
use disaggregate_metadata_se.Scheduler.Owes.{Owes, poll_loop-Owed}

pub record World : Type 0 where
  pub sched : Scheduler
  pub cq : Cq
  pub posted : ℕ → ℕ → ℕ
  pub succeeded : ℕ → ℕ → ℕ
  pub failed : ℕ → ℕ → ℕ

-- One more of the queue pair and the coroutine
abbrev pub one_more : (ℕ → ℕ → ℕ) → ℕ → ℕ → ℕ → ℕ → ℕ
one_more f q c a b = f a b + one_if (a == q && b == c)

-- The card has a request that it has reported nothing of.
abbrev pub InFlight : World → ℕ → ℕ → Type 0
InFlight w q c = w.succeeded q c + w.failed q c < w.posted q c

abbrev pub report : World → ℕ → Wc → Cq
report w q wc = update w.cq q (w.cq q ++ wc ∷ [])

-- A report that is of no request of a coroutine: an error that aborts, or of request 0
abbrev pub Unawaited : Wc → Type 0
Unawaited wc = (wc.status ≡ Status.other_err) ⊎ (wc.wr_id ≡ 0)

-- What the counts and the queue of the scheduler are of the requests that no poll has taken
pub record IsWorld (w : World) (owed : List Request) : Type 0 where
  pub owes : Owes w.posted w.succeeded (λ q. count q w.sched.pending_qps) w.sched w.cq owed
  pub once : (q c : ℕ) → w.succeeded q c + w.failed q c ≤ w.posted q c

-- The coroutine has a request on a queue pair that is polled: the request is reported done, or it is in
-- flight, or the card has reported one of them failed.
abbrev pub Awaits : World → ℕ → Type 0
Awaits w c =
    (q : ℕ) × (0 < count q w.sched.pending_qps)
    × ((0 < completions c (w.cq q)) ⊎ InFlight w q c ⊎ (0 < w.failed q c))

-- A scheduler with the same queue and counts
same-IsWorld :
    (w : World) (owed : List Request) (s : Scheduler)
    → IsWorld w owed
    → s.pending_qps ≡ w.sched.pending_qps
    → ((c : ℕ) → s.pending_counts c ≡ w.sched.pending_counts c)
    → IsWorld (record w { sched = s }) owed
same-IsWorld w owed s k qps counts = record {
  owes = record {
    places = λ q. ap (count q) qps ∙ k.owes.places q;
    counts = λ c. counts c ∙ k.owes.counts c;
    untaken = k.owes.untaken;
  };
  once = k.once;
}

one_more-le :
    (f posted : ℕ → ℕ → ℕ) (q c a b : ℕ)
    → f q c < posted q c
    → f a b ≤ posted a b
    → f a b + one_if (a == q && b == c) ≤ posted a b
one_more-le f posted q c a b lt le = elim (Bool-cases (a == q && b == c)) [
  | inr e ↦ rw e (omega arith)
  | inl e ↦
      let is_q : a ≡ q = ground (arith, e) in
      let is_c : b ≡ c = ground (arith, e) in rw (is_q, is_c, ==_refl q, ==_refl c) (omega arith)
]

unawaited :
    (a b q : ℕ) (wc : Wc) (n : ℕ) → b ≢ 0 → Unawaited wc → n ≡ n + one_if (a == q && reports b wc)
unawaited a b q wc n ne (inl e) = rw e (ground arith)
unawaited a b q wc n ne (inr e) = rw e (elim (Bool-cases (is_success wc.status)) [
  | inl f ↦ rw f (ground arith)
  | inr f ↦ rw f (ground arith)
])

module _ (w : World) (owed : List Request) (k : IsWorld w owed) where
  pub pending-Awaits : (c : ℕ) → c ≢ 0 → 0 < w.sched.pending_counts c → Awaits w c
  pending-Awaits c ne pos =
      let (q, both, of_qp) = coro_request c owed (omega (arith, pos, k.owes.counts c)) in
      (
        q,
        omega (arith, of_qp, k.owes.places q),
        ground (arith, both, k.owes.untaken q c ne, k.once q c),
      )

  pub post-IsWorld :
      (c qp : ℕ)
      → IsWorld
          (record w { sched = add_pending_qp w.sched c qp; posted = one_more w.posted qp c })
          ((qp, c) ∷ owed)
  unfolding add_pending_qp
  post-IsWorld c qp = record {
    owes = record {
      places = λ q. omega (arith, k.owes.places q, count-append q w.sched.pending_qps (qp ∷ []));
      counts = λ a. elim (Bool-cases (a == c)) [
        | inl e ↦
            let is : a ≡ c = (==_iff a c).0 e in
            rw e (omega (arith, k.owes.counts a, ap w.sched.pending_counts is))
        | inr e ↦ rw e (omega (arith, k.owes.counts a))
      ];
      untaken = λ q a ne. omega (arith, k.owes.untaken q a ne);
    };
    once = λ q a. omega (arith, k.once q a);
  }

  pub yield-IsWorld :
      (c : ℕ) (r : ℕ × Scheduler)
      → yield_coro w.sched c ≡ ok r
      → IsWorld (record w { sched = r.1 }) owed
  unfolding yield_coro unlink run_coroutine
  yield-IsWorld c r run = elim (Bool-cases (w.sched.pending_counts c == 0)) [
    | inl z ↦
        let is : r ≡ (c, w.sched) = ok-inj (sym (rw z at run)) in
        rw is (same-IsWorld w owed w.sched k refl (λ a. refl))
    | inr z ↦ elim (Bool-cases (w.sched.is_wait_poll c)) [
      | inl p ↦ absurd (ok-not_aborted r (sym (rw (z, p) at run)))
      | inr p ↦
          let next = w.sched.next_coro c in
          let is : r ≡ (next, run_coroutine (unlink w.sched c) next) =
            ok-inj (sym (rw (z, p) at run)) in
          rw is (same-IsWorld w owed (run_coroutine (unlink w.sched c) next) k refl (λ a. refl))
    ]
  ]

  -- A report of the card
  report-IsWorld :
      (q : ℕ) (wc : Wc) (succeeded failed : ℕ → ℕ → ℕ)
      → ((a b : ℕ) → b ≢ 0 → succeeded a b ≡ w.succeeded a b + one_if (a == q && reports b wc))
      → ((a b : ℕ) → succeeded a b + failed a b ≤ w.posted a b)
      → IsWorld (record w { cq = report w q wc; succeeded = succeeded; failed = failed }) owed
  report-IsWorld q wc succeeded failed told once = record {
    owes = record {
      places = k.owes.places;
      counts = k.owes.counts;
      untaken = λ a b ne. elim (Bool-cases (a == q)) [
        | inl e ↦
            let is : a ≡ q = (==_iff a q).0 e in
            rw e (
              omega (
                arith,
                k.owes.untaken a b ne,
                rw e at (told a b ne),
                ap (λ z. completions b (w.cq z)) is,
                completions-append b (w.cq q) (wc ∷ []),
              ))
        | inr e ↦ rw e (omega (arith, k.owes.untaken a b ne, rw e at (told a b ne)))
      ];
    };
    once = once;
  }

  pub succeed-IsWorld :
      (q c : ℕ)
      → InFlight w q c
      → IsWorld
          (record w {
            cq = report w q (record { status = Status.success; wr_id = c });
            succeeded = one_more w.succeeded q c;
          })
          owed
  succeed-IsWorld q c flight =
      report-IsWorld q (record { status = Status.success; wr_id = c }) (one_more w.succeeded q c)
        w.failed (λ a b ne. ground arith)
        (λ a b. omega (
          arith,
          one_more-le (λ x y. w.succeeded x y + w.failed x y) w.posted q c a b flight (k.once a b),
        ))

  pub fail-IsWorld :
      (q c : ℕ)
      → InFlight w q c
      → IsWorld
          (record w {
            cq = report w q (record { status = Status.retry_exc_err; wr_id = c });
            failed = one_more w.failed q c;
          })
          owed
  fail-IsWorld q c flight =
      report-IsWorld q (record { status = Status.retry_exc_err; wr_id = c }) w.succeeded
        (one_more w.failed q c) (λ a b ne. ground arith)
        (λ a b. omega (
          arith,
          one_more-le (λ x y. w.succeeded x y + w.failed x y) w.posted q c a b flight (k.once a b),
        ))

  pub stray-IsWorld :
      (q : ℕ) (wc : Wc) → Unawaited wc → IsWorld (record w { cq = report w q wc }) owed
  stray-IsWorld q wc why =
      report-IsWorld q wc w.succeeded w.failed
        (λ a b ne. unawaited a b q wc (w.succeeded a b) ne why) k.once

  pub poll-IsWorld :
      (workers ys : List ℕ) (r : ℕ × Scheduler × Cq)
      → Tracks w.sched workers ys
      → poll_completion w.cq w.sched ≡ ok r
      → (left : List Request) × IsWorld (record w { sched = r.1; cq = r.2 }) left
  unfolding poll_completion poll_regular_completion run_coroutine
  poll-IsWorld workers ys r t run = elim (poll-Tracks w.sched workers ys w.cq t) [
    | inr e ↦ absurd (ok-not_aborted r (sym (rw e at run)))
    | inl (p, e, z) ↦
        let (left, o) =
          poll_loop-Owed w.posted w.succeeded (λ q c. omega (arith, k.once q c)) w.sched.pending_qps
            [] w.cq w.sched owed p
            (record {
              places = λ q. omega (arith, k.owes.places q);
              counts = k.owes.counts;
              untaken = k.owes.untaken;
            })
            e in
        let next = p.0.next_coro p.0.coro_head in
        let polled : World = record w { sched = p.0; cq = p.1 } in
        let v : IsWorld polled left = record { owes = o; once = k.once } in
        elim (Bool-cases (next == 0)) [
          | inl n ↦
              let is : r ≡ (next, p.0, p.1) = ok-inj (sym (rw (e, n) at run)) in (left, rw is v)
          | inr n ↦
              let is : r ≡ (next, run_coroutine p.0 next, p.1) = ok-inj (sym (rw (e, n) at run)) in
              (left, rw is (same-IsWorld polled left (run_coroutine p.0 next) v refl (λ a. refl)))
        ]
  ]
