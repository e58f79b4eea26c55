-- ===== src/Scheduler/Owes.antt =====
-- What a poll of the pending queue pairs keeps of the accounts of the requests.
use mathlib.Core.Path.{}
use disaggregate_metadata_se.Base.{
  ℕ, ◌+◌, ◌-◌, ◌≤◌, ◌<◌, ◌≡◌, ◌≢◌, refl, sym, ap, ◌∙◌, inl, inr, List, [], ◌∷◌, ◌++◌, ◌==◌, ltb,
  update, count, count-append, one_if, ==_iff, ==_refl, Bool-cases, arith,
}
use disaggregate_metadata_se.Base.Run.{ok, ok-not_aborted}
use disaggregate_metadata_se.Scheduler.{
  Scheduler, Wc, Cq, append_coroutine, poll_one, complete, poll_loop,
}
use disaggregate_metadata_se.Scheduler.Card.{
  completions, Request, by_qp, by_coro, requests, Without, take_request, Keeps, poll_one-Visited,
}

-- What is known of the requests that were posted and not yet taken from the queues: a place in the queue
-- of pending queue pairs and a count of the coroutine for each, and the reports that lie there.
module _ (posted succeeded : ℕ → ℕ → ℕ) where
  pub record Owes (queued : ℕ → ℕ) (s : Scheduler) (cq : Cq) (owed : List Request) : Type 0 where
    pub places : (q : ℕ) → queued q ≡ by_qp q owed
    pub counts : (c : ℕ) → s.pending_counts c ≡ by_coro c owed
    pub untaken :
        (q c : ℕ) → c ≢ 0 → requests q c owed + succeeded q c ≡ posted q c + completions c (cq q)

complete-counts :
    (s : Scheduler) (c a : ℕ)
    → (complete s c).pending_counts a ≡ update s.pending_counts c (s.pending_counts c - 1) a
unfolding complete append_coroutine
complete-counts s c a = elim (Bool-cases (s.pending_counts c - 1 == 0)) [
  | inr e ↦ rw e refl
  | inl e ↦ elim (Bool-cases (s.is_wait_poll c)) [ inl w ↦ rw (e, w) refl | inr w ↦ rw (e, w) refl ]
]

module _ (posted succeeded : ℕ → ℕ → ℕ) (once : (q c : ℕ) → succeeded q c ≤ posted q c) where
  abbrev Owed : Scheduler × Cq → Type 0
  Owed r = (left : List Request) × Owes posted succeeded (λ q. count q r.0.pending_qps) r.0 r.1 left

  -- A visit that takes nothing
  kept-Owes :
      (qp : ℕ) (qps kept : List ℕ) (cq : Cq) (s : Scheduler) (owed : List Request) (rest : List Wc)
      → Keeps (cq qp) rest
      → Owes posted succeeded (λ q. count q kept + count q (qp ∷ qps)) s cq owed
      → Owes posted succeeded
          (λ q. count q (kept ++ qp ∷ []) + count q qps)
          s
          (update cq qp rest)
          owed
  kept-Owes qp qps kept cq s owed rest keeps o = record {
    places = λ q. omega (arith, o.places q, count-append q kept (qp ∷ []));
    counts = o.counts;
    untaken = λ q c ne. elim (Bool-cases (q == qp)) [
      | inl e ↦
          let is : q ≡ qp = (==_iff q qp).0 e in
          rw e (
            o.untaken q c ne
            ∙ ap (λ n. posted q c + n) (ap (λ z. completions c (cq z)) is ∙ sym (keeps c ne)))
      | inr e ↦ rw e (o.untaken q c ne)
    ];
  }

  -- A visit that takes the report of a request of `c`
  taken-Owes :
      (qp c : ℕ) (qps kept : List ℕ) (cq : Cq) (s : Scheduler) (owed left : List Request)
      (rest : List Wc)
      → ((x : ℕ) → x ≢ 0 → completions x rest + one_if (x == c) ≡ completions x (cq qp))
      → Without qp c owed left
      → Owes posted succeeded (λ q. count q kept + count q (qp ∷ qps)) s cq owed
      → Owes posted succeeded
          (λ q. count q kept + count q qps)
          (complete s c)
          (update cq qp rest)
          left
  taken-Owes qp c qps kept cq s owed left rest takes w o = record {
    places = λ q. omega (arith, o.places q, w.of_qp q);
    counts = λ a. elim (Bool-cases (a == c)) [
      | inl e ↦
          let is : a ≡ c = (==_iff a c).0 e in
          complete-counts s c a
          ∙ rw e (
              omega (arith, o.counts a, w.of_coro a, ap s.pending_counts is, rw e at (w.of_coro a)))
      | inr e ↦ complete-counts s c a ∙ rw e (omega (arith, o.counts a, rw e at (w.of_coro a)))
    ];
    untaken = λ q a ne. elim (Bool-cases (q == qp)) [
      | inl e ↦
          let is : q ≡ qp = (==_iff q qp).0 e in
          rw e (
            omega (
              arith,
              o.untaken q a ne,
              takes a ne,
              rw e at (w.of_both q a),
              ap (λ z. completions a (cq z)) is,
            ))
      | inr e ↦ rw e (omega (arith, o.untaken q a ne, rw e at (w.of_both q a)))
    ];
  }

  pub poll_loop-Owed :
      (qps kept : List ℕ) (cq : Cq) (s : Scheduler) (owed : List Request) (r : Scheduler × Cq)
      → Owes posted succeeded (λ q. count q kept + count q qps) s cq owed
      → poll_loop kept qps cq s ≡ ok r
      → Owed r
  unfolding poll_loop
  poll_loop-Owed [] kept cq s owed r o run =
      let is : r ≡ (record s { pending_qps = kept }, cq) = cc in
      rw is (
        owed,
        record { places = λ q. omega (arith, o.places q); counts = o.counts; untaken = o.untaken },
      )
  poll_loop-Owed (qp ∷ qps) kept cq s owed r o run =
      let rest = (poll_one (cq qp)).1 in
      elim (poll_one-Visited (cq qp)) [
        | inl (e, keeps) ↦
            poll_loop-Owed qps (kept ++ qp ∷ []) (update cq qp rest) s owed r
              (kept-Owes qp qps kept cq s owed rest keeps o) (rw (poll_loop, e) at run)
        | inr (inl e) ↦ absurd (ok-not_aborted r (sym (rw (poll_loop, e) at run)))
        | inr (inr (c, e, ne, takes)) ↦ elim (Bool-cases (ltb 0 (s.pending_counts c))) [
          | inr z ↦ absurd (ok-not_aborted r (sym (rw (poll_loop, e, z) at run)))
          | inl z ↦
              let there : 0 < requests qp c owed =
                omega (
                  arith,
                  o.untaken qp c ne,
                  takes c ne,
                  once qp c,
                  rw (==_refl c) at (takes c ne),
                ) in
              let (left, w) = take_request qp c owed there in
              poll_loop-Owed qps kept (update cq qp rest) (complete s c) left r
                (taken-Owes qp c qps kept cq s owed left rest takes w o)
                (rw (poll_loop, e, z) at run)
        ]
      ]
