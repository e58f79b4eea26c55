-- ===== src/Scheduler/Card.antt =====
-- The network card beside the scheduler of a thread: the requests that were posted to a queue pair for a
-- coroutine, what the card has reported of them, and what the polls have taken of the reports.
use mathlib.Core.Path.{subst}
use disaggregate_metadata_se.Base.{
  ℕ, ◌+◌, ◌<◌, ◌≡◌, ◌≢◌, ◌⊎◌, refl, sym, inl, inr, Bool, true, false, ◌&&◌, List, [], ◌∷◌, ◌++◌,
  ◌==◌, one_if, ==_refl, Bool-cases, arith,
}
use disaggregate_metadata_se.Base.Run.{}
use disaggregate_metadata_se.Scheduler.{Status, Wc, Polled, keep, abort, done, poll_one}

abbrev pub is_success : Status → Bool
is_success Status.success = true
is_success Status.retry_exc_err = false
is_success Status.other_err = false

abbrev pub reports : ℕ → Wc → Bool
reports c wc = is_success wc.status && wc.wr_id == c

-- How many of the completions report a request of `c` done
abbrev pub completions : ℕ → List Wc → ℕ
completions c [] = 0
completions c (wc ∷ wcs) = one_if (reports c wc) + completions c wcs

pub completions-append :
    (c : ℕ) (xs ys : List Wc) → completions c (xs ++ ys) ≡ completions c xs + completions c ys
completions-append c [] ys = omega arith
completions-append c (x ∷ xs) ys = omega (arith, completions-append c xs ys)

-- A request is its queue pair and its coroutine.
abbrev pub Request : Type 0
Request = ℕ × ℕ

abbrev pub by_qp : ℕ → List Request → ℕ
by_qp q [] = 0
by_qp q (r ∷ rs) = one_if (q == r.0) + by_qp q rs

abbrev pub by_coro : ℕ → List Request → ℕ
by_coro c [] = 0
by_coro c (r ∷ rs) = one_if (c == r.1) + by_coro c rs

abbrev pub requests : ℕ → ℕ → List Request → ℕ
requests q c [] = 0
requests q c (r ∷ rs) = one_if (q == r.0 && c == r.1) + requests q c rs

-- The list without one request of the queue pair and the coroutine
pub record Without (q c : ℕ) (rs left : List Request) : Type 0 where
  pub of_qp : (a : ℕ) → by_qp a left + one_if (a == q) ≡ by_qp a rs
  pub of_coro : (b : ℕ) → by_coro b left + one_if (b == c) ≡ by_coro b rs
  pub of_both : (a b : ℕ) → requests a b left + one_if (a == q && b == c) ≡ requests a b rs

pub take_request :
    (q c : ℕ) (rs : List Request)
    → 0 < requests q c rs
    → (left : List Request) × Without q c rs left
take_request q c [] pos = absurd (omega arith)
take_request q c (r ∷ rs) pos = elim (Bool-cases (q == r.0 && c == r.1)) [
  | inl e ↦
      let is_q : q ≡ r.0 = ground (arith, e) in
      let is_c : c ≡ r.1 = ground (arith, e) in
      (
        rs,
        record {
          of_qp = λ a. rw is_q (omega arith);
          of_coro = λ b. rw is_c (omega arith);
          of_both = λ a b. rw (is_q, is_c) (omega arith);
        },
      )
  | inr e ↦
      let (left, w) = take_request q c rs (omega (arith, rw e at pos)) in
      (
        r ∷ left,
        record {
          of_qp = λ a. omega (arith, w.of_qp a);
          of_coro = λ b. omega (arith, w.of_coro b);
          of_both = λ a b. omega (arith, w.of_both a b);
        },
      )
]

-- A request of the coroutine is one of a queue pair.
pub coro_request :
    (c : ℕ) (rs : List Request)
    → 0 < by_coro c rs
    → (q : ℕ) × (0 < requests q c rs) × (0 < by_qp q rs)
coro_request c [] pos = absurd (omega arith)
coro_request c (r ∷ rs) pos = elim (Bool-cases (c == r.1)) [
  | inl e ↦ (r.0, rw (==_refl r.0, e) (omega arith), rw (==_refl r.0) (omega arith))
  | inr e ↦
      let (q, both, of_qp) = coro_request c rs (omega (arith, rw e at pos)) in
      (q, omega (arith, both), omega (arith, of_qp))
]

-- What a visit to a queue pair takes of its completions
abbrev pub Keeps : List Wc → List Wc → Type 0
Keeps wcs rest = (x : ℕ) → x ≢ 0 → completions x rest ≡ completions x wcs

Status-cases :
    (s : Status) → (s ≡ Status.success) ⊎ (s ≡ Status.retry_exc_err) ⊎ (s ≡ Status.other_err)
Status-cases Status.success = inl refl
Status-cases Status.retry_exc_err = inr (inl refl)
Status-cases Status.other_err = inr (inr refl)

-- A visit takes no report, aborts, or takes one report of a coroutine other than the head.
abbrev Visited : List Wc → Polled → List Wc → Type 0
Visited wcs polled rest =
    ((polled ≡ keep) × Keeps wcs rest)
    ⊎ (polled ≡ abort)
    ⊎ ((c : ℕ) × (polled ≡ done c)
        × (c ≢ 0)
        × ((x : ℕ) → x ≢ 0 → completions x rest + one_if (x == c) ≡ completions x wcs))

-- A completion of request 0 before them
skip-Visited :
    (wc : Wc) (wcs rest : List Wc) (polled : Polled)
    → (wc.wr_id == 0) ≡ true
    → Visited wcs polled rest
    → Visited (wc ∷ wcs) polled rest
skip-Visited wc wcs rest polled zero_id v =
    let none : (x : ℕ) → x ≢ 0 → one_if (reports x wc) ≡ 0 = λ x ne. ground (arith, zero_id, ne) in
    elim v [
      | inl (e, keeps) ↦ inl (e, λ x ne. omega (arith, keeps x ne, none x ne))
      | inr (inl e) ↦ inr (inl e)
      | inr (inr (c, e, ne, takes)) ↦
          inr (inr (c, e, ne, λ x n. omega (arith, takes x n, none x n)))
    ]

poll_skips :
    (wc : Wc) (rest : List Wc)
    → wc.status ≡ Status.success
    → (wc.wr_id == 0) ≡ true
    → poll_one (wc ∷ rest) ≡ poll_one rest
unfolding poll_one
poll_skips wc rest e z = rw (e, z) refl

poll_takes :
    (wc : Wc) (rest : List Wc)
    → wc.status ≡ Status.success
    → (wc.wr_id == 0) ≡ false
    → poll_one (wc ∷ rest) ≡ (done wc.wr_id, rest)
unfolding poll_one
poll_takes wc rest e z = rw (e, z) refl

poll_fails :
    (wc : Wc) (rest : List Wc)
    → wc.status ≡ Status.retry_exc_err
    → poll_one (wc ∷ rest) ≡ (keep, rest)
unfolding poll_one
poll_fails wc rest e = rw e refl

poll_aborts :
    (wc : Wc) (rest : List Wc) → wc.status ≡ Status.other_err → poll_one (wc ∷ rest) ≡ (abort, rest)
unfolding poll_one
poll_aborts wc rest e = rw e refl

pub poll_one-Visited : (wcs : List Wc) → Visited wcs (poll_one wcs).0 (poll_one wcs).1
unfolding poll_one
poll_one-Visited [] = inl (refl, λ x ne. refl)
poll_one-Visited (wc ∷ rest) =
    let by_run : (r : Polled × List Wc)
        → poll_one (wc ∷ rest) ≡ r
        → Visited (wc ∷ rest) r.0 r.1
        → Visited (wc ∷ rest) (poll_one (wc ∷ rest)).0 (poll_one (wc ∷ rest)).1 =
      λ r run v. subst (λ (z : Polled × List Wc). Visited (wc ∷ rest) z.0 z.1) (sym run) v in
    elim (Status-cases wc.status) [
      | inr (inl e) ↦
          by_run (keep, rest) (poll_fails wc rest e) (inl (refl, λ x ne. rw e (omega arith)))
      | inr (inr e) ↦ by_run (abort, rest) (poll_aborts wc rest e) (inr (inl refl))
      | inl e ↦ elim (Bool-cases (wc.wr_id == 0)) [
        | inl z ↦
            by_run (poll_one rest) (poll_skips wc rest e z)
              (skip-Visited wc rest (poll_one rest).1 (poll_one rest).0 z (poll_one-Visited rest))
        | inr z ↦
            by_run (done wc.wr_id, rest) (poll_takes wc rest e z)
              (inr (
                inr (
                  wc.wr_id,
                  refl,
                  (λ n. absurd (ground (arith, n, z))),
                  (λ x ne. rw e (ground arith)),
                )))
      ]
    ]
