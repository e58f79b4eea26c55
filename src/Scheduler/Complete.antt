-- ===== src/Scheduler/Complete.antt =====
-- The polls: every completion keeps the ring in order, and the last one of a coroutine brings it back.
use mathlib.Core.Path.{subst}
use disaggregate_metadata_se.Base.{
  ℕ, ◌-◌, ◌<◌, ◌≡◌, ◌≢◌, ◌⊎◌, refl, sym, inl, inr, true, false, List, [], ◌∷◌, ◌++◌, ◌==◌, ltb,
  ltb→lt, mem, update, ==_iff, Bool-cases, mem-append, mem-snoc, not-mem_cons, arith,
}
use disaggregate_metadata_se.Base.Run.{ReturnsOrAborts}
use disaggregate_metadata_se.Scheduler.{
  Scheduler, append_coroutine, Cq, Polled, keep, abort, done, poll_one, complete, poll_loop,
  poll_regular_completion,
}
use disaggregate_metadata_se.Scheduler.Ring.{Linked, appended, appended-Linked}
use disaggregate_metadata_se.Scheduler.Awake.{Tracks, Linked-links, running-in}

-- One request of `c` fewer.
abbrev taken : Scheduler → ℕ → Scheduler
taken s c = record s { pending_counts = update s.pending_counts c (s.pending_counts c - 1) }

complete-more :
    (s : Scheduler) (c : ℕ) → (s.pending_counts c - 1 == 0) ≡ false → complete s c ≡ taken s c
unfolding complete
complete-more s c e = rw e

complete-last :
    (s : Scheduler) (c : ℕ)
    → (s.pending_counts c - 1 == 0) ≡ true
    → s.is_wait_poll c ≡ true
    → complete s c ≡ appended (taken s c) c
unfolding complete append_coroutine
complete-last s c e w = rw (e, w)

complete-last_running :
    (s : Scheduler) (c : ℕ) → s.is_wait_poll c ≡ false → complete s c ≡ taken s c
unfolding complete append_coroutine
complete-last_running s c w = elim (Bool-cases (s.pending_counts c - 1 == 0)) [
  | inl e ↦ rw (e, w)
  | inr e ↦ rw e
]

module _ (s : Scheduler) (workers ys : List ℕ) (k : Tracks s workers ys) (c : ℕ) where
  module _ (p : 0 < s.pending_counts c) where
    pending-worker : mem c workers ≡ true
    pending-worker = elim (Bool-cases (mem c workers)) [
      | inl m ↦ m
      | inr m ↦ absurd (omega (arith, k.others c m))
    ]

    waiting-out : s.is_wait_poll c ≡ true → mem c ys ≡ false
    waiting-out w = elim (Bool-cases (mem c ys)) [
      | inl m ↦ absurd (omega (arith, k.idle c m w))
      | inr m ↦ m
    ]

    taken-ring : (x : ℕ) (zs : List ℕ) → Linked s x zs → Linked (taken s c) x zs
    taken-ring x zs l = Linked-links s (taken s c) x zs refl refl refl refl l

    taken-others : (a : ℕ) → mem a workers ≡ false → (taken s c).pending_counts a ≡ 0
    taken-others a o = elim (Bool-cases (a == c)) [
      | inl e ↦ absurd (ground (arith, o, pending-worker, (==_iff a c).0 e))
      | inr e ↦ rw e (k.others a o)
    ]

    left_pos : (s.pending_counts c - 1 == 0) ≡ false → 0 < s.pending_counts c - 1
    left_pos e = ground arith

    not_head : c ≢ s.coro_head
    not_head e = ground (arith, e, pending-worker, k.head_out)

    -- The ring as it was: `c` runs, or has more requests in flight.
    taken-Tracks :
        (s.is_wait_poll c ≡ false) ⊎ (s.pending_counts c - 1 == 0 ≡ false)
        → Tracks (taken s c) workers ys
    taken-Tracks why = record {
      ring = taken-ring s.coro_head ys k.ring;
      within = k.within;
      head_out = k.head_out;
      away = λ a w o. elim (Bool-cases (a == c)) [
        | inl e ↦ elim why [
          | inl r ↦
              absurd
                (ground (arith, o, (==_iff a c).0 e, running-in s workers ys k c pending-worker r))
          | inr more ↦ ((k.away a w o).0, rw e (left_pos more))
        ]
        | inr e ↦ rw e (k.away a w o)
      ];
      idle = λ a i q. elim (Bool-cases (a == c)) [
        | inl e ↦ absurd (ground (arith, (==_iff a c).0 e, k.idle a i q, p))
        | inr e ↦ rw e (k.idle a i q)
      ];
      others = taken-others;
    }

    appended-Tracks :
        s.is_wait_poll c ≡ true
        → s.pending_counts c - 1 == 0 ≡ true
        → Tracks (appended (taken s c) c) workers (ys ++ c ∷ [])
    appended-Tracks w last = record {
      ring =
          appended-Linked (taken s c) c s.coro_head ys (taken-ring s.coro_head ys k.ring)
            (not-mem_cons c s.coro_head ys not_head (waiting-out w));
      within = λ a i. elim (mem-snoc a c ys i) [
        | inl m ↦ k.within a m
        | inr e ↦ subst (λ q. mem q workers ≡ true) (sym e) pending-worker
      ];
      head_out = k.head_out;
      away = λ a m o. elim (Bool-cases (a == c)) [
        | inl e ↦ absurd (ground (arith, (==_iff a c).0 e, mem-append a ys (c ∷ []), o))
        | inr e ↦ rw e (k.away a m (ground (arith, mem-append a ys (c ∷ []), o)))
      ];
      idle = λ a i q. elim (Bool-cases (a == c)) [
        | inl e ↦ rw e ((==_iff (s.pending_counts c - 1) 0).0 last)
        | inr e ↦ rw e (k.idle a (ground (arith, mem-append a ys (c ∷ []), e, i)) q)
      ];
      others = taken-others;
    }

    pub complete-Tracks : (zs : List ℕ) × Tracks (complete s c) workers zs
    complete-Tracks = elim (Bool-cases (s.is_wait_poll c)) [
      | inr r ↦ (
        ys,
        subst (λ t. Tracks t workers ys) (sym (complete-last_running s c r)) (taken-Tracks (inl r)),
      )
      | inl w ↦ elim (Bool-cases (s.pending_counts c - 1 == 0)) [
        | inl e ↦ (
          ys ++ c ∷ [],
          subst (λ t. Tracks t workers (ys ++ c ∷ [])) (sym (complete-last s c e w))
              (appended-Tracks w e),
        )
        | inr e ↦ (
          ys,
          subst (λ t. Tracks t workers ys) (sym (complete-more s c e)) (taken-Tracks (inr e)),
        )
      ]
    ]

Polled-cases : (p : Polled) → (p ≡ keep) ⊎ (p ≡ abort) ⊎ ((c : ℕ) × (p ≡ done c))
Polled-cases keep = inl refl
Polled-cases abort = inr (inl refl)
Polled-cases (done c) = inr (inr (c, refl))

abbrev pub Tracked : List ℕ → Scheduler × Cq → Type 0
Tracked workers r = (zs : List ℕ) × Tracks r.0 workers zs

visited-Tracks :
    (s : Scheduler) (workers ys qps : List ℕ)
    → Tracks s workers ys
    → Tracks (record s { pending_qps = qps }) workers ys
visited-Tracks s workers ys qps k = record {
  ring = Linked-links s (record s { pending_qps = qps }) s.coro_head ys refl refl refl refl k.ring;
  within = k.within;
  head_out = k.head_out;
  away = k.away;
  idle = k.idle;
  others = k.others;
}

-- The visits of a poll.
poll_loop-Tracks :
    (qps kept workers ys : List ℕ) (cq : Cq) (s : Scheduler)
    → Tracks s workers ys
    → ReturnsOrAborts (poll_loop kept qps cq s) (Tracked workers)
unfolding poll_loop
poll_loop-Tracks [] kept workers ys cq s k =
    inl ((record s { pending_qps = kept }, cq), refl, (ys, visited-Tracks s workers ys kept k))
poll_loop-Tracks (qp ∷ qps) kept workers ys cq s k =
    let cq' = update cq qp (poll_one (cq qp)).1 in
    elim (Polled-cases (poll_one (cq qp)).0) [
      | inl e ↦ rw (poll_loop, e) (poll_loop-Tracks qps (kept ++ qp ∷ []) workers ys cq' s k)
      | inr (inl e) ↦ inr (rw (poll_loop, e))
      | inr (inr (c, e)) ↦ elim (Bool-cases (ltb 0 (s.pending_counts c))) [
        | inr z ↦ inr (rw (poll_loop, e, z))
        | inl p ↦
            let (zs, k') = complete-Tracks s workers ys k c (ltb→lt 0 (s.pending_counts c) p) in
            rw (poll_loop, e, p) (poll_loop-Tracks qps kept workers zs cq' (complete s c) k')
      ]
    ]

-- A visit to every pending queue pair.
pub poll-Tracks :
    (s : Scheduler) (workers ys : List ℕ) (cq : Cq)
    → Tracks s workers ys
    → ReturnsOrAborts (poll_regular_completion cq s) (Tracked workers)
unfolding poll_regular_completion
poll-Tracks s workers ys cq k = poll_loop-Tracks s.pending_qps [] workers ys cq s k
