-- ===== src/Scheduler/Awake.antt =====
-- No lost wake-up: a coroutine leaves the ring only while it waits for requests, and is back in it
-- when the last of them is complete.
use mathlib.Core.Path.{subst}
use disaggregate_metadata_se.Base.{
  ℕ, ◌<◌, ◌≡◌, ◌⊎◌, ◌∙◌, refl, sym, inl, inr, true, false, List, [], ◌∷◌, ◌==◌, mem, ==_iff,
  Bool-cases, arith,
}
use disaggregate_metadata_se.Scheduler.{Scheduler, add_pending_qp, run_coroutine, unlink}
use disaggregate_metadata_se.Scheduler.Ring.{Linked, IsRing}
use disaggregate_metadata_se.Scheduler.Unlink.{
  remove, remove-Linked, mem-remove, mem-remove_ne, not-mem-remove_self, start-out,
}

-- `workers` are the coroutines other than the head; those of `ys` are in the ring.
pub record Tracks (s : Scheduler) (workers ys : List ℕ) : Type 0 where
  pub ring : IsRing s ys
  pub within : (c : ℕ) → mem c ys ≡ true → mem c workers ≡ true
  pub head_out : mem s.coro_head workers ≡ false
  pub away :
      (c : ℕ)
      → mem c workers ≡ true
      → mem c ys ≡ false
      → (s.is_wait_poll c ≡ true) × (0 < s.pending_counts c)
  pub idle : (c : ℕ) → mem c ys ≡ true → s.is_wait_poll c ≡ true → s.pending_counts c ≡ 0
  pub others : (c : ℕ) → mem c workers ≡ false → s.pending_counts c ≡ 0

pub Linked-links :
    (s t : Scheduler) (x : ℕ) (ys : List ℕ)
    → t.next_coro ≡ s.next_coro
    → t.prev_coro ≡ s.prev_coro
    → t.coro_head ≡ s.coro_head
    → t.coro_tail ≡ s.coro_tail
    → Linked s x ys
    → Linked t x ys
Linked-links s t x [] n p h e l = (e ∙ l.0, (λ i. n i x) ∙ l.1 ∙ sym h)
Linked-links s t x (y ∷ ys) n p h e l =
    ((λ i. n i x) ∙ l.0, (λ i. p i y) ∙ l.1, l.2, Linked-links s t y ys n p h e l.3)

not-mem_other :
    (a c : ℕ) (ys : List ℕ) → (a == c) ≡ false → mem a (remove c ys) ≡ false → mem a ys ≡ false
not-mem_other a c ys e o = elim (Bool-cases (mem a ys)) [
  | inl m ↦ absurd (ground (arith, o, mem-remove_ne a c ys (λ q. absurd (ground (arith, q, e))) m))
  | inr m ↦ m
]

module _ (s : Scheduler) (workers ys : List ℕ) (k : Tracks s workers ys) where
  -- A coroutine that does not wait is in the ring.
  pub running-in : (c : ℕ) → mem c workers ≡ true → s.is_wait_poll c ≡ false → mem c ys ≡ true
  running-in c w r = elim (Bool-cases (mem c ys)) [
    | inl m ↦ m
    | inr m ↦ absurd (ground (arith, k.away c w m, r))
  ]

  -- It posts a request.
  pub post-Tracks :
      (c qp : ℕ)
      → mem c workers ≡ true
      → s.is_wait_poll c ≡ false
      → Tracks (add_pending_qp s c qp) workers ys
  unfolding add_pending_qp
  post-Tracks c qp w r = record {
    ring = Linked-links s (add_pending_qp s c qp) s.coro_head ys refl refl refl refl k.ring;
    within = k.within;
    head_out = k.head_out;
    away = λ a i o. ((k.away a i o).0, ground (arith, k.away a i o));
    idle = λ a i p. elim (Bool-cases (a == c)) [
      | inl e ↦ absurd (ground (arith, r, p, (==_iff a c).0 e))
      | inr e ↦ rw e (k.idle a i p)
    ];
    others = λ a o. elim (Bool-cases (a == c)) [
      | inl e ↦ absurd (ground (arith, o, w, (==_iff a c).0 e))
      | inr e ↦ rw e (k.others a o)
    ];
  }

  not-away :
      (a c : ℕ)
      → mem a workers ≡ true
      → mem a ys ≡ false
      → a ≡ c
      → (mem c ys ≡ true) ⊎ (c ≡ s.coro_head)
      → ⊥
  not-away a c w o e (inl m) = ground (arith, o, e, m)
  not-away a c w o e (inr h) = ground (arith, w, e, h, k.head_out)

  -- A coroutine of the ring runs.
  pub run-Tracks :
      (c : ℕ) → (mem c ys ≡ true) ⊎ (c ≡ s.coro_head) → Tracks (run_coroutine s c) workers ys
  unfolding run_coroutine
  run-Tracks c i = record {
    ring = Linked-links s (run_coroutine s c) s.coro_head ys refl refl refl refl k.ring;
    within = k.within;
    head_out = k.head_out;
    away = λ a w o. elim (Bool-cases (a == c)) [
      | inl e ↦ absurd (not-away a c w o ((==_iff a c).0 e) i)
      | inr e ↦ rw e (k.away a w o)
    ];
    idle = λ a m p. elim (Bool-cases (a == c)) [
      | inl e ↦ absurd (ground (arith, p, e))
      | inr e ↦ k.idle a m (ground (arith, p, e))
    ];
    others = k.others;
  }

  -- A running coroutine with requests in flight leaves the ring.
  pub unlink-Tracks :
      (c : ℕ)
      → mem c workers ≡ true
      → s.is_wait_poll c ≡ false
      → 0 < s.pending_counts c
      → Tracks (unlink s c) workers (remove c ys)
  unfolding unlink
  unlink-Tracks c w r p = record {
    ring =
        remove-Linked s c s.coro_head ys k.ring (running-in c w r)
          (start-out s s.coro_head ys k.ring);
    within = λ a i. k.within a (mem-remove a c ys i);
    head_out = k.head_out;
    away = λ a i o. elim (Bool-cases (a == c)) [
      | inl e ↦ (rw e, subst (λ q. 0 < s.pending_counts q) (sym ((==_iff a c).0 e)) p)
      | inr e ↦ rw e (k.away a i (not-mem_other a c ys e o))
    ];
    idle = λ a i q. elim (Bool-cases (a == c)) [
      | inl e ↦
          absurd
            (ground (arith, i, (==_iff a c).0 e, not-mem-remove_self s c s.coro_head ys k.ring))
      | inr e ↦ k.idle a (mem-remove a c ys i) (ground (arith, q, e))
    ];
    others = k.others;
  }
