-- ===== src/Hazard/Spared.antt =====
-- core/util/hazard_pointer.h: what is marked is not deleted.
use disaggregate_metadata_se.Base.{
  count, count-append, ℕ, suc, ◌≡◌, ◌≢◌, ◌⊎◌, inl, inr, refl, sym, ap, ◌∙◌, Bool, true, false, none,
  some, List, [], ◌∷◌, map, ◌==◌, get_elem?, length, update, mem, arith, Bool-cases, ==_iff,
  ==_refl,
}
use disaggregate_metadata_se.Base.Run.{ok, ok-not_aborted, ReturnsOrAborts}
use disaggregate_metadata_se.Hazard.{
  ReclaimNode, Reclaimer, set_ptr, try_acquire_hazard_pointer, mark_hazard, unmark_hazard,
  get_hazard_ptr, reclaim_later, collect, reclaim_no_hazard_pointer,
}
use disaggregate_metadata_se.Hazard.Marks.{
  try_acquire-Acquires, hazard_loop-mem, reclaim_no_hazard_pointer-spares, option_cases,
  mem-collect, reclaim_no_hazard_pointer-spares, option_cases,
}
use disaggregate_metadata_se.Hazard.System.{
  System, new_system, Call, mark, unmark, later, reclaim, marked, reclaimed, call, calls, Owns,
  IsSystem, Protects, Keeps, AllKeep, Owns-update, same-IsSystem, flag-set_ptr, new-IsSystem,
}
use disaggregate_metadata_se.Hazard.Acquire.{
  mark_hazard-Marks, grown-IsSystem, grown-Protects, grown-keeps,
}

-- What a call that keeps the marking of `p` leaves
abbrev Kept : System → ℕ → ℕ → ℕ → System → Type 0
Kept sys t i p after =
    IsSystem after
    × (Protects sys t i p → Protects after t i p × (count p after.deleted ≡ count p sys.deleted))

-- A call that changes no record of a thread, but for the pointers of the list
same-Kept :
    (sys after : System) (t i p : ℕ)
    → IsSystem sys
    → ((u : ℕ) → (after.threads u).hp_list ≡ (sys.threads u).hp_list)
    → after.shared ≡ sys.shared
    → (Protects sys t i p → count p after.deleted ≡ count p sys.deleted)
    → Kept sys t i p after
same-Kept sys after t i p w lists shared spared = (
  same-IsSystem sys after w lists (ap (λ g. g.records) shared) (ap (λ g. g.brk) shared)
      (λ q. ap (λ g. (g.hps q).flag) shared),
  λ (q, o, is). ((q, rw (lists t) o, rw shared is), spared (q, o, is)),
)

module _ (sys : System) (w : IsSystem sys) (t i p : ℕ) (marks : p ≢ 0) where
  -- A write of the pointer of a record that is not the one protected
  set_ptr-Kept :
      (threads : ℕ → Reclaimer) (r ptr : ℕ)
      → ((u : ℕ) → (threads u).hp_list ≡ (sys.threads u).hp_list)
      → ((q : ℕ) → Owns sys t i q → (sys.shared.hps q).ptr ≡ p → q ≢ r)
      → Kept sys t i p (record sys { shared = set_ptr sys.shared r ptr; threads = threads })
  set_ptr-Kept threads r ptr lists other = (
    same-IsSystem sys (record sys { shared = set_ptr sys.shared r ptr; threads = threads }) w lists
        refl refl (flag-set_ptr sys.shared r ptr),
    λ (q, o, is).
        let ne : (q == r) ≡ false = elim (Bool-cases (q == r)) [
          | inl e ↦ absurd (other q o is ((==_iff q r).0 e))
          | inr e ↦ e
        ] in
        ((q, rw (lists t) o, rw ne is), refl),
  )

  mark-Kept :
      (s ptr : ℕ) → Kept sys t i p (marked sys s (mark_hazard sys.shared (sys.threads s) ptr))
  mark-Kept s ptr = elim (mark_hazard-Marks sys.shared (sys.threads s) ptr) [
    | inl (null, e) ↦ rw e (
        same-Kept sys (record sys { threads = update sys.threads s (sys.threads s) }) t i p w
          (λ u. Owns-update sys.threads s (sys.threads s) u refl) refl (λ z. refl))
    | inr (inl (k, q, at, free, e)) ↦ rw e (
        set_ptr-Kept (update sys.threads s (sys.threads s)) q ptr
          (λ u. Owns-update sys.threads s (sys.threads s) u refl)
          (λ r o is same. marks (sym is ∙ ap (λ z. (sys.shared.hps z).ptr) same ∙ free)))
    | inr (inr e) ↦
        let a = try_acquire_hazard_pointer sys.shared in
        let g = try_acquire-Acquires sys.shared w.fresh in
        rw e (
          grown-IsSystem sys w s ptr a g,
          λ protects. (grown-keeps sys w s ptr a g t i p protects, refl),
        )
  ]

  unmark-Kept :
      (s j : ℕ)
      → (s ≢ t) ⊎ (j ≢ i)
      → ReturnsOrAborts (call sys (unmark s (some j))) (Kept sys t i p)
  unfolding unmark_hazard
  unmark-Kept s j other = elim (option_cases (get_elem? (sys.threads s).hp_list j)) [
    | inl e ↦ inr (rw e refl)
    | inr (r, e) ↦ inl (
      _,
      rw e refl,
      set_ptr-Kept sys.threads r 0 (λ u. refl)
          λ q o is same.
            let (f, k) = w.once s t j i r e (rw same at o) in ground (arith, other, f, k),
    )
  ]

  reclaim-Kept :
      (s : ℕ)
      → Kept sys t i p (reclaimed sys s (reclaim_no_hazard_pointer sys.shared (sys.threads s)))
  reclaim-Kept s =
      let r = reclaim_no_hazard_pointer sys.shared (sys.threads s) in
      let (lists, spared) = reclaim_no_hazard_pointer-spares sys.shared (sys.threads s) in
      same-Kept sys (reclaimed sys s r) t i p w (λ u. Owns-update sys.threads s r.reclaimer u lists)
        refl
        λ (q, o, is).
          let seen : mem p (collect sys.shared.hps sys.shared.records) ≡ true =
            mem-collect sys.shared.hps sys.shared.records p marks
            ∙ (rw is at
                (hazard_loop-mem sys.shared.hps sys.shared.records q (w.owned t i q o).0)) in
          omega (
            arith,
            count-append p (map (λ (n : ReclaimNode). n.ptr) r.deleted) sys.deleted,
            spared p seen,
          )

  call-Kept : (c : Call) → Keeps t i c → ReturnsOrAborts (call sys c) (Kept sys t i p)
  unfolding reclaim_later unmark_hazard
  call-Kept (mark s ptr) keeps = inl (_, refl, mark-Kept s ptr)
  call-Kept (unmark s none) keeps =
      inl (_, refl, same-Kept sys sys t i p w (λ u. refl) refl (λ z. refl))
  call-Kept (unmark s (some j)) keeps = unmark-Kept s j keeps
  call-Kept (later s ptr f) keeps =
      let r = reclaim_later (sys.threads s) ptr f in
      inl (
        _,
        refl,
        same-Kept sys (record sys { threads = update sys.threads s r }) t i p w
            (λ u. Owns-update sys.threads s r u refl) refl (λ z. refl),
      )
  call-Kept (reclaim s) keeps = inl (_, refl, reclaim-Kept s)

pub calls-Kept :
    (cs : List Call) (sys : System) (t i p : ℕ)
    → IsSystem sys
    → p ≢ 0
    → AllKeep t i cs
    → ReturnsOrAborts (calls sys cs) (Kept sys t i p)
calls-Kept [] sys t i p w marks keeps = inl (sys, refl, (w, λ protects. (protects, refl)))
calls-Kept (c ∷ cs) sys t i p w marks keeps = elim (call-Kept sys w t i p marks c keeps.0) [
  | inr e ↦ inr (rw e refl)
  | inl (mid, e, (w', kept)) ↦ elim (calls-Kept cs mid t i p w' marks keeps.1) [
    | inr f ↦ inr (rw (e, f) refl)
    | inl (after, f, (v, still)) ↦ inl (
      after,
      rw (e, f) refl,
      (
        v,
        λ protects.
            let (there, same) = kept protects in
            let (here, more) = still there in (here, more ∙ same),
      ),
    )
  ]
]

-- The thread that calls
abbrev thread_of : Call → ℕ
thread_of (mark s ptr) = s
thread_of (unmark s i) = s
thread_of (later s ptr f) = s
thread_of (reclaim s) = s

-- A call keeps what another thread has marked.
other-Keeps : (c : Call) → Keeps (suc (thread_of c)) 0 c
other-Keeps (mark s ptr) = tt
other-Keeps (unmark s none) = tt
other-Keeps (unmark s (some j)) = inl (λ e. omega (arith, e))
other-Keeps (later s ptr f) = tt
other-Keeps (reclaim s) = tt

calls-IsSystem :
    (cs : List Call) (sys after : System) → IsSystem sys → calls sys cs ≡ ok after → IsSystem after
calls-IsSystem [] sys after w e = let is : after ≡ sys = cc in rw is w
calls-IsSystem (c ∷ cs) sys after w e =
    elim (call-Kept sys w (suc (thread_of c)) 0 1 (λ z. omega (arith, z)) c (other-Keeps c)) [
      | inr f ↦ absurd (ok-not_aborted after (sym (rw f at e)))
      | inl (mid, f, (w', kept)) ↦ calls-IsSystem cs mid after w' (rw f at e)
    ]

-- The index that a marking returns is one of the thread, whose record has the pointer.
mark-Protects :
    (sys : System) (t p i : ℕ)
    → IsSystem sys
    → p ≢ 0
    → (mark_hazard sys.shared (sys.threads t) p).index ≡ some i
    → Protects (marked sys t (mark_hazard sys.shared (sys.threads t) p)) t i p
mark-Protects sys t p i w marks index = elim (mark_hazard-Marks sys.shared (sys.threads t) p) [
  | inl (null, e) ↦ absurd (marks null)
  | inr (inl (k, q, at, free, e)) ↦
      let is : k ≡ i = cc in rw e (q, rw (==_refl t, sym is) at, rw (==_refl q) refl)
  | inr (inr e) ↦
      let a = try_acquire_hazard_pointer sys.shared in
      let is : length (sys.threads t).hp_list ≡ i = cc in
      rw (e, sym is) (grown-Protects sys w t p a (try_acquire-Acquires sys.shared w.fresh))
]

Protects-get :
    (sys : System) (t i p : ℕ)
    → Protects sys t i p
    → get_hazard_ptr sys.shared (sys.threads t) (some i) ≡ ok p
unfolding get_hazard_ptr
Protects-get sys t i p (q, o, is) = rw (o, is) refl

-- After any calls of any threads on a new list, a thread marks a pointer that is not null and gets
-- an index. Then any further calls, but for the thread's unmarking of that index, return with the
-- pointer still at the index and deleted just as often as before the marking, or an assertion of
-- theirs fails.
pub marked-spared :
    (flag : Bool) (before after : List Call) (sys : System) (t p i : ℕ)
    → calls (new_system flag) before ≡ ok sys
    → p ≢ 0
    → (mark_hazard sys.shared (sys.threads t) p).index ≡ some i
    → AllKeep t i after
    → ReturnsOrAborts (calls sys (mark t p ∷ after)) λ done.
      (get_hazard_ptr done.shared (done.threads t) (some i) ≡ ok p)
      × (count p done.deleted ≡ count p sys.deleted)
marked-spared flag before after sys t p i history marks index keeps =
    let w = calls-IsSystem before (new_system flag) sys (new-IsSystem flag) history in
    let mid = marked sys t (mark_hazard sys.shared (sys.threads t) p) in
    let v = (mark-Kept sys w t i p marks t p).0 in
    elim (calls-Kept after mid t i p v marks keeps) [
      | inr e ↦ inr e
      | inl (done, e, (u, still)) ↦
          let (there, same) = still (mark-Protects sys t p i w marks index) in
          inl (done, e, (Protects-get done t i p there, same))
    ]
