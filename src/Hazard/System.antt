-- ===== src/Hazard/System.antt =====
-- core/util/hazard_pointer.h: the calls of any number of threads on one shared list.
use disaggregate_metadata_se.Base.{
  ℕ, ◌≡◌, ◌≢◌, ◌⊎◌, inl, inr, refl, sym, ap, ◌∙◌, Bool, true, Option, none, some, List, [], ◌∷◌,
  ◌++◌, map, ◌==◌, get_elem?, update, mem, arith, Bool-cases, ==_iff,
}
use disaggregate_metadata_se.Base.Run.{Run, ok, ◌>>=◌}
use disaggregate_metadata_se.Hazard.{
  HazardPointerList, new_hazard_pointer_list, new_reclaimer, ReclaimNode, Reclaimer, set_ptr,
  Marked, mark_hazard, unmark_hazard, reclaim_later, Reclaimed, reclaim_no_hazard_pointer,
}
use disaggregate_metadata_se.Hazard.Marks.{IsFresh}

-- The reclaimers of the threads, and the pointers deleted so far
pub record System : Type 0 where
  pub shared : HazardPointerList
  pub threads : ℕ → Reclaimer
  pub deleted : List ℕ

abbrev pub new_system : Bool → System
new_system flag = record {
  shared = new_hazard_pointer_list flag;
  threads = λ s. new_reclaimer;
  deleted = [];
}

-- A call by a thread
pub data Call : Type 0 where
  mark : ℕ → ℕ → Call
  unmark : ℕ → Option ℕ → Call
  later : ℕ → ℕ → ℕ → Call
  reclaim : ℕ → Call

abbrev pub marked : System → ℕ → Marked → System
marked sys s m = record sys { shared = m.shared; threads = update sys.threads s m.reclaimer }

abbrev pub reclaimed : System → ℕ → Reclaimed → System
reclaimed sys s r = record sys {
  threads = update sys.threads s r.reclaimer;
  deleted = map (λ (n : ReclaimNode). n.ptr) r.deleted ++ sys.deleted;
}

abbrev pub call : System → Call → Run System
call sys (mark s ptr) = ok (marked sys s (mark_hazard sys.shared (sys.threads s) ptr))
call sys (unmark s i) =
    unmark_hazard sys.shared (sys.threads s) i >>= λ g. ok (record sys { shared = g })
call sys (later s ptr f) =
    ok (record sys { threads = update sys.threads s (reclaim_later (sys.threads s) ptr f) })
call sys (reclaim s) = ok (reclaimed sys s (reclaim_no_hazard_pointer sys.shared (sys.threads s)))

abbrev pub calls : System → List Call → Run System
calls sys [] = ok sys
calls sys (c ∷ cs) = call sys c >>= λ after. calls after cs

-- The record `q` is the one of index `i` of the thread `s`.
abbrev pub Owns : System → ℕ → ℕ → ℕ → Type 0
Owns sys s i q = get_elem? (sys.threads s).hp_list i ≡ some q

-- The records of the threads are in the shared list and flagged, and no record is had twice.
pub record IsSystem (sys : System) : Type 0 where
  pub fresh : IsFresh sys.shared
  pub owned :
      (s i q : ℕ)
      → Owns sys s i q
      → (mem q sys.shared.records ≡ true) × ((sys.shared.hps q).flag ≡ true)
  pub once : (s t i j q : ℕ) → Owns sys s i q → Owns sys t j q → (s ≡ t) × (i ≡ j)

-- The thread `t` has the pointer `p` marked at index `i`.
abbrev pub Protects : System → ℕ → ℕ → ℕ → Type 0
Protects sys t i p = (q : ℕ) × Owns sys t i q × ((sys.shared.hps q).ptr ≡ p)

-- A call that is not the unmarking of the index `i` by the thread `t`
abbrev pub Keeps : ℕ → ℕ → Call → Type 0
Keeps t i (mark s ptr) = Unit
Keeps t i (unmark s none) = Unit
Keeps t i (unmark s (some j)) = (s ≢ t) ⊎ (j ≢ i)
Keeps t i (later s ptr f) = Unit
Keeps t i (reclaim s) = Unit

abbrev pub AllKeep : ℕ → ℕ → List Call → Type 0
AllKeep t i [] = Unit
AllKeep t i (c ∷ cs) = Keeps t i c × AllKeep t i cs

-- Where a reclaimer keeps its records, so do the threads.
pub Owns-update :
    (threads : ℕ → Reclaimer) (s : ℕ) (r : Reclaimer) (u : ℕ)
    → r.hp_list ≡ (threads s).hp_list
    → (update threads s r u).hp_list ≡ (threads u).hp_list
Owns-update threads s r u same = elim (Bool-cases (u == s)) [
  | inl e ↦
      let is : u ≡ s = (==_iff u s).0 e in rw e (same ∙ ap (λ z. (threads z).hp_list) (sym is))
  | inr e ↦ rw e refl
]

-- A system with the same records of each thread, in which the flags and the list are as before
pub same-IsSystem :
    (sys after : System)
    → IsSystem sys
    → ((u : ℕ) → (after.threads u).hp_list ≡ (sys.threads u).hp_list)
    → after.shared.records ≡ sys.shared.records
    → after.shared.brk ≡ sys.shared.brk
    → ((q : ℕ) → (after.shared.hps q).flag ≡ (sys.shared.hps q).flag)
    → IsSystem after
same-IsSystem sys after w lists records brk flags =
    let had : (s i q : ℕ) → Owns after s i q → Owns sys s i q = λ s i q o. rw lists at o in
    record {
      fresh = λ q m. rw brk (w.fresh q (rw records at m));
      owned = λ s i q o. rw (records, flags) (w.owned s i q (had s i q o));
      once = λ s t i j q o p. w.once s t i j q (had s i q o) (had t j q p);
    }

pub flag-set_ptr :
    (g : HazardPointerList) (q ptr r : ℕ) → ((set_ptr g q ptr).hps r).flag ≡ (g.hps r).flag
flag-set_ptr g q ptr r = elim (Bool-cases (r == q)) [
  | inl e ↦ let is : r ≡ q = (==_iff r q).0 e in rw e (ap (λ z. (g.hps z).flag) (sym is))
  | inr e ↦ rw e refl
]

pub new-IsSystem : (flag : Bool) → IsSystem (new_system flag)
unfolding new_hazard_pointer_list new_reclaimer
new-IsSystem flag = record {
  fresh = λ q m. ground (arith, m);
  owned = λ s i q o. absurd cc;
  once = λ s t i j q o p. absurd cc;
}
