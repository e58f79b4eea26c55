-- ===== src/Hazard/Marks.antt =====
-- core/util/hazard_pointer.h: what marking, unmarking and reclaiming do to the shared list.
use disaggregate_metadata_se.Base.{
  count, ℕ, suc, ◌+◌, ◌*◌, ◌≤◌, ◌<◌, ◌≡◌, ◌≢◌, ◌⊎◌, inl, inr, refl, sym, ap, ◌∙◌, Bool, true, false,
  not, Option, none, some, List, [], ◌∷◌, map, ◌==◌, ltb, if◌then◌else◌, get_elem?, length, mem,
  arith, Bool-cases, ==_iff, ==_refl,
}
use disaggregate_metadata_se.Base.Run.{}
use disaggregate_metadata_se.Hazard.{
  InternalHazardPointer, HazardPointerList, ReclaimNode, Reclaimer, test_and_set, find_idle,
  push_record, Acquired, try_acquire_hazard_pointer, find_null, hazard_loop, hazard, collect,
  Reclaimed, sweep, reclaim_no_hazard_pointer,
}

abbrev pub IsFresh : HazardPointerList → Type 0
IsFresh g = (q : ℕ) → mem q g.records ≡ true → q < g.brk

find_idle-cases :
    (hps : ℕ → InternalHazardPointer) (qs : List ℕ)
    → (find_idle hps qs ≡ none)
      ⊎ ((q : ℕ) × (find_idle hps qs ≡ some q) × (mem q qs ≡ true) × ((hps q).flag ≡ false))
unfolding find_idle
find_idle-cases hps [] = inl refl
find_idle-cases hps (q ∷ qs) = elim (Bool-cases (hps q).flag) [
  | inr e ↦ inr (q, rw e refl, rw (==_refl q) refl, e)
  | inl e ↦ elim (find_idle-cases hps qs) [
    | inl n ↦ inl (rw e n)
    | inr (r, f, m, i) ↦ inr (r, rw e f, ground (arith, m), i)
  ]
]

-- The record acquired is in the list, flagged, and was idle or not in the list before; the others of the
-- list are as they were.
pub record Acquires (g : HazardPointerList) (a : Acquired) : Type 0 where
  pub idle : (mem a.hp g.records ≡ false) ⊎ ((g.hps a.hp).flag ≡ false)
  pub listed : mem a.hp a.shared.records ≡ true
  pub flagged : (a.shared.hps a.hp).flag ≡ true
  pub grows : (q : ℕ) → mem q g.records ≡ true → mem q a.shared.records ≡ true
  pub flags :
      (q : ℕ) → mem q g.records ≡ true → (g.hps q).flag ≡ true → (a.shared.hps q).flag ≡ true
  pub ptrs : (q : ℕ) → mem q g.records ≡ true → (a.shared.hps q).ptr ≡ (g.hps q).ptr
  pub fresh : IsFresh a.shared

push-Acquires :
    (g : HazardPointerList) → IsFresh g → Acquires g (record { hp = g.brk; shared = push_record g })
unfolding push_record
push-Acquires g fresh =
    let new : mem g.brk g.records ≡ false = elim (Bool-cases (mem g.brk g.records)) [
      | inl m ↦ absurd (omega (arith, fresh g.brk m))
      | inr m ↦ m
    ] in
    record {
      idle = inl new;
      listed = rw (==_refl g.brk) refl;
      flagged = rw (==_refl g.brk) refl;
      grows = λ q m. ground (arith, m);
      flags = λ q m f. ground (arith, fresh q m, f);
      ptrs = λ q m. ground (arith, fresh q m);
      fresh = λ q m. ground (arith, fresh q, m);
    }

reuse-Acquires :
    (g : HazardPointerList) (q : ℕ)
    → IsFresh g
    → mem q g.records ≡ true
    → (g.hps q).flag ≡ false
    → Acquires g (record { hp = q; shared = test_and_set g q })
reuse-Acquires g q fresh m i = record {
  idle = inr i;
  listed = m;
  flagged = rw (==_refl q) refl;
  grows = λ q m. m;
  flags = λ r m f. ground (arith, f);
  ptrs = λ r m. elim (Bool-cases (r == q)) [
    | inl e ↦ let is : r ≡ q = (==_iff r q).0 e in rw e (ap (λ z. (g.hps z).ptr) (sym is))
    | inr e ↦ rw e refl
  ];
  fresh = fresh;
}

pub try_acquire-Acquires :
    (g : HazardPointerList) → IsFresh g → Acquires g (try_acquire_hazard_pointer g)
unfolding try_acquire_hazard_pointer
try_acquire-Acquires g fresh = elim (find_idle-cases g.hps g.records) [
  | inl e ↦ rw e (push-Acquires g fresh)
  | inr (q, e, m, i) ↦ rw e (reuse-Acquires g q fresh m i)
]

pub find_null-cases :
    (hps : ℕ → InternalHazardPointer) (qs : List ℕ) (i : ℕ)
    → (find_null hps qs i ≡ none)
      ⊎ ((k : ℕ) × (q : ℕ) × (find_null hps qs i ≡ some (i + k, q))
          × (get_elem? qs k ≡ some q)
          × ((hps q).ptr ≡ 0))
unfolding find_null
find_null-cases hps [] i = inl refl
find_null-cases hps (q ∷ qs) i = elim (Bool-cases ((hps q).ptr == 0)) [
  | inl e ↦ inr (0, q, rw e (ap (λ z. some (z, q)) (omega arith)), refl, (==_iff _ 0).0 e)
  | inr e ↦ elim (find_null-cases hps qs (suc i)) [
    | inl n ↦ inl (rw e n)
    | inr (k, r, f, at, null) ↦
        inr (suc k, r, rw e (f ∙ ap (λ z. some (z, r)) (omega arith)), at, null)
  ]
]

-- A record of the list that has the pointer makes it hazard.
pub hazard_loop-mem :
    (hps : ℕ → InternalHazardPointer) (qs : List ℕ) (q : ℕ)
    → mem q qs ≡ true
    → hazard_loop hps qs (hps q).ptr ≡ true
unfolding hazard_loop
hazard_loop-mem hps [] q m = absurd cc
hazard_loop-mem hps (r ∷ qs) q m = elim (Bool-cases (q == r)) [
  | inl e ↦ let is : q ≡ r = (==_iff q r).0 e in rw (is, ==_refl (hps r).ptr) refl
  | inr e ↦ ground (arith, hazard_loop-mem hps qs q)
]

-- The set has what a scan of the list finds.
pub mem-collect :
    (hps : ℕ → InternalHazardPointer) (qs : List ℕ) (p : ℕ)
    → p ≢ 0
    → mem p (collect hps qs) ≡ hazard_loop hps qs p
unfolding collect hazard_loop
mem-collect hps [] p ne = refl
mem-collect hps (q ∷ qs) p ne = ground (arith, mem-collect hps qs p ne)

abbrev pub keep : (ReclaimNode → Bool) → List ReclaimNode → List ReclaimNode
keep f [] = []
keep f (n ∷ ns) = if f n then n ∷ keep f ns else keep f ns

abbrev pub NoNull : List ReclaimNode → Type 0
NoNull [] = Unit
NoNull (n ∷ ns) = (n.ptr ≢ 0) × NoNull ns

-- What is reclaimed of the nodes: those whose pointer is marked stay, the others are deleted and go to
-- the pool.
pub record Reclaims (g : HazardPointerList) (r : Reclaimer) (nodes : List ReclaimNode)
    (s : Reclaimed) : Type 0 where
  pub stay : s.reclaimer.reclaim_map ≡ keep (λ n. hazard g n.ptr) nodes
  pub deleted : s.deleted ≡ keep (λ n. not (hazard g n.ptr)) nodes
  pub pool : s.reclaimer.reclaim_pool ≡ r.reclaim_pool + length s.deleted
  pub hp_list : s.reclaimer.hp_list ≡ r.hp_list

sweep-marked :
    (not_allow : List ℕ) (r : Reclaimer) (n : ReclaimNode) (nodes : List ReclaimNode)
    → mem n.ptr not_allow ≡ true
    → sweep not_allow r (n ∷ nodes) ≡ (
        let keeping = sweep not_allow r nodes in
        record keeping {
          reclaimer = record keeping.reclaimer { reclaim_map = n ∷ keeping.reclaimer.reclaim_map };
        })
unfolding sweep
sweep-marked not_allow r n nodes m = rw m refl

sweep-unmarked :
    (not_allow : List ℕ) (r : Reclaimer) (n : ReclaimNode) (nodes : List ReclaimNode)
    → mem n.ptr not_allow ≡ false
    → sweep not_allow r (n ∷ nodes) ≡ (
        let deleting = sweep not_allow (record r { reclaim_pool = r.reclaim_pool + 1 }) nodes in
        record deleting { deleted = n ∷ deleting.deleted })
unfolding sweep
sweep-unmarked not_allow r n nodes m = rw m refl

pub mem-collect-hazard :
    (g : HazardPointerList) (p : ℕ) → p ≢ 0 → mem p (collect g.hps g.records) ≡ hazard g p
unfolding hazard
mem-collect-hazard g p ne = mem-collect g.hps g.records p ne

sweep_nil :
    (g : HazardPointerList) (not_allow : List ℕ) (r : Reclaimer)
    → Reclaims g r [] (sweep not_allow r [])
unfolding sweep
sweep_nil g not_allow r = record { stay = refl; deleted = refl; pool = omega arith; hp_list = refl }

sweep-Reclaims :
    (g : HazardPointerList) (nodes : List ReclaimNode) (r : Reclaimer)
    → NoNull nodes
    → Reclaims g r nodes (sweep (collect g.hps g.records) r nodes)
sweep-Reclaims g [] r no_null = sweep_nil g (collect g.hps g.records) r
sweep-Reclaims g (n ∷ nodes) r (ne, rest) =
    let set = collect g.hps g.records in
    let same = mem-collect-hazard g n.ptr ne in
    elim (Bool-cases (hazard g n.ptr)) [
      | inl e ↦
          let s = sweep-Reclaims g nodes r rest in
          rw (sweep-marked set r n nodes (same ∙ e)) (record {
            stay = rw e (ap (λ ns. n ∷ ns) s.stay);
            deleted = rw e s.deleted;
            pool = s.pool;
            hp_list = s.hp_list;
          })
      | inr e ↦
          let s = sweep-Reclaims g nodes (record r { reclaim_pool = r.reclaim_pool + 1 }) rest in
          rw (sweep-unmarked set r n nodes (same ∙ e)) (record {
            stay = rw e s.stay;
            deleted = rw e (ap (λ ns. n ∷ ns) s.deleted);
            pool = omega (arith, s.pool);
            hp_list = s.hp_list;
          })
    ]

-- Of a map without null pointers: with fewer pointers put off than 4 for each record counted,
-- nothing is done; otherwise the pointers that Hazard finds in the list stay, the others are
-- deleted, their nodes go to the pool, and the records of the thread stay.
pub reclaim_no_hazard_pointer-Reclaims :
    (g : HazardPointerList) (r : Reclaimer)
    → NoNull r.reclaim_map
    → ((length r.reclaim_map < 4 * g.size)
        × (reclaim_no_hazard_pointer g r ≡ record { reclaimer = r; deleted = [] }))
      ⊎ ((4 * g.size ≤ length r.reclaim_map)
          × Reclaims g r r.reclaim_map (reclaim_no_hazard_pointer g r))
unfolding reclaim_no_hazard_pointer
reclaim_no_hazard_pointer-Reclaims g r no_null =
    elim (Bool-cases (ltb (length r.reclaim_map) (4 * g.size))) [
      | inl e ↦ inl (ground (arith, e), rw e refl)
      | inr e ↦ inr (ground (arith, e), rw e (sweep-Reclaims g r.reclaim_map r no_null))
    ]

sweep-spares :
    (not_allow : List ℕ) (nodes : List ReclaimNode) (r : Reclaimer) (p : ℕ)
    → mem p not_allow ≡ true
    → count p (map (λ (n : ReclaimNode). n.ptr) (sweep not_allow r nodes).deleted) ≡ 0
unfolding sweep
sweep-spares not_allow [] r p seen = refl
sweep-spares not_allow (n ∷ nodes) r p seen = elim (Bool-cases (mem n.ptr not_allow)) [
  | inl e ↦ rw e (sweep-spares not_allow nodes r p seen)
  | inr e ↦
      let ne : (p == n.ptr) ≡ false = elim (Bool-cases (p == n.ptr)) [
        | inl f ↦ let is : p ≡ n.ptr = (==_iff p n.ptr).0 f in absurd cc
        | inr f ↦ f
      ] in
      rw (e, ne)
        (omega (
          arith,
          sweep-spares not_allow nodes (record r { reclaim_pool = r.reclaim_pool + 1 }) p seen,
        ))
]

sweep-hp_list :
    (not_allow : List ℕ) (nodes : List ReclaimNode) (r : Reclaimer)
    → (sweep not_allow r nodes).reclaimer.hp_list ≡ r.hp_list
unfolding sweep
sweep-hp_list not_allow [] r = refl
sweep-hp_list not_allow (n ∷ nodes) r = elim (Bool-cases (mem n.ptr not_allow)) [
  | inl e ↦ rw e (sweep-hp_list not_allow nodes r)
  | inr e ↦ rw e (sweep-hp_list not_allow nodes _)
]

-- A reclamation leaves the records to the thread, and deletes no pointer that is in the set.
pub reclaim_no_hazard_pointer-spares :
    (g : HazardPointerList) (r : Reclaimer)
    → ((reclaim_no_hazard_pointer g r).reclaimer.hp_list ≡ r.hp_list)
      × ((p : ℕ)
          → mem p (collect g.hps g.records) ≡ true
          → count p (map (λ (n : ReclaimNode). n.ptr) (reclaim_no_hazard_pointer g r).deleted) ≡ 0)
unfolding reclaim_no_hazard_pointer
reclaim_no_hazard_pointer-spares g r = elim (Bool-cases (ltb (length r.reclaim_map) (4 * g.size))) [
  | inl e ↦ rw e (refl, λ p seen. refl)
  | inr e ↦
      let set = collect g.hps g.records in
      rw e (sweep-hp_list set r.reclaim_map r, λ p seen. sweep-spares set r.reclaim_map r p seen)
]

pub option_cases : (o : Option ℕ) → (o ≡ none) ⊎ ((x : ℕ) × (o ≡ some x))
option_cases none = inl refl
option_cases (some x) = inr (x, refl)
