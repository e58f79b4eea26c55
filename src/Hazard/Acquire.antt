-- ===== src/Hazard/Acquire.antt =====
-- core/util/hazard_pointer.h: what a marking gives, and the system after a record is acquired for it.
use disaggregate_metadata_se.Base.{
  ℕ, zero, suc, ◌+◌, ◌≡◌, ◌⊎◌, inl, inr, refl, sym, ap, ◌∙◌, false, none, some, List, [], ◌∷◌, ◌++◌,
  ◌==◌, get_elem?, length, update, arith, Bool-cases, ==_iff, ==_refl,
}
use disaggregate_metadata_se.Base.Run.{}
use disaggregate_metadata_se.Hazard.{
  HazardPointerList, Reclaimer, set_ptr, Acquired, try_acquire_hazard_pointer, mark_hazard,
}
use disaggregate_metadata_se.Hazard.Marks.{Acquires, find_null-cases}
use disaggregate_metadata_se.Hazard.System.{System, Owns, IsSystem, Protects, flag-set_ptr}

snoc_cases {ℓ} :
    {A : Type ℓ} (xs : List A) (y q : A) (i : ℕ)
    → get_elem? (xs ++ y ∷ []) i ≡ some q
    → (get_elem? xs i ≡ some q) ⊎ ((i ≡ length xs) × (q ≡ y))
snoc_cases [] y q zero at = inr (refl, cc)
snoc_cases [] y q (suc i) at = absurd cc
snoc_cases (x ∷ xs) y q zero at = inl at
snoc_cases (x ∷ xs) y q (suc i) at = elim (snoc_cases xs y q i at) [
  | inl o ↦ inl o
  | inr (e, f) ↦ inr (ap suc e, f)
]

snoc_old {ℓ} :
    {A : Type ℓ} (xs : List A) (y q : A) (i : ℕ)
    → get_elem? xs i ≡ some q
    → get_elem? (xs ++ y ∷ []) i ≡ some q
snoc_old [] y q i at = absurd cc
snoc_old (x ∷ xs) y q zero at = at
snoc_old (x ∷ xs) y q (suc i) at = snoc_old xs y q i at

snoc_new {ℓ} : {A : Type ℓ} (xs : List A) (y : A) → get_elem? (xs ++ y ∷ []) (length xs) ≡ some y
snoc_new [] y = refl
snoc_new (x ∷ xs) y = snoc_new xs y

-- What a marking gives: nothing for null, an idle record of the thread, or a record acquired.
abbrev pub Marks : HazardPointerList → Reclaimer → ℕ → Type 0
Marks g r ptr =
    ((ptr ≡ 0) × (mark_hazard g r ptr ≡ record { index = none; shared = g; reclaimer = r }))
    ⊎ ((i : ℕ) × (q : ℕ) × (get_elem? r.hp_list i ≡ some q)
        × ((g.hps q).ptr ≡ 0)
        × (mark_hazard g r ptr
            ≡ record { index = some i; shared = set_ptr g q ptr; reclaimer = r }))
    ⊎ (mark_hazard g r ptr ≡ (
        let a = try_acquire_hazard_pointer g in
        record {
          index = some (length r.hp_list);
          shared = set_ptr a.shared a.hp ptr;
          reclaimer = record r { hp_list = r.hp_list ++ a.hp ∷ [] };
        }))

pub mark_hazard-Marks : (g : HazardPointerList) (r : Reclaimer) (ptr : ℕ) → Marks g r ptr
unfolding mark_hazard
mark_hazard-Marks g r ptr = elim (Bool-cases (ptr == 0)) [
  | inl e ↦ inl ((==_iff ptr 0).0 e, rw e refl)
  | inr e ↦ elim (find_null-cases g.hps r.hp_list 0) [
    | inl n ↦ inr (inr (rw (e, n) refl))
    | inr (k, q, f, at, null) ↦
        let z : 0 + k ≡ k = omega arith in inr (inl (k, q, at, null, rw (e, f, z) refl))
  ]
]

module _ (sys : System) (w : IsSystem sys) (s ptr : ℕ) (a : Acquired)
    (g : Acquires sys.shared a) where
  -- The system after the thread `s` has marked the pointer in the record acquired
  abbrev pub grown : System
  grown = record sys {
    shared = set_ptr a.shared a.hp ptr;
    threads =
        update sys.threads s
          (record (sys.threads s) { hp_list = (sys.threads s).hp_list ++ a.hp ∷ [] });
  }

  Owns-grown :
      (u i q : ℕ)
      → Owns grown u i q
      → Owns sys u i q ⊎ ((u ≡ s) × (i ≡ length (sys.threads s).hp_list) × (q ≡ a.hp))
  Owns-grown u i q o = elim (Bool-cases (u == s)) [
    | inr e ↦ inl (rw e at o)
    | inl e ↦
        let is : u ≡ s = (==_iff u s).0 e in
        elim (snoc_cases (sys.threads s).hp_list a.hp q i (rw e at o)) [
          | inl at ↦ inl (rw is at)
          | inr (f, k) ↦ inr (is, f, k)
        ]
  ]

  -- The record acquired had no owner.
  not_owned : (u i : ℕ) → ¬ Owns sys u i a.hp
  not_owned u i o =
      let (listed, flagged) = w.owned u i a.hp o in ground (arith, g.idle, listed, flagged)

  pub grown-IsSystem : IsSystem grown
  grown-IsSystem = record {
    fresh = g.fresh;
    owned = λ u i q o. elim (Owns-grown u i q o) [
      | inl old ↦
          let (listed, flagged) = w.owned u i q old in
          (g.grows q listed, flag-set_ptr a.shared a.hp ptr q ∙ g.flags q listed flagged)
      | inr (e, f, k) ↦ rw k (g.listed, flag-set_ptr a.shared a.hp ptr a.hp ∙ g.flagged)
    ];
    once = λ u v i j q o p. elim (Owns-grown u i q o) [
      | inl old ↦ elim (Owns-grown v j q p) [
        | inl older ↦ w.once u v i j q old older
        | inr (e, f, k) ↦ absurd (not_owned u i (rw k at old))
      ]
      | inr (e, f, k) ↦ elim (Owns-grown v j q p) [
        | inl old ↦ absurd (not_owned v j (rw k at old))
        | inr (e', f', k') ↦ (e ∙ sym e', f ∙ sym f')
      ]
    ];
  }

  pub grown-Protects : Protects grown s (length (sys.threads s).hp_list) ptr
  grown-Protects =
      (a.hp, rw (==_refl s) (snoc_new (sys.threads s).hp_list a.hp), rw (==_refl a.hp) refl)

  pub grown-keeps : (t i p : ℕ) → Protects sys t i p → Protects grown t i p
  grown-keeps t i p (q, o, is) =
      let ne : (q == a.hp) ≡ false = elim (Bool-cases (q == a.hp)) [
        | inl e ↦ absurd (not_owned t i (rw ((==_iff q a.hp).0 e) at o))
        | inr e ↦ e
      ] in
      let still : Owns grown t i q = elim (Bool-cases (t == s)) [
        | inl e ↦
            let is : t ≡ s = (==_iff t s).0 e in
            rw e (snoc_old (sys.threads s).hp_list a.hp q i (rw is at o))
        | inr e ↦ rw e o
      ] in
      (q, still, rw ne (g.ptrs q (w.owned t i q o).0 ∙ is))
