-- ===== src/Scheduler/Unlink.antt =====
-- A coroutine that waits leaves the ring; the links of the others close round it.
use mathlib.Core.Path.{subst}
use disaggregate_metadata_se.Base.{
  ℕ, ◌≡◌, ◌≢◌, ◌⊎◌, ◌∙◌, refl, sym, inl, inr, true, false, List, [], ◌∷◌, ◌==◌, if◌then◌else◌, mem,
  ==_refl, ==_ne, ==_iff, Bool-cases, not-mem_tail, not-mem_head, not-mem_cons, not-mem_of, arith,
}
use disaggregate_metadata_se.Scheduler.{Scheduler, unlink}
use disaggregate_metadata_se.Scheduler.Ring.{Linked}

abbrev pub remove : ℕ → List ℕ → List ℕ
remove c [] = []
remove c (y ∷ ys) = if y == c then ys else y ∷ remove c ys

not-mem-remove : (a c : ℕ) (ys : List ℕ) → mem a ys ≡ false → mem a (remove c ys) ≡ false
not-mem-remove a c [] h = refl
not-mem-remove a c (y ∷ ys) h = ground (arith, not-mem-remove a c ys)

-- Where the links change, and where they stay.
module _ (s : Scheduler) (c : ℕ) where
  abbrev t : Scheduler
  t = unlink s c

  -- The links of a stretch that neither neighbour of `c` changes.
  frame :
      (x : ℕ) (ys : List ℕ)
      → mem (s.prev_coro c) (x ∷ ys) ≡ false
      → mem (s.next_coro c) ys ≡ false
      → mem c (x ∷ ys) ≡ false
      → Linked s x ys
      → Linked t x ys
  unfolding unlink
  frame x [] p n out l =
      let c_x : (x == c) ≡ false = ==_ne x c (λ e. not-mem_head c x [] out (sym e)) in
      let p_x : (x == s.prev_coro c) ≡ false =
        ==_ne x (s.prev_coro c) (λ e. not-mem_head (s.prev_coro c) x [] p (sym e)) in
      (rw (l.0, c_x), rw p_x l.1)
  frame x (y ∷ ys) p n out l =
      let p_x : (x == s.prev_coro c) ≡ false =
        ==_ne x (s.prev_coro c) (λ e. not-mem_head (s.prev_coro c) x (y ∷ ys) p (sym e)) in
      let n_y : (y == s.next_coro c) ≡ false =
        ==_ne y (s.next_coro c) (λ e. not-mem_head (s.next_coro c) y ys n (sym e)) in
      (
        rw p_x l.0,
        rw n_y l.1,
        l.2,
        frame y ys (not-mem_tail (s.prev_coro c) x (y ∷ ys) p) (not-mem_tail (s.next_coro c) y ys n)
            (not-mem_tail c x (y ∷ ys) out) l.3,
      )

mem_tail : (a x : ℕ) (xs : List ℕ) → mem a xs ≡ true → mem a (x ∷ xs) ≡ true
mem_tail a x xs m = ground arith

-- The neighbours of a member.
prev-mem :
    (s : Scheduler) (c x : ℕ) (ys : List ℕ)
    → Linked s x ys
    → mem c ys ≡ true
    → mem (s.prev_coro c) (x ∷ ys) ≡ true
prev-mem s c x [] l m = absurd (ground (arith, m))
prev-mem s c x (y ∷ ys) l m = elim (Bool-cases (c == y)) [
  | inl e ↦ let same : c ≡ y = (==_iff c y).0 e in rw (same, l.1, ==_refl x)
  | inr e ↦ ground (arith, prev-mem s c y ys l.3)
]

pub next-mem :
    (s : Scheduler) (x : ℕ) (ys : List ℕ)
    → Linked s x ys
    → (mem (s.next_coro x) ys ≡ true) ⊎ (s.next_coro x ≡ s.coro_head)
next-mem s x [] l = inr l.1
next-mem s x (y ∷ ys) l = inl (rw (l.0, ==_refl y))

pub mem-remove : (a c : ℕ) (ys : List ℕ) → mem a (remove c ys) ≡ true → mem a ys ≡ true
mem-remove a c [] m = m
mem-remove a c (y ∷ ys) m = ground (arith, mem-remove a c ys)

pub mem-remove_ne : (a c : ℕ) (ys : List ℕ) → a ≢ c → mem a ys ≡ true → mem a (remove c ys) ≡ true
mem-remove_ne a c [] ne m = m
mem-remove_ne a c (y ∷ ys) ne m = ground (arith, mem-remove_ne a c ys)

pub next-mem_of :
    (s : Scheduler) (c x : ℕ) (ys : List ℕ)
    → Linked s x ys
    → mem c ys ≡ true
    → (mem (s.next_coro c) (remove c ys) ≡ true) ⊎ (s.next_coro c ≡ s.coro_head)
next-mem_of s c x [] l m = absurd (ground (arith, m))
next-mem_of s c x (y ∷ ys) l m = elim (Bool-cases (y == c)) [
  | inl e ↦
      let same : y ≡ c = (==_iff y c).0 e in
      elim (next-mem s y ys l.3) [
        | inl i ↦ inl (rw e (subst (λ w. mem (s.next_coro w) ys ≡ true) same i))
        | inr h ↦ inr (subst (λ w. s.next_coro w ≡ s.coro_head) same h)
      ]
  | inr e ↦ elim (next-mem_of s c y ys l.3 (ground (arith, m, e))) [
    | inl i ↦ inl (rw e (mem_tail (s.next_coro c) y (remove c ys) i))
    | inr h ↦ inr h
  ]
]

pub start-out : (s : Scheduler) (x : ℕ) (ys : List ℕ) → Linked s x ys → mem x ys ≡ false
start-out s x [] l = refl
start-out s x (y ∷ ys) l = l.2

-- The removal, read from the place before `c`, and from any place of the ring before it.
remove-next :
    (s : Scheduler) (c x : ℕ) (ys : List ℕ)
    → Linked s x (c ∷ ys)
    → mem s.coro_head (c ∷ ys) ≡ false
    → Linked (unlink s c) x ys
unfolding unlink
remove-next s c x [] l h =
    let c_n : (c == s.next_coro c) ≡ false =
      ==_ne c (s.next_coro c) (λ e. not-mem_head s.coro_head c [] h (sym (e ∙ l.3.1))) in
    (rw (l.3.0, ==_refl c, c_n) l.1, rw (l.1, ==_refl x) l.3.1)
remove-next s c x (z ∷ zs) l h =
    let c_out = start-out s c (z ∷ zs) l.3 in
    let p_out : mem (s.prev_coro c) (z ∷ zs) ≡ false =
      subst (λ w. mem w (z ∷ zs) ≡ false) (sym l.1) (not-mem_tail x c (z ∷ zs) l.2) in
    let n_out : mem (s.next_coro c) zs ≡ false =
      subst (λ w. mem w zs ≡ false) (sym l.3.0) (start-out s z zs l.3.3) in
    (
      rw (l.1, ==_refl x) l.3.0,
      rw (l.3.0, ==_refl z) l.1,
      not-mem_tail x c (z ∷ zs) l.2,
      frame s c z zs p_out n_out c_out l.3.3,
    )

pub remove-Linked :
    (s : Scheduler) (c x : ℕ) (ys : List ℕ)
    → Linked s x ys
    → mem c ys ≡ true
    → mem s.coro_head ys ≡ false
    → Linked (unlink s c) x (remove c ys)
unfolding unlink
remove-Linked s c x [] l m h = absurd (ground (arith, m))
remove-Linked s c x (y ∷ ys) l m h = elim (Bool-cases (y == c)) [
  | inl e ↦
      rw e (subst (λ w. Linked (unlink s w) x ys) ((==_iff y c).0 e) (remove-next s y x ys l h))
  | inr e ↦
      let m' : mem c ys ≡ true = ground (arith, m, e) in
      let rest = remove-Linked s c y ys l.3 m' (not-mem_tail s.coro_head y ys h) in
      let x_p : (x == s.prev_coro c) ≡ false =
        not-mem_of x (s.prev_coro c) (y ∷ ys) l.2 (prev-mem s c y ys l.3 m') in
      let y_n : (y == s.next_coro c) ≡ false = elim (next-mem_of s c y ys l.3 m') [
        | inl i ↦
            not-mem_of y (s.next_coro c) ys (start-out s y ys l.3)
              (mem-remove (s.next_coro c) c ys i)
        | inr q ↦ ==_ne y (s.next_coro c) (λ p. not-mem_head s.coro_head y ys h (sym (p ∙ q)))
      ] in
      rw e (
        rw x_p l.0,
        rw y_n l.1,
        not-mem_cons x y (remove c ys) (not-mem_head x y ys l.2)
            (not-mem-remove x c ys (not-mem_tail x y ys l.2)),
        rest,
      )
]

pub not-mem-remove_self :
    (s : Scheduler) (c x : ℕ) (ys : List ℕ) → Linked s x ys → mem c (remove c ys) ≡ false
not-mem-remove_self s c x [] l = refl
not-mem-remove_self s c x (y ∷ ys) l = elim (Bool-cases (y == c)) [
  | inl e ↦ rw e (subst (λ w. mem w ys ≡ false) ((==_iff y c).0 e) (start-out s y ys l.3))
  | inr e ↦ rw e (
      not-mem_cons c y (remove c ys) (λ q. absurd (ground (arith, q, e)))
        (not-mem-remove_self s c y ys l.3))
]
