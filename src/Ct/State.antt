-- ===== src/Ct/State.antt =====
-- The table in order, and the linking of a node where a search has stopped.
use disaggregate_metadata_se.Base.{
  ℕ, ◌+◌, ◌*◌, ◌^◌, ◌<◌, ◌≤◌, ◌≡◌, ◌≢◌, refl, sym, ◌∙◌, inl, inr, ◌⊎◌, Bool, true, false, ◌||◌,
  Option, none, some, List, ◌==◌, if◌then◌else◌, mem, length, ==_iff, Bool-cases, arith,
}
use disaggregate_metadata_se.Ct.{
  Ct, Node, Searched, get_bucket_head_by_index, dummy_key, k_max_bucket_size,
}
use disaggregate_metadata_se.Ct.Rank.{IsNode, rank, key_rank}
use disaggregate_metadata_se.Ct.Links.{Linked, value_at, regulars, one_if_regular, regulars-same}
use disaggregate_metadata_se.Ct.Search.{Stops, value_at-missing}
use disaggregate_metadata_se.Ct.Relink.{
  insert_after, inserted-Linked, value_at-inserted, mem-insert_after, regulars-insert_after,
  length-insert_after, IsNode-next,
}

-- The list of the nodes `ps` is in order, and each regular node has a value.
pub record IsList (ct : Ct) (ps : List ℕ) : Type 0 where
  pub linked : Linked ct.heap ct.brk ps
  pub short : length ps < ct.brk
  pub values : (a : ℕ) → mem a ps ≡ true → (ct.heap a).dummy ≡ false → (ct.heap a).value ≢ none

abbrev pub dummy_rank : ℕ → ℕ
dummy_rank b = dummy_key b * 2 ^ 64

-- `p` is the head of bucket `b`.
abbrev pub IsHead : Ct → List ℕ → ℕ → ℕ → Type 0
IsHead ct ps b p = (mem p ps ≡ true) × (rank (ct.heap p) ≡ dummy_rank b)

-- Each bucket has no head yet, or its own.
pub record IsTable (ct : Ct) (ps : List ℕ) : Type 0 where
  pub list : IsList ct ps
  pub power : ct.power_of_2 ≤ 24
  pub counted : ct.size ≡ regulars ct.heap ps
  pub load : ct.size ≤ 2 ^ ct.power_of_2
  pub root : get_bucket_head_by_index ct.segments 0 ≢ 0
  pub heads :
      (b : ℕ)
      → b < k_max_bucket_size
      → (get_bucket_head_by_index ct.segments b ≡ 0)
        ⊎ IsHead ct ps b (get_bucket_head_by_index ct.segments b)

module _ (ct : Ct) (ps : List ℕ) (n : ℕ) (s : Searched) (l : IsList ct ps)
    (fresh : mem n ps ≡ false) (positive : 0 < n) (below : n < ct.brk) (node : IsNode (ct.heap n))
    (unmarked : (ct.heap n).marked ≡ false) (stops : Stops ct ps (rank (ct.heap n)) s)
    (missing : s.found ≡ false) (g : ℕ → Node) (at_new : g n ≡ record (ct.heap n) { next = s.cur })
    (at_prev : g s.prev ≡ record (ct.heap s.prev) { next = n })
    (others : (q : ℕ) → q ≢ s.prev → q ≢ n → g q ≡ ct.heap q) where
  in_list : (q : ℕ) → mem q ps ≡ true → q ≢ s.prev → g q ≡ ct.heap q
  in_list q m a = others q a (λ z. absurd (ground (arith, m, fresh, z)))

  behind : (s.cur ≡ 0) ⊎ (rank (ct.heap n) < rank (ct.heap s.cur))
  behind = elim stops.after [
    | inl z ↦ inl z.0
    | inr (m, le, found) ↦ inr (ground (arith, le, found, missing))
  ]

  behind' : ((ct.heap s.prev).next ≡ 0) ⊎ (rank (g n) < rank (ct.heap (ct.heap s.prev).next))
  behind' = rw (stops.next, at_new) behind

  abbrev pub with_new : List ℕ
  with_new = insert_after s.prev n ps

  linked_in-Linked : Linked g ct.brk with_new
  linked_in-Linked =
      inserted-Linked ct.heap g ct.brk ct.brk s.prev n (omega arith) below positive
        (rw at_new (IsNode-next (ct.heap n) s.cur node)) (rw at_new unmarked)
        (rw at_new (sym stops.next)) at_prev (rw at_new stops.less) behind' ps in_list l.linked
        stops.before

  pub value_at-linked_in :
      (r : ℕ)
      → value_at g r with_new
        ≡ (if rank (ct.heap n) == r then (ct.heap n).value else value_at ct.heap r ps)
  value_at-linked_in r =
      let step =
        value_at-inserted ct.heap g ct.brk ct.brk s.prev n (omega arith) below positive
          (rw at_new (IsNode-next (ct.heap n) s.cur node)) (rw at_new unmarked)
          (rw at_new (sym stops.next)) at_prev (rw at_new stops.less) behind' r ps in_list l.linked
          stops.before in
      rw at_new at step

  pub mem-with_new : (q : ℕ) → mem q with_new ≡ ((q == n) || mem q ps)
  mem-with_new q = mem-insert_after q s.prev n ps stops.before

  -- Only links change.
  fields : (q : ℕ) → (v : ℕ) × (g q ≡ record (ct.heap q) { next = v })
  fields q = elim (Bool-cases (q == s.prev)) [
    | inl e ↦ let z : q ≡ s.prev = (==_iff q s.prev).0 e in (n, rw z at_prev)
    | inr e ↦ elim (Bool-cases (q == n)) [
      | inl f ↦ let z : q ≡ n = (==_iff q n).0 f in (s.cur, rw z at_new)
      | inr f ↦ (
        (ct.heap q).next,
        others q (λ z. absurd (ground (arith, e, z))) (λ z. absurd (ground (arith, f, z))),
      )
    ]
  ]

  pub linked_in-rank : (q : ℕ) → rank (g q) ≡ rank (ct.heap q)
  linked_in-rank q = let (v, e) = fields q in rw e refl

  pub linked_in-regulars : regulars g with_new ≡ one_if_regular (ct.heap n) + regulars ct.heap ps
  linked_in-regulars =
      regulars-same ct.heap g with_new (λ q m. let (v, e) = fields q in rw e refl)
      ∙ regulars-insert_after ct.heap s.prev n ps stops.before

  pub linked_in-IsList :
      ((ct.heap n).dummy ≡ false → (ct.heap n).value ≢ none)
      → length ps + 1 < ct.brk
      → IsList (record ct { heap = g }) with_new
  linked_in-IsList value room = record {
    linked = linked_in-Linked;
    short = rw (length-insert_after s.prev n ps stops.before) (omega (arith, room));
    values = λ a m d.
        let (v, e) = fields a in
        let d' = rw e at d in
        let m' = rw (mem-with_new a) at m in
        let kept : (ct.heap a).value ≢ none = elim (Bool-cases (a == n)) [
          | inl z ↦ let here : a ≡ n = (==_iff a n).0 z in rw here (value (rw (← here) d'))
          | inr z ↦ l.values a (ground (arith, m', z)) d'
        ] in
        rw e kept;
  }

  -- No node of the list has the rank.
  pub was_missing : value_at ct.heap (rank (ct.heap n)) ps ≡ none
  was_missing =
      value_at-missing ct.heap ct.brk s.prev s.cur (rank (ct.heap n)) ps l.linked stops.before
        stops.less stops.next behind

-- What the table has under a key
abbrev pub view : (ℕ → ℕ) → Ct → List ℕ → ℕ → Option ℕ
view hash_func ct ps key = value_at ct.heap (key_rank (hash_func key) key) ps

abbrev pub is_none : Option ℕ → Bool
is_none none = true
is_none (some v) = false

pub is_none-of : (o : Option ℕ) → o ≢ none → is_none o ≡ false
is_none-of none ne = absurd (ne refl)
is_none-of (some v) ne = refl
