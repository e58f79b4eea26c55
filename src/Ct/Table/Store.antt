-- ===== src/Ct/Table/Store.antt =====
-- core/util/ct.h: the loop of InsertRegularNode, and the table after a value is exchanged or the size
-- has grown.
use native.Mathlib.Nat.{pow-le-pow_right, one-le-pow}
use native.Mathlib.Numerals.{add-one}
use disaggregate_metadata_se.Base.{
  ℕ, zero, suc, ◌+◌, ◌*◌, ◌^◌, ◌<◌, ◌≤◌, ◌≡◌, ◌≢◌, refl, sym, ◌∙◌, ap, inl, inr, ◌⊎◌, true, false,
  Option, none, List, ◌==◌, mem, add64, ==_iff, Bool-cases, leb, ltb, le→leb, ltb→lt, ltb→le, arith,
}
use disaggregate_metadata_se.Base.Run.{Run, ok, aborted}
use disaggregate_metadata_se.Ct.{Ct, regular_node, set_next, bucket_size}
use disaggregate_metadata_se.Ct.Reverse.Order.{}
use disaggregate_metadata_se.Ct.Rank.{rank}
use disaggregate_metadata_se.Ct.Links.{value_at, regulars-same}
use disaggregate_metadata_se.Ct.Search.{search_node-Stops, found_at}
use disaggregate_metadata_se.Ct.Revalue.{revalued-Linked}
use disaggregate_metadata_se.Ct.State.{IsList, IsTable}
use disaggregate_metadata_se.Ct.Link.{Links, IsFresh, linked_in, points_at, is_missing}
use disaggregate_metadata_se.Ct.Table.{Inserted, set_value, grow, insert_loop}
use disaggregate_metadata_se.Ct.Table.Heads.{IsHead-kept}
use disaggregate_metadata_se.Ct.Table.Init.{}

-- The value of the node there is exchanged, or the new node is linked in and the table may grow.
abbrev pub Goes : Ct → List ℕ → ℕ → Run Inserted → Type 0
Goes ct ps n run =
    ((cur : ℕ) × (run ≡ ok (record { inserted = false; ct = set_value ct cur (ct.heap n).value }))
      × (mem cur ps ≡ true)
      × (rank (ct.heap cur) ≡ rank (ct.heap n)))
    ⊎ ((ct' : Ct) × (run ≡ grow ct')
        × Links ct ps n ct'
        × (value_at ct.heap (rank (ct.heap n)) ps ≡ none))

pub insert_loop-Goes :
    (fuel : ℕ) (ct : Ct) (ps : List ℕ) (head n : ℕ)
    → 0 < fuel
    → IsList ct ps
    → IsFresh ct ps n
    → mem head ps ≡ true
    → rank (ct.heap head) < rank (ct.heap n)
    → Goes ct ps n (insert_loop fuel ct head n)
unfolding insert_loop
insert_loop-Goes zero ct ps head n pos l f inside lt = absurd (omega arith)
insert_loop-Goes (suc fuel) ct ps head n pos l f inside lt =
    let (s, run, stops) =
      search_node-Stops ct head (ct.heap n) ps l.linked l.short f.node inside lt in
    elim (Bool-cases s.found) [
      | inl e ↦
          let found = found_at ct ps (rank (ct.heap n)) s stops e in
          inl (s.cur, rw (run, e, stops.same) refl, found.0, found.1)
      | inr e ↦ inr (
        set_next (set_next ct n s.cur) s.prev n,
        rw (run, e, stops.same, points_at ct ps n s l f stops) refl,
        linked_in ct ps n s l f stops e,
        is_missing ct ps n s l f stops e,
      )
    ]

-- A value exchanged leaves the table in order.
pub revalued-IsTable :
    (ct : Ct) (ps : List ℕ) (cur : ℕ) (v : Option ℕ)
    → IsTable ct ps
    → v ≢ none
    → IsTable (set_value ct cur v) ps
revalued-IsTable ct ps cur v t some_value = record {
  list = record {
    linked = revalued-Linked ct.heap ct.brk cur v ps t.list.linked;
    short = t.list.short;
    values = λ a m d. elim (Bool-cases (a == cur)) [
      | inl e ↦ rw e some_value
      | inr e ↦ let d' = rw e at d in rw e (t.list.values a m d')
    ];
  };
  power = t.power;
  counted =
      t.counted ∙ sym (regulars-same ct.heap (set_value ct cur v).heap ps (λ q m. ground arith));
  load = t.load;
  root = t.root;
  heads = λ a small. elim (t.heads a small) [
    | inl z ↦ inl z
    | inr h ↦ inr (IsHead-kept ct (set_value ct cur v) ps ps a _ (λ q m. m) (λ q m. ground arith) h)
  ];
}

double_pow : (p : ℕ) → 2 ^ (p + 1) ≡ 2 * 2 ^ p
double_pow p = rw add-one (omega arith)

-- More buckets, up to the largest number; the items are never more than the buckets.
pub grow-cases :
    (ct : Ct)
    → ct.power_of_2 ≤ 24
    → ct.size ≤ 2 ^ ct.power_of_2
    → ((p : ℕ) × (p ≤ 24)
        × (ct.size + 1 ≤ 2 ^ p)
        × (grow ct
            ≡ ok (record {
              inserted = true;
              ct = record ct { size = add64 ct.size 1; power_of_2 = p };
            })))
      ⊎ ((grow ct ≡ aborted) × (2 ^ 23 < ct.size + 1))
unfolding grow bucket_size
grow-cases ct le load =
    let p = ct.power_of_2 in
    let most : 2 ^ p ≤ 2 ^ 24 = pow-le-pow_right (omega arith) le in
    let no_wrap : add64 ct.size 1 ≡ ct.size + 1 = omega (arith, load, most) in
    elim (Bool-cases (ltb (2 ^ p) (2 * add64 ct.size 1))) [
      | inr e ↦
          inl (p, le, omega (arith, ltb→le (2 ^ p) (2 * add64 ct.size 1) e, no_wrap), rw e refl)
      | inl e ↦ elim (Bool-cases (p == 24)) [
        | inl z ↦
            let full : p ≡ 24 = (==_iff p 24).0 z in
            let too_many : leb (2 ^ (p + 1)) (64 ^ 4) ≡ false = rw full refl in
            let over = ltb→lt (2 ^ p) (2 * add64 ct.size 1) e in
            let all : 2 ^ p ≡ 2 ^ 24 = ap (λ k. 2 ^ k) full in
            inr (rw (e, too_many) refl, omega (arith, over, all, no_wrap))
        | inr z ↦
            let small : p + 1 ≤ 24 = ground (arith, z, le) in
            let fits : leb (2 ^ (p + 1)) (64 ^ 4) ≡ true =
              le→leb _ _ (pow-le-pow_right (omega arith) small) in
            let one : 1 ≤ 2 ^ p = one-le-pow p 2 (omega arith) in
            inl (p + 1, small, omega (arith, load, one, double_pow p), rw (e, fits) refl)
      ]
    ]

pub regular_node-marked : (hash key : ℕ) (v : Option ℕ) → (regular_node hash key v).marked ≡ false
unfolding regular_node
regular_node-marked hash key v = refl

pub regular_node-dummy : (hash key : ℕ) (v : Option ℕ) → (regular_node hash key v).dummy ≡ false
unfolding regular_node
regular_node-dummy hash key v = refl

pub regular_node-value : (hash key : ℕ) (v : Option ℕ) → (regular_node hash key v).value ≡ v
unfolding regular_node
regular_node-value hash key v = refl
