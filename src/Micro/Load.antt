-- ===== src/Micro/Load.antt =====
-- The loaded table is in order and has every key.
use disaggregate_metadata_se.Base.{
  ℕ, zero, suc, ◌+◌, ◌<◌, ◌≤◌, ◌≡◌, ◌≢◌, refl, sym, ap, ◌∙◌, inl, inr, Bool, true, false, ◌||◌,
  Option, none, some, List, [], ◌∷◌, ◌==◌, le→leb, ltb, ltb→lt, ltb→le, length-modify, modify,
  ==_iff, ==_ne, Bool-cases, arith,
}
use disaggregate_metadata_se.Base.Run.{ReturnsOrAborts}
use disaggregate_metadata_se.Item.{DataItem, hit}
use disaggregate_metadata_se.HashStore.{
  Heap, HashStore, Slot, MemStoreReserveParam, Inserted, get_item_remote_offset, get_hash,
}
use disaggregate_metadata_se.HashStore.Node.{lookup, or_else, lookup-append, count-lookup}
use disaggregate_metadata_se.HashStore.Chain.{contents}
use disaggregate_metadata_se.HashStore.Write.{IsChain-update}
use disaggregate_metadata_se.HashStore.Table.{IsTable, chain, bucket, view}
use disaggregate_metadata_se.HashStore.Insert.{Added, insert-Added}
use disaggregate_metadata_se.HashStore.Delete.{is_some}
use disaggregate_metadata_se.Micro.{
  set_offset, install_offset, load_record, record_of, slot_addr, micro_val, Loaded, populate_loop,
  populate_micro_table,
}

-- An offset installed changes no key's presence.
lookup-offset :
    (k i off : ℕ) (xs : List DataItem)
    → is_some (lookup k (modify xs i (set_offset off))) ≡ is_some (lookup k xs)
lookup-offset k i off [] = refl
lookup-offset k zero off (x ∷ xs) = elim (Bool-cases (hit k x)) [ inl e ↦ rw e | inr e ↦ rw e ]
lookup-offset k (suc i) off (x ∷ xs) = elim (Bool-cases (hit k x)) [
  | inl e ↦ rw e
  | inr e ↦ rw e (lookup-offset k i off xs)
]

is_some-or_else : (a b : Option DataItem) → is_some (or_else a b) ≡ (is_some a || is_some b)
is_some-or_else none b = refl
is_some-or_else (some a) b = refl

module _ (h : Heap) (sl : Slot) (off : ℕ) where
  abbrev g : Heap
  g = install_offset h sl off

  node-offset :
      (k q : ℕ) → is_some (lookup k (g q).data_items) ≡ is_some (lookup k (h q).data_items)
  node-offset k q = elim (Bool-cases (q == sl.node)) [
    | inl e ↦
        let same : q ≡ sl.node = (==_iff q sl.node).0 e in
        rw e (
          lookup-offset k sl.index off (h sl.node).data_items
          ∙ ap (λ n. is_some (lookup k (h n).data_items)) (sym same))
    | inr e ↦ rw e
  ]

  contents-offset :
      (k : ℕ) (ps : List ℕ)
      → is_some (lookup k (contents g ps)) ≡ is_some (lookup k (contents h ps))
  contents-offset k [] = refl
  contents-offset k (q ∷ qs) =
      ap is_some (lookup-append k (g q).data_items (contents g qs))
      ∙ is_some-or_else (lookup k (g q).data_items) (lookup k (contents g qs))
      ∙ (λ i. node-offset k q i || contents-offset k qs i)
      ∙ sym (is_some-or_else (lookup k (h q).data_items) (lookup k (contents h qs)))
      ∙ sym (ap is_some (lookup-append k (h q).data_items (contents h qs)))

  offset-IsTable :
      (s : HashStore) (p : MemStoreReserveParam) (tail : ℕ → List ℕ)
      → IsTable s h p tail
      → IsTable s g p tail
  offset-IsTable s p tail t = record {
    some_bucket = t.some_bucket;
    chains = λ i lt.
        IsChain-update h (chain s tail i) sl.node _
          (length-modify (h sl.node).data_items sl.index (set_offset off)) refl (t.chains i lt);
    short = t.short;
    below = t.below;
    apart = t.apart;
  }

-- Whether the table has a key.
abbrev pub has : HashStore → Heap → (ℕ → List ℕ) → ℕ → Bool
has s h tail k = is_some (view s h tail k)

-- A table in order with the keys of another and more.
pub record Holds (s : HashStore) (h : Heap) (p : MemStoreReserveParam) (tail : ℕ → List ℕ)
    (more : ℕ → Bool) (r : Loaded) : Type 0 where
  pub tail' : ℕ → List ℕ
  pub table : IsTable r.store r.heap r.param tail'
  pub keys : (q : ℕ) → has r.store r.heap tail' q ≡ (more q || has s h tail q)

is_some-of : (o : Option DataItem) → o ≢ none → is_some o ≡ true
is_some-of none ne = absurd (ne refl)
is_some-of (some a) ne = refl

abbrev as_loaded : Inserted → Loaded
as_loaded r = record { store = r.store; heap = r.heap; param = r.param }

module _ {s : HashStore} {h : Heap} {p : MemStoreReserveParam} {tail : ℕ → List ℕ}
    (t : IsTable s h p tail) (key : ℕ) (val : List ℕ) (size table_id : ℕ) where
  abbrev d : DataItem
  d = record_of table_id size key val

  insert-has :
      (r : Inserted) (tail' : ℕ → List ℕ)
      → Added s h tail d r tail'
      → (q : ℕ) → has r.store r.heap tail' q ≡ ((q == key) || has s h tail q)
  insert-has r tail' a q = elim (Bool-cases (q == key)) [
    | inl e ↦
        let same : q ≡ key = (==_iff q key).0 e in
        let there : has r.store r.heap tail' key ≡ true =
          is_some-of (view r.store r.heap tail' key) (λ gone.
            absurd (
              omega
                (arith, a.one_more, count-lookup key (bucket r.store r.heap tail' key) gone))) in
        rw e (ap (λ k. has r.store r.heap tail' k) same ∙ there)
    | inr e ↦ rw e (ap is_some (a.others q (λ same. absurd (ground (arith, same, e)))))
  ]

  load_record-Holds :
      size ≤ 664
      → ReturnsOrAborts
          (load_record s h p key val size table_id)
          (λ r. Holds s h p tail (λ q. q == key) (as_loaded r))
  unfolding load_record
  load_record-Holds fits = elim (insert-Added t d) [
    | inr (full, _) ↦ inr (rw (le→leb size 664 fits, full))
    | inl (r, tail', run, a) ↦
        let off = get_item_remote_offset r.store (slot_addr r.item) in
        inl (
          record r { heap = install_offset r.heap r.item off },
          rw (le→leb size 664 fits, run),
          record {
            tail' = tail';
            table = offset-IsTable r.heap r.item off r.store r.param tail' a.table;
            keys = λ q.
                contents-offset r.heap r.item off q (chain r.store tail' (get_hash r.store q))
                ∙ insert-has r tail' a q;
          },
        )
  ]

-- The keys `n` from `id` on.
abbrev pub in_range : ℕ → ℕ → ℕ → Bool
in_range zero id q = false
in_range (suc n) id q = in_range n (suc id) q || (q == id)

or_assoc : (a b c : Bool) → (a || (b || c)) ≡ ((a || b) || c)
or_assoc true b c = refl
or_assoc false b c = refl

populate-Holds :
    (n id : ℕ) (l : Loaded) (tail : ℕ → List ℕ)
    → IsTable l.store l.heap l.param tail
    → ReturnsOrAborts (populate_loop n id l) (Holds l.store l.heap l.param tail (in_range n id))
unfolding populate_loop
populate-Holds zero id l tail t =
    inl (l, refl, record { tail' = tail; table = t; keys = λ q. refl })
populate-Holds (suc n) id l tail t = elim (load_record-Holds t id micro_val 40 0 (omega arith)) [
  | inr e ↦ inr (rw e)
  | inl (r, e, k) ↦ elim (populate-Holds n (suc id) (as_loaded r) k.tail' k.table) [
    | inr f ↦ inr (rw (e, f))
    | inl (r', f, k') ↦ inl (
      r',
      rw (e, f),
      record {
        tail' = k'.tail';
        table = k'.table;
        keys = λ q.
            k'.keys q
            ∙ ap (λ b. in_range n (suc id) q || b) (k.keys q)
            ∙ or_assoc (in_range n (suc id) q) (q == id) (has l.store l.heap tail q);
      },
    )
  ]
]

in_range-ltb : (n id q : ℕ) → id ≤ q → q < id + n → in_range n id q ≡ true
in_range-ltb zero id q lo hi = absurd (omega arith)
in_range-ltb (suc n) id q lo hi = elim (Bool-cases (q == id)) [
  | inl e ↦ rw e (or_true (in_range n (suc id) q))
  | inr e ↦ rw (in_range-ltb n (suc id) q (ground (arith, e)) (omega arith))
]
  where
    or_true : (a : Bool) → (a || true) ≡ true
    or_true true = refl
    or_true false = refl

in_range-out : (n id q : ℕ) → id + n ≤ q → in_range n id q ≡ false
in_range-out zero id q le = refl
in_range-out (suc n) id q le =
    rw (in_range-out n (suc id) q (omega arith)) (==_ne q id (omega arith))

range-ltb : (n q : ℕ) → in_range n 0 q ≡ ltb q n
range-ltb n q = elim (Bool-cases (ltb q n)) [
  | inl e ↦ in_range-ltb n 0 q (omega arith) (omega (arith, ltb→lt q n e)) ∙ sym e
  | inr e ↦ in_range-out n 0 q (omega (arith, ltb→le q n e)) ∙ sym e
]

-- On a table in order, loading the keys below `num_keys_global` ends with a table in order that has
-- just those keys besides the ones it had; or it aborts.
pub populate_micro_table-Holds :
    (num_keys_global : ℕ) (l : Loaded) (tail : ℕ → List ℕ)
    → IsTable l.store l.heap l.param tail
    → ReturnsOrAborts
        (populate_micro_table num_keys_global l)
        (Holds l.store l.heap l.param tail (λ q. ltb q num_keys_global))
unfolding populate_micro_table
populate_micro_table-Holds num_keys_global l tail t =
    elim (populate-Holds num_keys_global 0 l tail t) [
      | inr e ↦ inr e
      | inl (r, e, k) ↦ inl (
        r,
        e,
        record {
          tail' = k.tail';
          table = k.table;
          keys = λ q.
              k.keys q ∙ ap (λ b. b || has l.store l.heap tail q) (range-ltb num_keys_global q);
        },
      )
    ]
