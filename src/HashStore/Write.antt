-- ===== src/HashStore/Write.antt =====
-- What a write to one slot of a chain changes.
use mathlib.Core.List.{append_assoc}
use disaggregate_metadata_se.Base.{
  ℕ, zero, suc, ◌+◌, ◌<◌, ◌≡◌, sym, inl, inr, true, false, none, some, List, [], ◌∷◌, ◌++◌, ◌==◌,
  length, get_elem?, mem, update, ==_refl, ==_ne, ==_iff, Bool-cases, Option-cases, arith,
}
use disaggregate_metadata_se.Base.Run.{ok}
use disaggregate_metadata_se.Item.{DataItem, hit}
use disaggregate_metadata_se.HashStore.{
  Heap, HashNode, Slot, slot, write_slot, find_key, get_loop, item_num_per_node,
}
use disaggregate_metadata_se.HashStore.Node.{
  lookup, count, hits, or_else, lookup-append, count-append, find_key-lookup, find_key-set,
  lookup-set_new, lookup-set_other, count-set,
}
use disaggregate_metadata_se.HashStore.Chain.{
  IsChain, head_of, contents, contents-SameOn, update-SameOn,
}

-- A node may be replaced by one with as many slots and the same successor.
pub IsChain-update :
    (h : Heap) (ps : List ℕ) (p : ℕ) (v : HashNode)
    → length v.data_items ≡ length (h p).data_items
    → v.next ≡ (h p).next
    → IsChain h ps
    → IsChain (update h p v) ps
IsChain-update h [] p v a b s = s
IsChain-update h (q ∷ qs) p v a b s =
    let rest = IsChain-update h qs p v a b s.4 in
    (s.0, s.1, ground (arith, a, s.2), ground (arith, b, s.3), rest)

pub mem-slots :
    (h : Heap) (ps : List ℕ) (p : ℕ)
    → IsChain h ps
    → mem p ps ≡ true
    → length (h p).data_items ≡ item_num_per_node
mem-slots h [] p s m = absurd (ground arith)
mem-slots h (q ∷ qs) p s m = ground (arith, mem-slots h qs p s.4, s.2)

-- A node of a chain stands between the slots before it and those behind it.
pub split-contents :
    (h : Heap) (ps : List ℕ) (p : ℕ)
    → IsChain h ps
    → mem p ps ≡ true
    → (before after : List DataItem) × (contents h ps ≡ before ++ ((h p).data_items ++ after))
      × ((v : HashNode) → contents (update h p v) ps ≡ before ++ (v.data_items ++ after))
split-contents h [] p s m = absurd (ground arith)
split-contents h (q ∷ qs) p s m = elim (Bool-cases (q == p)) [
  | inl e ↦
      let same : q ≡ p = (==_iff q p).0 e in
      (
        [],
        contents h qs,
        rw same,
        λ v. rw (e, contents-SameOn h _ qs (update-SameOn h qs p v (rw (← same) s.1))),
      )
  | inr e ↦
      let (before, after, was, is) = split-contents h qs p s.4 (ground arith) in
      (
        (h q).data_items ++ before,
        after,
        rw was (sym (append_assoc (h q).data_items before ((h p).data_items ++ after))),
        λ v. rw (e, is v) (sym (append_assoc (h q).data_items before (v.data_items ++ after))),
      )
]

module _ (h : Heap) (ps : List ℕ) (sl : Slot) (old d : DataItem) (s : IsChain h ps)
    (inside : mem sl.node ps ≡ true)
    (reads : get_elem? (h sl.node).data_items sl.index ≡ some old) where
  pub write-count :
      (k : ℕ)
      → count k (contents (write_slot h sl d) ps) + hits k old ≡ count k (contents h ps) + hits k d
  write-count k =
      let items = (h sl.node).data_items in
      let (before, after, was, is) = split-contents h ps sl.node s inside in
      simp (was, is, count-append) (omega (arith, count-set k items sl.index old d reads))

  pub write-lookup_other :
      (k : ℕ)
      → hit k old ≡ false
      → hit k d ≡ false
      → lookup k (contents (write_slot h sl d) ps) ≡ lookup k (contents h ps)
  write-lookup_other k a b =
      let items = (h sl.node).data_items in
      let (before, after, was, is) = split-contents h ps sl.node s inside in
      rw (was, is _) (simp (lookup-append, lookup-set_other k items sl.index old d reads a b))

  pub write-lookup_new :
      (k : ℕ)
      → sl.index < item_num_per_node
      → lookup k (contents h ps) ≡ none
      → hit k d ≡ true
      → lookup k (contents (write_slot h sl d) ps) ≡ some d
  write-lookup_new k lt absent t =
      let items = (h sl.node).data_items in
      let (before, after, was, is) = split-contents h ps sl.node s inside in
      let start = lookup-append k before (items ++ after) in
      let apart = lookup-append k items after in
      let none_here : lookup k (contents h ps)
          ≡ or_else (lookup k before) (or_else (lookup k items) (lookup k after)) =
        rw (was, start, apart) in
      let room = mem-slots h ps sl.node s inside in
      rw (is _, lookup-append, lookup-append)
        (ground (arith, absent, none_here, lookup-set_new k items sl.index d, room))

get_loop-mem :
    (h : Heap) (ps : List ℕ) (fuel k : ℕ) (sl : Slot)
    → IsChain h ps
    → get_loop fuel h k (head_of ps) ≡ ok (some sl)
    → mem sl.node ps ≡ true
unfolding get_loop
get_loop-mem h ps zero k sl s run = absurd (ground arith)
get_loop-mem h [] (suc fuel) k sl s run = absurd (ground arith)
get_loop-mem h (q ∷ qs) (suc fuel) k sl s run = elim (Option-cases (find_key k (h q).data_items)) [
  | inr (i, e) ↦ let run' = rw (==_ne q 0 (omega arith), e) at run in ground arith
  | inl e ↦
      let run' = rw (==_ne q 0 (omega arith), e, s.3) at run in
      ground (arith, get_loop-mem h qs fuel k sl s.4 run')
]

-- An item written over the first one under a key is the first under it.
pub get_loop-write :
    (h : Heap) (ps : List ℕ) (fuel k : ℕ) (sl : Slot) (d : DataItem)
    → IsChain h ps
    → get_loop fuel h k (head_of ps) ≡ ok (some sl)
    → hit k d ≡ true
    → lookup k (contents (write_slot h sl d) ps) ≡ some d
unfolding get_loop
get_loop-write h ps zero k sl d s run t = absurd (ground arith)
get_loop-write h [] (suc fuel) k sl d s run t = absurd (ground arith)
get_loop-write h (q ∷ qs) (suc fuel) k sl d s run t =
    let items = (h q).data_items in
    elim (Option-cases (find_key k items)) [
      | inr (i, e) ↦
          let run' = rw (==_ne q 0 (omega arith), e) at run in
          let here : slot q i ≡ sl = cc in
          rw (← here, ==_refl q, lookup-append, find_key-set k items i d e t)
      | inl e ↦
          let run' = rw (==_ne q 0 (omega arith), e, s.3) at run in
          let inside = get_loop-mem h qs fuel k sl s.4 run' in
          let ne : (q == sl.node) ≡ false = ground (arith, inside, s.1) in
          rw (ne, lookup-append, find_key-lookup k items e)
            (get_loop-write h qs fuel k sl d s.4 run' t)
    ]
