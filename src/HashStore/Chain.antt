-- ===== src/HashStore/Chain.antt =====
-- One chain of nodes: the addresses it runs through, what its slots hold, and the loops over it.
use disaggregate_metadata_se.Base.{
  ℕ, zero, suc, ◌<◌, ◌≡◌, inl, inr, refl, true, false, Option, none, some, List, [], ◌∷◌, ◌++◌,
  length, get_elem?, mem, update, ==_refl, ==_ne, Option-cases, arith,
}
use disaggregate_metadata_se.Base.Run.{Returns}
use disaggregate_metadata_se.Item.{DataItem}
use disaggregate_metadata_se.HashStore.{
  Heap, HashNode, Slot, slot, find_key, get_loop, item_num_per_node,
}
use disaggregate_metadata_se.HashStore.Node.{lookup, lookup-append, find_key-lookup, find_key-elem}

abbrev pub head_of : List ℕ → ℕ
head_of [] = 0
head_of (p ∷ ps) = p

-- The `next` pointers lead through the distinct nodes `ps` to the null pointer.
abbrev pub IsChain : Heap → List ℕ → Type 0
IsChain h [] = Unit
IsChain h (q ∷ qs) =
    (0 < q)
    × (mem q qs ≡ false)
    × (length (h q).data_items ≡ item_num_per_node)
    × ((h q).next ≡ head_of qs)
    × IsChain h qs

-- The slots of a chain, in the order in which the loops visit them.
abbrev pub contents : Heap → List ℕ → List DataItem
contents h [] = []
contents h (p ∷ ps) = (h p).data_items ++ contents h ps

-- What a `DataItem*` that may be null points at.
abbrev pub read_slot : Heap → Option Slot → Option DataItem
read_slot h none = none
read_slot h (some s) = get_elem? (h s.node).data_items s.index

-- A pointer into the chain.
abbrev pub Within : List ℕ → Option Slot → Type 0
Within ps none = Unit
Within ps (some s) = (mem s.node ps ≡ true) × (s.index < item_num_per_node)

pub Within-cons : (q : ℕ) (qs : List ℕ) (r : Option Slot) → Within qs r → Within (q ∷ qs) r
Within-cons q qs none w = tt
Within-cons q qs (some s) w = (ground (arith, w.0), w.1)

-- A change of `h` that spares the nodes `ps`.
abbrev pub SameOn : List ℕ → Heap → Heap → Type 0
SameOn ps h g = (a : ℕ) → mem a ps ≡ true → g a ≡ h a

pub contents-SameOn : (h g : Heap) (ps : List ℕ) → SameOn ps h g → contents g ps ≡ contents h ps
contents-SameOn h g [] same = refl
contents-SameOn h g (p ∷ ps) same =
    rw (same p (rw (==_refl p)), contents-SameOn h g ps (λ a e. same a (ground arith)))

pub IsChain-SameOn : (h g : Heap) (ps : List ℕ) → SameOn ps h g → IsChain h ps → IsChain g ps
IsChain-SameOn h g [] same s = s
IsChain-SameOn h g (q ∷ qs) same s =
    let e = same q (rw (==_refl q)) in
    (s.0, s.1, rw e s.2, rw e s.3, IsChain-SameOn h g qs (λ a m. same a (ground arith)) s.4)

pub update-SameOn :
    (h : Heap) (ps : List ℕ) (p : ℕ) (v : HashNode) → mem p ps ≡ false → SameOn ps h (update h p v)
update-SameOn h ps p v out a m = ground arith

-- The search ends, and finds the first item of the chain under the key.
pub get_loop-lookup :
    (h : Heap) (key : ℕ) (ps : List ℕ) (fuel : ℕ)
    → IsChain h ps
    → length ps < fuel
    → Returns
        (get_loop fuel h key (head_of ps))
        λ r. (read_slot h r ≡ lookup key (contents h ps)) × Within ps r
unfolding get_loop
get_loop-lookup h key ps zero s lt = absurd (omega arith)
get_loop-lookup h key [] (suc fuel) s lt = (none, refl, (refl, tt))
get_loop-lookup h key (q ∷ qs) (suc fuel) s lt =
    let items = (h q).data_items in
    let joined = lookup-append key items (contents h qs) in
    elim (Option-cases (find_key key items)) [
      | inr (i, e) ↦
          let found = find_key-elem key items i e in
          (
            some (slot q i),
            rw (==_ne q 0 (omega arith), e),
            (ground (arith, found, joined), (rw (==_refl q), omega (arith, found.1))),
          )
      | inl e ↦
          let (r, run, (reads, within)) = get_loop-lookup h key qs fuel s.4 (omega arith) in
          (
            r,
            rw (==_ne q 0 (omega arith), e, s.3) run,
            (rw (joined, find_key-lookup key items e) reads, Within-cons q qs r within),
          )
    ]
