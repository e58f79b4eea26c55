-- ===== src/HashStore/Search.antt =====
-- Where an insertion writes: a free slot of the chain, or a node put behind its last one.
use mathlib.Core.List.{append-nil, append_assoc}
use disaggregate_metadata_se.Base.{
  ℕ, zero, suc, ◌<◌, ◌≡◌, ◌≢◌, refl, sym, inl, inr, true, false, none, some, List, [], ◌∷◌, ◌++◌,
  ◌==◌, length, get_elem?, mem, update, ==_refl, ==_ne, Option-cases, mem-append, not-mem_tail,
  not-mem_of, not-mem_head, arith,
}
use disaggregate_metadata_se.Base.Run.{Returns}
use disaggregate_metadata_se.Item.{DataItem, is_valid}
use disaggregate_metadata_se.HashStore.{
  Heap, slot, find_free, place_loop, Place, free, last, item_num_per_node,
}
use disaggregate_metadata_se.HashStore.Node.{find_free-elem}
use disaggregate_metadata_se.HashStore.Chain.{IsChain, contents, Within, Within-cons}

abbrev pub last_of : ℕ → List ℕ → ℕ
last_of q [] = q
last_of q (r ∷ rs) = last_of r rs

-- A free slot is one of an invalid item; the last node is reached only if no slot is free.
abbrev pub Placed : Heap → ℕ → List ℕ → Place → Type 0
Placed h q qs (free sl) =
    Within (q ∷ qs) (some sl)
    × (old : DataItem) × (get_elem? (h sl.node).data_items sl.index ≡ some old)
    × (is_valid old ≡ false)
Placed h q qs (last n) = (n ≡ last_of q qs) × (find_free (h n).data_items ≡ none)

pub last_of-mem : (q : ℕ) (qs : List ℕ) → mem (last_of q qs) (q ∷ qs) ≡ true
last_of-mem q [] = rw (==_refl q)
last_of-mem q (r ∷ rs) = ground (arith, last_of-mem r rs)

pub last_of-pos : (h : Heap) (q : ℕ) (qs : List ℕ) → IsChain h (q ∷ qs) → 0 < last_of q qs
last_of-pos h q [] s = s.0
last_of-pos h q (r ∷ rs) s = last_of-pos h r rs s.4

get_elem?-lt : (xs : List DataItem) (i : ℕ) (d : DataItem) → get_elem? xs i ≡ some d → i < length xs
get_elem?-lt [] i d e = absurd (ground arith)
get_elem?-lt (x ∷ xs) zero d e = omega arith
get_elem?-lt (x ∷ xs) (suc i) d e = omega (arith, get_elem?-lt xs i d e)

Placed-cons :
    (h : Heap) (q r : ℕ) (rs : List ℕ) (p : Place) → Placed h r rs p → Placed h q (r ∷ rs) p
Placed-cons h q r rs (free sl) p = (Within-cons q (r ∷ rs) (some sl) p.0, p.1, p.2, p.3)
Placed-cons h q r rs (last n) p = p

found_free :
    (h : Heap) (q : ℕ) (qs : List ℕ) (i : ℕ)
    → IsChain h (q ∷ qs)
    → find_free (h q).data_items ≡ some i
    → Placed h q qs (free (slot q i))
found_free h q qs i s e =
    let (old, at, invalid) = find_free-elem (h q).data_items i e in
    let room = get_elem?-lt (h q).data_items i old at in
    ((rw (==_refl q), omega (arith, s.2)), old, at, invalid)

-- The search for a place ends.
pub place_loop-Placed :
    (h : Heap) (q : ℕ) (qs : List ℕ) (fuel : ℕ)
    → IsChain h (q ∷ qs)
    → length qs < fuel
    → Returns (place_loop fuel h q) (Placed h q qs)
unfolding place_loop
place_loop-Placed h q qs zero s lt = absurd (omega arith)
place_loop-Placed h q [] (suc fuel) s lt = elim (Option-cases (find_free (h q).data_items)) [
  | inr (i, e) ↦ (free (slot q i), rw (==_ne q 0 (omega arith), e), found_free h q [] i s e)
  | inl e ↦ (last q, rw (==_ne q 0 (omega arith), e, s.3), (refl, e))
]
place_loop-Placed h q (r ∷ rs) (suc fuel) s lt = elim (Option-cases (find_free (h q).data_items)) [
  | inr (i, e) ↦ (free (slot q i), rw (==_ne q 0 (omega arith), e), found_free h q (r ∷ rs) i s e)
  | inl e ↦
      let (p, run, placed) = place_loop-Placed h r rs fuel s.4 (omega arith) in
      (
        p,
        rw (==_ne q 0 (omega arith), e, s.3, ==_ne r 0 (omega arith)) run,
        Placed-cons h q r rs p placed,
      )
]

module _ (g : Heap) (fresh : ℕ) (pos : 0 < fresh) (ends : (g fresh).next ≡ 0)
    (slots : length (g fresh).data_items ≡ item_num_per_node) where
  abbrev linked : ℕ → Heap
  linked l = update g l (record (g l) { next = fresh })

  not-mem_link :
      (q r : ℕ) (rs : List ℕ)
      → mem q (r ∷ rs) ≡ false
      → fresh ≢ q
      → mem q ((r ∷ rs) ++ fresh ∷ []) ≡ false
  not-mem_link q r rs h ne = rw (mem-append q (r ∷ rs) (fresh ∷ []), h) (ground arith)

  -- A chain that is linked to a fresh node runs on through it.
  pub link-IsChain :
      (q : ℕ) (qs : List ℕ)
      → IsChain g (q ∷ qs)
      → mem fresh (q ∷ qs) ≡ false
      → IsChain (linked (last_of q qs)) ((q ∷ qs) ++ fresh ∷ [])
  link-IsChain q [] s out =
      let ne : (fresh == q) ≡ false = ground (arith, out) in
      (
        s.0,
        ground (arith, out),
        rw (==_refl q) s.2,
        rw (==_refl q),
        (pos, refl, rw ne slots, rw ne ends, tt),
      )
  link-IsChain q (r ∷ rs) s out =
      let rest = link-IsChain r rs s.4 (not-mem_tail fresh q (r ∷ rs) out) in
      let ne = not-mem_of q (last_of r rs) (r ∷ rs) s.1 (last_of-mem r rs) in
      let apart : mem q ((r ∷ rs) ++ fresh ∷ []) ≡ false =
        not-mem_link q r rs s.1 (not-mem_head fresh q (r ∷ rs) out) in
      (s.0, apart, rw ne s.2, rw ne s.3, rest)

  pub link-contents :
      (q : ℕ) (qs : List ℕ)
      → IsChain g (q ∷ qs)
      → mem fresh (q ∷ qs) ≡ false
      → contents (linked (last_of q qs)) ((q ∷ qs) ++ fresh ∷ [])
        ≡ contents g (q ∷ qs) ++ (g fresh).data_items
  link-contents q [] s out =
      let ne : (fresh == q) ≡ false = ground (arith, out) in simp (==_refl q, ne, append-nil)
  link-contents q (r ∷ rs) s out =
      let ne = not-mem_of q (last_of r rs) (r ∷ rs) s.1 (last_of-mem r rs) in
      rw (ne, link-contents r rs s.4 (not-mem_tail fresh q (r ∷ rs) out))
        (sym (append_assoc (g q).data_items (contents g (r ∷ rs)) (g fresh).data_items))
