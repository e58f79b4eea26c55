-- ===== src/HashStore/Delete.antt =====
-- `LocalDelete`: it ends, removes one copy of the key, and nothing else.
use disaggregate_metadata_se.Base.{
  ℕ, zero, suc, ◌+◌, ◌<◌, ◌≤◌, ◌≡◌, ◌≢◌, refl, sym, inl, inr, Bool, true, false, Option, none, some,
  List, ◌∙◌, get_elem?-some, ==_ne, Option-cases, arith,
}
use disaggregate_metadata_se.Base.Run.{Run, ok, Returns, ◌>>=◌}
use disaggregate_metadata_se.HashStore.{
  Heap, Slot, HashStore, MemStoreReserveParam, get_hash, bucket_addr, write_slot, get_loop,
  local_get, delete_loop, local_delete, erase_slot, clear_valid,
}
use disaggregate_metadata_se.HashStore.Node.{lookup-hit, lookup-count, count-lookup, modify-set}
use disaggregate_metadata_se.HashStore.Chain.{read_slot, Within}
use disaggregate_metadata_se.HashStore.Write.{mem-slots}
use disaggregate_metadata_se.HashStore.Table.{
  IsTable, chain, bucket, view, copies, get_found, hash_lt, write-IsTable, write-view_other,
  write-copies,
}

-- The deletion as a search and a write.
abbrev pub erase_found : Heap → Option Slot → Run (Bool × Heap)
erase_found h none = ok (false, h)
erase_found h (some s) = ok (true, erase_slot h s.node s.index)

delete_loop-get :
    (fuel : ℕ) (h : Heap) (k p : ℕ) → delete_loop fuel h k p ≡ get_loop fuel h k p >>= erase_found h
unfolding delete_loop get_loop
delete_loop-get zero h k p = refl
delete_loop-get (suc fuel) h k p = ground (arith, delete_loop-get fuel h k (h p).next)

-- Where the key's bucket is not at address 0, a deletion is a search followed by the clearing of
-- the slot found: its two loops visit what the search visits.
pub delete-get :
    (s : HashStore) (h : Heap) (k : ℕ)
    → 0 < bucket_addr s (get_hash s k)
    → local_delete s h k ≡ local_get s h k >>= erase_found h
unfolding local_delete local_get get_loop
delete-get s h k pos =
    let node = bucket_addr s (get_hash s k) in
    let fuel : s.node_num + 2 ≡ suc (s.node_num + 1) = omega arith in
    rw (fuel, ==_ne node 0 (omega arith))
      (ground (arith, delete_loop-get (s.node_num + 1) h k (h node).next))

abbrev pub is_some {ℓ} : {A : Type ℓ} → Option A → Bool
is_some none = false
is_some (some a) = true

abbrev pub to_nat : Bool → ℕ
to_nat true = 1
to_nat false = 0

-- What a deletion of `k` makes of a table.
pub record Deleted (s : HashStore) (h : Heap) (p : MemStoreReserveParam) (tail : ℕ → List ℕ) (k : ℕ)
    (r : Bool × Heap) : Type 0 where
  pub table : IsTable s r.1 p tail
  pub found : r.0 ≡ is_some (view s h tail k)
  pub others : (q : ℕ) → q ≢ k → view s r.1 tail q ≡ view s h tail q
  pub one_less : copies s r.1 tail k + to_nat r.0 ≡ copies s h tail k

module _ {s : HashStore} {h : Heap} {p : MemStoreReserveParam} {tail : ℕ → List ℕ}
    (t : IsTable s h p tail) (k : ℕ) where
  erased :
      (r : Option Slot)
      → read_slot h r ≡ view s h tail k
      → Within (chain s tail (get_hash s k)) r
      → Returns (erase_found h r) (Deleted s h p tail k)
  erased none reads within = (
    (false, h),
    refl,
    record { table = t; found = rw (← reads); others = λ q ne. refl; one_less = omega arith },
  )
  erased (some sl) reads within =
      let i = get_hash s k in
      let room = mem-slots h (chain s tail i) sl.node (t.chains i (hash_lt t k)) within.0 in
      let (old, at) =
        get_elem?-some (h sl.node).data_items sl.index (omega (arith, room, within.1)) in
      let there : view s h tail k ≡ some old = sym reads ∙ at in
      let hits_old = lookup-hit k (bucket s h tail k) old there in
      let g = write_slot h sl (clear_valid old) in
      let same : erase_slot h sl.node sl.index ≡ g =
        rw (modify-set (h sl.node).data_items sl.index old at) in
      (
        (true, g),
        rw same,
        record {
          table = write-IsTable t sl (clear_valid old);
          found = rw there;
          others = λ q ne.
              write-view_other t i (hash_lt t k) sl old (clear_valid old) within.0 at q
                (ground (arith, ne, hits_old)) refl;
          one_less = ground (
            arith,
            write-copies t i (hash_lt t k) sl old (clear_valid old) within.0 at k refl,
            hits_old,
          );
        },
      )

  -- On a table in order, a deletion ends. It tells whether the key was there, takes one copy of it
  -- away if so, changes no other key, and leaves a table in order.
  pub delete-Deleted : Returns (local_delete s h k) (Deleted s h p tail k)
  delete-Deleted =
      let (r, run, (reads, within)) = get_found t k in
      let i = get_hash s k in
      let pos = (t.chains i (hash_lt t k)).0 in
      rw (delete-get s h k pos, run) (erased r reads within)

  -- Where the key had one copy, a lookup after the deletion finds nothing.
  pub delete-view_self :
      {r : Bool × Heap} → Deleted s h p tail k r → copies s h tail k ≤ 1 → view s r.1 tail k ≡ none
  delete-view_self {r} d once = elim (Option-cases (view s h tail k)) [
    | inl e ↦
        let gone = count-lookup k (bucket s h tail k) e in
        lookup-count k (bucket s r.1 tail k) (omega (arith, d.one_less, gone))
    | inr (a, e) ↦
        let yes_found : r.0 ≡ true = rw e at d.found in
        let less = rw yes_found at d.one_less in lookup-count k (bucket s r.1 tail k) (omega arith)
  ]
