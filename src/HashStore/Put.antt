-- ===== src/HashStore/Put.antt =====
-- `LocalPut`: the table becomes the one that maps the key to the item.
use mathlib.Core.Path.{subst}
use disaggregate_metadata_se.Base.{
  ℕ, ◌+◌, ◌<◌, ◌≡◌, ◌⊎◌, ◌∙◌, refl, sym, ap, inl, inr, true, Option, none, some, List, ◌==◌,
  if◌then◌else◌, length, Bool-cases, ==_refl, ==_iff, get_elem?-some, get_elem?-set_self, arith,
}
use disaggregate_metadata_se.Base.Run.{Run, ok, aborted}
use disaggregate_metadata_se.Item.{DataItem, hit}
use disaggregate_metadata_se.HashStore.{
  Heap, Slot, HashStore, MemStoreReserveParam, get_hash, write_slot, local_get, Inserted, put_at,
  local_put,
}
use disaggregate_metadata_se.HashStore.Node.{lookup-hit}
use disaggregate_metadata_se.HashStore.Chain.{read_slot, Within}
use disaggregate_metadata_se.HashStore.Write.{mem-slots, get_loop-write}
use disaggregate_metadata_se.HashStore.Table.{
  IsTable, chain, bucket, view, get_found, hash_lt, write-IsTable, write-view_other,
}
use disaggregate_metadata_se.HashStore.Insert.{stored, insert-Added}

-- What a put of `d` makes of a table.
pub record Put (s : HashStore) (h : Heap) (tail : ℕ → List ℕ) (d : DataItem) (r : Inserted)
    (tail' : ℕ → List ℕ) : Type 0 where
  pub table : IsTable r.store r.heap r.param tail'
  pub points : read_slot r.heap (some r.item) ≡ some d
  pub maps :
      (q : ℕ) → view r.store r.heap tail' q ≡ (if q == d.key then some d else view s h tail q)

module _ {s : HashStore} {h : Heap} {p : MemStoreReserveParam} {tail : ℕ → List ℕ}
    (t : IsTable s h p tail) (d : DataItem) (live : d.valid ≡ 1) where
  abbrev b : ℕ
  b = get_hash s d.key

  abbrev pub PutsOrAborts : Run Inserted → Type 0
  PutsOrAborts run =
      ((r : Inserted) × (tail' : ℕ → List ℕ) × (run ≡ ok r) × Put s h tail d r tail')
      ⊎ ((run ≡ aborted) × (p.end < p.reserve + p.reserve_offset))

  stored-same : stored d ≡ d
  stored-same = λ i. record d { valid = sym live i }

  hits_d : hit d.key d ≡ true
  hits_d = rw (live, ==_refl d.key)

  found-Put :
      (r : Option Slot)
      → local_get s h d.key ≡ ok r
      → read_slot h r ≡ view s h tail d.key
      → Within (chain s tail b) r
      → PutsOrAborts (put_at s h p d.key d r)
  unfolding put_at local_get
  found-Put none run reads within = elim (insert-Added t d) [
    | inr full ↦ inr full
    | inl (r, tail', done, a) ↦ inl (
      r,
      tail',
      done,
      record {
        table = a.table;
        points = a.points ∙ ap some stored-same;
        maps = λ q. elim (Bool-cases (q == d.key)) [
          | inl e ↦
              let same : q ≡ d.key = (==_iff q d.key).0 e in
              rw e (
                subst (λ k. view r.store r.heap tail' k ≡ some d) (sym same)
                  (a.first (sym reads) ∙ ap some stored-same))
          | inr e ↦ rw e (a.others q (ground (arith, e)))
        ];
      },
    )
  ]
  found-Put (some sl) run reads within =
      let room = mem-slots h (chain s tail b) sl.node (t.chains b (hash_lt t d.key)) within.0 in
      let lt : sl.index < length (h sl.node).data_items = omega (arith, room, within.1) in
      let (old, at) = get_elem?-some (h sl.node).data_items sl.index lt in
      let hits_old = lookup-hit d.key (bucket s h tail d.key) old (sym reads ∙ at) in
      inl (
        record { item = sl; store = s; heap = write_slot h sl d; param = p },
        tail,
        refl,
        record {
          table = write-IsTable t sl d;
          points = rw (==_refl sl.node) (get_elem?-set_self (h sl.node).data_items sl.index d lt);
          maps = λ q. elim (Bool-cases (q == d.key)) [
            | inl e ↦
                let same : q ≡ d.key = (==_iff q d.key).0 e in
                rw e (
                  subst (λ k. view s (write_slot h sl d) tail k ≡ some d) (sym same)
                    (get_loop-write h (chain s tail b) (s.node_num + 2) d.key sl d
                      (t.chains b (hash_lt t d.key)) run hits_d))
            | inr e ↦ rw e (
                write-view_other t b (hash_lt t d.key) sl old d within.0 at q
                  (ground (arith, e, hits_old)) (ground (arith, e)))
          ];
        },
      )

  -- On a table in order and an item marked valid, a put of the item under its key ends: either with
  -- a table in order that has the item under the key and under every other key what it had, and a
  -- pointer to the item; or it aborts, where the reserved space is used up.
  pub put-Put : PutsOrAborts (local_put s h p d.key d)
  unfolding local_put
  put-Put =
      let (r, run, (reads, within)) = get_found t d.key in rw run (found-Put r run reads within)
