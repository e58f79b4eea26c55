-- ===== src/HashStore/Insert.antt =====
-- `LocalInsert`: it ends, and puts one copy of the item in the bucket of its key.
use disaggregate_metadata_se.Base.{
  ℕ, ◌+◌, ◌<◌, ◌≡◌, ◌≢◌, ◌⊎◌, ◌∙◌, refl, sym, ap, inl, inr, none, some, List, ◌++◌, ◌==◌, leb,
  length, get_elem?, set, ==_refl, ==_ne, ==_iff, Bool-cases, get_elem?-set_self, arith,
}
use disaggregate_metadata_se.Base.Run.{Run, ok, aborted}
use disaggregate_metadata_se.Item.{DataItem}
use disaggregate_metadata_se.HashStore.{
  Heap, HashNode, Slot, slot, HashStore, MemStoreReserveParam, get_hash, bucket_addr, write_slot,
  zero_node, item_num_per_node, Place, free, last, Inserted, append_node, insert_at, local_insert,
}
use disaggregate_metadata_se.HashStore.Node.{
  lookup, count, hits, or_else, or_else-none, lookup-append, count-append,
}
use disaggregate_metadata_se.HashStore.Chain.{read_slot}
use disaggregate_metadata_se.HashStore.Search.{Placed, place_loop-Placed, last_of, last_of-pos}
use disaggregate_metadata_se.HashStore.Write.{mem-slots, write-lookup_new}
use disaggregate_metadata_se.HashStore.Table.{
  IsTable, chain, bucket, view, copies, hash_lt, write-IsTable, write-view_other, write-copies,
}
use disaggregate_metadata_se.HashStore.Grow.{
  grown_store, grown_param, grown_heap, grown_tail, grown-IsTable, grown-fresh, bucket-grown_self,
  bucket-grown_ne,
}

-- The item as it is stored.
abbrev pub stored : DataItem → DataItem
stored d = record d { valid = 1 }

-- What an insertion of `d` makes of a table. `tail` is the table's, `tail'` the result's.
pub record Added (s : HashStore) (h : Heap) (tail : ℕ → List ℕ) (d : DataItem) (r : Inserted)
    (tail' : ℕ → List ℕ) : Type 0 where
  pub table : IsTable r.store r.heap r.param tail'
  pub points : read_slot r.heap (some r.item) ≡ some (stored d)
  pub others : (q : ℕ) → q ≢ d.key → view r.store r.heap tail' q ≡ view s h tail q
  pub one_more : copies r.store r.heap tail' d.key ≡ copies s h tail d.key + 1
  pub first : view s h tail d.key ≡ none → view r.store r.heap tail' d.key ≡ some (stored d)

module _ {s : HashStore} {h : Heap} {p : MemStoreReserveParam} {tail : ℕ → List ℕ}
    (t : IsTable s h p tail) (d : DataItem) where
  abbrev b : ℕ
  b = get_hash s d.key

  abbrev Outcome : Run Inserted → Type 0
  Outcome run = (r : Inserted) × (tail' : ℕ → List ℕ) × (run ≡ ok r) × Added s h tail d r tail'

  insert-free :
      (sl : Slot)
      → Placed h (bucket_addr s b) (tail b) (free sl)
      → Outcome (insert_at s h p d (free sl))
  unfolding insert_at
  insert-free sl ((inside, room), old, reads, invalid) = (
    record { item = sl; store = s; heap = write_slot h sl (stored d); param = p },
    tail,
    refl,
    record {
      table = write-IsTable t sl (stored d);
      points = rw (==_refl sl.node) (
          get_elem?-set_self (h sl.node).data_items sl.index (stored d)
            (omega (arith, room, slots)));
      others = λ q ne.
          write-view_other t b (hash_lt t d.key) sl old (stored d) inside reads q
            (ground (arith, invalid)) (ground (arith, ne));
      one_more = omega (
        arith,
        write-copies t b (hash_lt t d.key) sl old (stored d) inside reads d.key refl,
        taken,
        given,
      );
      first = λ absent.
          write-lookup_new h (chain s tail b) sl old (stored d) (t.chains b (hash_lt t d.key))
            inside reads d.key room absent (rw (==_refl d.key));
    },
  )
    where
      slots : length (h sl.node).data_items ≡ item_num_per_node
      slots = mem-slots h (chain s tail b) sl.node (t.chains b (hash_lt t d.key)) inside

      taken : hits d.key old ≡ 0
      taken = ground (arith, invalid)

      given : hits d.key (stored d) ≡ 1
      given = rw (==_refl d.key)

  abbrev new_node : HashNode
  new_node = record { data_items = set zero_node.data_items 0 (stored d); next = 0 }

  abbrev fresh : ℕ
  fresh = p.reserve + p.reserve_offset

  added_node : Inserted
  added_node = record {
    item = slot fresh 0;
    store = grown_store s;
    heap = grown_heap h fresh (last_of (bucket_addr s b) (tail b)) new_node;
    param = grown_param p;
  }

  added_node-Added : Added s h tail d added_node (grown_tail tail b fresh)
  unfolding added_node
  added_node-Added = record {
    table = grown-IsTable t b (hash_lt t d.key) new_node refl refl;
    points =
        ap (λ (v : HashNode). get_elem? v.data_items 0) (grown-fresh t b lt new_node refl refl);
    others = λ q ne. elim (Bool-cases (get_hash s q == b)) [
      | inl e ↦
          ap (lookup q) (bucket-grown_self t b lt new_node refl refl q ((==_iff _ b).0 e))
          ∙ lookup-append q (bucket s h tail q) new_node.data_items
          ∙ other_key q ne
      | inr e ↦ ap (lookup q) (bucket-grown_ne t b lt new_node refl refl q (ground (arith, e)))
    ];
    one_more =
        ap (count d.key) grown
        ∙ count-append d.key (bucket s h tail d.key) new_node.data_items
        ∙ ap (λ n. copies s h tail d.key + n) (rw (==_refl d.key));
    first = λ absent.
        ap (lookup d.key) grown
        ∙ lookup-append d.key (bucket s h tail d.key) new_node.data_items
        ∙ rw (absent, ==_refl d.key);
  }
    where
      lt : b < s.bucket_num
      lt = hash_lt t d.key

      grown :
          bucket (grown_store s) added_node.heap (grown_tail tail b fresh) d.key
          ≡ bucket s h tail d.key ++ new_node.data_items
      grown = bucket-grown_self t b lt new_node refl refl d.key refl

      other_key :
          (q : ℕ)
          → q ≢ d.key
          → or_else (view s h tail q) (lookup q new_node.data_items) ≡ view s h tail q
      other_key q ne = rw (==_ne d.key q (λ e. ne (sym e))) (or_else-none (view s h tail q))

  abbrev pub InsertsOrAborts : Run Inserted → Type 0
  InsertsOrAborts run = Outcome run ⊎ ((run ≡ aborted) × (p.end < p.reserve + p.reserve_offset))

  append-Added :
      (n : ℕ)
      → n ≡ last_of (bucket_addr s b) (tail b)
      → InsertsOrAborts (append_node s h p (stored d) n)
  unfolding append_node added_node
  append-Added n e = elim (Bool-cases (leb fresh p.end)) [
    | inl fits ↦ inl (
      added_node,
      grown_tail tail b fresh,
      rw (fits, e, ==_ne (last_of (bucket_addr s b) (tail b)) 0 pos),
      added_node-Added,
    )
    | inr full ↦ inr (rw full, ground (arith, full))
  ]
    where
      pos : last_of (bucket_addr s b) (tail b) ≢ 0
      pos = omega (arith, last_of-pos h (bucket_addr s b) (tail b) (t.chains b (hash_lt t d.key)))

  insert_at-Added :
      (place : Place)
      → Placed h (bucket_addr s b) (tail b) place
      → InsertsOrAborts (insert_at s h p d place)
  unfolding insert_at
  insert_at-Added (free sl) placed = inl (insert-free sl placed)
  insert_at-Added (last n) placed = append-Added n placed.0

  -- On a table in order, an insertion of an item under its key ends: either with a table in order
  -- that has one more copy of the key, the item as the copy found where there was none, and every
  -- other key as before, and a pointer to the item; or it aborts, where the reserved space is used
  -- up.
  pub insert-Added : InsertsOrAborts (local_insert s h p d.key d)
  unfolding local_insert
  insert-Added =
      let (place, run, placed) =
        place_loop-Placed h (bucket_addr s b) (tail b) (s.node_num + 2)
          (t.chains b (hash_lt t d.key)) (omega (arith, t.short b (hash_lt t d.key))) in
      rw run (insert_at-Added place placed)
