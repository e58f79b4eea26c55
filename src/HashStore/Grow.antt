-- ===== src/HashStore/Grow.antt =====
-- A bucket grows by a node from the reserved space: the table stays in order.
use mathlib.Core.Path.{subst}
use disaggregate_metadata_se.Base.{
  ℕ, ◌+◌, ◌<◌, ◌≡◌, ◌≢◌, ◌⊎◌, refl, sym, ap, inl, inr, true, false, List, [], ◌∷◌, ◌++◌, ◌==◌, ◌∙◌,
  length, mem, update, ==_refl, ==_ne, ==_iff, Bool-cases, length-append, not-mem_of, mem-ne,
  mem-snoc, not-mem-snoc, arith,
}
use disaggregate_metadata_se.Item.{DataItem}
use disaggregate_metadata_se.HashStore.{
  Heap, HashNode, HashStore, MemStoreReserveParam, get_hash, bucket_addr, hash_node_size,
  item_num_per_node,
}
use disaggregate_metadata_se.HashStore.Chain.{
  IsChain, IsChain-SameOn, contents, contents-SameOn, update-SameOn, SameOn,
}
use disaggregate_metadata_se.HashStore.Search.{last_of, last_of-mem, link-IsChain, link-contents}
use disaggregate_metadata_se.HashStore.Table.{IsTable, chain, bucket, hash_lt}

-- The states after the allocation.
abbrev pub grown_store : HashStore → HashStore
grown_store s = record s { node_num = s.node_num + 1 }

abbrev pub grown_param : MemStoreReserveParam → MemStoreReserveParam
grown_param p = record p { reserve_offset = p.reserve_offset + hash_node_size }

abbrev pub grown_heap : Heap → ℕ → ℕ → HashNode → Heap
grown_heap h fresh l v = let g = update h fresh v in update g l (record (g l) { next = fresh })

abbrev pub grown_tail : (ℕ → List ℕ) → ℕ → ℕ → ℕ → List ℕ
grown_tail tail b fresh = update tail b (tail b ++ fresh ∷ [])

pub get_hash-grown : (s : HashStore) (q : ℕ) → get_hash (grown_store s) q ≡ get_hash s q
unfolding get_hash
get_hash-grown s q = refl

bucket_addr-grown : (s : HashStore) (i : ℕ) → bucket_addr (grown_store s) i ≡ bucket_addr s i
unfolding bucket_addr
bucket_addr-grown s i = refl

module _ {s : HashStore} {h : Heap} {p : MemStoreReserveParam} {tail : ℕ → List ℕ}
    (t : IsTable s h p tail) (b : ℕ) (lt : b < s.bucket_num) (v : HashNode) (ends : v.next ≡ 0)
    (slots : length v.data_items ≡ item_num_per_node) where
  abbrev fresh : ℕ
  fresh = p.reserve + p.reserve_offset

  abbrev l : ℕ
  l = last_of (bucket_addr s b) (tail b)

  abbrev g : Heap
  g = grown_heap h fresh l v

  fresh_new : (i : ℕ) → i < s.bucket_num → mem fresh (chain s tail i) ≡ false
  fresh_new i lt_i = elim (Bool-cases (mem fresh (chain s tail i))) [
    | inl e ↦ absurd (omega (arith, t.below i fresh lt_i e))
    | inr e ↦ e
  ]

  fresh_pos : 0 < fresh
  fresh_pos = omega (arith, t.below b (bucket_addr s b) lt (rw (==_refl (bucket_addr s b))))

  pub grown-fresh : g fresh ≡ v
  grown-fresh =
      let ne =
        not-mem_of fresh l (chain s tail b) (fresh_new b lt)
          (last_of-mem (bucket_addr s b) (tail b)) in
      rw (ne, ==_refl fresh)

  before_link : (i : ℕ) → i < s.bucket_num → SameOn (chain s tail i) h (update h fresh v)
  before_link i lt_i = update-SameOn h (chain s tail i) fresh v (fresh_new i lt_i)

  here_IsChain : IsChain g (bucket_addr s b ∷ (tail b ++ fresh ∷ []))
  here_IsChain =
      link-IsChain (update h fresh v) fresh fresh_pos (rw (==_refl fresh) ends)
        (rw (==_refl fresh) slots) (bucket_addr s b) (tail b)
        (IsChain-SameOn h _ (chain s tail b) (before_link b lt) (t.chains b lt)) (fresh_new b lt)

  pub here_contents :
      contents g (bucket_addr s b ∷ (tail b ++ fresh ∷ []))
      ≡ contents h (chain s tail b) ++ v.data_items
  here_contents =
      let linked =
        link-contents (update h fresh v) fresh fresh_pos (rw (==_refl fresh) ends)
          (rw (==_refl fresh) slots) (bucket_addr s b) (tail b)
          (IsChain-SameOn h _ (chain s tail b) (before_link b lt) (t.chains b lt))
          (fresh_new b lt) in
      let old = contents-SameOn h (update h fresh v) (chain s tail b) (before_link b lt) in
      let new = rw (==_refl fresh) at linked in rw old at new

  apart_same : (i : ℕ) → i < s.bucket_num → b ≢ i → SameOn (chain s tail i) h g
  apart_same i lt_i ne a m =
      let there = last_of-mem (bucket_addr s b) (tail b) in
      let out = t.apart b i l lt lt_i ne there in
      let not_l : (a == l) ≡ false = mem-ne l a (chain s tail i) out m in
      rw not_l (before_link i lt_i a m)

  abbrev tail' : ℕ → List ℕ
  tail' = grown_tail tail b fresh

  pub chain-grown_self : chain (grown_store s) tail' b ≡ bucket_addr s b ∷ (tail b ++ fresh ∷ [])
  chain-grown_self = rw (bucket_addr-grown s b, ==_refl b)

  pub chain-grown_ne : (i : ℕ) → b ≢ i → chain (grown_store s) tail' i ≡ chain s tail i
  chain-grown_ne i ne = rw (bucket_addr-grown s i, ==_ne i b (λ e. ne (sym e)))

  chain_split :
      (P : List ℕ → Type 0) (i : ℕ)
      → (b ≡ i → P (bucket_addr s b ∷ (tail b ++ fresh ∷ [])))
      → (b ≢ i → P (chain s tail i))
      → P (chain (grown_store s) tail' i)
  chain_split P i here there = elim (Bool-cases (b == i)) [
    | inl e ↦
        let same : b ≡ i = (==_iff b i).0 e in
        subst (λ j. P (chain (grown_store s) tail' j)) same
          (subst P (sym chain-grown_self) (here same))
    | inr e ↦ let ne : b ≢ i = ground (arith, e) in subst P (sym (chain-grown_ne i ne)) (there ne)
  ]

  -- A node of a bucket is one that it had, or the new one, which only the grown bucket has.
  abbrev OldOrNew : ℕ → ℕ → List ℕ → Type 0
  OldOrNew i a c = mem a c ≡ true → (mem a (chain s tail i) ≡ true) ⊎ ((a ≡ fresh) × (b ≡ i))

  mem-grown : (i a : ℕ) → OldOrNew i a (chain (grown_store s) tail' i)
  mem-grown i a =
      chain_split (OldOrNew i a) i
        (λ same m. elim (mem-snoc a fresh (chain s tail b) m) [
          | inl old ↦ inl (subst (λ j. mem a (chain s tail j) ≡ true) same old)
          | inr e ↦ inr (e, same)
        ])
        (λ ne m. inl m)

  pub grown-IsTable : IsTable (grown_store s) g (grown_param p) tail'
  grown-IsTable = record {
    some_bucket = t.some_bucket;
    chains = λ i lt_i.
        chain_split (IsChain g) i (λ _. here_IsChain)
          (λ ne. IsChain-SameOn h g (chain s tail i) (apart_same i lt_i ne) (t.chains i lt_i));
    short =
        λ i lt_i. ground (arith, length-append (tail b) (fresh ∷ []), t.short i lt_i, t.short b lt);
    below = λ i a lt_i m. elim (mem-grown i a m) [
      | inl old ↦ omega (arith, t.below i a lt_i old)
      | inr new ↦ omega (arith, new.0)
    ];
    apart = λ i j a lt_i lt_j ne m.
        chain_split (λ c. mem a c ≡ false) j
          (λ same. elim (mem-grown i a m) [
            | inl old ↦
                not-mem-snoc a fresh (chain s tail b)
                  (t.apart i b a lt_i lt (λ e. ne (e ∙ same)) old)
                  (omega (arith, t.below i a lt_i old))
            | inr new ↦ absurd (ne (sym new.1 ∙ same))
          ])
          (λ other. elim (mem-grown i a m) [
            | inl old ↦ t.apart i j a lt_i lt_j ne old
            | inr new ↦ subst (λ c. mem c (chain s tail j) ≡ false) (sym new.0) (fresh_new j lt_j)
          ]);
  }

  -- The other buckets read as before.
  pub other_contents :
      (i : ℕ)
      → i < s.bucket_num
      → b ≢ i
      → contents g (chain (grown_store s) tail' i) ≡ contents h (chain s tail i)
  other_contents i lt_i ne =
      ap (contents g) (chain-grown_ne i ne)
      ∙ contents-SameOn h g (chain s tail i) (apart_same i lt_i ne)

  pub self_contents :
      contents g (chain (grown_store s) tail' b) ≡ contents h (chain s tail b) ++ v.data_items
  self_contents = ap (contents g) chain-grown_self ∙ here_contents

  abbrev bucket_now : ℕ → List DataItem
  bucket_now i = contents g (chain (grown_store s) tail' i)

  -- The grown bucket has what it had, and the slots of the new node behind it.
  pub bucket-grown_self :
      (q : ℕ)
      → get_hash s q ≡ b
      → bucket (grown_store s) g tail' q ≡ bucket s h tail q ++ v.data_items
  bucket-grown_self q e =
      ap bucket_now (get_hash-grown s q ∙ e)
      ∙ self_contents
      ∙ ap (λ i. contents h (chain s tail i) ++ v.data_items) (sym e)

  pub bucket-grown_ne :
      (q : ℕ) → b ≢ get_hash s q → bucket (grown_store s) g tail' q ≡ bucket s h tail q
  bucket-grown_ne q ne =
      ap bucket_now (get_hash-grown s q) ∙ other_contents (get_hash s q) (hash_lt t q) ne
