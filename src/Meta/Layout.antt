-- ===== src/Meta/Layout.antt =====
-- The message of the server is not the one that the client reads.
use disaggregate_metadata_se.Base.{
  ℕ, suc, ◌+◌, ◌*◌, ◌^◌, ◌<◌, ◌≤◌, ◌≡◌, ◌≢◌, ◌⊎◌, inl, inr, sym, ◌∙◌, List, ◌∷◌, length,
  length-append, Bool-cases, leb, ==_ne, none, add64, mul64, arith,
}
use disaggregate_metadata_se.Base.Run.{ok, fault}
use disaggregate_metadata_se.Meta.{
  MetaManager, recv_size, mem_store_meta_end, HashMeta, put_bytes, get_bytes, from, received,
  meta_bytes, all_meta_bytes, hash_meta_size, prepare_hash_meta, get_mem_store_meta,
}
use disaggregate_metadata_se.Meta.Bytes.{received-beyond, get_bytes-same, length-all_meta_bytes}

-- Without the end mark where it looks for it, the client learns nothing.
rejects :
    (f : ℕ → ℕ) (m : MetaManager) (end : ℕ)
    → get_bytes 4 (from 16 f) ≡ 0
    → add64 20 (mul64 hash_meta_size (add64 (get_bytes 8 f) (get_bytes 8 (from 8 f)))) ≡ end
    → get_bytes 8 (from end f) ≢ mem_store_meta_end
    → (get_mem_store_meta f m ≡ fault) ⊎ (get_mem_store_meta f m ≡ ok (none, m))
unfolding get_mem_store_meta
rejects f m end id at no_mark = elim (Bool-cases (leb (end + 8) recv_size)) [
  | inl le ↦ inr (rw (id, at, le, ==_ne _ _ no_mark))
  | inr gt ↦ inl (rw (id, at, gt))
]

module _ (machine : ℕ) (t : HashMeta) (ts : List HashMeta) (junk : ℕ → ℕ)
    (small_machine : machine < 2 ^ 31) (small_id : t.table_id < 2 ^ 24)
    (few : suc (length ts) < 2 ^ 24) where
  abbrev message : List ℕ
  message = prepare_hash_meta machine (t ∷ ts)

  abbrev memory : ℕ → ℕ
  memory = received message junk

  -- What the client takes for the number of backup tables, and for the machine's id.
  primary_num : get_bytes 8 memory ≡ suc (length ts)
  unfolding prepare_hash_meta meta_bytes
  primary_num = omega arith

  backup_num : get_bytes 8 (from 8 memory) ≡ machine + 2 ^ 32 * t.table_id
  unfolding prepare_hash_meta meta_bytes
  backup_num = omega arith

  machine_id : get_bytes 4 (from 16 memory) ≡ 0
  unfolding prepare_hash_meta meta_bytes
  machine_id = omega arith

  end_of :
      (p b : ℕ)
      → p ≡ suc (length ts)
      → b ≡ machine + 2 ^ 32 * t.table_id
      → add64 20 (mul64 hash_meta_size (add64 p b))
        ≡ 20 + hash_meta_size * (suc (length ts) + (machine + 2 ^ 32 * t.table_id))
  end_of p b e f = omega (arith, e, f)

  length-message : length message ≡ 20 + hash_meta_size * suc (length ts)
  unfolding prepare_hash_meta meta_bytes
  length-message = omega (
    arith,
    length-append (all_meta_bytes ts) (put_bytes 8 mem_store_meta_end),
    length-all_meta_bytes ts,
  )

  module _ (m : MetaManager)
      (no_stray : (i : ℕ)
        → length message ≤ i
        → get_bytes 8 (from i junk) ≢ mem_store_meta_end) where
    abbrev end : ℕ
    end = 20 + hash_meta_size * (suc (length ts) + (machine + 2 ^ 32 * t.table_id))

    end-add64 :
        add64 20 (mul64 hash_meta_size (add64 (get_bytes 8 memory) (get_bytes 8 (from 8 memory))))
        ≡ end
    end-add64 = end_of (get_bytes 8 memory) (get_bytes 8 (from 8 memory)) primary_num backup_num

    -- The server's message of at least one table, fewer than 2^24 of them, the first id below 2^24
    -- and the machine's id below 2^31, where the client's buffer behind the message holds no end
    -- mark: the client accesses memory out of bounds, or reports -1 and learns nothing.
    pub never_accepted :
        (get_mem_store_meta memory m ≡ fault) ⊎ (get_mem_store_meta memory m ≡ ok (none, m))
    never_accepted = rejects memory m end machine_id end-add64 (λ e.
        no_stray end (omega (arith, length-message)) (
          sym (
            get_bytes-same 8 (from end memory) (from end junk)
              (λ i. received-beyond message junk (end + i) (omega (arith, length-message))))
          ∙ e))
