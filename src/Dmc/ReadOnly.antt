-- ===== src/Dmc/ReadOnly.antt =====
-- core/metadata/dmc_check.cc: the check of all reads. What a coroutine finds when it runs again after a
-- yield is a parameter: its buffers, the items that the reads point at, and the state, by the round.
use disaggregate_metadata_se.Base.{
  ℕ, zero, suc, ◌≡◌, ◌⊎◌, inl, inr, refl, Bool, true, false, not, List, [], ◌∷◌, if◌then◌else◌,
  Bool-cases,
}
use disaggregate_metadata_se.Base.Run.{Run, ok, out_of_fuel, ◌>>=◌}
use disaggregate_metadata_se.Item.{DataItem}
use disaggregate_metadata_se.HashStore.{HashNode}
use disaggregate_metadata_se.Meta.{MetaManager}
use disaggregate_metadata_se.Dmc.{Dmc, DirectRead, HashRead, Read}
use disaggregate_metadata_se.Dmc.Check.{check_hash_loop, check_next_loop, check_next_loop-returns}
use disaggregate_metadata_se.Dmc.Direct.{check_direct_loop}

module _ (posted : Read → Bool) (resume : ℕ → Dmc → Dmc) (local : ℕ → ℕ → HashNode)
    (items : ℕ → ℕ → DataItem) where
  -- The `while` from round `n` on, with the same fuel for each pass of it
  pub check_read_loop : ℕ → ℕ → List HashRead → Dmc → Run (Bool × Dmc)
  check_read_loop zero n next d = out_of_fuel
  check_read_loop (suc fuel) n [] d = ok (true, d)
  check_read_loop (suc fuel) n (res ∷ rest) d =
      check_next_loop posted fuel (local n) (items n) (res ∷ rest) (resume n d) >>= λ r.
      let again = check_read_loop fuel (suc n) (res ∷ rest) r.1 in
      if not r.0 then ok (false, r.1) else again

  -- With a read of a next node pending, whatever the yields bring, the loop of CheckReadRO returns
  -- false or does not return within the rounds it has: no read is ever taken off the list.
  pub check_read_loop-outcome :
      (fuel n : ℕ) (res : HashRead) (rest : List HashRead) (d : Dmc)
      → ((after : Dmc) × (check_read_loop fuel n (res ∷ rest) d ≡ ok (false, after)))
        ⊎ (check_read_loop fuel n (res ∷ rest) d ≡ out_of_fuel)
  unfolding check_read_loop
  check_read_loop-outcome zero n res rest d = inr refl
  check_read_loop-outcome (suc fuel) n res rest d =
      elim (check_next_loop-returns posted (local n) (items n) fuel (res ∷ rest) (resume n d)) [
        | inr e ↦ inr (rw e refl)
        | inl (goes_on, after, e) ↦ elim (Bool-cases goes_on) [
          | inr f ↦ inl (after, rw (e, f) refl)
          | inl f ↦ elim (check_read_loop-outcome fuel (suc n) res rest after) [
            | inl (last, g) ↦ inl (last, rw (e, f) g)
            | inr g ↦ inr (rw (e, f) g)
          ]
        ]
      ]

module _ {C : Type 0} (remove : C → ℕ → ℕ → C) (posted : Read → Bool) (m : MetaManager)
    (resume : ℕ → Dmc → Dmc) (fetched_items : ℕ → DataItem) (local : ℕ → ℕ → HashNode)
    (items : ℕ → ℕ → DataItem) where
  -- `fetched_items` and `local 0` are what the buffers hold at the call.
  pub check_read_ro :
      ℕ → List DirectRead → List HashRead → List HashRead → Dmc → C → Run (Bool × Dmc × C)
  unfolding check_read_loop
  check_read_ro fuel direct hash next d cache =
      check_direct_loop remove posted m fetched_items (items 0) direct next d cache >>= λ r.
      let h = check_hash_loop posted (local 0) (items 0) hash r.next r.dmc in
      let rest =
        check_read_loop posted resume local items fuel 1 h.1 h.2 >>= λ s. ok (s.0, s.1, r.cache) in
      if not r.goes_on
      then ok (false, r.dmc, r.cache)
      else if not h.0
      then ok (false, h.2, r.cache)
      else rest

  -- Without a read there is nothing to check.
  pub check_read_ro-empty :
      (fuel : ℕ) (d : Dmc) (cache : C)
      → check_read_ro (suc fuel) [] [] [] d cache ≡ ok (true, d, cache)
  unfolding check_read_ro check_direct_loop check_hash_loop check_read_loop
  check_read_ro-empty fuel d cache = refl
