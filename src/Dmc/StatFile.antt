-- ===== src/Dmc/StatFile.antt =====
-- core/metadata/dmc.cc: stat_file. The address cache, a copy of libcuckoo, is a parameter: its type, its
-- search, which tells of an inode whether it is a directory, and its removal.
use disaggregate_metadata_se.Base.{
  ℕ, suc, ◌%◌, ◌≡◌, ◌⊎◌, inl, inr, refl, Bool, true, false, not, Option, none, some, List, [], ◌∷◌,
  ◌==◌, if◌then◌else◌,
}
use disaggregate_metadata_se.Base.Run.{Run, ok, fault, out_of_fuel, ◌>>=◌}
use disaggregate_metadata_se.Item.{DataItem, fetch_item}
use disaggregate_metadata_se.HashStore.{HashNode}
use disaggregate_metadata_se.Meta.{MetaManager}
use disaggregate_metadata_se.Dmc.{Dmc, Read, add_to_reader_set}
use disaggregate_metadata_se.Dmc.Issue.{issue_reader, issue_reader-empty}
use disaggregate_metadata_se.Dmc.ReadOnly.{check_read_ro, check_read_ro-empty}
use disaggregate_metadata_se.Dmc.Path.{NameId, find_slash, resolution_loop, path_resolution-outcome}

-- DMC_TYPE
pub data DmcType : Type 0 where
  native : DmcType
  disaggregated : DmcType

module _ {C : Type 0} (search : C → ℕ → ℕ → Option Bool) (remove : C → ℕ → ℕ → C)
    (posted : Read → Bool) (m : MetaManager) (qp_of : ℕ → ℕ) (servers : ℕ) where
  abbrev add_found : Option Bool → ℕ → Dmc → Dmc
  add_found none key d = add_to_reader_set d (fetch_item 0 key)
  add_found (some is_dir) key d = if is_dir then d else add_to_reader_set d (fetch_item 0 key)

  -- The `for` over the parts of the path; with no server it divides by zero.
  pub add_loop : C → List NameId → Dmc → Run Dmc
  add_loop cache [] d = ok d
  add_loop cache (id ∷ ids) d =
      let rest = add_loop cache ids (add_found (search cache (id.key % servers) id.key) id.key d) in
      if servers == 0 then fault else rest

  abbrev add_paths : DmcType → C → List NameId → Dmc → Run Dmc
  add_paths native cache ids d = ok d
  add_paths disaggregated cache ids d = add_loop cache ids d

  -- `resume` is the state after a yield, by the round, and the rest what the buffers hold then.
  module _ (resume : ℕ → Dmc → Dmc) (fetched_items : ℕ → DataItem) (local : ℕ → ℕ → HashNode)
      (items : ℕ → ℕ → DataItem) where
    pub stat_file : ℕ → DmcType → List ℕ → Dmc → C → Run (Bool × Dmc × C)
    unfolding add_loop
    stat_file fuel dmc_type path d cache = resolution_loop fuel path [] >>= λ paths.
        add_paths dmc_type cache paths d >>= λ added.
        issue_reader posted m qp_of [] [] added >>= λ r.
        let checked =
          check_read_ro remove posted m resume fetched_items local items fuel r.1.direct r.1.hash []
            (resume 0 r.1.dmc) cache
          >>= λ s. ok (true, s.1, s.2) in
        if not r.0 then ok (false, r.1.dmc, cache) else checked

    added-nothing : (t : DmcType) (cache : C) (d : Dmc) → add_paths t cache [] d ≡ ok d
    unfolding add_loop
    added-nothing native cache d = refl
    added-nothing disaggregated cache d = refl

    stat-nothing :
        (fuel : ℕ) (t : DmcType) (path : List ℕ) (d : Dmc) (cache : C)
        → d.reader_set ≡ []
        → resolution_loop (suc fuel) path [] ≡ ok []
        → stat_file (suc fuel) t path d cache ≡ ok (true, resume 0 d, cache)
    unfolding stat_file
    stat-nothing fuel t path d cache empty e =
        rw
          (
            e,
            added-nothing t cache d,
            issue_reader-empty posted m qp_of [] [] d empty,
            check_read_ro-empty remove posted m resume fetched_items local items fuel (resume 0 d)
                cache,
          )
          refl

    -- With an empty reader set and at least one round for its loops, stat_file does not return
    -- within the rounds, or there is no slash behind the first character of the path, and it
    -- returns true with the state that its yield leaves, so that it has posted no read.
    pub stat_file-outcome :
        (fuel : ℕ) (t : DmcType) (path : List ℕ) (d : Dmc) (cache : C)
        → d.reader_set ≡ []
        → (stat_file (suc fuel) t path d cache ≡ out_of_fuel)
          ⊎ ((find_slash 1 path ≡ none)
              × (stat_file (suc fuel) t path d cache ≡ ok (true, resume 0 d, cache)))
    unfolding stat_file
    stat_file-outcome fuel t path d cache empty = elim (path_resolution-outcome (suc fuel) path) [
      | inl (pos, slash, stuck) ↦ inl (rw stuck refl)
      | inr (no_slash, more) ↦ elim (path_resolution-outcome fuel path) [
        | inl (pos, slash, stuck) ↦ absurd cc
        | inr (none_there, e) ↦ inr (no_slash, stat-nothing fuel t path d cache empty e)
      ]
    ]
