-- ===== src/Hazard/Tests.antt =====
-- core/util/hazard_pointer.h: a pointer that a thread has marked, and another that wants it deleted.
use disaggregate_metadata_se.Base.{
  count, ℕ, ◌*◌, ◌≤◌, ◌<◌, ◌≡◌, ◌≢◌, ◌⊎◌, refl, false, some, List, [], ◌∷◌, length, arith,
}
use disaggregate_metadata_se.Base.Run.{ok, ReturnsOrAborts}
use disaggregate_metadata_se.Hazard.{
  new_hazard_pointer_list, Reclaimer, new_reclaimer, find_null, mark_hazard, get_hazard_ptr,
  reclaim_no_hazard_pointer,
}
use disaggregate_metadata_se.Hazard.Marks.{Reclaims, reclaim_no_hazard_pointer-Reclaims}
use disaggregate_metadata_se.Hazard.System.{new_system, Call, mark, later, reclaim, calls}
use disaggregate_metadata_se.Hazard.Spared.{marked-spared}

abbrev seven : ℕ
seven = 7

seven_not_zero : seven ≢ 0
seven_not_zero e = omega (arith, e)

abbrev others : List Call
others = later 2 7 0 ∷ reclaim 2 ∷ []

first_index :
    (mark_hazard (new_system false).shared ((new_system false).threads 1) 7).index ≡ some 0
unfolding new_hazard_pointer_list new_reclaimer mark_hazard find_null
first_index = refl

marked-spared_example : ReturnsOrAborts (calls (new_system false) (mark 1 7 ∷ others)) λ done.
    (get_hazard_ptr done.shared (done.threads 1) (some 0) ≡ ok 7)
    × (count 7 done.deleted ≡ count 7 (new_system false).deleted)
marked-spared_example =
    marked-spared false [] others (new_system false) 1 7 0 refl seven_not_zero first_index
      (tt, (tt, tt))

-- A reclaimer with the pointers 7 and 8 put off
abbrev two : Reclaimer
two = record new_reclaimer {
  reclaim_map = record { ptr = 7; delete_func = 0 } ∷ record { ptr = 8; delete_func = 0 } ∷ [];
}

reclaim_no_hazard_pointer-Reclaims_example :
    ((length two.reclaim_map < 4 * (new_hazard_pointer_list false).size)
      × (reclaim_no_hazard_pointer (new_hazard_pointer_list false) two
          ≡ record { reclaimer = two; deleted = [] }))
    ⊎ ((4 * (new_hazard_pointer_list false).size ≤ length two.reclaim_map)
        × Reclaims
            (new_hazard_pointer_list false)
            two
            two.reclaim_map
            (reclaim_no_hazard_pointer (new_hazard_pointer_list false) two))
reclaim_no_hazard_pointer-Reclaims_example =
    reclaim_no_hazard_pointer-Reclaims (new_hazard_pointer_list false) two
      ((λ e. omega (arith, e)), ((λ e. omega (arith, e)), tt))
