-- ===== src/Ct/Tests.antt =====
-- core/util/ct.h: runs of the table.
use disaggregate_metadata_se.Base.{◌+◌, ◌%◌, ◌^◌, ◌<◌, ◌≡◌, ◌⊎◌, refl, none, List, [], ◌∷◌, arith}
use disaggregate_metadata_se.Base.Run.{ok, aborted, Returns}
use disaggregate_metadata_se.Ct.{new_ct, reverse, dummy_key, regular_key, get_bucket_parent, clz}
use disaggregate_metadata_se.Ct.Reverse.{reverse-bits, bits_reversed}
use disaggregate_metadata_se.Ct.Reverse.Order.{dummy-lt-regular}
use disaggregate_metadata_se.Ct.Table.{Inserted, insert, delete}
use disaggregate_metadata_se.Ct.Table.Insert.{Inserts, insert-Inserts}
use disaggregate_metadata_se.Ct.Table.Delete.{Deletes, delete-Deletes}
use disaggregate_metadata_se.Ct.Table.Find.{new_ct-IsTable}
use disaggregate_metadata_se.Ct.Table.Refines.{
  Op, put, remove, ask, table_answers, map_answers, ct-refines,
}

-- The bucket 6 is split from the bucket 2.
parent_of_six : get_bucket_parent 6 ≡ 2
unfolding get_bucket_parent clz
parent_of_six = refl

abbrev ops : List Op
ops = put 5 7 ∷ put 6 8 ∷ put 5 9 ∷ ask 5 ∷ remove 6 ∷ ask 6 ∷ []

ct-refines_example : table_answers (λ k. k) new_ct ops ≡ ok (map_answers (λ k. none) ops)
ct-refines_example =
    ct-refines (λ k. k) ops
      (omega arith, (omega arith, (omega arith, (omega arith, (omega arith, (omega arith, tt))))))
      (omega arith)

insert-Inserts_example :
    ((r : Inserted) × (insert (λ k. k) new_ct 5 7 ≡ ok r) × Inserts (λ k. k) new_ct (1 ∷ []) 5 7 r)
    ⊎ ((insert (λ k. k) new_ct 5 7 ≡ aborted) × (2 ^ 23 < new_ct.size + 1))
insert-Inserts_example = insert-Inserts (λ k. k) new_ct (1 ∷ []) 5 7 (omega arith) new_ct-IsTable.0

delete-Deletes_example : Returns (delete (λ k. k) new_ct 5) (Deletes (λ k. k) new_ct (1 ∷ []) 5)
delete-Deletes_example = delete-Deletes (λ k. k) new_ct (1 ∷ []) 5 (omega arith) new_ct-IsTable.0

reverse-bits_example : reverse 6 ≡ bits_reversed 64 6 0
reverse-bits_example = reverse-bits 6

dummy-lt-regular_example : dummy_key (13 % 2 ^ 3) < regular_key 13
dummy-lt-regular_example = dummy-lt-regular 3 13 (omega arith)
