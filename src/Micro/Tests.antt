-- ===== src/Micro/Tests.antt =====
-- Three keys loaded into the example table.
use disaggregate_metadata_se.Base.{ltb}
use disaggregate_metadata_se.Base.Run.{ReturnsOrAborts}
use disaggregate_metadata_se.HashStore.Example.{made, heap, param, empty_tail, one_item}
use disaggregate_metadata_se.Micro.{Loaded, populate_micro_table}
use disaggregate_metadata_se.Micro.Load.{Holds, populate_micro_table-Holds}

abbrev before : Loaded
before = record { store = made.store; heap = heap; param = param }

populate_micro_table-Holds_example :
    ReturnsOrAborts
      (populate_micro_table 3 before)
      (Holds made.store heap param empty_tail (λ q. ltb q 3))
populate_micro_table-Holds_example = populate_micro_table-Holds 3 before empty_tail one_item
