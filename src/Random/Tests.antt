-- ===== src/Random/Tests.antt =====
-- The generators from the seed 42.
use disaggregate_metadata_se.Base.{◌<◌, ◌≡◌, arith}
use disaggregate_metadata_se.Random.{state_mod, next, undo, next-undo}

next-undo_example : ((next 42 16).1 < state_mod) × (undo (next 42 16).1 ≡ 42)
next-undo_example = next-undo 42 16 (omega arith)
