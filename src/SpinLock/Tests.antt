-- ===== src/SpinLock/Tests.antt =====
-- Two writers and a reader on one lock.
use disaggregate_metadata_se.Base.{◌≡◌, [], ◌∷◌}
use disaggregate_metadata_se.Base.Run.{ok}
use disaggregate_metadata_se.SpinLock.{Call, new_spin_lock, calls, calls-pass}

calls-pass_example :
    calls new_spin_lock
      (Call.begins_write ∷ Call.begins_write ∷ Call.begins_read ∷ Call.ends_write ∷ [])
    ≡ ok 0
calls-pass_example =
    calls-pass (Call.begins_write ∷ Call.begins_write ∷ Call.begins_read ∷ Call.ends_write ∷ [])
