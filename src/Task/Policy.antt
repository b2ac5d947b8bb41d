-- ===== src/Task/Policy.antt =====
-- include/yorch/detail/slots/policy.hpp
use yorch.Base.{Bool, true, false}

pub data SlotLogicalPolicy : Type 0 where
  none maybe_payload must_payload : SlotLogicalPolicy

pub data SlotPhysicalPolicy : Type 0 where
  none maybe_payload must_payload : SlotPhysicalPolicy

pub data OutputStorageMode : Type 0 where
  none owned forwarded_prev : OutputStorageMode

-- `output_storage_mode_for<I> == output_storage_mode::owned`
unfoldable pub is_owned : OutputStorageMode → Bool
is_owned OutputStorageMode.owned = true
is_owned _ = false
