-- ===== src/Task/Output.antt =====
-- The storage mode, the slot policy and the output of a task agree (include/yorch/plan/traits.hpp).
use yorch.Base.{◌≡◌, ◌≢◌, ◌↔◌, true, none, arith}
use yorch.Task.Policy.{SlotLogicalPolicy, is_owned}
use yorch.Task.{TaskType, task_output, output_storage_mode, slot_logical_policy}

-- A node owns its output exactly when the slot policy of its task provides for a payload.
owned-policy :
    (task : TaskType)
    → (is_owned (output_storage_mode task) ≡ true)
      ↔ (slot_logical_policy task ≢ SlotLogicalPolicy.none)
unfolding is_owned output_storage_mode slot_logical_policy
owned-policy task = ground arith

-- A task whose node owns its output has an output type.
pub owned-output :
    (task : TaskType) → is_owned (output_storage_mode task) ≡ true → task_output task ≢ none
unfolding is_owned output_storage_mode task_output
owned-output task e = ground arith
