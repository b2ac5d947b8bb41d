-- ===== src/Task.antt =====
-- What a plan asks of a task's type: include/yorch/detail/task/traits.hpp,
-- include/yorch/plan/traits.hpp and include/yorch/detail/slots/policy.hpp. A C++ object type is a
-- number; `none` stands for `void`.
pub mod Policy
pub mod Access
pub mod Output
use yorch.Base.{ℕ, Bool, true, false, Option, none, some}
use Policy.{SlotLogicalPolicy, OutputStorageMode}
use Access.{TaskForm}

-- The categories of raw results of `invoke_raw`.
pub data RawResult : Type 0 where
  void_result step_result : RawResult
  task_result : ℕ → RawResult
  value_result : ℕ → RawResult

pub data OutputProtocol : Type 0 where
  no_declared_output direct_output forward_prev_output : OutputProtocol

-- `form` says how the task is bound and adapted, `output_type` is the declared output.
pub record TaskType : Type 0 where
  pub form : TaskForm
  pub raw_result : RawResult
  pub output_type : Option ℕ
  pub output_protocol : OutputProtocol

-- `task_uses_direct_output_protocol_v`, `task_uses_forward_prev_output_protocol_v`
unfoldable pub uses_direct_output : TaskType → Bool
uses_direct_output task = elim task.output_protocol [ direct_output ↦ true | _ ↦ false ]

unfoldable pub uses_forward_prev : TaskType → Bool
uses_forward_prev task = elim task.output_protocol [ forward_prev_output ↦ true | _ ↦ false ]

-- `task_output_t`
unfoldable pub raw_output : RawResult → Option ℕ
raw_output void_result = none
raw_output step_result = none
raw_output (task_result t) = some t
raw_output (value_result t) = some t

-- `task_output_for_t`
unfoldable pub task_output : TaskType → Option ℕ
unfolding raw_output
task_output task = elim task.output_type [ none ↦ raw_output task.raw_result | some t ↦ some t ]

raw_storage_mode : RawResult → OutputStorageMode
raw_storage_mode void_result = OutputStorageMode.none
raw_storage_mode step_result = OutputStorageMode.none
raw_storage_mode _ = OutputStorageMode.owned

-- `task_output_storage_mode_v`
unfoldable pub output_storage_mode : TaskType → OutputStorageMode
unfolding raw_storage_mode uses_forward_prev
output_storage_mode task = elim task.output_type [
  | none ↦ raw_storage_mode task.raw_result
  | some t ↦ elim (uses_forward_prev task) [
    | true ↦ OutputStorageMode.forwarded_prev
    | false ↦ OutputStorageMode.owned
  ]
]

raw_logical_policy : RawResult → SlotLogicalPolicy
raw_logical_policy void_result = SlotLogicalPolicy.none
raw_logical_policy step_result = SlotLogicalPolicy.none
raw_logical_policy (task_result t) = SlotLogicalPolicy.maybe_payload
raw_logical_policy (value_result t) = SlotLogicalPolicy.must_payload

-- `task_slot_logical_policy_v`
unfoldable pub slot_logical_policy : TaskType → SlotLogicalPolicy
unfolding raw_logical_policy uses_forward_prev
slot_logical_policy task = elim task.output_type [
  | none ↦ raw_logical_policy task.raw_result
  | some t ↦ elim (uses_forward_prev task) [
    | true ↦ SlotLogicalPolicy.none
    | false ↦ SlotLogicalPolicy.maybe_payload
  ]
]
