-- ===== src/Result.antt =====
-- include/yorch/result.hpp: the status of a step, and a result that may carry a payload; and the raw
-- results of tasks as include/yorch/detail/executor/result.hpp takes them.
use yorch.Base.{Bool, true, false, not, Option, none, some, if◌then◌else◌}

pub data StepStatus : Type 0 where
  success failure retry abort_branch abort_execution : StepStatus

-- `step_result` is a struct with the status as its one field; `ok()` tests it.
unfoldable pub ok : StepStatus → Bool
ok success = true
ok _ = false

-- `status == step_status::retry` and `status == step_status::abort_branch`.
unfoldable pub is_retry : StepStatus → Bool
is_retry retry = true
is_retry _ = false

unfoldable pub is_abort_branch : StepStatus → Bool
is_abort_branch abort_branch = true
is_abort_branch _ = false

-- `task_result<T>`: the step, and the optional payload in `maybe_storage`.
pub record TaskResult (V : Type 0) : Type 0 where
  pub step : StepStatus
  pub value : Option V

module _ {V : Type 0} where
  unfoldable pub task_success : V → TaskResult V
  task_success v = record { step = success; value = some v }

  -- `from_step`; `none` where the assertion on the status fails.
  unfoldable pub from_step : StepStatus → Option (TaskResult V)
  from_step s = if not (ok s) then some (record { step = s; value = none }) else none

  abbrev pub task_failure : TaskResult V
  task_failure = record { step = failure; value = none }

  unfoldable pub has_value : TaskResult V → Bool
  has_value r = elim r.value [ none ↦ false | some v ↦ true ]

-- What `invoke_raw` returns, by the category of its type.
pub data RawValue (V : Type 0) : Type 0 where
  void_value : RawValue V
  step_value : StepStatus → RawValue V
  task_value : TaskResult V → RawValue V
  plain_value : V → RawValue V

module _ {V : Type 0} where
  -- `normalize_task_result`, `extract_step_result`
  unfoldable pub extract_step_result : RawValue V → StepStatus
  extract_step_result void_value = success
  extract_step_result (step_value s) = s
  extract_step_result (task_value r) = r.step
  extract_step_result (plain_value v) = success
