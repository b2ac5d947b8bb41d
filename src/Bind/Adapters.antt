-- ===== src/Bind/Adapters.antt =====
-- include/yorch/bind/adapters.hpp: the adapters that a chain puts around a task, and the types of the adapted
-- tasks (include/yorch/detail/task_adapters/traits.hpp).
use yorch.Base.{List, [], ◌∷◌}
use yorch.Task.{TaskType, RawResult, void_result, step_result}
use yorch.Task.Access.{catch_failure, catch_failure_with_policy, retry}

-- `catch_as_failure_adapter_desc`, `catch_as_failure_with_policy_adapter_desc<Policy>` with the result type
-- of the policy, and `retry_adapter_desc<Policy>`.
pub data AdapterDesc : Type 0 where
  catch_as_failure_desc : AdapterDesc
  catch_with_policy_desc : RawResult → AdapterDesc
  retry_desc : AdapterDesc

-- `std::conditional_t<std::is_void_v<inner_type>, policy_type, inner_type>`
abbrev pub caught_type : RawResult → RawResult → RawResult
caught_type void_result policy_type = policy_type
caught_type inner policy_type = inner

-- `apply_adapter`; the output type and the protocol are those of the wrapped task.
unfoldable pub apply_adapter : AdapterDesc → TaskType → TaskType
apply_adapter catch_as_failure_desc task = record task {
  form = catch_failure task.form;
  raw_result = caught_type task.raw_result step_result;
}
apply_adapter (catch_with_policy_desc policy_type) task = record task {
  form = catch_failure_with_policy task.form;
  raw_result = caught_type task.raw_result policy_type;
}
apply_adapter retry_desc task = record task { form = retry task.form }

-- `apply_adapters`: the first descriptor of the chain is the innermost adapter.
unfoldable pub apply_adapters : List AdapterDesc → TaskType → TaskType
unfolding apply_adapter
apply_adapters [] task = task
apply_adapters (desc ∷ chain) task = apply_adapters chain (apply_adapter desc task)
