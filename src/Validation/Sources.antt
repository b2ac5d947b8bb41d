-- ===== src/Validation/Sources.antt =====
-- include/yorch/detail/executor/prev_access_plan_validation.hpp: whether a node may read its direct
-- parent's output at all.
use yorch.Base.{ℕ, Bool, true, false, not, Option, none, some, ◌==◌, all_below, if◌then◌else◌}
use yorch.Task.{TaskType, uses_forward_prev}
use yorch.Task.Access.{access_valid, uses_prev_access}
use yorch.Plan.Compiled.{CompiledPlan}
use yorch.Validation.Plans.{task_type, output_type}

-- `std::is_void_v`
unfoldable pub is_void : Option ℕ → Bool
is_void none = true
is_void (some t) = false

module _ (plan : CompiledPlan TaskType) where
  unfoldable pub is_root : ℕ → Bool
  is_root i = plan.parent_indices i == plan.no_parent

  -- `std::is_void_v<output_type<parent>>`
  unfoldable pub parent_is_void : ℕ → Bool
  parent_is_void i = is_void (output_type plan (plan.parent_indices i))

  unfoldable pub node_prev_source_valid : ℕ → Bool
  node_prev_source_valid i =
      if uses_forward_prev (task_type plan i)
      then true
      else (if is_root i
          then not (uses_prev_access (task_type plan i).form)
          else (if parent_is_void i then not (uses_prev_access (task_type plan i).form) else true))

  unfoldable pub node_prev_access_valid : ℕ → Bool
  node_prev_access_valid i = access_valid (task_type plan i).form

  unfoldable pub node_forward_prev_source_valid : ℕ → Bool
  node_forward_prev_source_valid i =
      if not (uses_forward_prev (task_type plan i))
      then true
      else (if is_root i then false else not (parent_is_void i))

  unfoldable pub plan_prev_source_valid : Bool
  plan_prev_source_valid = all_below plan.node_count node_prev_source_valid

  unfoldable pub plan_prev_access_valid : Bool
  plan_prev_access_valid = all_below plan.node_count node_prev_access_valid

  unfoldable pub plan_forward_prev_source_valid : Bool
  plan_forward_prev_source_valid = all_below plan.node_count node_forward_prev_source_valid
