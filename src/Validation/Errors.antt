-- ===== src/Validation/Errors.antt =====
-- include/yorch/detail/executor/plan_validation.hpp: the first thing that is wrong with a plan.
use yorch.Base.{
  ℕ, Bool, true, false, not, Option, none, some, ◌==◌, ◌&&◌, ◌||◌, any_below, if◌then◌else◌,
}
use yorch.Task.{TaskType, uses_forward_prev}
use yorch.Task.Access.{uses_prev_access}
use yorch.Plan.Compiled.{CompiledPlan}
use yorch.Validation.Plans.{task_type, output_type}
use yorch.Validation.Fanout.{plan_fanout_policy_valid}
use yorch.Validation.Sources.{is_root, parent_is_void, plan_prev_access_valid}

pub data PlanValidationError : Type 0 where
  ok prev_access_root_node prev_access_void_parent forward_prev_root_node forward_prev_void_parent :
      PlanValidationError
  forward_prev_parent_type_mismatch prev_access_mode_invalid fanout_policy_invalid :
      PlanValidationError

-- `std::is_same_v` on output types
unfoldable pub same_type : Option ℕ → Option ℕ → Bool
same_type none none = true
same_type (some t) (some u) = t == u
same_type _ _ = false

module _ (plan : CompiledPlan TaskType) where
  unfoldable pub node_uses_root_prev_access : ℕ → Bool
  node_uses_root_prev_access i =
      not (uses_forward_prev (task_type plan i))
      && uses_prev_access (task_type plan i).form
      && is_root plan i

  unfoldable pub node_uses_void_parent_prev_access : ℕ → Bool
  node_uses_void_parent_prev_access i =
      if is_root plan i
      then false
      else not (uses_forward_prev (task_type plan i))
        && uses_prev_access (task_type plan i).form
        && parent_is_void plan i

  unfoldable pub node_uses_root_forward_prev : ℕ → Bool
  node_uses_root_forward_prev i = uses_forward_prev (task_type plan i) && is_root plan i

  unfoldable pub node_uses_void_parent_forward_prev : ℕ → Bool
  node_uses_void_parent_forward_prev i =
      if not (uses_forward_prev (task_type plan i)) || is_root plan i
      then false
      else parent_is_void plan i

  unfoldable pub node_uses_mismatched_forward_prev_parent_type : ℕ → Bool
  node_uses_mismatched_forward_prev_parent_type i =
      if not (uses_forward_prev (task_type plan i)) || is_root plan i
      then false
      else (if parent_is_void plan i
          then false
          else not (same_type (output_type plan i) (output_type plan (plan.parent_indices i))))

  -- `validate_plan_impl`
  unfoldable pub validate_plan : PlanValidationError
  validate_plan =
      if any_below plan.node_count node_uses_root_prev_access
      then prev_access_root_node
      else (if any_below plan.node_count node_uses_void_parent_prev_access
          then prev_access_void_parent
          else (if any_below plan.node_count node_uses_root_forward_prev
              then forward_prev_root_node
              else (if any_below plan.node_count node_uses_void_parent_forward_prev
                  then forward_prev_void_parent
                  else (if any_below plan.node_count node_uses_mismatched_forward_prev_parent_type
                      then forward_prev_parent_type_mismatch
                      else (if not (plan_prev_access_valid plan)
                          then prev_access_mode_invalid
                          else (if not (plan_fanout_policy_valid plan)
                              then fanout_policy_invalid
                              else ok))))))
