-- ===== src/Validation/Accepted.antt =====
-- The plans that `validate_plan` accepts (include/yorch/detail/executor/plan_validation.hpp).
use yorch.Base.{ℕ, ◌≡◌, ◌⊎◌, true, false, some}
use yorch.Task.{TaskType, uses_forward_prev}
use yorch.Task.Access.{uses_prev_access}
use yorch.Plan.Compiled.{CompiledPlan}
use yorch.Validation.Plans.{task_type, output_type, fanout_policy_type}
use yorch.Validation.Fanout.{parent_fanout_policy_valid}
use yorch.Validation.Sources.{is_root, node_prev_access_valid}
use yorch.Validation.Errors.{
  node_uses_root_prev_access, node_uses_void_parent_prev_access, node_uses_root_forward_prev,
  node_uses_void_parent_forward_prev, node_uses_mismatched_forward_prev_parent_type,
}
use yorch.Validation.Accesses.{IsFittingTask}
use yorch.Validation.Policies.{AllowsChildren}

module _ (plan : CompiledPlan TaskType) where
  -- A node that reads its parent's output, or forwards it, has a parent, and the parent has an output; a
  -- node that forwards it has an output of the same type; the accesses of its task fit together; and its fanout
  -- policy allows those of its children.
  pub record IsAccepted (i : ℕ) : Type 0 where
    pub source :
        (uses_prev_access (task_type plan i).form ≡ true)
          ⊎ (uses_forward_prev (task_type plan i) ≡ true)
        → (is_root plan i ≡ false) × ((u : ℕ) × (output_type plan (plan.parent_indices i) ≡ some u))
    pub forwarded :
        uses_forward_prev (task_type plan i) ≡ true
        → output_type plan i ≡ output_type plan (plan.parent_indices i)
    pub accesses : IsFittingTask (task_type plan i).form
    pub children : AllowsChildren plan i (fanout_policy_type plan i)

  -- No check of the node finds anything.
  record IsFaultless (i : ℕ) : Type 0 where
    root_access : node_uses_root_prev_access plan i ≡ false
    void_access : node_uses_void_parent_prev_access plan i ≡ false
    root_forward : node_uses_root_forward_prev plan i ≡ false
    void_forward : node_uses_void_parent_forward_prev plan i ≡ false
    mismatch : node_uses_mismatched_forward_prev_parent_type plan i ≡ false
    modes : node_prev_access_valid plan i ≡ true
    fanout : parent_fanout_policy_valid plan i ≡ true
