-- ===== src/Validation/Fanout.antt =====
-- include/yorch/detail/executor/fanout.hpp: which accesses the children of a node may combine, and
-- when a copy of the node's output is staged for them.
use yorch.Base.{
  ℕ, Bool, true, false, not, ◌==◌, ◌&&◌, leb, any_below, all_below, count_below, if◌then◌else◌,
}
use yorch.Tree.{FanoutPolicy, auto, shared_readonly, consume_with_copies}
use yorch.Task.{TaskType}
use yorch.Task.Access.{
  uses_prev_access, uses_exclusive_prev_access, uses_borrow_prev, uses_borrow_prev_mut,
  uses_copy_prev, uses_consume_prev,
}
use yorch.Plan.Compiled.{CompiledPlan, child_index}
use yorch.Validation.Plans.{task_type, fanout_policy_type}

-- `task_uses_copy_only_prev_access_v`, `task_uses_consume_only_prev_access_v`
unfoldable pub uses_copy_only_prev_access : TaskType → Bool
uses_copy_only_prev_access task =
    uses_copy_prev task.form
    && not (uses_borrow_prev task.form)
    && not (uses_borrow_prev_mut task.form)
    && not (uses_consume_prev task.form)

unfoldable pub uses_consume_only_prev_access : TaskType → Bool
uses_consume_only_prev_access task = uses_consume_prev task.form

module _ (plan : CompiledPlan TaskType) (parent : ℕ) where
  abbrev pub child_task : ℕ → TaskType
  child_task ord = task_type plan (child_index plan parent ord)

  -- `parent_exclusive_prev_child_count_impl` and its two companions
  unfoldable pub exclusive_prev_child_count : ℕ
  exclusive_prev_child_count =
      count_below (plan.child_counts parent) λ ord. uses_exclusive_prev_access (child_task ord).form

  unfoldable pub copy_only_prev_child_count : ℕ
  copy_only_prev_child_count =
      count_below (plan.child_counts parent) λ ord. uses_copy_only_prev_access (child_task ord)

  unfoldable pub consume_only_prev_child_count : ℕ
  consume_only_prev_child_count =
      count_below (plan.child_counts parent) λ ord. uses_consume_only_prev_access (child_task ord)

  -- `parent_has_non_copy_or_consume_prev_child_impl`
  unfoldable pub has_non_copy_or_consume_prev_child : Bool
  has_non_copy_or_consume_prev_child = any_below (plan.child_counts parent) λ ord.
      uses_prev_access (child_task ord).form
      && not (uses_copy_only_prev_access (child_task ord))
      && not (uses_consume_only_prev_access (child_task ord))

  -- The cases of `parent_fanout_policy_valid` on a node that has children.
  unfoldable pub policy_valid : FanoutPolicy → Bool
  policy_valid auto =
      if leb (plan.child_counts parent) 1 then true else exclusive_prev_child_count == 0
  policy_valid shared_readonly = exclusive_prev_child_count == 0
  policy_valid consume_with_copies =
      not has_non_copy_or_consume_prev_child && leb consume_only_prev_child_count 1

  unfoldable pub parent_fanout_policy_valid : Bool
  parent_fanout_policy_valid =
      if plan.child_counts parent == 0 then true else policy_valid (fanout_policy_type plan parent)

  abbrev pub is_consume_with_copies : FanoutPolicy → Bool
  is_consume_with_copies consume_with_copies = true
  is_consume_with_copies _ = false

  unfoldable pub parent_requires_fanout_staging : Bool
  parent_requires_fanout_staging =
      is_consume_with_copies (fanout_policy_type plan parent)
      && consume_only_prev_child_count == 1
      && not (copy_only_prev_child_count == 0)

-- `plan_fanout_policy_valid_v`
unfoldable pub plan_fanout_policy_valid : CompiledPlan TaskType → Bool
plan_fanout_policy_valid plan = all_below plan.node_count λ i. parent_fanout_policy_valid plan i

-- `node_uses_staged_copy_prev_v`
unfoldable pub node_uses_staged_copy_prev : CompiledPlan TaskType → ℕ → Bool
node_uses_staged_copy_prev plan child =
    if plan.parent_indices child == plan.no_parent
    then false
    else parent_requires_fanout_staging plan (plan.parent_indices child)
      && uses_copy_only_prev_access (task_type plan child)
