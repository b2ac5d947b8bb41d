-- ===== src/Validation/Isolation.antt =====
-- What the fanout policies promise (fanout.hpp): a child with exclusive access to its parent's output
-- shares it with no other child.
use yorch.Base.{ℕ, ◌<◌, ◌≡◌, ◌≢◌, sym, subst, ap, ◌∙◌, true, false, arith, ◌==◌, all_below-true}
use yorch.Task.{TaskType}
use yorch.Task.Access.{uses_prev_access, uses_exclusive_prev_access}
use yorch.Plan.Compiled.{CompiledPlan, child_index}
use yorch.Plan.Compiled.Structure.{IsTree}
use yorch.Validation.Plans.{task_type}
use yorch.Validation.Fanout.{
  uses_copy_only_prev_access, uses_consume_only_prev_access, parent_fanout_policy_valid,
  parent_requires_fanout_staging, plan_fanout_policy_valid, node_uses_staged_copy_prev,
}
use yorch.Validation.Siblings.{consume-copy_only, exclusive-staged}

module _ (plan : CompiledPlan TaskType) (tree : IsTree plan)
    (valid : plan_fanout_policy_valid plan ≡ true) where
  staged_child :
      (j : ℕ)
      → 0 < j
      → j < plan.node_count
      → parent_requires_fanout_staging plan (plan.parent_indices j) ≡ true
      → uses_copy_only_prev_access (task_type plan j) ≡ true
      → node_uses_staged_copy_prev plan j ≡ true
  unfolding node_uses_staged_copy_prev
  staged_child j pos h stages copies =
      let before = (tree.parent j pos h).before in
      let inner : (plan.parent_indices j == plan.no_parent) ≡ false =
        ground (arith, tree.sentinel) in
      rw (inner, stages, copies)

  unstaged_child :
      (i : ℕ)
      → uses_consume_only_prev_access (task_type plan i) ≡ true
      → node_uses_staged_copy_prev plan i ≡ false
  unfolding node_uses_staged_copy_prev
  unstaged_child i consumes =
      let off = consume-copy_only (task_type plan i) consumes in ground arith

  -- In a plan whose tables fit one tree and whose fanout policies are valid, when a node has exclusive access to its parent's output,
  -- any other child of the same parent that reads it reads the staged copy, and the first node reads
  -- the output itself.
  pub exclusive-isolated :
      (i j : ℕ)
      → 0 < i
      → i < plan.node_count
      → 0 < j
      → j < plan.node_count
      → i ≢ j
      → plan.parent_indices i ≡ plan.parent_indices j
      → uses_exclusive_prev_access (task_type plan i).form ≡ true
      → uses_prev_access (task_type plan j).form ≡ true
      → (node_uses_staged_copy_prev plan j ≡ true) × (node_uses_staged_copy_prev plan i ≡ false)
  unfolding plan_fanout_policy_valid
  exclusive-isolated i j i_pos i_in j_pos j_in apart siblings exclusive uses =
      let (a, a_child, a_is) = tree.child_complete i i_pos i_in in
      let (b, b_child, b_is) = tree.child_complete j j_pos j_in in
      let p = plan.parent_indices i in
      let p_in = (tree.parent i i_pos i_in).before in
      let b_child' : b < plan.child_counts p = rw siblings b_child in
      let b_is' : child_index plan p b ≡ j = rw siblings b_is in
      let (stages, consumes, copies) =
        exclusive-staged plan p a b a_child b_child'
          (λ same. apart (sym a_is ∙ ap (λ x. child_index plan p x) same ∙ b_is'))
          (subst (λ x. uses_exclusive_prev_access (task_type plan x).form ≡ true) (sym a_is)
            exclusive)
          (subst (λ x. uses_prev_access (task_type plan x).form ≡ true) (sym b_is') uses)
          (all_below-true (λ q. parent_fanout_policy_valid plan q) plan.node_count p valid
            (omega arith)) in
      (
        staged_child j j_pos j_in
            (subst (λ x. parent_requires_fanout_staging plan x ≡ true) siblings stages)
            (subst (λ x. uses_copy_only_prev_access (task_type plan x) ≡ true) b_is' copies),
        unstaged_child i
            (subst (λ x. uses_consume_only_prev_access (task_type plan x) ≡ true) a_is consumes),
      )
