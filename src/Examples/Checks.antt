-- ===== src/Examples/Checks.antt =====
-- The checks on the example plan, and on a plan that they reject.
use yorch.Base.{
  none, ℕ, ◌<◌, ◌≡◌, ◌↔◌, refl, true, false, List, [], ◌∷◌, arith, all_below, any_below,
  count_below,
}
use yorch.Tree.{TaskTreeNode, auto}
use yorch.Task.{TaskType, void_result, value_result, uses_forward_prev}
use yorch.Task.Access.{
  TaskForm, bound, retry, value, custom, consume_prev, by_value, access_valid, bindings_valid,
  specs_valid, receiver_valid, matches_arg, is_prev_access, is_locally_valid, access_summary,
  summarize_task_binding, summarize_specs, merge_prev_access_summary, summarize_prev_access_spec,
  uses_prev_access, uses_exclusive_prev_access, uses_borrow_prev, uses_borrow_prev_mut,
  uses_copy_prev, uses_consume_prev,
}
use yorch.Plan.Layout.{
  make_level_array, make_parent_index_array, make_child_layout, scan_back, parent_rounds,
  count_rounds, offset_rounds, scatter_rounds,
}
use yorch.Plan.Compiled.{compile}
use yorch.Plan.Compiled.Structure.{compile-IsTree}
use yorch.Validation.Plans.{node_type, task_type, output_type, fanout_policy_type}
use yorch.Validation.Fanout.{
  uses_copy_only_prev_access, uses_consume_only_prev_access, exclusive_prev_child_count,
  copy_only_prev_child_count, consume_only_prev_child_count, has_non_copy_or_consume_prev_child,
  policy_valid, parent_fanout_policy_valid, plan_fanout_policy_valid, node_uses_staged_copy_prev,
}
use yorch.Validation.Sources.{
  is_void, is_root, parent_is_void, node_prev_access_valid, plan_prev_source_valid,
  plan_prev_access_valid, plan_forward_prev_source_valid,
}
use yorch.Validation.Errors.{
  ok, fanout_policy_invalid, validate_plan, node_uses_root_prev_access,
  node_uses_void_parent_prev_access, node_uses_root_forward_prev,
  node_uses_void_parent_forward_prev, node_uses_mismatched_forward_prev_parent_type,
}
use yorch.Validation.Sound.{has_defect, check_order, validate_plan-earlier, validate_plan-sources}
use yorch.Validation.Accesses.{IsFittingTask, access_valid_iff}
use yorch.Validation.Isolation.{exclusive-isolated}
use yorch.Examples.Data.{four_nodes, four_levels, tree_node, one_argument}

-- A root under the default fanout policy: one child consumes its output, and the other does not read it.
abbrev beside_silent : List (TaskTreeNode TaskType)
beside_silent =
    tree_node 0 auto custom (value_result 5)
    ∷ tree_node 1 auto (one_argument (consume_prev 5) (by_value 5)) void_result
    ∷ tree_node 1 auto custom void_result
    ∷ []

four_valid : validate_plan (compile four_nodes) ≡ ok
unfolding validate_plan compile any_below all_below count_below make_level_array
    make_parent_index_array make_child_layout scan_back parent_rounds count_rounds offset_rounds
    scatter_rounds node_type task_type output_type fanout_policy_type uses_copy_only_prev_access
    uses_consume_only_prev_access exclusive_prev_child_count copy_only_prev_child_count
    consume_only_prev_child_count has_non_copy_or_consume_prev_child policy_valid
    parent_fanout_policy_valid plan_fanout_policy_valid is_void is_root parent_is_void
    node_prev_access_valid plan_prev_access_valid node_uses_root_prev_access
    node_uses_void_parent_prev_access node_uses_root_forward_prev node_uses_void_parent_forward_prev
    node_uses_mismatched_forward_prev_parent_type uses_forward_prev access_valid bindings_valid
    specs_valid receiver_valid matches_arg is_prev_access is_locally_valid access_summary
    summarize_task_binding summarize_specs merge_prev_access_summary summarize_prev_access_spec
    uses_prev_access uses_exclusive_prev_access uses_borrow_prev uses_borrow_prev_mut uses_copy_prev
    uses_consume_prev
four_valid = refl

-- The default policy rejects it.
beside_silent_rejected : validate_plan (compile beside_silent) ≡ fanout_policy_invalid
unfolding validate_plan compile any_below all_below count_below make_level_array
    make_parent_index_array make_child_layout scan_back parent_rounds count_rounds offset_rounds
    scatter_rounds node_type task_type output_type fanout_policy_type uses_copy_only_prev_access
    uses_consume_only_prev_access exclusive_prev_child_count copy_only_prev_child_count
    consume_only_prev_child_count has_non_copy_or_consume_prev_child policy_valid
    parent_fanout_policy_valid plan_fanout_policy_valid is_void is_root parent_is_void
    node_prev_access_valid plan_prev_access_valid node_uses_root_prev_access
    node_uses_void_parent_prev_access node_uses_root_forward_prev node_uses_void_parent_forward_prev
    node_uses_mismatched_forward_prev_parent_type uses_forward_prev access_valid bindings_valid
    specs_valid receiver_valid matches_arg is_prev_access is_locally_valid access_summary
    summarize_task_binding summarize_specs merge_prev_access_summary summarize_prev_access_spec
    uses_prev_access uses_exclusive_prev_access uses_borrow_prev uses_borrow_prev_mut uses_copy_prev
    uses_consume_prev
beside_silent_rejected = refl

validate_plan-sources_example :
    (plan_prev_source_valid (compile four_nodes) ≡ true)
    × (plan_prev_access_valid (compile four_nodes) ≡ true)
    × (plan_forward_prev_source_valid (compile four_nodes) ≡ true)
    × (plan_fanout_policy_valid (compile four_nodes) ≡ true)
validate_plan-sources_example = validate_plan-sources (compile four_nodes) four_valid

before_ok : check_order fanout_policy_invalid < check_order (validate_plan (compile four_nodes))
unfolding check_order
before_ok = rw four_valid (omega arith)

node_in : 0 < (compile four_nodes).node_count
unfolding compile
node_in = omega arith

validate_plan-earlier_example : has_defect (compile four_nodes) fanout_policy_invalid 0 ≡ false
validate_plan-earlier_example =
    validate_plan-earlier (compile four_nodes) fanout_policy_invalid 0 before_ok node_in

in_four : (i : ℕ) → i < 4 → i < (compile four_nodes).node_count
unfolding compile
in_four i h = h

siblings : (compile four_nodes).parent_indices 3 ≡ (compile four_nodes).parent_indices 1
unfolding compile make_level_array make_parent_index_array scan_back parent_rounds
siblings = refl

third_consumes : uses_exclusive_prev_access (task_type (compile four_nodes) 3).form ≡ true
unfolding compile node_type task_type access_summary summarize_task_binding summarize_specs
    merge_prev_access_summary summarize_prev_access_spec uses_exclusive_prev_access
third_consumes = refl

first_reads : uses_prev_access (task_type (compile four_nodes) 1).form ≡ true
unfolding compile node_type task_type access_summary summarize_task_binding summarize_specs
    merge_prev_access_summary summarize_prev_access_spec uses_prev_access
first_reads = refl

fanout_valid : plan_fanout_policy_valid (compile four_nodes) ≡ true
fanout_valid = (validate_plan-sources (compile four_nodes) four_valid).3

exclusive-isolated_example :
    (node_uses_staged_copy_prev (compile four_nodes) 1 ≡ true)
    × (node_uses_staged_copy_prev (compile four_nodes) 3 ≡ false)
exclusive-isolated_example =
    exclusive-isolated (compile four_nodes) (compile-IsTree four_nodes four_levels (omega arith))
      fanout_valid 3 1 (omega arith) (in_four 3 (omega arith)) (omega arith)
      (in_four 1 (omega arith)) (λ e. omega (arith, e)) siblings third_consumes first_reads

-- A retried task that consumes its parent's output, beside a stored value.
abbrev retried_consumer : TaskForm
retried_consumer = retry (
    bound (record {
      receiver = none;
      specs = (consume_prev 5, by_value 5) ∷ (value 3, by_value 3) ∷ [];
    }))

access_valid_iff_example : (access_valid retried_consumer ≡ true) ↔ IsFittingTask retried_consumer
access_valid_iff_example = access_valid_iff retried_consumer

retried_consumer_rejected : access_valid retried_consumer ≡ false
unfolding access_valid bindings_valid specs_valid receiver_valid matches_arg is_prev_access
    is_locally_valid access_summary summarize_task_binding summarize_specs merge_prev_access_summary
    summarize_prev_access_spec
retried_consumer_rejected = refl
