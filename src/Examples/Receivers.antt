-- ===== src/Examples/Receivers.antt =====
-- A const member function that is called on a mutable borrow of the parent's output: the plan passes the
-- checks, and the receiver does not resolve.
use yorch.Base.{
  ◌≡◌, refl, true, false, not, none, some, List, [], ◌∷◌, ◌==◌, arith, all_below, any_below,
  count_below,
}
use yorch.Tree.{TaskTreeNode, auto}
use yorch.Task.{TaskType, void_result, value_result, uses_forward_prev, task_output, raw_output}
use yorch.Plan.Layout.{
  make_level_array, make_parent_index_array, make_child_layout, scan_back, parent_rounds,
  count_rounds, offset_rounds, scatter_rounds,
}
use yorch.Validation.Plans.{node_type, task_type, output_type, fanout_policy_type}
use yorch.Validation.Fanout.{
  uses_copy_only_prev_access, uses_consume_only_prev_access, exclusive_prev_child_count,
  copy_only_prev_child_count, consume_only_prev_child_count, has_non_copy_or_consume_prev_child,
  policy_valid, parent_fanout_policy_valid, plan_fanout_policy_valid,
}
use yorch.Validation.Sources.{
  is_void, is_root, parent_is_void, node_prev_access_valid, plan_prev_access_valid,
}
use yorch.Validation.Errors.{
  validate_plan, node_uses_root_prev_access, same_type, node_uses_void_parent_prev_access,
  node_uses_root_forward_prev, node_uses_void_parent_forward_prev,
  node_uses_mismatched_forward_prev_parent_type,
}
use yorch.Task.Access.{
  matches_member_receiver, MemberFunction, TaskBinding, bound, custom, borrow_prev_mut,
  access_valid, bindings_valid, specs_valid, receiver_valid, matches_arg, is_prev_access,
  is_locally_valid, access_summary, summarize_task_binding, summarize_specs,
  merge_prev_access_summary, summarize_prev_access_spec, uses_prev_access,
  uses_exclusive_prev_access, uses_borrow_prev, uses_borrow_prev_mut, uses_copy_prev,
  uses_consume_prev,
}
use yorch.Plan.Compiled.{compile}
use yorch.Validation.Errors as Errors
use yorch.Resolve.{TypeRelations}
use yorch.Resolve.Bindings.{binding_of}
use yorch.Resolve.Rules.{requested}
use yorch.Resolve.Plans.{node_prev_view_type}
use yorch.Resolve.Receivers.{
  is_receiver_makeable, has_receiver, resolve_member_receiver, borrows_mutably_for_const,
  validated-has_receiver,
}
use yorch.Examples.Data.{tree_node}

abbrev const_member : MemberFunction
const_member = record { class_type = 5; is_const = true }

abbrev on_mutable_borrow : TaskBinding
on_mutable_borrow = record { receiver = some (borrow_prev_mut 5, const_member); specs = [] }

abbrev two_nodes : List (TaskTreeNode TaskType)
two_nodes =
    tree_node 0 auto custom (value_result 5)
    ∷ tree_node 1 auto (bound on_mutable_borrow) void_result
    ∷ []

two_valid : validate_plan (compile two_nodes) ≡ Errors.ok
unfolding validate_plan compile any_below all_below count_below make_level_array
    make_parent_index_array make_child_layout scan_back parent_rounds count_rounds offset_rounds
    scatter_rounds node_type task_type output_type fanout_policy_type uses_copy_only_prev_access
    uses_consume_only_prev_access exclusive_prev_child_count copy_only_prev_child_count
    consume_only_prev_child_count has_non_copy_or_consume_prev_child policy_valid
    parent_fanout_policy_valid plan_fanout_policy_valid is_void is_root parent_is_void
    node_prev_access_valid plan_prev_access_valid node_uses_root_prev_access
    node_uses_void_parent_prev_access node_uses_root_forward_prev node_uses_void_parent_forward_prev
    node_uses_mismatched_forward_prev_parent_type uses_forward_prev access_valid bindings_valid
    specs_valid receiver_valid matches_arg is_prev_access is_locally_valid access_summary
    summarize_task_binding summarize_specs merge_prev_access_summary summarize_prev_access_spec
    uses_prev_access uses_exclusive_prev_access uses_borrow_prev uses_borrow_prev_mut uses_copy_prev
    uses_consume_prev same_type task_output raw_output matches_member_receiver
two_valid = refl

below_root : is_root (compile two_nodes) 1 ≡ false
unfolding is_root compile make_parent_index_array make_level_array parent_rounds scan_back
below_root = refl

root_output : output_type (compile two_nodes) ((compile two_nodes).parent_indices 1) ≡ some 5
unfolding output_type task_output task_type node_type compile make_parent_index_array
    make_level_array parent_rounds scan_back
root_output = refl

-- Conversions between a type and itself only.
abbrev same_types : TypeRelations
same_types = record {
  from_const = λ t u. t == u;
  from_mutable = λ t u. t == u;
  from_rvalue = λ t u. t == u;
  const_ref_to_const = λ t u. t == u;
  const_ref_to_mutable = λ t u. t == u;
  mutable_ref = λ t u. t == u;
}

validated-has_receiver_example :
    has_receiver (
      resolve_member_receiver same_types none
        (node_prev_view_type (compile two_nodes) 1)
        (borrow_prev_mut 5)
        const_member)
    ≡ not (borrows_mutably_for_const (borrow_prev_mut 5) const_member)
unfolding compile binding_of task_type node_type is_prev_access requested is_receiver_makeable
validated-has_receiver_example =
    validated-has_receiver (compile two_nodes) 1 below_root same_types none on_mutable_borrow
      (borrow_prev_mut 5) const_member two_valid (omega arith) refl refl refl root_output refl

borrows_for_const : borrows_mutably_for_const (borrow_prev_mut 5) const_member ≡ true
unfolding borrows_mutably_for_const
borrows_for_const = refl
