-- ===== src/Examples/Flow.antt =====
-- A tree of five nodes with each of the output protocols. The root returns a value of type 5. Its first
-- child copies the value and constructs one of type 7 in its sink; the grandchild changes that value in
-- place and passes it on to its own child, which borrows it; the root's second child consumes the
-- root's value.
use yorch.Base.{
  ℕ, zero, suc, ◌+◌, ◌<◌, ◌≡◌, refl, true, false, some, List, [], ◌∷◌, arith, all_below, any_below,
  count_below,
}
use yorch.Result.{success, ok, RawValue, void_value, step_value, plain_value}
use yorch.Tree.{
  TaskTreeNode, auto, consume_with_copies, last_level, append_level_valid, append_node, build,
}
use yorch.Tree.Levels.{HasLevelSequence, build-HasLevelSequence}
use yorch.Task.{
  TaskType, RawResult, void_result, step_result, value_result, OutputProtocol, direct_output,
  forward_prev_output, uses_direct_output, uses_forward_prev, task_output, raw_output,
}
use yorch.Task.Access.{
  custom, borrow_prev, borrow_prev_mut, copy_prev, consume_prev, by_value, const_lvalue, lvalue,
  TaskForm, access_valid, bindings_valid, specs_valid, receiver_valid, matches_arg, is_prev_access,
  is_locally_valid, access_summary, summarize_task_binding, summarize_specs,
  merge_prev_access_summary, summarize_prev_access_spec, uses_prev_access,
  uses_exclusive_prev_access, uses_borrow_prev, uses_borrow_prev_mut, uses_copy_prev,
  uses_consume_prev,
}
use yorch.Plan.Layout.{
  make_level_array, make_parent_index_array, make_child_layout, scan_back, parent_rounds,
  count_rounds, offset_rounds, scatter_rounds,
}
use yorch.Plan.Compiled.{compile}
use yorch.Validation.Plans.{node_type, task_type, output_type, fanout_policy_type}
use yorch.Validation.Fanout.{
  uses_copy_only_prev_access, uses_consume_only_prev_access, exclusive_prev_child_count,
  copy_only_prev_child_count, consume_only_prev_child_count, has_non_copy_or_consume_prev_child,
  policy_valid, parent_fanout_policy_valid, plan_fanout_policy_valid,
}
use yorch.Validation.Sources.{
  is_void, is_root, parent_is_void, node_prev_access_valid, plan_prev_access_valid,
}
use yorch.Validation.Errors.{
  validate_plan, node_uses_root_prev_access, same_type, node_uses_void_parent_prev_access,
  node_uses_root_forward_prev, node_uses_void_parent_forward_prev,
  node_uses_mismatched_forward_prev_parent_type,
}
use yorch.Validation.Errors as Errors
use yorch.Slots.Entry.{carries_payload}
use yorch.Run.{TaskBodies, sink_emplace}
use yorch.Run.Contract.{KeepsContract, protocol_fits, fits_type, sink_after}
use yorch.Examples.Data.{tree_node, one_argument}

abbrev output_node : ℕ → TaskForm → RawResult → ℕ → OutputProtocol → TaskTreeNode TaskType
output_node level form raw output protocol = record {
  level = level;
  fanout_policy = auto;
  task = record {
    form = form;
    raw_result = raw;
    output_type = some output;
    output_protocol = protocol;
  };
}

abbrev pub five_nodes : List (TaskTreeNode TaskType)
five_nodes =
    tree_node 0 consume_with_copies custom (value_result 5)
    ∷ output_node 1 (one_argument (copy_prev 5) (by_value 5)) step_result 7 direct_output
    ∷ output_node 2 (one_argument (borrow_prev_mut 7) (lvalue 7)) step_result 7 forward_prev_output
    ∷ tree_node 3 auto (one_argument (borrow_prev 7) (const_lvalue 7)) void_result
    ∷ tree_node 1 auto (one_argument (consume_prev 5) (by_value 5)) void_result
    ∷ []

five_nodes_built : build [] five_nodes ≡ some five_nodes
unfolding build append_node append_level_valid last_level
five_nodes_built = refl

pub five_levels : HasLevelSequence five_nodes
five_levels = (build-HasLevelSequence five_nodes five_nodes_built).0

pub five_valid : validate_plan (compile five_nodes) ≡ Errors.ok
unfolding validate_plan compile any_below all_below count_below make_level_array
    make_parent_index_array make_child_layout scan_back parent_rounds count_rounds offset_rounds
    scatter_rounds node_type task_type output_type fanout_policy_type uses_copy_only_prev_access
    uses_consume_only_prev_access exclusive_prev_child_count copy_only_prev_child_count
    consume_only_prev_child_count has_non_copy_or_consume_prev_child policy_valid
    parent_fanout_policy_valid plan_fanout_policy_valid is_void is_root parent_is_void
    node_prev_access_valid plan_prev_access_valid node_uses_root_prev_access
    node_uses_void_parent_prev_access node_uses_root_forward_prev node_uses_void_parent_forward_prev
    node_uses_mismatched_forward_prev_parent_type uses_forward_prev access_valid bindings_valid
    specs_valid receiver_valid matches_arg is_prev_access is_locally_valid access_summary
    summarize_task_binding summarize_specs merge_prev_access_summary summarize_prev_access_spec
    uses_prev_access uses_exclusive_prev_access uses_borrow_prev uses_borrow_prev_mut uses_copy_prev
    uses_consume_prev same_type task_output raw_output
five_valid = refl

-- The world counts the tasks that have run.
abbrev raw_of : ℕ → RawValue ℕ
raw_of zero = plain_value 50
raw_of (suc (suc zero)) = step_value success
raw_of _ = void_value

abbrev pub five_bodies : TaskBodies ℕ ℕ
five_bodies = record {
  invoke_raw = λ i prev world. record { raw = raw_of i; prev_after = 71; world = world + 1 };
  invoke_into = λ i prev world. record {
    actions = sink_emplace 70 ∷ [];
    step = success;
    prev_after = 0;
    world = world + 1;
  };
  copy_construct = λ v. v;
}

five_protocols : (i : ℕ) → i < 5 → protocol_fits (task_type (compile five_nodes) i) ≡ true
unfolding protocol_fits task_type node_type compile is_void raw_output
five_protocols zero h = refl
five_protocols (suc zero) h = refl
five_protocols (suc (suc zero)) h = refl
five_protocols (suc (suc (suc zero))) h = refl
five_protocols (suc (suc (suc (suc zero)))) h = refl
five_protocols (suc (suc (suc (suc (suc i))))) h = absurd (omega arith)

five_raw_fits :
    (i : ℕ)
    → i < 5
    → uses_direct_output (task_type (compile five_nodes) i) ≡ false
    → fits_type (task_type (compile five_nodes) i).raw_result (raw_of i) ≡ true
unfolding fits_type task_type node_type compile uses_direct_output carries_payload
five_raw_fits zero h raw_task = refl
five_raw_fits (suc zero) h raw_task = cc
five_raw_fits (suc (suc zero)) h raw_task = refl
five_raw_fits (suc (suc (suc zero))) h raw_task = refl
five_raw_fits (suc (suc (suc (suc zero)))) h raw_task = refl
five_raw_fits (suc (suc (suc (suc (suc i))))) h raw_task = absurd (omega arith)

pub five_bodies-KeepsContract : KeepsContract (compile five_nodes) five_bodies
unfolding compile sink_after ok
five_bodies-KeepsContract = record {
  protocol = five_protocols;
  raw_fits = λ i prev world h raw_task. five_raw_fits i h raw_task;
  into_fits = λ i prev world h direct. (true, refl, λ e. refl);
}
