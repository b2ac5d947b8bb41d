-- ===== src/Examples/Pipelines.antt =====
-- The plan of the tree that the pipeline of Examples.Builders makes, and a run of it.
use yorch.Base.{
  ℕ, zero, suc, ◌+◌, ◌<◌, ◌≡◌, refl, true, false, some, [], ◌∷◌, arith, all_below, any_below,
  count_below,
}
use yorch.Result.{success, ok, RawValue, step_value, plain_value}
use yorch.Task.{uses_direct_output, uses_forward_prev, task_output, raw_output}
use yorch.Plan.Layout.{
  make_level_array, make_parent_index_array, make_child_layout, scan_back, parent_rounds,
  count_rounds, offset_rounds, scatter_rounds,
}
use yorch.Validation.Plans.{node_type, task_type, output_type, fanout_policy_type}
use yorch.Validation.Fanout.{
  uses_copy_only_prev_access, uses_consume_only_prev_access, exclusive_prev_child_count,
  copy_only_prev_child_count, consume_only_prev_child_count, has_non_copy_or_consume_prev_child,
  policy_valid, parent_fanout_policy_valid, plan_fanout_policy_valid,
}
use yorch.Validation.Sources.{
  is_void, is_root, parent_is_void, node_prev_access_valid, plan_prev_access_valid,
}
use yorch.Validation.Errors.{
  validate_plan, node_uses_root_prev_access, same_type, node_uses_void_parent_prev_access,
  node_uses_root_forward_prev, node_uses_void_parent_forward_prev,
  node_uses_mismatched_forward_prev_parent_type,
}
use yorch.Task.Access.{
  access_valid, bindings_valid, specs_valid, receiver_valid, matches_arg, is_prev_access,
  is_locally_valid, access_summary, summarize_task_binding, summarize_specs,
  merge_prev_access_summary, summarize_prev_access_spec, uses_prev_access,
  uses_exclusive_prev_access, uses_borrow_prev, uses_borrow_prev_mut, uses_copy_prev,
  uses_consume_prev,
}
use yorch.Plan.Compiled.{compile}
use yorch.Slots.Entry.{carries_payload}
use yorch.Run.{TaskBodies, sink_emplace}
use yorch.Run.Contract.{KeepsTypes, fits_type, sink_after}
use yorch.Bind.Tasks.{with_args, bindings, bound_task, bound_output_task, bound_forward_prev_task}
use yorch.Bind.Adapters.{apply_adapter, apply_adapters}
use yorch.Builder.Plans.{
  plan_nodes, plannable_plan_nodes, plan_ok, compile_tree, ObjectsFit, IsPlanned,
  builder_calls-plan,
}
use yorch.Builder.Runs.{EndsCompact, builder_calls-EndsIdle}
use yorch.Examples.Builders.{pipeline, pipeline_tree, pipeline_builds}

pipeline_compiles : compile_tree pipeline_tree ≡ some (compile (plan_nodes pipeline_tree))
unfolding compile_tree plannable_plan_nodes plan_ok with_args bindings bound_task bound_output_task
    bound_forward_prev_task apply_adapter apply_adapters validate_plan compile any_below all_below
    count_below make_level_array make_parent_index_array make_child_layout scan_back parent_rounds
    count_rounds offset_rounds scatter_rounds node_type task_type output_type fanout_policy_type
    uses_copy_only_prev_access uses_consume_only_prev_access exclusive_prev_child_count
    copy_only_prev_child_count consume_only_prev_child_count has_non_copy_or_consume_prev_child
    policy_valid parent_fanout_policy_valid plan_fanout_policy_valid is_void is_root parent_is_void
    node_prev_access_valid plan_prev_access_valid node_uses_root_prev_access
    node_uses_void_parent_prev_access node_uses_root_forward_prev node_uses_void_parent_forward_prev
    node_uses_mismatched_forward_prev_parent_type uses_forward_prev access_valid bindings_valid
    specs_valid receiver_valid matches_arg is_prev_access is_locally_valid access_summary
    summarize_task_binding summarize_specs merge_prev_access_summary summarize_prev_access_spec
    uses_prev_access uses_exclusive_prev_access uses_borrow_prev uses_borrow_prev_mut uses_copy_prev
    uses_consume_prev same_type task_output raw_output
pipeline_compiles = refl

pipeline_fits : ObjectsFit pipeline
pipeline_fits = (λ e. cc, (λ e. cc, (λ e. cc, tt)))

builder_calls-plan_example : IsPlanned pipeline pipeline_tree (compile (plan_nodes pipeline_tree))
builder_calls-plan_example =
    builder_calls-plan pipeline pipeline_builds pipeline_compiles pipeline_fits

abbrev raw_of : ℕ → RawValue ℕ
raw_of zero = plain_value 50
raw_of _ = step_value success

abbrev bodies : TaskBodies ℕ ℕ
bodies = record {
  invoke_raw = λ i prev world. record { raw = raw_of i; prev_after = 51; world = world + 1 };
  invoke_into = λ i prev world. record {
    actions = sink_emplace 70 ∷ [];
    step = success;
    prev_after = 0;
    world = world + 1;
  };
  copy_construct = λ v. v;
}

bodies_raw :
    (i : ℕ)
    → i < 3
    → uses_direct_output (task_type (compile (plan_nodes pipeline_tree)) i) ≡ false
    → fits_type (task_type (compile (plan_nodes pipeline_tree)) i).raw_result (raw_of i) ≡ true
unfolding fits_type task_type node_type compile uses_direct_output carries_payload with_args
    bindings bound_task bound_output_task bound_forward_prev_task apply_adapter apply_adapters
bodies_raw zero h raw_task = refl
bodies_raw (suc zero) h raw_task = refl
bodies_raw (suc (suc zero)) h raw_task = cc
bodies_raw (suc (suc (suc i))) h raw_task = absurd (omega arith)

bodies-KeepsTypes : KeepsTypes (compile (plan_nodes pipeline_tree)) bodies
unfolding compile sink_after ok
bodies-KeepsTypes = record {
  raw_fits = λ i prev world h raw_task. bodies_raw i h raw_task;
  into_fits = λ i prev world h direct. (true, refl, λ e. refl);
}

builder_calls-EndsIdle_example :
    EndsCompact (plan_nodes pipeline_tree) (compile (plan_nodes pipeline_tree)) bodies 0
builder_calls-EndsIdle_example =
    builder_calls-EndsIdle pipeline bodies 0 pipeline_builds pipeline_compiles pipeline_fits
      (omega arith) bodies-KeepsTypes
