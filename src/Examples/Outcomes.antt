-- ===== src/Examples/Outcomes.antt =====
-- Whole runs of the tree of five nodes, computed with both executors on both storages: what each task
-- is given of its direct parent's output.
use yorch.Task.{uses_direct_output, output_storage_mode, slot_logical_policy}
use yorch.Task.Policy.{is_owned}
use yorch.Plan.Layout.{scan_back}
use yorch.Validation.Plans.{task_type, output_type, fanout_policy_type}
use yorch.Validation.Fanout.{
  uses_copy_only_prev_access, uses_consume_only_prev_access, copy_only_prev_child_count,
  consume_only_prev_child_count, parent_requires_fanout_staging, node_uses_staged_copy_prev,
}
use yorch.Validation.Sources.{is_void, is_root, parent_is_void}
use yorch.Task.Access.{
  access_valid, uses_exclusive_prev_access, uses_borrow_prev, uses_borrow_prev_mut, uses_copy_prev,
  uses_consume_prev,
}
use yorch.Base.{
  ℕ, zero, suc, ◌+◌, ◌≡◌, refl, Bool, false, Option, none, some, List, [], ◌∷◌, count_below,
}
use yorch.Result.{
  StepStatus, success, RawValue, void_value, step_value, plain_value, ok, is_abort_branch,
}
use yorch.Storage.{SlotOps}
use yorch.Slots.{ErasedSlot}
use yorch.Slots
use yorch.Storage.Compact
use yorch.Storage.Compact.{compact_ops}
use yorch.Storage.Typed.{
  TypedSlots, typed_ops, emplace_typed, get_typed, destroy_typed, emplace_node, get_node,
  assign_node, has_value_node, out_emplace_node, destroy_object, destroy_node,
}
use yorch.Plan.Compiled.{compile}
use yorch.SlotLayout.{
  make_one_to_one_physical_slot_indices, make_serial_dfs_compact_slot_layout,
  make_physical_slot_policies,
}
use yorch.SlotLayout.Plans.{is_payload_node, compact_layout}
use yorch.Executor.Recursive.{run_node, run_children}
use yorch.Executor.HeapStack.{run_explicit_heap_stack, loop}
use yorch.Executor.Plans.{plan_invokers}
use yorch.Run.{PrevView, no_prev, const_slot, mutable_slot, TaskBodies, RunState, sink_emplace}
use yorch.Run.Nodes.{
  node_operations, canonical_output_owner_node, enter_node, destroy_payload, prepare_fanout_staging,
  destroy_fanout_staging,
}
use yorch.Run.Layouts.{
  logical_policy, compact_index, compact_policies, typed_index, fresh_typed, fresh_compact,
}
use yorch.Examples.Flow.{five_nodes}

-- The world is the list of the views that the tasks were given, the last one first.
abbrev raw_of : ℕ → RawValue ℕ
raw_of zero = plain_value 50
raw_of (suc (suc zero)) = step_value success
raw_of _ = void_value

-- A copy is told from its original by 100; the task that holds a mutable reference leaves 71 in it.
abbrev watching : TaskBodies ℕ (List (PrevView ℕ))
watching = record {
  invoke_raw = λ i prev world. record { raw = raw_of i; prev_after = 71; world = prev ∷ world };
  invoke_into = λ i prev world. record {
    actions = sink_emplace 70 ∷ [];
    step = success;
    prev_after = 0;
    world = prev ∷ world;
  };
  copy_construct = λ v. v + 100;
}

abbrev outcome :
    {Store : Type 0}
    → Option (StepStatus × RunState ℕ Store (List (PrevView ℕ)))
    → Option (StepStatus × List (PrevView ℕ) × Bool)
outcome none = none
outcome (some (status, s)) = some (status, s.world, s.faulted)

abbrev run_recursive :
    {Store : Type 0}
    → SlotOps ℕ Store
    → RunState ℕ Store (List (PrevView ℕ))
    → Option (StepStatus × List (PrevView ℕ) × Bool)
run_recursive ops s = outcome (
    run_node
      (plan_invokers (compile five_nodes) (node_operations (compile five_nodes) ops watching)) 10 0
      s)

abbrev run_heap_stack :
    {Store : Type 0}
    → SlotOps ℕ Store
    → RunState ℕ Store (List (PrevView ℕ))
    → Option (StepStatus × List (PrevView ℕ) × Bool)
run_heap_stack ops s = outcome (
    run_explicit_heap_stack
      (plan_invokers (compile five_nodes) (node_operations (compile five_nodes) ops watching)) 40 s)

abbrev five_compact_ops : SlotOps ℕ (ℕ → ErasedSlot ℕ)
five_compact_ops =
    compact_ops (is_payload_node (compile five_nodes)) (compact_index (compile five_nodes))
      (compact_policies (compile five_nodes))

abbrev five_typed_ops : SlotOps ℕ (TypedSlots ℕ)
five_typed_ops =
    typed_ops (is_payload_node (compile five_nodes)) (typed_index (compile five_nodes))
      (logical_policy (compile five_nodes))

-- The root's grandchild leaves 71 for its child, and the root's second child consumes the original.
abbrev five_views : List (PrevView ℕ)
five_views = mutable_slot 50 ∷ const_slot 71 ∷ mutable_slot 70 ∷ const_slot 150 ∷ no_prev ∷ []

five_typed_runs :
    (run_recursive five_typed_ops (fresh_typed []) ≡ some (success, five_views, false))
    × (run_heap_stack five_typed_ops (fresh_typed []) ≡ some (success, five_views, false))
unfolding count_below ok is_abort_branch uses_direct_output output_storage_mode slot_logical_policy
    is_owned scan_back compile task_type output_type fanout_policy_type uses_copy_only_prev_access
    uses_consume_only_prev_access copy_only_prev_child_count consume_only_prev_child_count
    parent_requires_fanout_staging node_uses_staged_copy_prev is_void is_root parent_is_void
    access_valid uses_exclusive_prev_access uses_borrow_prev uses_borrow_prev_mut uses_copy_prev
    uses_consume_prev is_payload_node canonical_output_owner_node enter_node destroy_payload
    prepare_fanout_staging destroy_fanout_staging node_operations typed_index fresh_typed
    plan_invokers emplace_typed get_typed destroy_typed emplace_node get_node assign_node
    has_value_node out_emplace_node destroy_node typed_ops loop run_explicit_heap_stack run_node
    run_children destroy_object make_one_to_one_physical_slot_indices
five_typed_runs = (refl, refl)

five_compact_runs :
    (run_recursive five_compact_ops (fresh_compact []) ≡ some (success, five_views, false))
    × (run_heap_stack five_compact_ops (fresh_compact []) ≡ some (success, five_views, false))
unfolding compact_ops compact_index compact_policies compact_layout
    make_serial_dfs_compact_slot_layout Slots.emplace_node Slots.destroy_node Compact.get_node
    Compact.assign_node Compact.has_value_node Compact.out_destroy_node make_physical_slot_policies
    Slots.emplace Slots.empty_slot Slots.get Slots.has_value Slots.destroy count_below ok
    is_abort_branch uses_direct_output output_storage_mode slot_logical_policy is_owned scan_back
    compile task_type output_type fanout_policy_type uses_copy_only_prev_access
    uses_consume_only_prev_access copy_only_prev_child_count consume_only_prev_child_count
    parent_requires_fanout_staging node_uses_staged_copy_prev is_void is_root parent_is_void
    access_valid uses_exclusive_prev_access uses_borrow_prev uses_borrow_prev_mut uses_copy_prev
    uses_consume_prev is_payload_node canonical_output_owner_node enter_node destroy_payload
    prepare_fanout_staging destroy_fanout_staging node_operations fresh_compact plan_invokers loop
    run_explicit_heap_stack run_node run_children
five_compact_runs = (refl, refl)
