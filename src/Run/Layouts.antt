-- ===== src/Run/Layouts.antt =====
-- Runs on the two storages that a plan can be run with: `plan_exec_slots` under
-- `slot_layout_serial_dfs_compact_policy` and under `slot_layout_one_to_one_policy`
-- (include/yorch/slots/plan_exec_slots.hpp).
pub mod Storages
use yorch.Base.{
  ℕ, ◌<◌, ◌≤◌, ◌≡◌, ◌≢◌, refl, true, false, List, length, arith, ltb, inl, inr, Bool-cases,
}
use yorch.Tree.{TaskTreeNode}
use yorch.Tree.Levels.{HasLevelSequence}
use yorch.Task.{TaskType, slot_logical_policy}
use yorch.Task.Policy.{SlotLogicalPolicy, SlotPhysicalPolicy}
use yorch.Plan.Layout.{size_max}
use yorch.Plan.Compiled.{CompiledPlan, compile}
use yorch.Plan.Compiled.Structure.{IsTree, compile-IsTree}
use yorch.SlotLayout.{
  no_physical_slot, make_physical_slot_policies, make_one_to_one_physical_slot_indices,
}
use yorch.SlotLayout.Plans.{is_payload_node, compact_layout, compact_layout-IsCompact, earlier}
use yorch.SlotLayout.Compact.{Ancestor-lt}
use yorch.SlotLayout.OneToOne.{count_le_nodes, make_one_to_one_physical_slot_indices-IsOneToOne}
use yorch.SlotLayout.Storage.{maybe_owner}
use yorch.Validation.Plans.{task_type}
use yorch.Validation.Errors.{validate_plan}
use yorch.Validation.Errors as Errors
use yorch.Slots.{ErasedSlot, empty_slot}
use yorch.Slots as Slots
use yorch.Slots.View.{empty_slot-IsTracked}
use yorch.Slots.Cleanup.{IsPending}
use yorch.Storage.{IsStorage}
use yorch.Storage.Maybe.{empty}
use yorch.Storage.Compact.{compact_ops, compact_view}
use yorch.Storage.Compact.Refinement.{compact_ops-IsStorage}
use yorch.Storage.Typed.{is_maybe, TypedSlots, typed_ops, typed_view}
use yorch.Storage.Typed.Placement.{IsTyped, AreDistinct}
use yorch.Storage.Typed.Refinement.{typed_ops-IsStorage}
use yorch.Run.{TaskBodies, RunState}
use yorch.Run.Contract.{KeepsContract}
use yorch.Run.Enter.{may_be_empty, AreApart}
use yorch.Run.Safety.{IsIdle, EndsIdle, compiled_run-IsIdle}
use yorch.Run.Layouts.Storages.{compact-IsStorage, compact_apart, compact-IsIdle}
unfoldable pub use yorch.Run.Layouts.Storages.{
  compact_index, compact_policies, typed_index, fresh_compact, fresh_typed,
}
pub use yorch.Run.Layouts.Storages.{logical_policy, typed_distinct, typed_apart, typed-IsIdle}

module _ {V World : Type 0} (nodes : List (TaskTreeNode TaskType)) (bodies : TaskBodies V World)
    (world : World) where
  -- A run on the compact storage of the plan compiled from at least one and at most 2^64 - 1 nodes
  -- with a valid sequence of levels, which passes `validate_plan`, with tasks that keep their contract (output
  -- protocols that fit, results of the declared types, a value in a `task_result` that succeeds, in a
  -- sink one payload at most and one after a success):
  -- from default-constructed slots and stages, whatever else the tasks return, the recursive executor
  -- returns with the fuel `n * (n + 2)`, the heap-stack executor, given enough fuel, ends with the same
  -- status and state, no assertion fails, no object's lifetime is started or ended twice, also where
  -- nodes share a slot, and in the end every payload and every staged copy is destroyed.
  pub compact_run-IsIdle :
      HasLevelSequence nodes
      → 0 < length nodes
      → length nodes ≤ no_physical_slot
      → validate_plan (compile nodes) ≡ Errors.ok
      → KeepsContract (compile nodes) bodies
      → EndsIdle nodes
          (compact_ops
            (is_payload_node (compile nodes))
            (compact_index (compile nodes))
            (compact_policies (compile nodes)))
          bodies
          (IsPending
            (is_payload_node (compile nodes))
            (compact_index (compile nodes))
            (compact_policies (compile nodes))
            (compile nodes).node_count
            0)
          (compact_view (is_payload_node (compile nodes)) (compact_index (compile nodes)))
          (fresh_compact world)
  compact_run-IsIdle levels pos small valid contract =
      let plan = compile nodes in
      let tree = compile-IsTree nodes levels (omega arith) in
      compiled_run-IsIdle nodes bodies (fresh_compact world) levels pos (omega arith) valid
        (compact-IsStorage plan tree (node_count_le small))
        (compact_apart plan tree (node_count_le small)) contract
        (compact-IsIdle plan tree (node_count_le small) world)
    where
      node_count_le :
          length nodes ≤ no_physical_slot → (compile nodes).node_count ≤ no_physical_slot
      node_count_le h = unfold compile in h

  -- A run on the one-to-one storage of the plan compiled from at least one and at most 2^64 nodes with
  -- a valid sequence of levels, which passes `validate_plan`, with tasks that keep their contract (output
  -- protocols that fit, results of the declared types, a value in a `task_result` that succeeds, in a
  -- sink one payload at most and one after a success): from
  -- default-constructed slots and stages, whatever else the tasks return, the recursive executor returns
  -- with the fuel `n * (n + 2)`, the heap-stack executor, given enough fuel, ends with the same status
  -- and state, no assertion fails, no object's lifetime is started or ended twice, and in the end
  -- every payload and every staged copy is destroyed.
  pub typed_run-IsIdle :
      HasLevelSequence nodes
      → 0 < length nodes
      → length nodes ≤ size_max
      → validate_plan (compile nodes) ≡ Errors.ok
      → KeepsContract (compile nodes) bodies
      → EndsIdle nodes
          (typed_ops
            (is_payload_node (compile nodes))
            (typed_index (compile nodes))
            (logical_policy (compile nodes)))
          bodies
          (IsTyped
            (is_payload_node (compile nodes))
            (typed_index (compile nodes))
            (logical_policy (compile nodes))
            (compile nodes).node_count)
          (typed_view
            (is_payload_node (compile nodes))
            (typed_index (compile nodes))
            (compile nodes).node_count)
          (fresh_typed world)
  typed_run-IsIdle levels pos small valid contract =
      let plan = compile nodes in
      let tree = compile-IsTree nodes levels small in
      compiled_run-IsIdle nodes bodies (fresh_typed world) levels pos small valid
        (typed_ops-IsStorage (is_payload_node plan) (typed_index plan) (logical_policy plan)
          plan.node_count (typed_distinct plan tree))
        (typed_apart plan tree) contract (typed-IsIdle plan tree world)
