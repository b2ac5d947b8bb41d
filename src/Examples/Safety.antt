-- ===== src/Examples/Safety.antt =====
-- Runs of the tree of five nodes on both storages.
use yorch.Base.{◌<◌, arith}
use yorch.Plan.Compiled.{compile}
use yorch.Plan.Compiled.Structure.{IsTree, compile-IsTree}
use yorch.SlotLayout.Plans.{is_payload_node}
use yorch.Slots.Cleanup.{IsPending}
use yorch.Storage.Compact.{compact_ops, compact_view}
use yorch.Storage.Typed.{typed_ops, typed_view}
use yorch.Storage.Typed.Placement.{IsTyped}
use yorch.Storage.Typed.Refinement.{typed_ops-IsStorage}
use yorch.Executor.Discipline.{Discipline}
use yorch.Executor.Plans.{plan_invokers}
use yorch.Run.Nodes.{node_operations}
use yorch.Run.Paths.{LeadsTo}
use yorch.Run.Steps.{IsRunning}
use yorch.Run.Safety.{EndsIdle, node_operations-Discipline, compiled_run-IsIdle}
use yorch.Run.Layouts.{
  logical_policy, compact_index, compact_policies, typed_index, fresh_compact, fresh_typed,
  typed_distinct, typed_apart, typed-IsIdle, compact_run-IsIdle, typed_run-IsIdle,
}
use yorch.Examples.Flow.{
  five_nodes, five_levels, five_valid, five_bodies, five_bodies-KeepsContract,
}

compact_run-IsIdle_example :
    EndsIdle five_nodes
      (compact_ops
        (is_payload_node (compile five_nodes))
        (compact_index (compile five_nodes))
        (compact_policies (compile five_nodes)))
      five_bodies
      (IsPending
        (is_payload_node (compile five_nodes))
        (compact_index (compile five_nodes))
        (compact_policies (compile five_nodes))
        (compile five_nodes).node_count
        0)
      (compact_view (is_payload_node (compile five_nodes)) (compact_index (compile five_nodes)))
      (fresh_compact 0)
compact_run-IsIdle_example =
    compact_run-IsIdle five_nodes five_bodies 0 five_levels (omega arith) (omega arith) five_valid
      five_bodies-KeepsContract

typed_run-IsIdle_example :
    EndsIdle five_nodes
      (typed_ops
        (is_payload_node (compile five_nodes))
        (typed_index (compile five_nodes))
        (logical_policy (compile five_nodes)))
      five_bodies
      (IsTyped
        (is_payload_node (compile five_nodes))
        (typed_index (compile five_nodes))
        (logical_policy (compile five_nodes))
        (compile five_nodes).node_count)
      (typed_view
        (is_payload_node (compile five_nodes))
        (typed_index (compile five_nodes))
        (compile five_nodes).node_count)
      (fresh_typed 0)
typed_run-IsIdle_example =
    typed_run-IsIdle five_nodes five_bodies 0 five_levels (omega arith) (omega arith) five_valid
      five_bodies-KeepsContract

five-IsTree : IsTree (compile five_nodes)
five-IsTree = compile-IsTree five_nodes five_levels (omega arith)

some_nodes : 0 < (compile five_nodes).node_count
unfolding compile
some_nodes = omega arith

compiled_run-IsIdle_example :
    EndsIdle five_nodes
      (typed_ops
        (is_payload_node (compile five_nodes))
        (typed_index (compile five_nodes))
        (logical_policy (compile five_nodes)))
      five_bodies
      (IsTyped
        (is_payload_node (compile five_nodes))
        (typed_index (compile five_nodes))
        (logical_policy (compile five_nodes))
        (compile five_nodes).node_count)
      (typed_view
        (is_payload_node (compile five_nodes))
        (typed_index (compile five_nodes))
        (compile five_nodes).node_count)
      (fresh_typed 3)
compiled_run-IsIdle_example =
    compiled_run-IsIdle five_nodes five_bodies (fresh_typed 3) five_levels (omega arith)
      (omega arith) five_valid
      (typed_ops-IsStorage (is_payload_node (compile five_nodes)) (typed_index (compile five_nodes))
        (logical_policy (compile five_nodes)) (compile five_nodes).node_count
        (typed_distinct (compile five_nodes) five-IsTree))
      (typed_apart (compile five_nodes) five-IsTree) five_bodies-KeepsContract
      (typed-IsIdle (compile five_nodes) five-IsTree 3)

node_operations-Discipline_example :
    Discipline
      (plan_invokers (compile five_nodes) (
        node_operations
          (compile five_nodes)
          (typed_ops
            (is_payload_node (compile five_nodes))
            (typed_index (compile five_nodes))
            (logical_policy (compile five_nodes)))
          five_bodies))
      (IsRunning
        (compile five_nodes)
        (IsTyped
          (is_payload_node (compile five_nodes))
          (typed_index (compile five_nodes))
          (logical_policy (compile five_nodes))
          (compile five_nodes).node_count)
        (typed_view
          (is_payload_node (compile five_nodes))
          (typed_index (compile five_nodes))
          (compile five_nodes).node_count))
      (LeadsTo (compile five_nodes))
node_operations-Discipline_example =
    node_operations-Discipline (compile five_nodes) five_bodies
      (typed_ops-IsStorage (is_payload_node (compile five_nodes)) (typed_index (compile five_nodes))
        (logical_policy (compile five_nodes)) (compile five_nodes).node_count
        (typed_distinct (compile five_nodes) five-IsTree))
      five-IsTree some_nodes five_valid (typed_apart (compile five_nodes) five-IsTree)
      five_bodies-KeepsContract
