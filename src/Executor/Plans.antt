-- ===== src/Executor/Plans.antt =====
-- The executors on the child tables of a compiled plan (include/yorch/plan/compiled_plan.hpp).
use yorch.Base.{ℕ, ◌<◌, ◌≤◌, ◌≡◌, Bool, some, List, length, arith}
use yorch.Result.{StepStatus}
use yorch.Tree.{TaskTreeNode}
use yorch.Tree.Levels.{HasLevelSequence}
use yorch.Plan.Layout.{size_max}
use yorch.Plan.Compiled.{CompiledPlan, compile, child_index}
use yorch.Plan.Compiled.Structure.{IsTree, compile-IsTree}
use yorch.Executor.Interface.{NodeEnterResult, Invokers, IsLawful}
use yorch.Executor.Recursive.{run_node}
use yorch.Executor.HeapStack.{run_explicit_heap_stack}
use yorch.Executor.Termination.{IsForward, node_fuel}
use yorch.Executor.Agreement.{executors_agree}

-- The operations on nodes that are not tables of the plan.
pub record NodeOperations (S : Type 0) : Type 0 where
  pub requires_fanout_staging : ℕ → Bool
  pub enter_node : ℕ → S → NodeEnterResult × S
  pub destroy_payload : ℕ → S → S
  pub prepare_fanout : ℕ → S → S
  pub destroy_fanout : ℕ → S → S

module _ {ℓ} {Task : Type ℓ} {S : Type 0} (plan : CompiledPlan Task) (ops : NodeOperations S) where
  -- The tables and the dispatch tables that `run_explicit_heap_stack` hands to the loop.
  unfoldable pub plan_invokers : Invokers S
  plan_invokers = record {
    child_count = plan.child_counts;
    child_index = child_index plan;
    requires_fanout_staging = ops.requires_fanout_staging;
    enter_node = ops.enter_node;
    destroy_payload = ops.destroy_payload;
    prepare_fanout = ops.prepare_fanout;
    destroy_fanout = ops.destroy_fanout;
  }

  tree-IsForward : IsTree plan → IsForward plan_invokers plan.node_count
  unfolding plan_invokers
  tree-IsForward tree = record {
    child_bounds = λ i ord h b. let (up, below, _) = tree.child_sound i ord h b in (up, below);
    count_bound = λ i h. omega (arith, tree.child_count_le i h);
  }

module _ {ℓ} {Task : Type ℓ} {S : Type 0} (nodes : List (TaskTreeNode Task))
    (ops : NodeOperations S) where
  -- The plan that is compiled from at least one and at most 2^64 nodes with a valid sequence of
  -- levels: with lawful node operations, the recursive executor returns from its root within the
  -- fuel `n * (n + 2)`, and the heap-stack executor, given enough fuel, ends with the same status and
  -- the same state.
  pub compiled-executors_agree :
      (s : S)
      → HasLevelSequence nodes
      → 0 < length nodes
      → length nodes ≤ size_max
      → IsLawful (plan_invokers (compile nodes) ops)
      → (q : StepStatus × S) × (run_node
            (plan_invokers (compile nodes) ops)
            (node_fuel (length nodes))
            0
            s
          ≡ some q)
        × (fuel : ℕ) × ((larger : ℕ)
            → fuel ≤ larger
            → run_explicit_heap_stack (plan_invokers (compile nodes) ops) larger s ≡ some q)
  unfolding compile
  compiled-executors_agree s valid pos small lawful =
      executors_agree (plan_invokers (compile nodes) ops) (length nodes) s lawful
        (tree-IsForward (compile nodes) ops (compile-IsTree nodes valid small)) pos
