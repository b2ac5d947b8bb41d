-- ===== src/Examples/Runs.antt =====
-- The executors on the example tree, with node operations that keep a log.
use yorch.Base.{
  ℕ, ◌+◌, ◌≤◌, ◌≡◌, refl, false, List, [], ◌∷◌, length, arith, some, ◌==◌, if◌then◌else◌,
}
use yorch.Result.{StepStatus, success, abort_branch, ok}
use yorch.Plan.Compiled.{compile}
use yorch.Executor.Interface.{Invokers, IsLawful}
use yorch.Executor.Recursive.{run_node}
use yorch.Executor.HeapStack.{run_explicit_heap_stack}
use yorch.Executor.Termination.{IsForward, node_fuel}
use yorch.Executor.Agreement.{executors_agree}
use yorch.Executor.Plans.{NodeOperations, plan_invokers, compiled-executors_agree}
use yorch.Examples.Data.{four_nodes, four_levels}

-- What happened to a node.
data Event : Type 0 where
  entered destroyed staged unstaged : ℕ → Event

abbrev status_of : ℕ → StepStatus
status_of i = if i == 1 then abort_branch else success

-- The node 1 aborts its branch, the node 0 stages its output.
abbrev logging : NodeOperations (List Event)
logging = record {
  requires_fanout_staging = λ i. i == 0;
  enter_node =
      λ i s. (record { step = status_of i; payload_live = ok (status_of i) }, entered i ∷ s);
  destroy_payload = λ i s. destroyed i ∷ s;
  prepare_fanout = λ i s. if i == 0 then staged i ∷ s else s;
  destroy_fanout = λ i s. if i == 0 then unstaged i ∷ s else s;
}

abbrev logged : Invokers (List Event)
logged = plan_invokers (compile four_nodes) logging

logged-IsLawful : IsLawful logged
unfolding plan_invokers
logged-IsLawful = record {
  live_ok = λ i s e. e;
  prepare_unstaged = λ i s e. ground arith;
  destroy_unstaged = λ i s e. ground arith;
}

compiled-executors_agree_example :
    (q : StepStatus × List Event) × (run_node logged (node_fuel (length four_nodes)) 0 [] ≡ some q)
    × (fuel : ℕ) × ((larger : ℕ)
        → fuel ≤ larger
        → run_explicit_heap_stack logged larger [] ≡ some q)
compiled-executors_agree_example =
    compiled-executors_agree four_nodes logging [] four_levels (omega arith) (omega arith)
      logged-IsLawful

-- A chain of three nodes: each of the first two has the next one as its child.
abbrev chain : Invokers (List Event)
chain = record {
  child_count = λ i. if i == 2 then 0 else 1;
  child_index = λ i ord. i + 1;
  requires_fanout_staging = λ i. false;
  enter_node = logging.enter_node;
  destroy_payload = logging.destroy_payload;
  prepare_fanout = λ i s. s;
  destroy_fanout = λ i s. s;
}

chain-IsLawful : IsLawful chain
chain-IsLawful = record {
  live_ok = λ i s e. e;
  prepare_unstaged = λ i s e. refl;
  destroy_unstaged = λ i s e. refl;
}

chain-IsForward : IsForward chain 3
chain-IsForward = record {
  child_bounds = λ i ord h b. (omega arith, ground arith);
  count_bound = λ i h. ground arith;
}

executors_agree_example :
    (q : StepStatus × List Event) × (run_node chain (node_fuel 3) 0 [] ≡ some q)
    × (fuel : ℕ) × ((larger : ℕ) → fuel ≤ larger → run_explicit_heap_stack chain larger [] ≡ some q)
executors_agree_example = executors_agree chain 3 [] chain-IsLawful chain-IsForward (omega arith)
