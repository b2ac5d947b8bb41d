-- ===== src/Executor/Agreement.antt =====
-- The two executors of `run_plan` (include/yorch/executor/plan.hpp) as one specification.
use yorch.Base.{ℕ, zero, suc, ◌≤◌, ◌<◌, ◌≡◌, some, arith}
use yorch.Result.{StepStatus}
use yorch.Executor.Interface.{Invokers, IsLawful}
use yorch.Executor.Recursive.{run_node}
use yorch.Executor.HeapStack.{
  Outcome, start, continue, returned, loop, loop_round, run_explicit_heap_stack,
}
use yorch.Executor.Equivalence.{heap_stack-eq-recursive}
use yorch.Executor.Termination.{IsForward, node_fuel, run_node-Returns}

module _ {S : Type 0} (inv : Invokers S) where
  -- More fuel than a run needs changes nothing.
  loop_more :
      (fuel larger : ℕ) (o : Outcome S) {q : StepStatus × S}
      → fuel ≤ larger
      → loop inv fuel o ≡ some q
      → loop inv larger o ≡ some q
  unfolding loop
  loop_more fuel larger (returned r s) h e = e
  loop_more zero larger (continue c) h e = cc
  loop_more (suc fuel) zero (continue c) h e = absurd (omega arith)
  loop_more (suc fuel) (suc larger) (continue c) h e =
      loop_more fuel larger (loop_round inv c) (omega arith) e

  run_explicit_heap_stack_more :
      (fuel larger : ℕ) (s : S) {q : StepStatus × S}
      → fuel ≤ larger
      → run_explicit_heap_stack inv fuel s ≡ some q
      → run_explicit_heap_stack inv larger s ≡ some q
  unfolding run_explicit_heap_stack
  run_explicit_heap_stack_more fuel larger s h e = loop_more fuel larger (start inv s) h e

  -- With lawful node operations and children behind their parents in a plan of `n > 0` nodes, the
  -- recursive executor returns within the fuel `n * (n + 2)`, and the heap-stack executor, given
  -- enough fuel, ends with the same status and the same state.
  pub executors_agree :
      (n : ℕ) (s : S)
      → IsLawful inv
      → IsForward inv n
      → 0 < n
      → (q : StepStatus × S) × (run_node inv (node_fuel n) 0 s ≡ some q)
        × (fuel : ℕ) × ((larger : ℕ)
            → fuel ≤ larger
            → run_explicit_heap_stack inv larger s ≡ some q)
  executors_agree n s lawful forward pos =
      let (q, e) = run_node-Returns inv n forward s pos in
      let (fuel, ran) = heap_stack-eq-recursive inv lawful (node_fuel n) s e in
      (q, e, fuel, λ larger h. run_explicit_heap_stack_more fuel larger s h ran)
