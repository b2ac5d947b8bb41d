-- ===== src/Run/Lawful.antt =====
-- The operations of a run (include/yorch/detail/executor/node_entry.hpp, fanout.hpp) are what both
-- executors rely on.
use yorch.Base.{ℕ, ◌≡◌, refl, false, some, arith}
use yorch.Result.{StepStatus, ok}
use yorch.Task.{TaskType}
use yorch.Plan.Compiled.{CompiledPlan}
use yorch.Storage.{SlotOps}
use yorch.Executor.Interface.{NodeEnterResult, IsLawful}
use yorch.Executor.Plans.{plan_invokers}
use yorch.Run.{PrevView, TaskBodies, RunState}
use yorch.Run.Nodes.{
  run_raw, run_into, try_enter, enter_node, settle_raw, settle_into, prepare_fanout_staging,
  destroy_fanout_staging, node_operations,
}

module _ {V Store World : Type 0} (plan : CompiledPlan TaskType) (ops : SlotOps V Store)
    (bodies : TaskBodies V World) where
  settle_raw-live :
      (i : ℕ) (raw : _) (s : Store) (r : NodeEnterResult) (after : Store)
      → settle_raw ops i raw s ≡ some (r, after)
      → ok r.step ≡ false
      → r.payload_live ≡ false
  unfolding settle_raw
  settle_raw-live i raw s r after e failed = ground arith

  settle_into-live :
      (i : ℕ) (step : StepStatus) (s : Store) (r : NodeEnterResult) (after : Store)
      → settle_into ops i step s ≡ some (r, after)
      → ok r.step ≡ false
      → r.payload_live ≡ false
  unfolding settle_into
  settle_into-live i step s r after e failed = ground arith

  run_raw-live :
      (i : ℕ) (prev : PrevView V) (world w : World) (s after : Store) (r : NodeEnterResult)
      → run_raw plan ops bodies i prev world s ≡ some (r, after, w)
      → ok r.step ≡ false
      → r.payload_live ≡ false
  unfolding run_raw
  run_raw-live i prev world w s after r e failed = ground (arith, settle_raw-live i)

  run_into-live :
      (i : ℕ) (prev : PrevView V) (world w : World) (s after : Store) (r : NodeEnterResult)
      → run_into plan ops bodies i prev world s ≡ some (r, after, w)
      → ok r.step ≡ false
      → r.payload_live ≡ false
  unfolding run_into
  run_into-live i prev world w s after r e failed = ground (arith, settle_into-live i)

  enter_node-live :
      (i : ℕ) (s : RunState V Store World)
      → ok (enter_node plan ops bodies i s).0.step ≡ false
      → (enter_node plan ops bodies i s).0.payload_live ≡ false
  unfolding enter_node try_enter
  enter_node-live i s failed = ground (arith, run_raw-live i, run_into-live i)

  -- Whatever the tasks do, the entry of a node without success reports no payload that is alive, and staging
  -- does nothing at a node that requires none, as the executors ask of the operations.
  pub node_operations-IsLawful : IsLawful (plan_invokers plan (node_operations plan ops bodies))
  unfolding plan_invokers node_operations prepare_fanout_staging destroy_fanout_staging
  node_operations-IsLawful = record {
    live_ok = enter_node-live;
    prepare_unstaged = λ i s free. rw free refl;
    destroy_unstaged = λ i s free. rw free refl;
  }
