-- ===== src/Executor/Statuses.antt =====
-- The status that depth-first execution ends with (serial_dfs.hpp).
use yorch.Base.{ℕ, zero, suc, ◌≡◌, refl, true, false, some, arith}
use yorch.Result.{StepStatus, success, is_abort_branch}
use yorch.Executor.Interface.{Invokers, IsLawful}
use yorch.Executor.Recursive.{run_node}
use yorch.Executor.Equivalence.Runs.{
  core, stops, descends, exhausted, stopped, goes_on, run_node-NodeRun, core-ChildrenRun,
  run_node-zero, core-zero,
}

module _ {S : Type 0} (inv : Invokers S) (lawful : IsLawful inv) where
  open inv use {enter_node, prepare_fanout}

  success-abort_branch : is_abort_branch success ≡ false
  unfolding is_abort_branch
  success-abort_branch = refl

  -- The children of a node never end with an aborted branch.
  core-abort_branch :
      (f i ord : ℕ) (s : S) {r : StepStatus} {s' : S}
      → core inv f i ord s ≡ some (r, s')
      → is_abort_branch r ≡ false
  core-abort_branch zero i ord s e = cc (core-zero inv i ord s)
  core-abort_branch (suc f) i ord s e = elim (core-ChildrenRun inv f i ord s e) [
    | exhausted last er es ↦ rw (← er) success-abort_branch
    | stopped inner ran off ↦ ground arith
    | goes_on c t inner ran on next ↦ core-abort_branch f i (suc ord) t next
  ]

  -- With lawful node operations, a branch that a task aborts is aborted at this task only: when the run of a node's subtree ends
  -- with `abort_branch`, the node's own task returned it.
  run_node-abort_branch :
      (f i : ℕ) (s : S) {r : StepStatus} {s' : S}
      → run_node inv f i s ≡ some (r, s')
      → is_abort_branch r ≡ true
      → ((enter_node i s).0.step ≡ r) × ((enter_node i s).1 ≡ s')
  run_node-abort_branch zero i s e aborts = cc (run_node-zero inv i s)
  run_node-abort_branch (suc f) i s e aborts = elim (run_node-NodeRun inv lawful f i s e) [
    | stops failed er es ↦ (er, es)
    | descends t passed ran clean ↦
        let off = core-abort_branch f i 0 (prepare_fanout i (enter_node i s).1) ran in
        absurd (ground arith)
  ]
