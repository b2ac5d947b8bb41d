-- ===== src/Executor/Equivalence.antt =====
-- The executor of serial_dfs_explicit_heap_stack.hpp against the recursive one of serial_dfs.hpp.
mod Rounds
pub mod Runs
use yorch.Base.{
  ℕ, zero, suc, ◌≡◌, refl, sym, ap, ◌∙◌, Bool, true, false, not, inl, inr, List, [], ◌∷◌, Option,
  none, some, ◌==◌, ◌&&◌, ◌||◌, if◌then◌else◌, ◌>>=◌, >>=-eq-some, Bool-cases, arith,
}
use yorch.Result.{StepStatus, success, ok, is_abort_branch}
use yorch.Executor.Interface.{Invokers, IsLawful}
use yorch.Executor.Recursive.{
  run_node, run_children, after_child, begin_children, release_fanout, release_slot,
}
use yorch.Executor.HeapStack.{
  DfsStackFrame, Config, Outcome, continue, returned, new_frame, descend, visit, enter_frame,
  destroy_frame, resume, loop_round, loop, run_explicit_heap_stack,
}
use Rounds.{
  Leads, Leads-trans, Leads-loop, frame_at, going, step-Leads, resume-Leads, resume_stop,
  finish-Leads, round_passed, failed-Leads, descend_last, descend_inner,
}
use Runs.{
  cleanup, core, NodeRun, stops, descends, ChildrenRun, exhausted, stopped, goes_on,
  run_node-NodeRun, core-ChildrenRun, run_node-zero, core-zero,
}

module _ {S : Type 0} (inv : Invokers S) where
  open inv use {
    child_count, child_index, requires_fanout_staging, enter_node, destroy_payload, prepare_fanout,
    destroy_fanout,
  }

  -- The loop follows the recursion: from the frame of a node to what its parent makes of its
  -- result, and from a parent's frame through the children that are left.
  mutual
    node-Leads :
        (lawful : IsLawful inv) (f i : ℕ) (below : List DfsStackFrame) (current : StepStatus)
        (s : S) {r : StepStatus} {s' : S}
        → run_node inv f i s ≡ some (r, s')
        → Leads inv (going inv (new_frame inv i ∷ below) current false s) (resume inv below r s')
    node-Leads lawful zero i below current s e = cc (run_node-zero inv i s)
    node-Leads lawful (suc f) i below current s e = elim (run_node-NodeRun inv lawful f i s e) [
      | stops failed er es ↦ rw (← er, ← es) (failed-Leads inv lawful i below current s failed)
      | descends t passed ran clean ↦
          step-Leads inv (round_passed inv lawful i below current s passed) (
            rw (← clean) (
              children-Leads lawful f i 0 (enter_node i s).0.payload_live below current
                (prepare_fanout i (enter_node i s).1) ran))
    ]

    children-Leads :
        (lawful : IsLawful inv) (f i ord : ℕ) (live : Bool) (below : List DfsStackFrame)
        (current : StepStatus) (s : S) {r : StepStatus} {s' : S}
        → core inv f i ord s ≡ some (r, s')
        → Leads inv
            (descend inv (frame_at inv i ord live) below current s)
            (resume inv below r (cleanup inv i live s'))
    children-Leads lawful zero i ord live below current s e = cc (core-zero inv i ord s)
    children-Leads lawful (suc f) i ord live below current s {r} {s'} e =
        elim (core-ChildrenRun inv f i ord s e) [
          | exhausted last er es ↦
              rw (descend_last inv i ord live below current s last, ← er, ← es)
                (finish-Leads inv i ord live below success s)
          | stopped inner ran off ↦ rw (descend_inner inv i ord live below current s inner) (
              Leads-trans
                (node-Leads lawful f (child_index i ord) (frame_at inv i ord live ∷ below) current s
                  ran)
                (rw (resume_stop inv (frame_at inv i ord live) below r s' off)
                  (finish-Leads inv i ord live below r s')))
          | goes_on c t inner ran on next ↦
              rw (descend_inner inv i ord live below current s inner) (
                Leads-trans
                  (node-Leads lawful f (child_index i ord) (frame_at inv i ord live ∷ below) current
                    s ran)
                  (resume-Leads inv i ord live below c t _ on
                    (children-Leads lawful f i (suc ord) live below c t next)))
        ]

  pub heap_stack-eq-recursive :
      (lawful : IsLawful inv) (f : ℕ) (s : S) {r : StepStatus} {s' : S}
      → run_node inv f 0 s ≡ some (r, s')
      → (fuel : ℕ) × (run_explicit_heap_stack inv fuel s ≡ some (r, s'))
  unfolding run_explicit_heap_stack
  heap_stack-eq-recursive lawful f s {r} {s'} e =
      Leads-loop r s' (unfold resume in node-Leads lawful f 0 [] success s e)
