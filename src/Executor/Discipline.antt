-- ===== src/Executor/Discipline.antt =====
-- A rule for what depth-first execution holds while it runs (serial_dfs.hpp): the nodes on the active
-- path, each with the flag that its payload is live.
use yorch.Base.{ℕ, zero, suc, ◌≤◌, ◌<◌, ◌≡◌, subst, Bool, true, false, List, ◌∷◌, some, arith}
use yorch.Result.{StepStatus, ok}
use yorch.Executor.Interface.{Invokers, IsLawful}
use yorch.Executor.Recursive.{run_node}
use yorch.Executor.Equivalence.Runs.{
  cleanup, core, stops, descends, exhausted, stopped, goes_on, run_node-NodeRun, core-ChildrenRun,
  run_node-zero, core-zero,
}

abbrev pub ActivePath : Type 0
ActivePath = List (ℕ × Bool)

-- What each operation does to a condition on the active path and the state: `CanEnter` is what a
-- node may rely on when it is entered.
pub record Discipline {S : Type 0} (inv : Invokers S) (Held : ActivePath → S → Type 0)
    (CanEnter : ActivePath → ℕ → Type 0) : Type 0 where
  pub enter_ok :
      (path : ActivePath) (i : ℕ) (s : S)
      → CanEnter path i
      → Held path s
      → ok (inv.enter_node i s).0.step ≡ true
      → Held
          ((i, (inv.enter_node i s).0.payload_live) ∷ path)
          (inv.prepare_fanout i (inv.enter_node i s).1)
  pub enter_failed :
      (path : ActivePath) (i : ℕ) (s : S)
      → CanEnter path i
      → Held path s
      → ok (inv.enter_node i s).0.step ≡ false
      → Held path (inv.enter_node i s).1
  pub leave :
      (path : ActivePath) (i : ℕ) (live : Bool) (s : S)
      → CanEnter path i
      → Held ((i, live) ∷ path) s
      → Held path (cleanup inv i live s)
  pub enter_child :
      (path : ActivePath) (i : ℕ) (live : Bool) (ord : ℕ)
      → CanEnter path i
      → ord < inv.child_count i
      → CanEnter ((i, live) ∷ path) (inv.child_index i ord)

module _ {S : Type 0} (inv : Invokers S) (lawful : IsLawful inv) {Held : ActivePath → S → Type 0}
    {CanEnter : ActivePath → ℕ → Type 0} (discipline : Discipline inv Held CanEnter) where
  open inv use {child_count, child_index, enter_node, prepare_fanout}

  mutual
    node-Held :
        (f i : ℕ) (path : ActivePath) (s : S) {r : StepStatus} {s' : S}
        → CanEnter path i
        → Held path s
        → run_node inv f i s ≡ some (r, s')
        → Held path s'
    node-Held zero i path s can held e = cc (run_node-zero inv i s)
    node-Held (suc f) i path s can held e = elim (run_node-NodeRun inv lawful f i s e) [
      | stops failed er es ↦
          subst (λ x. Held path x) es (discipline.enter_failed path i s can held failed)
      | descends t passed ran clean ↦
          subst (λ x. Held path x) clean
            (discipline.leave path i (enter_node i s).0.payload_live t can (
              core-Held f i 0 (enter_node i s).0.payload_live path
                (prepare_fanout i (enter_node i s).1) can (omega arith)
                (discipline.enter_ok path i s can held passed) ran))
    ]

    core-Held :
        (f i ord : ℕ) (live : Bool) (path : ActivePath) (s : S) {r : StepStatus} {s' : S}
        → CanEnter path i
        → ord ≤ child_count i
        → Held ((i, live) ∷ path) s
        → core inv f i ord s ≡ some (r, s')
        → Held ((i, live) ∷ path) s'
    core-Held zero i ord live path s can le held e = cc (core-zero inv i ord s)
    core-Held (suc f) i ord live path s can le held e = elim (core-ChildrenRun inv f i ord s e) [
      | exhausted last er es ↦ subst (λ x. Held ((i, live) ∷ path) x) es held
      | stopped inner ran off ↦
          node-Held f (child_index i ord) ((i, live) ∷ path) s
            (discipline.enter_child path i live ord can (ground arith)) held ran
      | goes_on c t inner ran on next ↦
          core-Held f i (suc ord) live path t can (ground arith)
            (node-Held f (child_index i ord) ((i, live) ∷ path) s
              (discipline.enter_child path i live ord can (ground arith)) held ran)
            next
    ]

  -- With lawful node operations, execution of a subtree, however it ends, gives back all that it
  -- took: what is held of the path to a node before its subtree runs is held again after it. This
  -- holds of every condition that satisfies `Discipline`, at a node that may be entered.
  pub run_node-Held :
      (f i : ℕ) (path : ActivePath) (s : S) {r : StepStatus} {s' : S}
      → CanEnter path i
      → Held path s
      → run_node inv f i s ≡ some (r, s')
      → Held path s'
  run_node-Held f i path s can held e = node-Held f i path s can held e
