-- ===== src/Run/Safety.antt =====
-- A whole run (include/yorch/executor/plan.hpp): the executors over the slots, the stages and the tasks.
use yorch.Base.{
  ℕ, ◌<◌, ◌≤◌, List, length, ◌≡◌, ◌∙◌, refl, sym, subst, ap, Bool, true, false, none, some, [], ◌∷◌,
  ◌&&◌, if◌then◌else◌, arith,
}
use yorch.Result.{StepStatus, ok}
use yorch.Task.{TaskType}
use yorch.Tree.{TaskTreeNode}
use yorch.Tree.Levels.{HasLevelSequence}
use yorch.Plan.Layout.{size_max}
use yorch.Plan.Compiled.{CompiledPlan, compile}
use yorch.Plan.Compiled.Structure.{IsTree, compile-IsTree}
use yorch.SlotLayout.Plans.{is_payload_node}
use yorch.Validation.Errors.{validate_plan}
use yorch.Validation.Errors as Errors
use yorch.Storage.{SlotOps, Payloads, IsStorage}
use yorch.Storage.Maybe.{IsSound}
use yorch.Executor.Discipline.{ActivePath, Discipline, run_node-Held}
use yorch.Executor.Recursive.{run_node}
use yorch.Executor.HeapStack.{run_explicit_heap_stack}
use yorch.Executor.Termination.{node_fuel}
use yorch.Executor.Interface.{Invokers}
use yorch.Executor.Plans.{plan_invokers, compiled-executors_agree}
use yorch.Run.{TaskBodies, RunState}
use yorch.Run.Nodes.{enter_node, prepare_fanout_staging, node_operations}
use yorch.Run.Paths.{on_path, LeadsTo, LeadsTo-child}
use yorch.Run.Contract.{KeepsContract}
use yorch.Run.Tracking.{Tracks, is_full}
use yorch.Run.Prev.{Staged}
use yorch.Run.Lawful.{node_operations-IsLawful}
use yorch.Run.Steps.{flags_fit, IsRunning, prepare-Running, leave-Running}
use yorch.Run.Enter.{may_be_empty, AreApart, enter_node-IsEntered}

-- Between runs: nothing is alive or staged, and the program has not faulted.
pub record IsIdle {V Store World : Type 0} (IsValid : Store → Type 0) (view : Store → Payloads V)
    (s : RunState V Store World) : Type 0 where
  pub sane : s.faulted ≡ false
  pub slots_valid : IsValid s.slots
  pub no_payload : (j : ℕ) → view s.slots j ≡ none
  pub stages_sound : (j : ℕ) → IsSound (s.staging j)
  pub no_copy : (j : ℕ) → (s.staging j).object ≡ none

module _ {V Store World : Type 0} (plan : CompiledPlan TaskType) {IsValid : Store → Type 0}
    {view : Store → Payloads V} (s : RunState V Store World) where
  idle-IsRunning : IsIdle IsValid view s → IsRunning plan IsValid view [] s
  unfolding flags_fit on_path
  idle-IsRunning idle = record {
    sane = idle.sane;
    tracked = record { valid = idle.slots_valid; alive = λ j. ap is_full (idle.no_payload j) };
    staged = record { sound = idle.stages_sound; held = λ j. ap is_full (idle.no_copy j) };
    flags = refl;
  }

  running-IsIdle : IsRunning plan IsValid view [] s → IsIdle IsValid view s
  unfolding on_path
  running-IsIdle running = record {
    sane = running.sane;
    slots_valid = running.tracked.valid;
    no_payload = λ j. let off = running.tracked.alive j in ground arith;
    stages_sound = running.staged.sound;
    no_copy = λ j. let off = running.staged.held j in ground arith;
  }

module _ {V Store World : Type 0} {ops : SlotOps V Store} {Apart : ℕ → ℕ → Type 0}
    {IsValid : Store → Type 0} {view : Store → Payloads V} (plan : CompiledPlan TaskType)
    (bodies : TaskBodies V World)
    (storage : IsStorage ops plan.node_count
      (is_payload_node plan)
      (may_be_empty plan)
      Apart
      IsValid
      view)
    (tree : IsTree plan) (pos : 0 < plan.node_count) (valid : validate_plan plan ≡ Errors.ok)
    (apart : AreApart plan Apart) (contract : KeepsContract plan bodies) where
  abbrev Running : ActivePath → RunState V Store World → Type 0
  Running = IsRunning plan IsValid view

  -- A node's own flag, before those of its path.
  flag_fits :
      (path : ActivePath) (i : ℕ) (passed live : Bool)
      → passed ≡ true
      → live ≡ (passed && is_payload_node plan i)
      → flags_fit (is_payload_node plan) path ≡ true
      → flags_fit (is_payload_node plan) ((i, live) ∷ path) ≡ true
  unfolding flags_fit
  flag_fits path i passed live on e fits = ground arith

  enter_ok-Running :
      (path : ActivePath) (i : ℕ) (s : RunState V Store World)
      → LeadsTo plan path i
      → Running path s
      → ok (enter_node plan ops bodies i s).0.step ≡ true
      → Running
          ((i, (enter_node plan ops bodies i s).0.payload_live) ∷ path)
          (prepare_fanout_staging plan ops bodies i (enter_node plan ops bodies i s).1)
  enter_ok-Running path i s leads running passed =
      let e =
        enter_node-IsEntered plan bodies storage tree pos valid apart contract path i leads s
          running.tracked running.staged in
      let (r, s') = enter_node plan ops bodies i s in
      prepare-Running plan bodies storage tree pos valid path i r.payload_live s' leads
        (e.sane ∙ running.sane)
        (subst
          (λ b.
            Tracks (is_payload_node plan) IsValid view
              (if b then (i, r.payload_live) ∷ path else path) s'.slots)
          passed e.tracked)
        (subst (Staged plan path) (sym e.staging) running.staged)
        (flag_fits path i (ok r.step) r.payload_live passed e.flag running.flags)

  enter_failed-Running :
      (path : ActivePath) (i : ℕ) (s : RunState V Store World)
      → LeadsTo plan path i
      → Running path s
      → ok (enter_node plan ops bodies i s).0.step ≡ false
      → Running path (enter_node plan ops bodies i s).1
  enter_failed-Running path i s leads running failed =
      let e =
        enter_node-IsEntered plan bodies storage tree pos valid apart contract path i leads s
          running.tracked running.staged in
      let (r, s') = enter_node plan ops bodies i s in
      record {
        sane = e.sane ∙ running.sane;
        tracked =
            subst
              (λ b.
                Tracks (is_payload_node plan) IsValid view
                  (if b then (i, r.payload_live) ∷ path else path) s'.slots)
              failed e.tracked;
        staged = subst (Staged plan path) (sym e.staging) running.staged;
        flags = running.flags;
      }

  -- A run of a validated plan, on a storage that implements the map from nodes to payloads, with tasks
  -- that keep their contract (output protocols that fit, results of the declared types, a value in a
  -- `task_result` that succeeds, in a sink one payload at most and one after a success): entering a
  -- node with the staging of its copy, failing to enter it, and leaving it with the cleanup do not fault,
  -- and after each of these as a whole, alive are exactly the payloads, and staged exactly the copies, of
  -- the nodes on the path from the root.
  pub node_operations-Discipline :
      Discipline
        (plan_invokers plan (node_operations plan ops bodies))
        (IsRunning plan IsValid view)
        (LeadsTo plan)
  unfolding plan_invokers node_operations
  node_operations-Discipline = record {
    enter_ok = enter_ok-Running;
    enter_failed = enter_failed-Running;
    leave = λ path i live s leads running.
        leave-Running plan bodies storage tree pos valid path i live s leads running;
    enter_child = λ path i live ord leads h. LeadsTo-child plan tree pos path i ord live leads h;
  }

module _ (nodes : List (TaskTreeNode TaskType)) where
  root_path : LeadsTo (compile nodes) [] 0
  unfolding LeadsTo
  root_path = refl

  node_count-length : 0 < length nodes → 0 < (compile nodes).node_count
  unfolding compile
  node_count-length pos = pos

-- What the executors are given to run a plan.
module _ {V Store World : Type 0} (nodes : List (TaskTreeNode TaskType)) (ops : SlotOps V Store)
    (bodies : TaskBodies V World) where
  abbrev pub plan_operations : Invokers (RunState V Store World)
  plan_operations = plan_invokers (compile nodes) (node_operations (compile nodes) ops bodies)

-- From the state `s`, with the fuel `n * (n + 2)`, the recursive executor returns; the heap-stack
-- executor, given enough fuel, ends with the same status and state; and that state is idle.
abbrev pub EndsIdle :
    {V Store World : Type 0} (nodes : List (TaskTreeNode TaskType)) (ops : SlotOps V Store)
    (bodies : TaskBodies V World) (IsValid : Store → Type 0) (view : Store → Payloads V)
    (s : RunState V Store World)
    → Type 0
EndsIdle {V = V} {Store = Store} {World = World} nodes ops bodies IsValid view s =
    (q : StepStatus × RunState V Store World) × (run_node (plan_operations nodes ops bodies)
        (node_fuel (length nodes)) 0 s
      ≡ some q)
    × ((fuel : ℕ) × ((larger : ℕ)
          → fuel ≤ larger
          → run_explicit_heap_stack (plan_operations nodes ops bodies) larger s ≡ some q))
    × IsIdle IsValid view q.1

module _ {V Store World : Type 0} {ops : SlotOps V Store} {Apart : ℕ → ℕ → Type 0}
    {IsValid : Store → Type 0} {view : Store → Payloads V} (nodes : List (TaskTreeNode TaskType))
    (bodies : TaskBodies V World) where
  -- A run of the plan compiled from at least one and at most 2^64 nodes with a valid sequence of
  -- levels, which passes `validate_plan`, on a storage that implements the map from nodes to payloads
  -- for the nodes that may be alive together, with tasks that keep their contract (output protocols that
  -- fit, results of the declared types, a value in a `task_result` that succeeds, in a sink one payload
  -- at most and one after a success). From an idle state, with the fuel `n * (n + 2)`, the recursive executor returns; the heap-stack executor, given enough
  -- fuel, ends with the same status and state; and this state is idle again: no assertion has failed,
  -- no lifetime has been started or ended twice, and every payload and every staged copy is destroyed.
  pub compiled_run-IsIdle :
      (s : RunState V Store World)
      → HasLevelSequence nodes
      → 0 < length nodes
      → length nodes ≤ size_max
      → validate_plan (compile nodes) ≡ Errors.ok
      → IsStorage ops
          (compile nodes).node_count
          (is_payload_node (compile nodes))
          (may_be_empty (compile nodes))
          Apart
          IsValid
          view
      → AreApart (compile nodes) Apart
      → KeepsContract (compile nodes) bodies
      → IsIdle IsValid view s
      → EndsIdle nodes ops bodies IsValid view s
  compiled_run-IsIdle s levels pos small valid storage apart contract idle =
      let plan = compile nodes in
      let pos' = node_count-length nodes pos in
      let lawful = node_operations-IsLawful plan ops bodies in
      let tree = compile-IsTree nodes levels small in
      let (q, ran, fuel, heap) =
        compiled-executors_agree nodes (node_operations plan ops bodies) s levels pos small
          lawful in
      let discipline =
        node_operations-Discipline plan bodies storage tree pos' valid apart contract in
      (
        q,
        ran,
        (fuel, heap),
        running-IsIdle plan q.1 (
            run_node-Held (plan_operations nodes ops bodies) lawful discipline
              (node_fuel (length nodes)) 0 [] s (root_path nodes) (idle-IsRunning plan s idle) ran),
      )
