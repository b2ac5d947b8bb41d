-- ===== src/Run/Enter.antt =====
-- A node of a validated plan is entered: `enter_node` in include/yorch/detail/executor/node_entry.hpp.
use yorch.Base.{
  ℕ, ◌<◌, ◌≡◌, refl, sym, subst, Bool, true, false, Option, some, ◌&&◌, if◌then◌else◌, Bool-cases,
  inl, inr,
}
use yorch.Result.{ok}
use yorch.Task.{TaskType, slot_logical_policy, uses_direct_output}
use yorch.Plan.Compiled.{CompiledPlan}
use yorch.Plan.Compiled.Structure.{IsTree}
use yorch.SlotLayout.Plans.{is_payload_node}
use yorch.SlotLayout.Compact.{Ancestor}
use yorch.Validation.Plans.{task_type}
use yorch.Validation.Errors.{validate_plan}
use yorch.Validation.Errors as Errors
use yorch.Storage.{SlotOps, Payloads, IsStorage}
use yorch.Storage.Typed.{is_maybe}
use yorch.Executor.Discipline.{ActivePath}
use yorch.Executor.Interface.{NodeEnterResult}
use yorch.Run.{PrevView, TaskBodies, RunState}
use yorch.Run.Nodes.{make_node_prev_view, write_prev, run_raw, run_into, try_enter, enter_node}
use yorch.Run.Paths.{on_path, LeadsTo, LeadsTo-lt, LeadsTo-off, LeadsTo-Ancestor}
use yorch.Run.Contract.{KeepsContract, fits_type-stores, fits_type-carries, direct-owned}
use yorch.Run.Tracking.{Tracks, LeadsAlong, Beside}
use yorch.Run.Prev.{Staged, make_node_prev_view-Views}
use yorch.Run.Settle.{entered_path, settle_raw-Enters, settle_into-Enters, sink_actions-Tracks}

-- `maybe_payload` among the slot policies of the plan's nodes.
abbrev pub may_be_empty : CompiledPlan TaskType → ℕ → Bool
may_be_empty plan i = is_maybe (slot_logical_policy (task_type plan i))

-- Nodes on one path from the root that own a payload may be alive at the same time.
abbrev pub AreApart : CompiledPlan TaskType → (ℕ → ℕ → Type 0) → Type 0
AreApart plan Apart =
    (j i : ℕ)
    → i < plan.node_count
    → Ancestor plan.parent_indices plan.node_count j i
    → is_payload_node plan j ≡ true
    → is_payload_node plan i ≡ true
    → Apart j i

module _ {V Store World : Type 0} {ops : SlotOps V Store} {Apart : ℕ → ℕ → Type 0}
    {IsValid : Store → Type 0} {view : Store → Payloads V} (plan : CompiledPlan TaskType)
    (bodies : TaskBodies V World)
    (storage : IsStorage ops plan.node_count
      (is_payload_node plan)
      (may_be_empty plan)
      Apart
      IsValid
      view)
    (tree : IsTree plan) (pos : 0 < plan.node_count) (valid : validate_plan plan ≡ Errors.ok)
    (apart : AreApart plan Apart) (contract : KeepsContract plan bodies) where
  abbrev Tracked : ActivePath → Store → Type 0
  Tracked = Tracks (is_payload_node plan) IsValid view

  -- A node's outcome with the world after it.
  abbrev EntersWorld : ActivePath → ℕ → Option (NodeEnterResult × Store × World) → Type 0
  EntersWorld path i outcome =
      (r : NodeEnterResult) × (after : Store) × (world : World) × (outcome ≡ some (r, after, world))
      × (r.payload_live ≡ (ok r.step && is_payload_node plan i))
      × Tracked (entered_path path i r) after

  module _ (path : ActivePath) (i : ℕ) (leads : LeadsTo plan path i) where
    inside : i < plan.node_count
    inside = LeadsTo-lt plan tree pos path i leads

    off_path : on_path i path ≡ false
    off_path = LeadsTo-off plan tree pos path i leads

    free_path : is_payload_node plan i ≡ true → Beside storage path i
    free_path own j on own' =
        apart j i inside (LeadsTo-Ancestor plan tree pos path i j leads on) own' own

    raw-Enters :
        (prev : PrevView V) (world : World) (s : Store)
        → uses_direct_output (task_type plan i) ≡ false
        → ((w : V)
            → LeadsAlong (is_payload_node plan) IsValid view path (write_prev plan ops i prev w s))
        → EntersWorld path i (run_raw plan ops bodies i prev world s)
    unfolding run_raw is_payload_node
    raw-Enters prev world s raw_task writes =
        let outcome = bodies.invoke_raw i prev world in
        let (written, e, tracks) = writes outcome.prev_after in
        let typed = contract.raw_fits i prev world inside raw_task in
        let (r, after, e', flag, tracks') =
          settle_raw-Enters storage path i inside off_path free_path outcome.raw written
            (fits_type-stores (task_type plan i) outcome.raw (contract.protocol i inside) raw_task
              typed)
            (fits_type-carries (task_type plan i).raw_result outcome.raw typed) tracks in
        (r, after, outcome.world, rw (e, e') refl, flag, tracks')

    into-Enters :
        (prev : PrevView V) (world : World) (s : Store)
        → uses_direct_output (task_type plan i) ≡ true
        → ((w : V)
            → LeadsAlong (is_payload_node plan) IsValid view path (write_prev plan ops i prev w s))
        → EntersWorld path i (run_into plan ops bodies i prev world s)
    unfolding run_into is_payload_node
    into-Enters prev world s direct writes =
        let outcome = bodies.invoke_into i prev world in
        let (written, e, tracks) = writes outcome.prev_after in
        let (own, may) = direct-owned (task_type plan i) (contract.protocol i inside) direct in
        let (full, acts, honest) = contract.into_fits i prev world inside direct in
        let (filled, e', tracks') =
          sink_actions-Tracks storage path i inside off_path free_path own may false outcome.actions
            written full acts tracks in
        let (r, after, e'', flag, tracks'') =
          settle_into-Enters storage path i inside off_path free_path own may full outcome.step
            filled honest tracks' in
        (r, after, outcome.world, rw (e, e', e'') refl, flag, tracks'')

    -- A node has been entered, from the state `s`: the program has not faulted, and no stage has
    -- changed.
    pub record IsEntered (s : RunState V Store World)
        (outcome : NodeEnterResult × RunState V Store World) : Type 0 where
      pub flag : outcome.0.payload_live ≡ (ok outcome.0.step && is_payload_node plan i)
      pub tracked : Tracked (entered_path path i outcome.0) outcome.1.slots
      pub staging : outcome.1.staging ≡ s.staging
      pub sane : outcome.1.faulted ≡ s.faulted

    -- The task's outcome, whichever protocol it follows.
    task-Enters :
        (prev : PrevView V) (world : World) (s : Store)
        → ((w : V)
            → LeadsAlong (is_payload_node plan) IsValid view path (write_prev plan ops i prev w s))
        → EntersWorld path i (
            if uses_direct_output (task_type plan i)
            then run_into plan ops bodies i prev world s
            else run_raw plan ops bodies i prev world s)
    task-Enters prev world s writes = elim (Bool-cases (uses_direct_output (task_type plan i))) [
      | inl direct ↦ rw direct (into-Enters prev world s direct writes)
      | inr raw_task ↦ rw raw_task (raw-Enters prev world s raw_task writes)
    ]

    enter_node-runs :
        (s : RunState V Store World) (prev : PrevView V) (r : NodeEnterResult) (after : Store)
        (world : World)
        → make_node_prev_view plan ops i s.slots s.staging ≡ some prev
        → (if uses_direct_output (task_type plan i)
            then run_into plan ops bodies i prev s.world s.slots
            else run_raw plan ops bodies i prev s.world s.slots)
          ≡ some (r, after, world)
        → enter_node plan ops bodies i s ≡ (r, record s { slots = after; world = world })
    unfolding enter_node try_enter
    enter_node-runs s prev r after world made e = rw (enter_node, made, e) refl

    pub enter_node-IsEntered :
        (s : RunState V Store World)
        → Tracked path s.slots
        → Staged plan path s.staging
        → IsEntered s (enter_node plan ops bodies i s)
    enter_node-IsEntered s tracks staged =
        let (prev, made, writes) =
          make_node_prev_view-Views plan storage tree pos valid i path s.slots s.staging leads
            tracks staged in
        let (r, after, world, e, flag, tracks') = task-Enters prev s.world s.slots writes in
        subst (IsEntered s) (sym (enter_node-runs s prev r after world made e))
          (record { flag = flag; tracked = tracks'; staging = refl; sane = refl })
