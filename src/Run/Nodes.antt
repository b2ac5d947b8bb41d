-- ===== src/Run/Nodes.antt =====
-- What the executors do at a node of a plan: include/yorch/detail/executor/node_entry.hpp, fanout.hpp
-- and result.hpp over include/yorch/slots/plan_exec_slots.hpp.
use yorch.Base.{ℕ, zero, suc, Bool, true, false, Option, none, some, if◌then◌else◌, ◌>>=◌, update}
use yorch.Result.{
  StepStatus, failure, ok, RawValue, void_value, step_value, task_value, plain_value,
  extract_step_result,
}
use yorch.Task.{TaskType, output_storage_mode, uses_direct_output}
use yorch.Task.Access.{uses_exclusive_prev_access}
use yorch.Task.Policy.{OutputStorageMode}
use yorch.Plan.Compiled.{CompiledPlan}
use yorch.Validation.Plans.{task_type, output_type}
use yorch.Validation.Sources.{is_void, is_root, parent_is_void}
use yorch.Validation.Fanout.{parent_requires_fanout_staging, node_uses_staged_copy_prev}
use yorch.Storage.{SlotOps}
use yorch.Storage.Maybe.{MaybeStorage, emplace, get, destroy}
use yorch.Executor.Interface.{NodeEnterResult}
use yorch.Executor.Plans.{NodeOperations}
use yorch.Run.{PrevView, no_prev, const_slot, mutable_slot, TaskBodies, RunState, sink_actions}

abbrev pub is_forwarded : OutputStorageMode → Bool
is_forwarded OutputStorageMode.forwarded_prev = true
is_forwarded _ = false

module _ (plan : CompiledPlan TaskType) where
  abbrev pub forwards_prev : ℕ → Bool
  forwards_prev i = is_forwarded (output_storage_mode (task_type plan i))

  -- `canonical_output_owner_node_impl<Plan, I, true>`: at most `k` steps to a direct parent.
  unfoldable pub owner_after : ℕ → ℕ → ℕ
  owner_after zero i = i
  owner_after (suc k) i =
      let above = owner_after k (plan.parent_indices i) in if forwards_prev i then above else i

  -- `canonical_output_owner_node_v`; a node has at most as many ancestors as nodes before it.
  unfoldable pub canonical_output_owner_node : ℕ → ℕ
  unfolding owner_after
  canonical_output_owner_node i =
      if is_void (output_type plan i) then plan.no_parent else owner_after i i

module _ {V Store : Type 0} (plan : CompiledPlan TaskType) (ops : SlotOps V Store) where
  -- `get<I>` on any node with an output
  unfoldable pub get_output : ℕ → Store → Option V
  get_output i slots = ops.get (canonical_output_owner_node plan i) slots

  -- `make_node_prev_view`
  unfoldable pub make_node_prev_view : ℕ → Store → (ℕ → MaybeStorage V) → Option (PrevView V)
  unfolding get get_output
  make_node_prev_view i slots staging =
      if is_root plan i
      then some no_prev
      else (if parent_is_void plan i
          then some no_prev
          else (if node_uses_staged_copy_prev plan i
              then (get (staging (plan.parent_indices i)) >>= λ v. some (const_slot v))
              else (if uses_exclusive_prev_access (task_type plan i).form
                  then (get_output (plan.parent_indices i) slots >>= λ v. some (mutable_slot v))
                  else (get_output (plan.parent_indices i) slots >>= λ v. some (const_slot v)))))

  -- What a task writes through the reference that it has to its direct parent's output.
  unfoldable pub write_prev : ℕ → PrevView V → V → Store → Option Store
  write_prev i no_prev w slots = some slots
  write_prev i (const_slot v) w slots = some slots
  write_prev i (mutable_slot v) w slots =
      ops.assign (canonical_output_owner_node plan (plan.parent_indices i)) w slots

module _ {V Store : Type 0} (ops : SlotOps V Store) (i : ℕ) where
  -- `finalize_direct_output_step<I>`
  unfoldable pub finalize_step : StepStatus → Store → Option Store
  finalize_step step slots =
      if ok step then (if ops.has_value i slots then some slots else none) else ops.destroy i slots

  -- `store_node_output<I>`: whether a payload was stored, and the slots.
  unfoldable pub store_output : RawValue V → Store → Option (Bool × Store)
  store_output void_value slots = some (false, slots)
  store_output (step_value step) slots = some (false, slots)
  store_output (task_value r) slots =
      if ok r.step
      then (r.value >>= λ v. ops.emplace i v slots >>= λ after. some (true, after))
      else some (false, slots)
  store_output (plain_value v) slots = ops.emplace i v slots >>= λ after. some (true, after)

  -- `enter_node_with_exec_context<I>` after `invoke_raw` has returned
  unfoldable pub settle_raw : RawValue V → Store → Option (NodeEnterResult × Store)
  unfolding store_output extract_step_result
  settle_raw raw slots =
      let step = extract_step_result raw in
      if ok step
      then (store_output raw slots >>= λ stored.
          some (record { step = step; payload_live = stored.0 }, stored.1))
      else some (record { step = step; payload_live = false }, slots)

  -- and after `invoke_into` has returned.
  unfoldable pub settle_into : StepStatus → Store → Option (NodeEnterResult × Store)
  unfolding finalize_step
  settle_into step slots = finalize_step step slots >>= λ after.
      some (record { step = step; payload_live = ok step }, after)

module _ {V Store World : Type 0} (plan : CompiledPlan TaskType) (ops : SlotOps V Store)
    (bodies : TaskBodies V World) where
  unfoldable pub run_raw : ℕ → PrevView V → World → Store → Option (NodeEnterResult × Store × World)
  unfolding write_prev settle_raw
  run_raw i prev world slots =
      let outcome = bodies.invoke_raw i prev world in
      write_prev plan ops i prev outcome.prev_after slots >>= settle_raw ops i outcome.raw >>= λ r.
      some (r.0, r.1, outcome.world)

  unfoldable pub run_into :
      ℕ → PrevView V → World → Store → Option (NodeEnterResult × Store × World)
  unfolding write_prev sink_actions settle_into
  run_into i prev world slots =
      let outcome = bodies.invoke_into i prev world in
      write_prev plan ops i prev outcome.prev_after slots
      >>= sink_actions ops i outcome.actions
      >>= settle_into ops i outcome.step
      >>= λ r. some (r.0, r.1, outcome.world)

  -- `enter_node<I>`
  unfoldable pub try_enter :
      ℕ → RunState V Store World → Option (NodeEnterResult × RunState V Store World)
  unfolding make_node_prev_view run_raw run_into
  try_enter i s = make_node_prev_view plan ops i s.slots s.staging >>= λ prev.
      (if uses_direct_output (task_type plan i)
        then run_into i prev s.world s.slots
        else run_raw i prev s.world s.slots)
      >>= λ (r, slots, world). some (r, record s { slots = slots; world = world })

  abbrev pub faulty : RunState V Store World → RunState V Store World
  faulty s = record s { faulted = true }

  unfoldable pub enter_node : ℕ → RunState V Store World → NodeEnterResult × RunState V Store World
  unfolding try_enter
  enter_node i s = elim (try_enter i s) [
    | none ↦ (record { step = failure; payload_live = false }, faulty s)
    | some r ↦ r
  ]

  -- `destroy_node_payload_runtime<I>`
  unfoldable pub destroy_payload : ℕ → RunState V Store World → RunState V Store World
  destroy_payload i s = elim (ops.destroy i s.slots) [
    | none ↦ faulty s
    | some slots ↦ record s { slots = slots }
  ]

  -- The stage of a node after an operation on it.
  abbrev pub with_stage :
      ℕ → Option (MaybeStorage V) → RunState V Store World → RunState V Store World
  with_stage i o s = elim o [
    | none ↦ faulty s
    | some stage ↦ record s { staging = update s.staging i stage }
  ]

  -- `prepare_fanout_staging<I>`
  unfoldable pub prepare_fanout_staging : ℕ → RunState V Store World → RunState V Store World
  unfolding get_output emplace
  prepare_fanout_staging i s =
      if parent_requires_fanout_staging plan i
      then with_stage i
          (get_output plan ops i s.slots >>= λ v. emplace (bodies.copy_construct v) (s.staging i)) s
      else s

  -- `destroy_fanout_staging<I>`
  unfoldable pub destroy_fanout_staging : ℕ → RunState V Store World → RunState V Store World
  unfolding destroy
  destroy_fanout_staging i s =
      if parent_requires_fanout_staging plan i then with_stage i (destroy (s.staging i)) s else s

  unfoldable pub node_operations : NodeOperations (RunState V Store World)
  node_operations = record {
    requires_fanout_staging = λ i. parent_requires_fanout_staging plan i;
    enter_node = enter_node;
    destroy_payload = destroy_payload;
    prepare_fanout = prepare_fanout_staging;
    destroy_fanout = destroy_fanout_staging;
  }
