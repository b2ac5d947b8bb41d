-- ===== src/Run/Contract.antt =====
-- What a plan's tasks are to keep to (include/yorch/executor/concepts.hpp and
-- include/yorch/detail/task/traits.hpp say which task types the executors take).
use yorch.Base.{
  ℕ, ◌<◌, ◌≡◌, Bool, true, false, not, Option, none, some, List, [], ◌∷◌, ◌&&◌, if◌then◌else◌,
  arith,
}
use yorch.Result.{RawValue, void_value, step_value, task_value, plain_value, ok}
use yorch.Task.{
  TaskType, RawResult, void_result, step_result, task_result, value_result, no_declared_output,
  direct_output, forward_prev_output, uses_direct_output, uses_forward_prev, raw_output,
  output_storage_mode, slot_logical_policy,
}
use yorch.Task.Policy.{is_owned}
use yorch.Plan.Compiled.{CompiledPlan}
use yorch.Validation.Plans.{task_type}
use yorch.Validation.Sources.{is_void}
use yorch.Storage.Typed.{is_maybe}
use yorch.Slots.Entry.{carries_payload}
use yorch.Run.{PrevView, SinkAction, sink_emplace, sink_destroy, TaskBodies}

-- A task type declares an output type with its protocol, and with no other; a task that forwards
-- its parent's output returns no payload itself.
unfoldable pub protocol_fits : TaskType → Bool
unfolding raw_output
protocol_fits task = elim task.output_protocol [
  | no_declared_output ↦ is_void task.output_type
  | direct_output ↦ not (is_void task.output_type)
  | forward_prev_output ↦ not (is_void task.output_type) && is_void (raw_output task.raw_result)
]

module _ {V : Type 0} where
  -- What `invoke_raw` returns has the declared `raw_result_type`, and a `task_result` that succeeds
  -- carries its payload.
  unfoldable pub fits_type : RawResult → RawValue V → Bool
  unfolding carries_payload
  fits_type void_result void_value = true
  fits_type step_result (step_value s) = true
  fits_type (task_result t) (task_value r) = carries_payload (task_value r)
  fits_type (value_result t) (plain_value v) = true
  fits_type _ _ = false

  -- The category of raw results that carry a payload.
  unfoldable pub stores_payload : RawValue V → Bool
  stores_payload (task_value r) = true
  stores_payload (plain_value v) = true
  stores_payload _ = false

  -- Whether a sink holds a payload after a task's actions on it; `none` where the task constructs
  -- one over another.
  unfoldable pub sink_after : Bool → List (SinkAction V) → Option Bool
  sink_after full [] = some full
  sink_after full (sink_emplace v ∷ actions) = if full then none else sink_after true actions
  sink_after full (sink_destroy ∷ actions) = sink_after false actions

-- The contract of the tasks of a plan: their output protocols fit, a raw result has the declared type and
-- carries a value when it is a `task_result` that succeeds, and a direct-output task constructs at
-- most one payload at a time, and has constructed it when it reports success.
pub record KeepsContract {V World : Type 0} (plan : CompiledPlan TaskType)
    (bodies : TaskBodies V World) : Type 0 where
  pub protocol : (i : ℕ) → i < plan.node_count → protocol_fits (task_type plan i) ≡ true
  pub raw_fits :
      (i : ℕ) (prev : PrevView V) (world : World)
      → i < plan.node_count
      → uses_direct_output (task_type plan i) ≡ false
      → fits_type (task_type plan i).raw_result (bodies.invoke_raw i prev world).raw ≡ true
  pub into_fits :
      (i : ℕ) (prev : PrevView V) (world : World)
      → i < plan.node_count
      → uses_direct_output (task_type plan i) ≡ true
      → (full : Bool) × (sink_after false (bodies.invoke_into i prev world).actions ≡ some full)
        × (ok (bodies.invoke_into i prev world).step ≡ true → full ≡ true)

-- The same without the output protocols.
pub record KeepsTypes {V World : Type 0} (plan : CompiledPlan TaskType)
    (bodies : TaskBodies V World) : Type 0 where
  pub raw_fits :
      (i : ℕ) (prev : PrevView V) (world : World)
      → i < plan.node_count
      → uses_direct_output (task_type plan i) ≡ false
      → fits_type (task_type plan i).raw_result (bodies.invoke_raw i prev world).raw ≡ true
  pub into_fits :
      (i : ℕ) (prev : PrevView V) (world : World)
      → i < plan.node_count
      → uses_direct_output (task_type plan i) ≡ true
      → (full : Bool) × (sink_after false (bodies.invoke_into i prev world).actions ≡ some full)
        × (ok (bodies.invoke_into i prev world).step ≡ true → full ≡ true)

pub KeepsTypes-KeepsContract :
    {V World : Type 0} {plan : CompiledPlan TaskType} {bodies : TaskBodies V World}
    → ((i : ℕ) → protocol_fits (task_type plan i) ≡ true)
    → KeepsTypes plan bodies
    → KeepsContract plan bodies
KeepsTypes-KeepsContract fits keeps = record {
  protocol = λ i h. fits i;
  raw_fits = keeps.raw_fits;
  into_fits = keeps.into_fits;
}

-- A node whose task has `invoke_raw` owns a payload exactly when the raw results carry one.
pub fits_type-stores :
    {V : Type 0} (task : TaskType) (raw : RawValue V)
    → protocol_fits task ≡ true
    → uses_direct_output task ≡ false
    → fits_type task.raw_result raw ≡ true
    → stores_payload raw ≡ is_owned (output_storage_mode task)
unfolding protocol_fits uses_direct_output fits_type stores_payload is_owned output_storage_mode
    raw_output is_void uses_forward_prev
fits_type-stores task raw fits raw_task typed = ground arith

pub fits_type-carries :
    {V : Type 0} (type : RawResult) (raw : RawValue V)
    → fits_type type raw ≡ true
    → carries_payload raw ≡ true
unfolding fits_type carries_payload
fits_type-carries type raw typed = ground arith

-- A direct-output node owns a payload, and may leave it out.
pub direct-owned :
    (task : TaskType)
    → protocol_fits task ≡ true
    → uses_direct_output task ≡ true
    → (is_owned (output_storage_mode task) ≡ true) × (is_maybe (slot_logical_policy task) ≡ true)
unfolding protocol_fits uses_direct_output is_owned output_storage_mode slot_logical_policy is_void
    uses_forward_prev
direct-owned task fits direct = (ground arith, ground arith)
