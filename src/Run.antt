-- ===== src/Run.antt =====
-- A run of a plan: the state that the executors' operations on nodes share, and what those operations do
-- to it (include/yorch/detail/executor/node_entry.hpp, fanout.hpp and result.hpp over
-- include/yorch/slots/plan_exec_slots.hpp). Tasks are parameters.
pub mod Nodes
pub mod Paths
pub mod Tracking
pub mod Contract
pub mod Settle
pub mod Owner
pub mod Prev
pub mod Staging
pub mod Enter
pub mod Lawful
pub mod Steps
pub mod Safety
pub mod Layouts
use yorch.Base.{ℕ, Bool, true, false, Option, none, some, List, [], ◌∷◌, if◌then◌else◌, ◌>>=◌}
use yorch.Result.{StepStatus, RawValue}
use yorch.Storage.{SlotOps}
use yorch.Storage.Maybe.{MaybeStorage}

-- The third parameter of `exec_context`: no direct parent's output, or a reference to it. Of a
-- const reference only the value matters.
pub data PrevView (V : Type 0) : Type 0 where
  no_prev : PrevView V
  const_slot mutable_slot : V → PrevView V

-- What a task does to its `direct_out` sink.
pub data SinkAction (V : Type 0) : Type 0 where
  sink_emplace : V → SinkAction V
  sink_destroy : SinkAction V

-- The outcome of `invoke_raw` and of `invoke_into`: what the task returns, what it leaves in a
-- mutable reference to its direct parent's output, and the rest of the world.
pub record RawOutcome (V World : Type 0) : Type 0 where
  pub raw : RawValue V
  pub prev_after : V
  pub world : World

pub record IntoOutcome (V World : Type 0) : Type 0 where
  pub actions : List (SinkAction V)
  pub step : StepStatus
  pub prev_after : V
  pub world : World

-- The tasks of a plan by node, and the copy constructor of their outputs, which is taken not to throw: the
-- staging of a copy (`prepare_fanout_staging`) does not ask that it is `noexcept`.
pub record TaskBodies (V World : Type 0) : Type 0 where
  pub invoke_raw : ℕ → PrevView V → World → RawOutcome V World
  pub invoke_into : ℕ → PrevView V → World → IntoOutcome V World
  pub copy_construct : V → V

-- Slots, staged copies, and the world that tasks act on. `faulted` is set where the program has no
-- defined behaviour: an assertion fails, or an object's lifetime is started or ended twice.
pub record RunState (V Store World : Type 0) : Type 0 where
  pub slots : Store
  pub staging : ℕ → MaybeStorage V
  pub world : World
  pub faulted : Bool

module _ {V Store : Type 0} (ops : SlotOps V Store) (i : ℕ) where
  unfoldable pub sink_action : SinkAction V → Store → Option Store
  sink_action (sink_emplace v) slots = ops.out_emplace i v slots
  sink_action sink_destroy slots = ops.out_destroy i slots

  -- The sink's actions in order.
  unfoldable pub sink_actions : List (SinkAction V) → Store → Option Store
  unfolding sink_action
  sink_actions [] slots = some slots
  sink_actions (a ∷ actions) slots = sink_action a slots >>= sink_actions actions
