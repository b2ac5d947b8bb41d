-- ===== src/Builder.antt =====
-- The builder's calls: the concepts on their arguments (include/yorch/detail/task_tree/concepts.hpp), their
-- overloads, and what a call appends to the tree.
pub mod Overloads
pub mod Diagnostics
pub mod Selection
pub mod Calls
pub mod Trees
pub mod Plans
pub mod Runs
pub mod Binders
pub mod Factories
use yorch.Base.{ℕ, Bool, true, false, not, Option, none, some, List, [], ◌∷◌, ◌&&◌, ◌||◌}
use yorch.Task.{TaskType, uses_direct_output}
use yorch.Task.Access.{Spec}
use yorch.Tree.{FanoutPolicy}
use yorch.Bind.{
  Callable, no_signature, bind_callable, ordinary_bind_callable, inferable_direct_output_callable,
  inferable_forward_prev_callable, ordinary_member_bind_callable,
  inferable_direct_output_member_callable,
}
use yorch.Bind.Adapters.{AdapterDesc}

-- The type of a call's first argument: how it can be called, whether it has a `raw_result_type`
-- (`plannable_task`), and its type as a task. A class may be callable and a task object at once.
pub record Argument : Type 0 where
  pub callable : Callable
  pub plannable : Bool
  pub type : TaskType

-- A further argument: a fanout policy, `adapters(...)`, or a spec for the receiver.
pub data Extra : Type 0 where
  policy : FanoutPolicy → Extra
  chain : List AdapterDesc → Extra
  receiver : Spec → Extra

unfoldable pub is_fanout_policy : Extra → Bool
is_fanout_policy (policy p) = true
is_fanout_policy _ = false

unfoldable pub adapter_chain_like : Extra → Bool
adapter_chain_like (chain c) = true
adapter_chain_like _ = false

unfoldable pub fanout_policy_or_chain : Extra → Bool
unfolding is_fanout_policy adapter_chain_like
fanout_policy_or_chain x = is_fanout_policy x || adapter_chain_like x

module _ (a : Argument) where
  unfoldable pub task_object_argument : Bool
  unfolding bind_callable
  task_object_argument = not (bind_callable a.callable) || a.plannable

  unfoldable pub callable_task_argument : Bool
  unfolding bind_callable
  callable_task_argument = bind_callable a.callable && not a.plannable

  unfoldable pub direct_output_task_object_argument : Bool
  unfolding task_object_argument uses_direct_output
  direct_output_task_object_argument = task_object_argument && uses_direct_output a.type

  unfoldable pub ordinary_task_object_argument : Bool
  unfolding task_object_argument direct_output_task_object_argument
  ordinary_task_object_argument = task_object_argument && not direct_output_task_object_argument

  unfoldable pub ordinary_callable_task_argument : Bool
  unfolding callable_task_argument ordinary_bind_callable
  ordinary_callable_task_argument = callable_task_argument && ordinary_bind_callable a.callable

  unfoldable pub direct_output_callable_task_argument : Bool
  unfolding callable_task_argument inferable_direct_output_callable
  direct_output_callable_task_argument =
      callable_task_argument && inferable_direct_output_callable a.callable

  unfoldable pub forward_prev_callable_task_argument : Bool
  unfolding callable_task_argument inferable_forward_prev_callable
  forward_prev_callable_task_argument =
      callable_task_argument && inferable_forward_prev_callable a.callable

  unfoldable pub ordinary_member_callable_task_argument : Bool
  unfolding callable_task_argument ordinary_member_bind_callable
  ordinary_member_callable_task_argument =
      callable_task_argument && ordinary_member_bind_callable a.callable

  unfoldable pub forward_prev_member_callable_task_argument : Bool
  unfolding callable_task_argument ordinary_member_bind_callable
  forward_prev_member_callable_task_argument =
      callable_task_argument && ordinary_member_bind_callable a.callable

  unfoldable pub direct_output_member_callable_task_argument : Bool
  unfolding callable_task_argument inferable_direct_output_member_callable
  direct_output_member_callable_task_argument =
      callable_task_argument && inferable_direct_output_member_callable a.callable

-- A task that a binder has made, as an argument: a bound or adapted task cannot be called.
abbrev pub task_object : TaskType → Argument
task_object made = record { callable = no_signature; plannable = true; type = made }
