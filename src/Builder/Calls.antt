-- ===== src/Builder/Calls.antt =====
-- The calls of a builder: `node<Level>(...)` and its like, `root(...)` and its like, and the calls with specs of the
-- binders that they return (include/yorch/detail/task_tree/node_binder.hpp). A call is `none` where it does not compile.
use yorch.Base.{ℕ, Bool, true, false, Option, none, some, List, [], ◌∷◌, ◌++◌, if◌then◌else◌, ◌>>=◌}
use yorch.Task.{TaskType}
use yorch.Task.Access.{Spec}
use yorch.Tree.{FanoutPolicy, TaskTreeNode, append_level_valid, append_node}
use yorch.Bind.Binders.{
  BinderKind, task, into, forward_prev, task_member, into_member, forward_prev_member, call_binder,
}
use yorch.Builder.{Argument, Extra, policy, task_object}
use yorch.Builder.Overloads.{
  Method, node, node_into, Choice, append, make_binder, node_core, viable,
}
use yorch.Builder.Diagnostics.{node_diagnostics}

-- `task_tree_builder<Nodes...>`
abbrev pub Nodes : Type 0
Nodes = List (TaskTreeNode Argument)

-- A call selects the one overload that applies; with several, or none, it does not compile.
unfoldable pub select : List Choice → Option Choice
select (choice ∷ []) = some choice
select _ = none

unfoldable pub overloads : Bool → Method → Argument → List Extra → List Choice
unfolding viable node_core node_diagnostics
overloads valid m a extras =
    if valid then viable (node_core a extras m ++ node_diagnostics a extras m) else []

-- The overloads of `node` and its like, each of which asks for a valid level
unfoldable pub node_overloads : ℕ → Nodes → Method → Argument → List Extra → List Choice
unfolding overloads append_level_valid
node_overloads level nodes = overloads (append_level_valid level nodes)

-- The overloads of `root` and its like, each of which asks for an empty builder
unfoldable pub root_overloads : Nodes → Method → Argument → List Extra → List Choice
unfolding overloads
root_overloads [] = overloads true
root_overloads (n ∷ nodes) = overloads false

-- `std::tuple_cat(nodes, std::tuple<next_node_t> {...})`
unfoldable pub append_object : Nodes → ℕ → Argument → Choice → Option Nodes
unfolding append_node
append_object nodes level a (append p) =
    append_node (record { level = level; fanout_policy = p; task = a }) nodes
append_object nodes level a _ = none

-- `node<Level>(task)`, `node<Level>(task, policy)`, `node_into<Level>(task)` ...: a call that appends
unfoldable pub append_call : Nodes → ℕ → Method → Argument → List Extra → Option Nodes
unfolding node_overloads select append_object
append_call nodes level m a extras =
    select (node_overloads level nodes m a extras) >>= append_object nodes level a

-- The function that `append_task` calls
unfoldable pub append_method : BinderKind → Method
append_method into = node_into
append_method (into_member receiver) = node_into
append_method task = node
append_method forward_prev = node
append_method (task_member receiver) = node
append_method (forward_prev_member receiver) = node

-- `no_fanout_policy_tag` or the policy that the binder stores
unfoldable pub policy_extra : Option FanoutPolicy → List Extra
policy_extra none = []
policy_extra (some p) = policy p ∷ []

-- `tree_node_binder::append_task` and its like
unfoldable pub append_task : Nodes → ℕ → BinderKind → Option FanoutPolicy → TaskType → Option Nodes
unfolding append_call append_method policy_extra
append_task nodes level kind stored made =
    append_call nodes level (append_method kind) (task_object made) (policy_extra stored)

-- What a binder's `operator()` does
unfoldable pub binder_call : Nodes → ℕ → Argument → List Spec → Choice → Option Nodes
unfolding append_task
binder_call nodes level a specs (make_binder kind stored adapters) =
    call_binder a.callable adapters kind specs >>= append_task nodes level kind stored
binder_call nodes level a specs _ = none

-- A statement of a program that builds a tree: a call of `node<Level>` or its like, or of `root` or its like, and,
-- where it returns a binder, the call of the binder with specs.
pub record BuilderCall : Type 0 where
  pub level : Option ℕ
  pub method : Method
  pub argument : Argument
  pub extras : List Extra
  pub specs : Option (List Spec)

-- `root(task)` appends by `node<0>(task)`.
unfoldable pub root_call :
    Nodes → Method → Argument → List Extra → Option (List Spec) → Option Nodes
unfolding root_overloads select append_call binder_call
root_call nodes m a extras none =
    select (root_overloads nodes m a extras) >>= λ _. append_call nodes 0 m a extras
root_call nodes m a extras (some specs) =
    select (root_overloads nodes m a extras) >>= binder_call nodes 0 a specs

unfoldable pub node_call :
    Nodes → ℕ → Method → Argument → List Extra → Option (List Spec) → Option Nodes
unfolding node_overloads select append_call binder_call
node_call nodes level m a extras none = append_call nodes level m a extras
node_call nodes level m a extras (some specs) =
    select (node_overloads level nodes m a extras) >>= binder_call nodes level a specs

unfoldable pub builder_call : Nodes → BuilderCall → Option Nodes
unfolding root_call node_call
builder_call nodes c = elim c.level [
  | none ↦ root_call nodes c.method c.argument c.extras c.specs
  | some level ↦ node_call nodes level c.method c.argument c.extras c.specs
]

-- A chain of calls
unfoldable pub builder_calls : Nodes → List BuilderCall → Option Nodes
unfolding builder_call
builder_calls nodes [] = some nodes
builder_calls nodes (c ∷ calls) = builder_call nodes c >>= λ nodes'. builder_calls nodes' calls
