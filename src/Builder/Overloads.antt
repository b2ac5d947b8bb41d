-- ===== src/Builder/Overloads.antt =====
-- The overloads of `node`, `node_into`, `node_member` and their like
-- (include/yorch/detail/task_tree/builder_node_core_ordinary.hpp, builder_node_core_member.hpp,
-- builder_node_core_forward.hpp) and of the `root` functions beside them.
-- An overload is `none` where its parameters do not fit or its `requires` clause fails. The functions for
-- a const and for an expiring builder have the same clauses.
use yorch.Base.{Bool, Option, none, some, List, [], ◌∷◌, ◌++◌, if◌then◌else◌}
use yorch.Task.Access.{Spec}
use yorch.Tree.{FanoutPolicy, auto}
use yorch.Bind.Adapters.{AdapterDesc}
use yorch.Bind.Binders.{
  BinderKind, task, into, forward_prev, task_member, into_member, forward_prev_member,
}
use yorch.Builder.{
  Argument, Extra, policy, chain, receiver, direct_output_task_object_argument,
  ordinary_task_object_argument, ordinary_callable_task_argument,
  direct_output_callable_task_argument, forward_prev_callable_task_argument,
  ordinary_member_callable_task_argument, forward_prev_member_callable_task_argument,
  direct_output_member_callable_task_argument,
}

pub data Method : Type 0 where
  node node_into node_forward_prev node_member node_into_member node_forward_prev_member : Method

-- What an overload does: it appends the task object with a fanout policy, returns a binder that stores a
-- policy, if one is given, and adapters, or words a compile error.
pub data Choice : Type 0 where
  append : FanoutPolicy → Choice
  make_binder : BinderKind → Option FanoutPolicy → List AdapterDesc → Choice
  diagnostic : Choice

-- `node(task)` and `node(task, policy)`
unfoldable pub append_with : List Extra → Option Choice
append_with [] = some (append auto)
append_with (policy p ∷ []) = some (append p)
append_with _ = none

-- `node(f)`, `node(f, policy)`, `node(f, adapters)` and `node(f, policy, adapters)`, and the same of `node_into`,
-- `node_forward_prev`, `root`, `root_forward_prev` and their like. The four are one function here,
-- since no two of them fit the same arguments.
unfoldable pub binder_with : BinderKind → List Extra → Option Choice
binder_with kind [] = some (make_binder kind none [])
binder_with kind (policy p ∷ []) = some (make_binder kind (some p) [])
binder_with kind (chain c ∷ []) = some (make_binder kind none c)
binder_with kind (policy p ∷ chain c ∷ []) = some (make_binder kind (some p) c)
binder_with kind _ = none

-- `node_member`, `root_member` and their like: a receiver's spec stands before them, which is neither a policy nor a
-- chain of adapters.
unfoldable pub member_binder_with : (Spec → BinderKind) → List Extra → Option Choice
unfolding binder_with
member_binder_with kind (receiver r ∷ extras) = binder_with (kind r) extras
member_binder_with kind _ = none

abbrev pub when : Bool → Option Choice → Option Choice
when holds choice = if holds then choice else none

module _ (a : Argument) (extras : List Extra) where
  unfoldable pub node_ordinary : Method → List (Option Choice)
  unfolding append_with binder_with ordinary_task_object_argument direct_output_task_object_argument
      ordinary_callable_task_argument direct_output_callable_task_argument
  node_ordinary node =
      when (ordinary_task_object_argument a) (append_with extras)
      ∷ when (ordinary_callable_task_argument a) (binder_with task extras)
      ∷ []
  node_ordinary node_into =
      when (direct_output_task_object_argument a) (append_with extras)
      ∷ when (direct_output_callable_task_argument a) (binder_with into extras)
      ∷ []
  node_ordinary _ = []

  unfoldable pub node_members : Method → List (Option Choice)
  unfolding member_binder_with ordinary_member_callable_task_argument
      direct_output_member_callable_task_argument
  node_members node_member =
      when (ordinary_member_callable_task_argument a) (member_binder_with task_member extras) ∷ []
  node_members node_into_member =
      when (direct_output_member_callable_task_argument a) (member_binder_with into_member extras)
      ∷ []
  node_members _ = []

  unfoldable pub node_forward : Method → List (Option Choice)
  unfolding binder_with member_binder_with forward_prev_callable_task_argument
      forward_prev_member_callable_task_argument
  node_forward node_forward_prev =
      when (forward_prev_callable_task_argument a) (binder_with forward_prev extras) ∷ []
  node_forward node_forward_prev_member =
      when (forward_prev_member_callable_task_argument a)
        (member_binder_with forward_prev_member extras)
      ∷ []
  node_forward _ = []

  -- `builder_node_core`
  unfoldable pub node_core : Method → List (Option Choice)
  unfolding node_ordinary node_members node_forward
  node_core m = node_ordinary m ++ (node_members m ++ node_forward m)

-- The overloads that are left when those that do not apply are taken out.
unfoldable pub viable : List (Option Choice) → List Choice
viable [] = []
viable (none ∷ overloads) = viable overloads
viable (some choice ∷ overloads) = choice ∷ viable overloads
