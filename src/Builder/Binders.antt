-- ===== src/Builder/Binders.antt =====
-- A binder's call appends what it makes (include/yorch/detail/task_tree/node_binder.hpp).
use yorch.Base.{ℕ, ◌≡◌, refl, Bool, true, false, Option, none, some, List, [], ◌∷◌, ◌++◌, arith}
use yorch.Task.{TaskType, uses_direct_output}
use yorch.Task.Access.{Spec}
use yorch.Tree.{FanoutPolicy, auto, append_level_valid, append_node}
use yorch.Bind.{Callable, bind_callable}
use yorch.Bind.Adapters.{AdapterDesc}
use yorch.Bind.Binders.{
  BinderKind, task, into, forward_prev, task_member, into_member, forward_prev_member, call_binder,
}
use yorch.Bind.Made.{protocol_of}
use yorch.Bind.Calls.{call_binder-protocol}
use yorch.Builder.{
  task_object, is_fanout_policy, adapter_chain_like, fanout_policy_or_chain, task_object_argument,
  callable_task_argument, direct_output_task_object_argument, ordinary_task_object_argument,
  ordinary_callable_task_argument, direct_output_callable_task_argument,
}
use yorch.Builder.Overloads.{
  node, node_into, append, append_with, binder_with, node_core, node_ordinary, node_members,
  node_forward, viable,
}
use yorch.Builder.Diagnostics.{
  no_extra, one_policy, one_policy_or_chain, policy_and_chain, ordinary_diagnostics,
  forward_diagnostics, member_diagnostics, node_diagnostics,
}
use yorch.Builder.Calls.{
  Nodes, select, overloads, node_overloads, append_object, append_call, append_method, policy_extra,
  append_task,
}

-- The policy of the node that a binder with this policy, or none, appends.
abbrev pub stored_policy : Option FanoutPolicy → FanoutPolicy
stored_policy none = auto
stored_policy (some p) = p

is_into : BinderKind → Bool
is_into kind = elim (append_method kind) [ node_into ↦ true | _ ↦ false ]

made-uses_direct :
    (kind : BinderKind) (made : TaskType)
    → made.output_protocol ≡ protocol_of kind
    → uses_direct_output made ≡ is_into kind
unfolding uses_direct_output is_into append_method
made-uses_direct task made e = rw e refl
made-uses_direct into made e = rw e refl
made-uses_direct forward_prev made e = rw e refl
made-uses_direct (task_member r) made e = rw e refl
made-uses_direct (into_member r) made e = rw e refl
made-uses_direct (forward_prev_member r) made e = rw e refl

-- The overloads of `node` and `node_into` on a task object that is bound
object_overloads :
    (made : TaskType) (stored : Option FanoutPolicy)
    → (uses_direct_output made ≡ false
        → overloads true node (task_object made) (policy_extra stored)
          ≡ append (stored_policy stored) ∷ [])
      × (uses_direct_output made ≡ true
          → overloads true node_into (task_object made) (policy_extra stored)
            ≡ append (stored_policy stored) ∷ [])
unfolding overloads policy_extra viable node_core node_ordinary node_members node_forward
    node_diagnostics ordinary_diagnostics forward_diagnostics member_diagnostics append_with
    binder_with no_extra one_policy one_policy_or_chain policy_and_chain is_fanout_policy
    adapter_chain_like fanout_policy_or_chain ordinary_task_object_argument
    direct_output_task_object_argument ordinary_callable_task_argument
    direct_output_callable_task_argument task_object_argument callable_task_argument bind_callable
object_overloads made none = (λ h. ground arith, λ h. ground arith)
object_overloads made (some p) = (λ h. ground arith, λ h. ground arith)

kind_overloads :
    (kind : BinderKind) (made : TaskType) (stored : Option FanoutPolicy)
    → uses_direct_output made ≡ is_into kind
    → overloads true (append_method kind) (task_object made) (policy_extra stored)
      ≡ append (stored_policy stored) ∷ []
unfolding is_into append_method
kind_overloads task made stored h = (object_overloads made stored).0 h
kind_overloads into made stored h = (object_overloads made stored).1 h
kind_overloads forward_prev made stored h = (object_overloads made stored).0 h
kind_overloads (task_member r) made stored h = (object_overloads made stored).0 h
kind_overloads (into_member r) made stored h = (object_overloads made stored).1 h
kind_overloads (forward_prev_member r) made stored h = (object_overloads made stored).0 h

-- Once a binder has made its task, of any callable, specs and adapters, the function of the builder that it calls
-- accepts it: where the level is valid, it appends one node with the task, the level, and the policy that
-- the binder stores, or else `fanout_auto_policy`.
pub append_task-made :
    (f : Callable) (adapters : List AdapterDesc) (kind : BinderKind) (specs : List Spec)
    {made : TaskType} (nodes : Nodes) (level : ℕ) (stored : Option FanoutPolicy)
    → call_binder f adapters kind specs ≡ some made
    → append_level_valid level nodes ≡ true
    → append_task nodes level kind stored made
      ≡ some (
          nodes
          ++ record { level = level; fanout_policy = stored_policy stored; task = task_object made }
            ∷ [])
unfolding append_task append_call append_object append_node select node_overloads
append_task-made f adapters kind specs {made} nodes level stored e valid =
    let direct = made-uses_direct kind made (call_binder-protocol f adapters kind specs e) in
    rw (valid, kind_overloads kind made stored direct) (rw valid refl)
