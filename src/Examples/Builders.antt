-- ===== src/Examples/Builders.antt =====
-- A program that builds a tree from callables: a root that returns a value of type 5, a node that changes it in
-- place, retried when it asks for it, and a node below that fills a sink of type 7.
use yorch.Base.{ℕ, ◌≡◌, refl, true, false, none, some, List, [], ◌∷◌, ◌++◌, ◌&&◌}
use yorch.Task.{TaskType, value_result, uses_direct_output}
use yorch.Task.Access.{value, borrow_prev_mut, is_prev_access}
use yorch.Tree.{auto, TaskTreeNode, append_level_valid, append_node, last_level}
use yorch.Bind.{
  bind_callable, member_bind_callable, last_param, last_arg, direct_out_arg_like,
  direct_out_payload, is_direct_out_of, inferable_direct_output_callable, ordinary_bind_callable,
  inferable_forward_prev_callable, bind_signature_matches, inferred_bind_into_signature_matches,
  inferred_forward_prev_signature_matches,
}
use yorch.Bind.Validate.{
  is_reference_or_void, validate_bind, validate_bind_into, bind_ok, bind_into_ok,
}
use yorch.Bind.ForwardPrev.{
  prev_access_count, payload_type, unique_prev_payload, payload_matches, spec_matches_binding,
  bindings_supported, is_void_or_step, validate_bind_forward_prev, forward_prev_ok,
}
use yorch.Bind.Tasks.{
  with_args, bindings, bound_task, bound_output_task, bound_forward_prev_task, bind, bind_into,
  bind_forward_prev,
}
use yorch.Bind.Adapters.{retry_desc, apply_adapter, apply_adapters}
use yorch.Bind.Binders.{
  into, forward_prev, adapted, call_task, call_into, call_forward_prev, call_binder,
}
use yorch.Builder.{
  Argument, task_object, policy, chain, is_fanout_policy, adapter_chain_like,
  fanout_policy_or_chain, task_object_argument, callable_task_argument,
  direct_output_task_object_argument, ordinary_task_object_argument,
  ordinary_callable_task_argument, direct_output_callable_task_argument,
  forward_prev_callable_task_argument, ordinary_member_callable_task_argument,
  forward_prev_member_callable_task_argument, direct_output_member_callable_task_argument,
}
use yorch.Builder.Overloads.{
  Choice, make_binder, diagnostic, node_member, node_into_member, node_forward_prev_member, node,
  node_into, node_forward_prev, append_with, binder_with, node_ordinary, node_members, node_forward,
  node_core, viable,
}
use yorch.Builder.Diagnostics.{
  no_extra, one_policy, one_policy_or_chain, policy_and_chain, ordinary_diagnostics,
  forward_diagnostics, member_diagnostics, node_diagnostics,
}
use yorch.Builder.Calls.{
  Nodes, select, overloads, node_overloads, root_overloads, append_object, append_call,
  append_method, policy_extra, append_task, binder_call, BuilderCall, root_call, node_call,
  builder_call, builder_calls,
}
use yorch.Builder.Binders.{append_task-made}
use yorch.Builder.Selection.{node_core-alone, receiver_missing}
use yorch.Builder.Factories.{of_into, returns_binder, stores, factory_core}
use yorch.Builder.Factories.Selection.{IsSelected, factory_core-IsSelected}
use yorch.Examples.Bindings.{load, scale, fill, produce, callable, scaled, filled, scale_call}

abbrev pub pipeline : List BuilderCall
pipeline =
    record { level = none; method = node; argument = callable load; extras = []; specs = some [] }
    ∷ record {
      level = some 1;
      method = node_forward_prev;
      argument = callable scale;
      extras = policy auto ∷ chain (retry_desc ∷ []) ∷ [];
      specs = some (borrow_prev_mut 5 ∷ []);
    }
    ∷ record {
      level = some 2;
      method = node_into;
      argument = callable fill;
      extras = [];
      specs = some (value 3 ∷ []);
    }
    ∷ []

abbrev tree_node : ℕ → TaskType → TaskTreeNode Argument
tree_node level made = record { level = level; fanout_policy = auto; task = task_object made }

abbrev first_node : Nodes
first_node = tree_node 0 (bound_task (value_result 5) (bindings load [])) ∷ []

abbrev pub pipeline_tree : Nodes
pipeline_tree = first_node ++ tree_node 1 scaled ∷ tree_node 2 filled ∷ []

-- Every call compiles.
pub pipeline_builds : builder_calls [] pipeline ≡ some pipeline_tree
unfolding builder_calls builder_call root_call node_call select overloads node_overloads
    root_overloads append_object append_call append_method policy_extra append_task binder_call
    append_node append_level_valid last_level no_extra one_policy one_policy_or_chain
    policy_and_chain ordinary_diagnostics forward_diagnostics member_diagnostics node_diagnostics
    append_with binder_with node_ordinary node_members node_forward node_core viable
    is_fanout_policy adapter_chain_like fanout_policy_or_chain task_object_argument
    callable_task_argument direct_output_task_object_argument ordinary_task_object_argument
    ordinary_callable_task_argument direct_output_callable_task_argument
    forward_prev_callable_task_argument ordinary_member_callable_task_argument
    forward_prev_member_callable_task_argument direct_output_member_callable_task_argument adapted
    call_task call_into call_forward_prev call_binder apply_adapter apply_adapters with_args
    bindings bound_task bound_output_task bound_forward_prev_task bind bind_into bind_forward_prev
    prev_access_count payload_type unique_prev_payload payload_matches spec_matches_binding
    bindings_supported is_void_or_step validate_bind_forward_prev forward_prev_ok
    is_reference_or_void validate_bind validate_bind_into bind_ok bind_into_ok bind_callable
    member_bind_callable last_param last_arg direct_out_arg_like direct_out_payload is_direct_out_of
    inferable_direct_output_callable ordinary_bind_callable inferable_forward_prev_callable
    bind_signature_matches inferred_bind_into_signature_matches
    inferred_forward_prev_signature_matches is_prev_access uses_direct_output
pipeline_builds = refl

first_level : append_level_valid 1 first_node ≡ true
unfolding append_level_valid last_level
first_level = refl

append_task-made_example :
    append_task first_node 1 forward_prev none scaled ≡ some (first_node ++ tree_node 1 scaled ∷ [])
append_task-made_example =
    append_task-made scale (retry_desc ∷ []) forward_prev (borrow_prev_mut 5 ∷ []) first_node 1 none
      scale_call first_level

fill_applies : viable (node_core (callable fill) [] node_into) ≡ make_binder into none [] ∷ []
unfolding viable node_core node_ordinary node_members node_forward binder_with append_with
    direct_output_task_object_argument direct_output_callable_task_argument task_object_argument
    callable_task_argument bind_callable member_bind_callable inferable_direct_output_callable
    last_arg last_param direct_out_arg_like
fill_applies = refl

-- The overloads that apply beside the first
abbrev others : List Choice
others = []

node_core-alone_example :
    (others ≡ []) × (viable (node_diagnostics (callable fill) [] node_into) ≡ [])
node_core-alone_example = node_core-alone node_into (callable fill) [] fill_applies

policy_fits : fanout_policy_or_chain (policy auto) ≡ true
unfolding fanout_policy_or_chain
policy_fits = refl

receiver_missing_example :
    (direct_output_member_callable_task_argument (callable produce) ≡ true
      → (viable (
            node_core (callable produce) (policy auto ∷ []) node_member
            ++ node_diagnostics (callable produce) (policy auto ∷ []) node_member)
          ≡ diagnostic ∷ diagnostic ∷ [])
        × (viable (
              node_core (callable produce) (policy auto ∷ []) node_forward_prev_member
              ++ node_diagnostics (callable produce) (policy auto ∷ []) node_forward_prev_member)
            ≡ diagnostic ∷ diagnostic ∷ []))
    × (ordinary_member_callable_task_argument (callable produce) ≡ true
        → viable (
            node_core (callable produce) (policy auto ∷ []) node_into_member
            ++ node_diagnostics (callable produce) (policy auto ∷ []) node_into_member)
          ≡ diagnostic ∷ diagnostic ∷ [])
receiver_missing_example = receiver_missing (callable produce) (policy auto) policy_fits

fill_stored : factory_core (callable fill) [] of_into ≡ returns_binder into [] ∷ []
unfolding factory_core stores bind_callable member_bind_callable inferable_direct_output_callable
    last_arg last_param direct_out_arg_like
fill_stored = refl

fill_not_both : ((bind_callable (callable fill).callable) && (callable fill).plannable) ≡ false
unfolding bind_callable
fill_not_both = refl

factory_core-IsSelected_example : IsSelected (callable fill) of_into [] into []
factory_core-IsSelected_example =
    factory_core-IsSelected of_into (callable fill) [] fill_not_both fill_stored
