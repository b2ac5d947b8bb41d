-- ===== src/Builder/Selection.antt =====
-- Which overload a call selects.
use yorch.Base.{◌≡◌, true, List, [], ◌∷◌, ◌++◌, arith}
use yorch.Bind.{
  ordinary_bind_callable, inferable_forward_prev_callable, ordinary_member_bind_callable,
  inferable_direct_output_member_callable,
}
use yorch.Builder.{
  Argument, Extra, policy, chain, receiver, is_fanout_policy, adapter_chain_like,
  fanout_policy_or_chain, task_object_argument, callable_task_argument,
  direct_output_task_object_argument, ordinary_task_object_argument,
  ordinary_callable_task_argument, direct_output_callable_task_argument,
  forward_prev_callable_task_argument, ordinary_member_callable_task_argument,
  forward_prev_member_callable_task_argument, direct_output_member_callable_task_argument,
}
use yorch.Builder.Overloads.{
  Method, node_member, node_into_member, node_forward_prev_member, Choice, diagnostic, append_with,
  binder_with, member_binder_with, node_ordinary, node_members, node_forward, node_core, viable,
}
use yorch.Builder.Diagnostics.{
  no_extra, one_policy, one_policy_or_chain, policy_and_chain, one_receiver,
  receiver_and_policy_or_chain, ordinary_diagnostics, forward_diagnostics,
  ordinary_member_diagnostics, into_member_diagnostics, member_diagnostics, node_diagnostics,
}

-- An overload of the builder that is not a diagnostic applies alone: whatever the arguments, no second one and no
-- diagnostic applies, so that the call is neither ambiguous nor refused.
pub node_core-alone :
    (m : Method) (a : Argument) (extras : List Extra) {c : Choice} {rest : List Choice}
    → viable (node_core a extras m) ≡ c ∷ rest
    → (rest ≡ []) × (viable (node_diagnostics a extras m) ≡ [])
unfolding viable node_core node_ordinary node_members node_forward node_diagnostics
    ordinary_diagnostics forward_diagnostics member_diagnostics is_fanout_policy adapter_chain_like
    fanout_policy_or_chain append_with member_binder_with binder_with no_extra one_policy
    one_policy_or_chain policy_and_chain one_receiver receiver_and_policy_or_chain
    ordinary_member_diagnostics into_member_diagnostics ordinary_task_object_argument
    direct_output_task_object_argument ordinary_callable_task_argument
    direct_output_callable_task_argument task_object_argument callable_task_argument
    forward_prev_callable_task_argument inferable_forward_prev_callable ordinary_bind_callable
    ordinary_member_callable_task_argument forward_prev_member_callable_task_argument
    direct_output_member_callable_task_argument inferable_direct_output_member_callable
    ordinary_member_bind_callable
node_core-alone m a [] e = ground arith
node_core-alone m a (policy p ∷ []) e = ground arith
node_core-alone m a (chain p ∷ []) e = ground arith
node_core-alone m a (receiver p ∷ []) e = ground arith
node_core-alone m a (policy p ∷ y ∷ []) e = ground arith
node_core-alone m a (chain p ∷ y ∷ []) e = ground arith
node_core-alone m a (receiver p ∷ policy q ∷ []) e = ground arith
node_core-alone m a (receiver p ∷ chain q ∷ []) e = ground arith
node_core-alone m a (receiver p ∷ receiver q ∷ []) e = ground arith
node_core-alone m a (x ∷ y ∷ z ∷ more) e = ground arith

-- A member function for which a policy or a chain of adapters stands in place of the receiver's spec, and
-- which is of the wrong kind for the function that is called: two diagnostics apply.
pub receiver_missing :
    (a : Argument) (x : Extra)
    → fanout_policy_or_chain x ≡ true
    → (direct_output_member_callable_task_argument a ≡ true
        → (viable (node_core a (x ∷ []) node_member ++ node_diagnostics a (x ∷ []) node_member)
            ≡ diagnostic ∷ diagnostic ∷ [])
          × (viable (
                node_core a (x ∷ []) node_forward_prev_member
                ++ node_diagnostics a (x ∷ []) node_forward_prev_member)
              ≡ diagnostic ∷ diagnostic ∷ []))
      × (ordinary_member_callable_task_argument a ≡ true
          → viable (
              node_core a (x ∷ []) node_into_member ++ node_diagnostics a (x ∷ []) node_into_member)
            ≡ diagnostic ∷ diagnostic ∷ [])
unfolding viable node_core node_ordinary node_members node_forward node_diagnostics
    ordinary_diagnostics forward_diagnostics member_diagnostics is_fanout_policy adapter_chain_like
    fanout_policy_or_chain callable_task_argument member_binder_with binder_with no_extra
    one_policy_or_chain one_receiver receiver_and_policy_or_chain ordinary_member_diagnostics
    into_member_diagnostics ordinary_member_callable_task_argument
    forward_prev_member_callable_task_argument direct_output_member_callable_task_argument
    ordinary_member_bind_callable
receiver_missing a (policy p) h = (λ d. (ground arith, ground arith), λ d. ground arith)
receiver_missing a (chain c) h = (λ d. (ground arith, ground arith), λ d. ground arith)
receiver_missing a (receiver r) h = cc
