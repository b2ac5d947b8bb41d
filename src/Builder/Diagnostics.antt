-- ===== src/Builder/Diagnostics.antt =====
-- The overloads that word a compile error: include/yorch/detail/task_tree/builder_node_diagnostics.hpp, and those of
-- the `root` functions, which have the same clauses.
use yorch.Base.{Bool, true, false, not, Option, some, List, [], ◌∷◌, ◌++◌, ◌&&◌}
use yorch.Builder.{
  Argument, Extra, is_fanout_policy, adapter_chain_like, fanout_policy_or_chain,
  task_object_argument, direct_output_task_object_argument, ordinary_task_object_argument,
  ordinary_callable_task_argument, direct_output_callable_task_argument,
  ordinary_member_callable_task_argument, direct_output_member_callable_task_argument,
}
use yorch.Builder.Overloads.{
  Method, node, node_into, node_forward_prev, node_member, node_into_member,
  node_forward_prev_member, Choice, diagnostic, when,
}

-- The parameters of the diagnostics behind the first one.
unfoldable pub no_extra : List Extra → Bool
no_extra [] = true
no_extra _ = false

unfoldable pub one_policy : List Extra → Bool
unfolding is_fanout_policy
one_policy (x ∷ []) = is_fanout_policy x
one_policy _ = false

unfoldable pub one_policy_or_chain : List Extra → Bool
unfolding fanout_policy_or_chain
one_policy_or_chain (x ∷ []) = fanout_policy_or_chain x
one_policy_or_chain _ = false

unfoldable pub policy_and_chain : List Extra → Bool
unfolding is_fanout_policy adapter_chain_like
policy_and_chain (x ∷ y ∷ []) = is_fanout_policy x && adapter_chain_like y
policy_and_chain _ = false

unfoldable pub one_receiver : List Extra → Bool
one_receiver (x ∷ []) = true
one_receiver _ = false

unfoldable pub receiver_and_policy_or_chain : List Extra → Bool
unfolding fanout_policy_or_chain
receiver_and_policy_or_chain (x ∷ y ∷ []) =
    not (fanout_policy_or_chain x) && fanout_policy_or_chain y
receiver_and_policy_or_chain _ = false

module _ (a : Argument) (extras : List Extra) where
  abbrev rejects : Bool → Option Choice
  rejects holds = when holds (some diagnostic)

  -- The diagnostics of `node` and `node_into`
  unfoldable pub ordinary_diagnostics : Method → List (Option Choice)
  unfolding no_extra one_policy one_policy_or_chain policy_and_chain ordinary_task_object_argument
      direct_output_task_object_argument ordinary_callable_task_argument
      direct_output_callable_task_argument
  ordinary_diagnostics node =
      rejects (direct_output_task_object_argument a && no_extra extras)
      ∷ rejects (direct_output_task_object_argument a && one_policy extras)
      ∷ rejects (direct_output_callable_task_argument a && no_extra extras)
      ∷ rejects (direct_output_callable_task_argument a && one_policy_or_chain extras)
      ∷ rejects (direct_output_callable_task_argument a && policy_and_chain extras)
      ∷ []
  ordinary_diagnostics node_into =
      rejects (ordinary_task_object_argument a && no_extra extras)
      ∷ rejects (ordinary_task_object_argument a && one_policy extras)
      ∷ rejects (ordinary_callable_task_argument a && no_extra extras)
      ∷ rejects (ordinary_callable_task_argument a && one_policy_or_chain extras)
      ∷ rejects (ordinary_callable_task_argument a && policy_and_chain extras)
      ∷ []
  ordinary_diagnostics _ = []

  -- The diagnostics of `node_forward_prev`
  unfoldable pub forward_diagnostics : Method → List (Option Choice)
  unfolding no_extra one_policy_or_chain policy_and_chain task_object_argument
      direct_output_callable_task_argument ordinary_member_callable_task_argument
      direct_output_member_callable_task_argument
  forward_diagnostics node_forward_prev =
      rejects (task_object_argument a && no_extra extras)
      ∷ rejects (task_object_argument a && one_policy_or_chain extras)
      ∷ rejects (direct_output_callable_task_argument a && no_extra extras)
      ∷ rejects (direct_output_callable_task_argument a && one_policy_or_chain extras)
      ∷ rejects (direct_output_callable_task_argument a && policy_and_chain extras)
      ∷ rejects (ordinary_member_callable_task_argument a && no_extra extras)
      ∷ rejects (direct_output_member_callable_task_argument a && no_extra extras)
      ∷ rejects (ordinary_member_callable_task_argument a && one_policy_or_chain extras)
      ∷ rejects (direct_output_member_callable_task_argument a && one_policy_or_chain extras)
      ∷ []
  forward_diagnostics _ = []

  -- The diagnostics of `node_forward_prev_member` and of `node_member`, which have the same clauses
  unfoldable pub ordinary_member_diagnostics : List (Option Choice)
  unfolding no_extra one_policy_or_chain one_receiver receiver_and_policy_or_chain
      ordinary_member_callable_task_argument direct_output_member_callable_task_argument
  ordinary_member_diagnostics =
      rejects (ordinary_member_callable_task_argument a && no_extra extras)
      ∷ rejects (direct_output_member_callable_task_argument a && no_extra extras)
      ∷ rejects (ordinary_member_callable_task_argument a && one_policy_or_chain extras)
      ∷ rejects (direct_output_member_callable_task_argument a && one_policy_or_chain extras)
      ∷ rejects (direct_output_member_callable_task_argument a && one_receiver extras)
      ∷ rejects
          (direct_output_member_callable_task_argument a && receiver_and_policy_or_chain extras)
      ∷ []

  -- The diagnostics of `node_into_member`
  unfoldable pub into_member_diagnostics : List (Option Choice)
  unfolding no_extra one_policy_or_chain one_receiver receiver_and_policy_or_chain
      ordinary_member_callable_task_argument direct_output_member_callable_task_argument
  into_member_diagnostics =
      rejects (direct_output_member_callable_task_argument a && no_extra extras)
      ∷ rejects (ordinary_member_callable_task_argument a && no_extra extras)
      ∷ rejects (direct_output_member_callable_task_argument a && one_policy_or_chain extras)
      ∷ rejects (ordinary_member_callable_task_argument a && one_policy_or_chain extras)
      ∷ rejects (ordinary_member_callable_task_argument a && one_receiver extras)
      ∷ rejects (ordinary_member_callable_task_argument a && receiver_and_policy_or_chain extras)
      ∷ []

  unfoldable pub member_diagnostics : Method → List (Option Choice)
  unfolding ordinary_member_diagnostics into_member_diagnostics
  member_diagnostics node_forward_prev_member = ordinary_member_diagnostics
  member_diagnostics node_member = ordinary_member_diagnostics
  member_diagnostics node_into_member = into_member_diagnostics
  member_diagnostics _ = []

  -- `builder_node_diagnostics`, and `builder_root_diagnostics`, which has the same clauses
  unfoldable pub node_diagnostics : Method → List (Option Choice)
  unfolding ordinary_diagnostics forward_diagnostics member_diagnostics
  node_diagnostics m = ordinary_diagnostics m ++ (forward_diagnostics m ++ member_diagnostics m)
