-- ===== src/Bind/Binders.antt =====
-- include/yorch/bind/builders/core.hpp: the binders that `task`, `task_into` and their like return, called with
-- the specs. A call is `none` where its `requires` clause fails, its template argument cannot be formed, or a
-- static assertion fires.
use yorch.Base.{Bool, Option, none, some, List, ◌∷◌, length, if◌then◌else◌, ◌>>=◌}
use yorch.Task.{TaskType}
use yorch.Task.Access.{Spec}
use yorch.Bind.{
  Callable, object, last_arg, direct_out_payload, ordinary_bind_callable,
  inferable_direct_output_callable, inferable_forward_prev_callable, ordinary_member_bind_callable,
  inferable_direct_output_member_callable, bind_signature_matches, member_bound_signature_matches,
  inferred_bind_into_signature_matches, inferred_forward_prev_signature_matches,
  inferred_member_bound_into_signature_matches,
}
use yorch.Bind.ForwardPrev.{unique_prev_payload}
use yorch.Bind.Tasks.{
  bind, bind_into, bind_member, bind_into_member, bind_forward_prev, bind_forward_prev_member,
}
use yorch.Bind.Adapters.{AdapterDesc, apply_adapters}

-- The six binders: `task_binder`, `task_into_binder`, `task_forward_prev_binder` and the three for members,
-- which store the receiver's spec.
pub data BinderKind : Type 0 where
  task into forward_prev : BinderKind
  task_member into_member forward_prev_member : Spec → BinderKind

-- The `requires` clauses of the functions that make a binder of a callable.
unfoldable pub makes_binder : BinderKind → Callable → Bool
makes_binder task f = ordinary_bind_callable f
makes_binder into f = inferable_direct_output_callable f
makes_binder forward_prev f = inferable_forward_prev_callable f
makes_binder (task_member receiver) f = ordinary_member_bind_callable f
makes_binder (into_member receiver) f = inferable_direct_output_member_callable f
makes_binder (forward_prev_member receiver) f = ordinary_member_bind_callable f

module _ (f : Callable) (chain : List AdapterDesc) where
  unfoldable pub adapted : Option TaskType → Option TaskType
  unfolding apply_adapters
  adapted made = made >>= λ t. some (apply_adapters chain t)

  -- `task_binder::operator()`
  unfoldable pub call_task : List Spec → Option TaskType
  unfolding adapted bind_signature_matches bind
  call_task specs = if bind_signature_matches f (length specs) then adapted (bind f specs) else none

  -- `task_into_binder::operator()`
  unfoldable pub call_into : List Spec → Option TaskType
  unfolding adapted inferred_bind_into_signature_matches bind_into last_arg direct_out_payload
  call_into specs =
      if inferred_bind_into_signature_matches f (length specs)
      then (direct_out_payload (last_arg f) >>= λ t. adapted (bind_into f (object t) specs))
      else none

  -- `task_forward_prev_binder::operator()`
  unfoldable pub call_forward_prev : List Spec → Option TaskType
  unfolding adapted inferred_forward_prev_signature_matches bind_forward_prev unique_prev_payload
  call_forward_prev specs =
      if inferred_forward_prev_signature_matches f (length specs)
      then (unique_prev_payload specs >>= λ t. adapted (bind_forward_prev f (object t) specs))
      else none

  -- `task_member_receiver_binder::operator()`
  unfoldable pub call_member : Spec → List Spec → Option TaskType
  unfolding adapted member_bound_signature_matches bind_member
  call_member receiver specs =
      if member_bound_signature_matches f (length specs)
      then adapted (bind_member f receiver specs)
      else none

  -- `task_into_member_receiver_binder::operator()`
  unfoldable pub call_into_member : Spec → List Spec → Option TaskType
  unfolding adapted inferred_member_bound_into_signature_matches bind_into_member last_arg
      direct_out_payload
  call_into_member receiver specs =
      if inferred_member_bound_into_signature_matches f (length specs)
      then (direct_out_payload (last_arg f) >>= λ t.
          adapted (bind_into_member f (object t) receiver specs))
      else none

  -- `task_forward_prev_member_receiver_binder::operator()`
  unfoldable pub call_forward_prev_member : Spec → List Spec → Option TaskType
  unfolding adapted member_bound_signature_matches bind_forward_prev_member unique_prev_payload
  call_forward_prev_member receiver specs =
      if member_bound_signature_matches f (length specs)
      then (unique_prev_payload (receiver ∷ specs) >>= λ t.
          adapted (bind_forward_prev_member f (object t) receiver specs))
      else none

  -- A binder's `operator()`
  unfoldable pub call_binder : BinderKind → List Spec → Option TaskType
  unfolding call_task call_into call_forward_prev call_member call_into_member
      call_forward_prev_member
  call_binder task specs = call_task specs
  call_binder into specs = call_into specs
  call_binder forward_prev specs = call_forward_prev specs
  call_binder (task_member receiver) specs = call_member receiver specs
  call_binder (into_member receiver) specs = call_into_member receiver specs
  call_binder (forward_prev_member receiver) specs = call_forward_prev_member receiver specs
