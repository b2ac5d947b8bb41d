-- ===== src/Examples/Bindings.antt =====
-- Callables, and the tasks that the binders make of them.
use yorch.Base.{◌≡◌, ◌↔◌, refl, true, false, none, some, [], ◌∷◌, ◌&&◌, not}
use yorch.Task.{TaskType, void_result, value_result, step_result, forward_prev_output}
use yorch.Task.Access.{Spec, value, borrow_prev_mut, copy_prev, by_value, lvalue, is_prev_access}
use yorch.Validation.Sources.{is_void}
use yorch.Bind.{
  Callable, function, member, input, out_param, object, bind_callable, member_bind_callable,
  last_param, last_arg, direct_out_arg_like, direct_out_payload, is_direct_out_of,
  inferable_direct_output_callable, ordinary_bind_callable, inferable_forward_prev_callable,
  bind_signature_matches, inferred_bind_into_signature_matches,
  inferred_forward_prev_signature_matches, member_bound_signature_matches,
  inferred_member_bound_into_signature_matches,
}
use yorch.Bind.Validate.{is_reference_or_void, validate_bind_into, bind_into_ok}
use yorch.Bind.ForwardPrev.{
  prev_access_count, payload_type, unique_prev_payload, payload_matches, spec_matches_binding,
  bindings_supported, is_void_or_step, validate_bind_forward_prev, forward_prev_ok,
}
use yorch.Bind.Tasks.{
  bindings, bound_task, bound_output_task, bound_forward_prev_task, bind_into, bind_forward_prev,
}
use yorch.Bind.Adapters.{retry_desc, apply_adapter, apply_adapters}
use yorch.Bind.Binders.{
  forward_prev, adapted, call_task, call_into, call_forward_prev, call_member, call_into_member,
  call_binder,
}
use yorch.Bind.Protocols.{IsForwarding}
use yorch.Bind.Calls.{call_binder-IsForwarding}
use yorch.Bind.Complete.{compiles, calls_compile}
use yorch.Bind.ForwardingCalls.{IsForwardCall, call_forward_prev-compiles_iff}
use yorch.Builder.{Argument}

abbrev pub load : Callable
load = function (record { result = value_result 5; params = [] })

abbrev pub scale : Callable
scale = function (record { result = step_result; params = input (lvalue 5) ∷ [] })

abbrev pub fill : Callable
fill =
    function (record { result = void_result; params = input (by_value 3) ∷ out_param 7 true ∷ [] })

-- What the type of a callable is as a task does not matter, since it has no `raw_result_type`.
abbrev pub callable : Callable → Argument
callable f = record {
  callable = f;
  plannable = false;
  type = bound_task void_result (record { receiver = none; specs = [] });
}

-- A member function with a sink, and a function whose sink is a reference.
abbrev pub produce : Callable
produce =
    member (record { class_type = 4; is_const = true })
      (record { result = void_result; params = out_param 7 true ∷ [] })

abbrev fill_by_reference : Callable
fill_by_reference = function (record { result = void_result; params = out_param 7 false ∷ [] })

abbrev pub scaled : TaskType
scaled =
    apply_adapters (retry_desc ∷ [])
      (bound_forward_prev_task (object 5) (bindings scale (borrow_prev_mut 5 ∷ [])))

abbrev pub filled : TaskType
filled = bound_output_task (object 7) (bindings fill (value 3 ∷ []))

pub scale_call :
    call_binder scale (retry_desc ∷ []) forward_prev (borrow_prev_mut 5 ∷ []) ≡ some scaled
unfolding call_binder call_forward_prev adapted bind_forward_prev
    inferred_forward_prev_signature_matches inferable_forward_prev_callable ordinary_bind_callable
    inferable_direct_output_callable bind_callable member_bind_callable last_arg last_param
    direct_out_arg_like unique_prev_payload payload_type is_prev_access forward_prev_ok
    validate_bind_forward_prev is_reference_or_void is_void_or_step prev_access_count
    payload_matches bindings_supported spec_matches_binding
scale_call = refl

forwards : scaled.output_protocol ≡ forward_prev_output
unfolding apply_adapters apply_adapter bound_forward_prev_task
forwards = refl

call_binder-IsForwarding_example : IsForwarding scaled
call_binder-IsForwarding_example =
    call_binder-IsForwarding scale (retry_desc ∷ []) forward_prev (borrow_prev_mut 5 ∷ [])
      scale_call forwards

call_forward_prev-compiles_iff_example :
    (compiles (call_forward_prev scale (retry_desc ∷ []) (borrow_prev_mut 5 ∷ [])) ≡ true)
    ↔ IsForwardCall scale (retry_desc ∷ []) (borrow_prev_mut 5 ∷ [])
call_forward_prev-compiles_iff_example =
    call_forward_prev-compiles_iff scale (retry_desc ∷ []) (borrow_prev_mut 5 ∷ [])

-- Which holds of them.
scale_accepted :
    compiles (call_forward_prev scale (retry_desc ∷ []) (borrow_prev_mut 5 ∷ [])) ≡ true
unfolding call_forward_prev adapted bind_forward_prev inferred_forward_prev_signature_matches
    inferable_forward_prev_callable ordinary_bind_callable inferable_direct_output_callable
    bind_callable member_bind_callable last_arg last_param direct_out_arg_like unique_prev_payload
    payload_type is_prev_access forward_prev_ok validate_bind_forward_prev is_reference_or_void
    is_void_or_step prev_access_count payload_matches bindings_supported spec_matches_binding
scale_accepted = refl

calls_compile_example :
    (compiles (call_task fill_by_reference [] []) ≡ bind_signature_matches fill_by_reference 0)
    × (compiles (call_into fill_by_reference [] []) ≡ (
        inferred_bind_into_signature_matches fill_by_reference 0
        && not (is_void (direct_out_payload (last_arg fill_by_reference)))))
    × ((receiver : Spec)
        → (compiles (call_member fill_by_reference [] receiver [])
            ≡ member_bound_signature_matches fill_by_reference 0)
          × (compiles (call_into_member fill_by_reference [] receiver []) ≡ (
              inferred_member_bound_into_signature_matches fill_by_reference 0
              && not (is_void (direct_out_payload (last_arg fill_by_reference))))))
calls_compile_example = calls_compile fill_by_reference [] []

-- `task_into` does not take the sink by reference, `bind_into<T>` does.
by_reference_refused :
    (compiles (call_into fill_by_reference [] []) ≡ false)
    × (compiles (bind_into fill_by_reference (object 7) []) ≡ true)
unfolding call_into adapted bind_into inferred_bind_into_signature_matches
    inferable_direct_output_callable bind_callable member_bind_callable last_arg last_param
    direct_out_arg_like direct_out_payload is_direct_out_of validate_bind_into bind_into_ok
    is_reference_or_void
by_reference_refused = (refl, refl)

-- Of three accesses to the parent's output, a payload type is inferred.
three_accesses : unique_prev_payload (copy_prev 5 ∷ copy_prev 6 ∷ borrow_prev_mut 7 ∷ []) ≡ some 5
unfolding unique_prev_payload payload_type is_prev_access
three_accesses = refl
