-- ===== src/Bind/ForwardPrev.antt =====
-- include/yorch/detail/bind/tasks/forward_prev.hpp: the first thing that is wrong with a call of
-- `bind_forward_prev` or `bind_forward_prev_member`.
use yorch.Base.{
  ℕ, ◌+◌, Bool, true, false, not, Option, none, some, List, [], ◌∷◌, length, ◌==◌, ◌&&◌, ◌||◌,
  if◌then◌else◌,
}
use yorch.Task.{RawResult, void_result, step_result, value_result, task_result}
use yorch.Task.Access.{
  Spec, from_ctx, value, borrow_prev, borrow_prev_mut, copy_prev, consume_prev, lvalue,
  MemberFunction, is_prev_access, matches_member_receiver,
}
use yorch.Bind.{
  Param, input, Callable, no_signature, function, member, OutputArg, void_type, object,
  member_bind_callable, params_of, arity, inferable_direct_output_callable, ordinary_bind_callable,
  ordinary_member_bind_callable,
}
use yorch.Bind.Validate.{is_reference_or_void}

pub data BindForwardPrevError : Type 0 where
  ok invalid_output_type member_callable_not_supported : BindForwardPrevError
  direct_output_callable_not_supported callable_shape_invalid : BindForwardPrevError
  arity_mismatch invalid_result_type prev_access_count_invalid : BindForwardPrevError
  payload_type_mismatch binding_mode_not_supported : BindForwardPrevError

pub data BindForwardPrevMemberError : Type 0 where
  ok invalid_output_type callable_not_member : BindForwardPrevMemberError
  direct_output_member_not_supported arity_mismatch : BindForwardPrevMemberError
  invalid_result_type prev_access_count_invalid : BindForwardPrevMemberError
  payload_type_mismatch binding_mode_not_supported : BindForwardPrevMemberError

-- `forward_prev_prev_access_count_v`
unfoldable pub prev_access_count : List Spec → ℕ
unfolding is_prev_access
prev_access_count [] = 0
prev_access_count (spec ∷ specs) = (if is_prev_access spec then 1 else 0) + prev_access_count specs

-- `prev_access_spec_traits<Spec>::payload_type`, `none` for void
unfoldable pub payload_type : Spec → Option ℕ
payload_type (from_ctx t) = none
payload_type (value t) = none
payload_type (borrow_prev t) = some t
payload_type (borrow_prev_mut t) = some t
payload_type (copy_prev t) = some t
payload_type (consume_prev t) = some t

-- `forward_prev_unique_prev_payload_t`, `none` for void
unfoldable pub unique_prev_payload : List Spec → Option ℕ
unfolding is_prev_access payload_type
unique_prev_payload [] = none
unique_prev_payload (spec ∷ specs) =
    let rest = unique_prev_payload specs in
    if is_prev_access spec then elim rest [ none ↦ payload_type spec | some t ↦ none ] else rest

-- `std::is_same_v<T, forward_prev_unique_prev_payload_t<Specs...>>`
unfoldable pub payload_matches : OutputArg → Option ℕ → Bool
payload_matches void_type none = true
payload_matches (object t) (some u) = t == u
payload_matches _ _ = false

-- `forward_prev_spec_matches_binding_v<T, Arg, Spec>`
unfoldable pub spec_matches_binding : OutputArg → Param → Spec → Bool
spec_matches_binding (object t) (input (lvalue a)) (borrow_prev_mut u) = u == t && a == t
spec_matches_binding _ _ _ = false

-- `forward_prev_bindings_supported_impl`; there are as many parameters as specs.
unfoldable pub bindings_supported : OutputArg → List Param → List Spec → Bool
unfolding is_prev_access spec_matches_binding
bindings_supported t params [] = true
bindings_supported t [] (spec ∷ specs) = true
bindings_supported t (p ∷ params) (spec ∷ specs) =
    (not (is_prev_access spec) || spec_matches_binding t p spec)
    && bindings_supported t params specs

-- `forward_prev_member_receiver_binding_supported_v`
unfoldable pub receiver_supported : OutputArg → MemberFunction → Spec → Bool
unfolding matches_member_receiver
receiver_supported t f (from_ctx u) = true
receiver_supported t f (value u) = true
receiver_supported (object t) f (borrow_prev_mut u) =
    u == t && matches_member_receiver (borrow_prev_mut u) f
receiver_supported _ f _ = false

-- `std::is_void_v<result_t<F>> || std::is_same_v<result_t<F>, step_result>`
unfoldable pub is_void_or_step : RawResult → Bool
is_void_or_step void_result = true
is_void_or_step step_result = true
is_void_or_step (task_result t) = false
is_void_or_step (value_result t) = false

-- `result_t<F>`, `member_result_t<F>`; nothing asks for those of a type without traits.
abbrev pub result_of : Callable → RawResult
result_of no_signature = void_result
result_of (function s) = s.result
result_of (member f s) = s.result

-- `forward_prev_member_bindings_supported_impl`
unfoldable pub member_bindings_supported : OutputArg → Callable → Spec → List Spec → Bool
unfolding receiver_supported bindings_supported
member_bindings_supported t (member f s) receiver specs =
    receiver_supported t f receiver && bindings_supported t s.params specs
member_bindings_supported t _ receiver specs = false

module _ (t : OutputArg) (f : Callable) where
  unfoldable pub validate_bind_forward_prev : List Spec → BindForwardPrevError
  unfolding is_reference_or_void member_bind_callable inferable_direct_output_callable
      ordinary_bind_callable is_void_or_step prev_access_count payload_matches unique_prev_payload
      bindings_supported
  validate_bind_forward_prev specs =
      if is_reference_or_void t
      then BindForwardPrevError.invalid_output_type
      else (if member_bind_callable f
          then BindForwardPrevError.member_callable_not_supported
          else (if inferable_direct_output_callable f
              then BindForwardPrevError.direct_output_callable_not_supported
              else (if not (ordinary_bind_callable f)
                  then BindForwardPrevError.callable_shape_invalid
                  else (if not (length specs == arity f)
                      then BindForwardPrevError.arity_mismatch
                      else (if not (is_void_or_step (result_of f))
                          then BindForwardPrevError.invalid_result_type
                          else (if not (prev_access_count specs == 1)
                              then BindForwardPrevError.prev_access_count_invalid
                              else (if not (payload_matches t (unique_prev_payload specs))
                                  then BindForwardPrevError.payload_type_mismatch
                                  else (if not (bindings_supported t (params_of f) specs)
                                      then BindForwardPrevError.binding_mode_not_supported
                                      else BindForwardPrevError.ok))))))))

  unfoldable pub validate_bind_forward_prev_member : Spec → List Spec → BindForwardPrevMemberError
  unfolding is_reference_or_void member_bind_callable ordinary_member_bind_callable is_void_or_step
      prev_access_count payload_matches unique_prev_payload member_bindings_supported
  validate_bind_forward_prev_member receiver specs =
      if is_reference_or_void t
      then BindForwardPrevMemberError.invalid_output_type
      else (if not (member_bind_callable f)
          then BindForwardPrevMemberError.callable_not_member
          else (if not (ordinary_member_bind_callable f)
              then BindForwardPrevMemberError.direct_output_member_not_supported
              else (if not (length specs == arity f)
                  then BindForwardPrevMemberError.arity_mismatch
                  else (if not (is_void_or_step (result_of f))
                      then BindForwardPrevMemberError.invalid_result_type
                      else (if not (prev_access_count (receiver ∷ specs) == 1)
                          then BindForwardPrevMemberError.prev_access_count_invalid
                          else (if not (payload_matches t (unique_prev_payload (receiver ∷ specs)))
                              then BindForwardPrevMemberError.payload_type_mismatch
                              else (if not (member_bindings_supported t f receiver specs)
                                  then BindForwardPrevMemberError.binding_mode_not_supported
                                  else BindForwardPrevMemberError.ok)))))))

unfoldable pub forward_prev_ok : BindForwardPrevError → Bool
forward_prev_ok BindForwardPrevError.ok = true
forward_prev_ok _ = false

unfoldable pub forward_prev_member_ok : BindForwardPrevMemberError → Bool
forward_prev_member_ok BindForwardPrevMemberError.ok = true
forward_prev_member_ok _ = false
