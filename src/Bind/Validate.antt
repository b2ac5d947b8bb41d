-- ===== src/Bind/Validate.antt =====
-- include/yorch/detail/bind/tasks/validate.hpp: the first thing that is wrong with a call of `bind`,
-- `bind_into`, `bind_member` or `bind_into_member`.
use yorch.Base.{ℕ, ◌+◌, Bool, true, false, not, ◌==◌, if◌then◌else◌}
use yorch.Bind.{
  Callable, OutputArg, void_type, reference_to, object, bind_callable, member_bind_callable, arity,
  last_arg, is_direct_out_of, ordinary_bind_callable, ordinary_member_bind_callable,
}

pub data BindError : Type 0 where
  ok member_callable_not_supported callable_shape_invalid arity_mismatch : BindError

pub data BindIntoError : Type 0 where
  ok invalid_output_type member_callable_not_supported callable_shape_invalid : BindIntoError
  missing_output_parameter arity_mismatch last_parameter_not_direct_out : BindIntoError

pub data BindMemberError : Type 0 where
  ok callable_not_member direct_output_member_not_supported arity_mismatch : BindMemberError

pub data BindIntoMemberError : Type 0 where
  ok invalid_output_type callable_not_member missing_output_parameter : BindIntoMemberError
  arity_mismatch last_parameter_not_direct_out : BindIntoMemberError

-- `std::is_reference_v<T> || std::is_void_v<T>`
unfoldable pub is_reference_or_void : OutputArg → Bool
is_reference_or_void void_type = true
is_reference_or_void (reference_to t) = true
is_reference_or_void (object t) = false

-- `specs` is `sizeof...(Specs)`.
module _ (f : Callable) (specs : ℕ) where
  unfoldable pub validate_bind : BindError
  unfolding member_bind_callable ordinary_bind_callable
  validate_bind =
      if member_bind_callable f
      then BindError.member_callable_not_supported
      else (if not (ordinary_bind_callable f)
          then BindError.callable_shape_invalid
          else (if not (specs == arity f) then BindError.arity_mismatch else BindError.ok))

  unfoldable pub validate_bind_into : OutputArg → BindIntoError
  unfolding is_reference_or_void member_bind_callable bind_callable last_arg is_direct_out_of
  validate_bind_into t =
      if is_reference_or_void t
      then BindIntoError.invalid_output_type
      else (if member_bind_callable f
          then BindIntoError.member_callable_not_supported
          else (if not (bind_callable f)
              then BindIntoError.callable_shape_invalid
              else (if arity f == 0
                  then BindIntoError.missing_output_parameter
                  else (if not (specs + 1 == arity f)
                      then BindIntoError.arity_mismatch
                      else (if not (is_direct_out_of t (last_arg f))
                          then BindIntoError.last_parameter_not_direct_out
                          else BindIntoError.ok)))))

  unfoldable pub validate_bind_member : BindMemberError
  unfolding member_bind_callable ordinary_member_bind_callable
  validate_bind_member =
      if not (member_bind_callable f)
      then BindMemberError.callable_not_member
      else (if not (ordinary_member_bind_callable f)
          then BindMemberError.direct_output_member_not_supported
          else (if not (specs == arity f)
              then BindMemberError.arity_mismatch
              else BindMemberError.ok))

  unfoldable pub validate_bind_into_member : OutputArg → BindIntoMemberError
  unfolding is_reference_or_void member_bind_callable last_arg is_direct_out_of
  validate_bind_into_member t =
      if is_reference_or_void t
      then BindIntoMemberError.invalid_output_type
      else (if not (member_bind_callable f)
          then BindIntoMemberError.callable_not_member
          else (if arity f == 0
              then BindIntoMemberError.missing_output_parameter
              else (if not (specs + 1 == arity f)
                  then BindIntoMemberError.arity_mismatch
                  else (if not (is_direct_out_of t (last_arg f))
                      then BindIntoMemberError.last_parameter_not_direct_out
                      else BindIntoMemberError.ok))))

-- `error == ...::ok`, where the diagnostics return
unfoldable pub bind_ok : BindError → Bool
bind_ok BindError.ok = true
bind_ok _ = false

unfoldable pub bind_into_ok : BindIntoError → Bool
bind_into_ok BindIntoError.ok = true
bind_into_ok _ = false

unfoldable pub bind_member_ok : BindMemberError → Bool
bind_member_ok BindMemberError.ok = true
bind_member_ok _ = false

unfoldable pub bind_into_member_ok : BindIntoMemberError → Bool
bind_into_member_ok BindIntoMemberError.ok = true
bind_into_member_ok _ = false
