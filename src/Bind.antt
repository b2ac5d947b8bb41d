-- ===== src/Bind.antt =====
-- Callables as the binding functions see them: include/yorch/detail/bind/traits.hpp. A concept is a
-- function to Bool.
pub mod Validate
pub mod ForwardPrev
pub mod Tasks
pub mod Adapters
pub mod Binders
pub mod Agreement
pub mod Forwarding
pub mod Protocols
pub mod Made
pub mod Calls
pub mod Complete
pub mod ForwardingCalls
use yorch.Base.{
  ℕ, ◌+◌, Bool, true, false, not, Option, none, some, List, [], ◌∷◌, length, ◌==◌, ◌&&◌, ltb,
}
use yorch.Task.{RawResult}
use yorch.Task.Access.{ArgType, MemberFunction}

-- A parameter's type: an argument, or `direct_out<T>`, which may be a const or a reference type; the
-- flag says that it is neither.
pub data Param : Type 0 where
  input : ArgType → Param
  out_param : ℕ → Bool → Param

-- `function_traits`, `member_function_traits`: the result type and the parameters
pub record Signature : Type 0 where
  pub result : RawResult
  pub params : List Param

-- A type without a specialisation of `function_traits` (not callable, generic or overloaded), a function
-- or an object with one call operator, and a pointer to a member function.
pub data Callable : Type 0 where
  no_signature : Callable
  function : Signature → Callable
  member : MemberFunction → Signature → Callable

-- The template argument `T` of `bind_into<T>` and its like.
pub data OutputArg : Type 0 where
  void_type : OutputArg
  reference_to object : ℕ → OutputArg

unfoldable pub bind_callable : Callable → Bool
bind_callable no_signature = false
bind_callable (function s) = true
bind_callable (member f s) = true

unfoldable pub member_bind_callable : Callable → Bool
member_bind_callable no_signature = false
member_bind_callable (function s) = false
member_bind_callable (member f s) = true

-- The traits' `params`; nothing asks for those of a type without traits.
abbrev pub params_of : Callable → List Param
params_of no_signature = []
params_of (function s) = s.params
params_of (member f s) = s.params

abbrev pub arity : Callable → ℕ
arity f = length (params_of f)

unfoldable pub last_param : List Param → Option Param
last_param [] = none
last_param (p ∷ []) = some p
last_param (p ∷ q ∷ params) = last_param (q ∷ params)

-- `last_arg_t`, `member_last_arg_t`
unfoldable pub last_arg : Callable → Option Param
unfolding last_param
last_arg f = last_param (params_of f)

-- `direct_out_arg_like`: the qualifiers of the type do not matter.
unfoldable pub direct_out_arg_like : Option Param → Bool
direct_out_arg_like none = false
direct_out_arg_like (some (input a)) = false
direct_out_arg_like (some (out_param t plain)) = true

-- `direct_out_payload_t`, which has a specialisation for the unqualified type only
unfoldable pub direct_out_payload : Option Param → Option ℕ
direct_out_payload none = none
direct_out_payload (some (input a)) = none
direct_out_payload (some (out_param t true)) = some t
direct_out_payload (some (out_param t false)) = none

-- `std::is_same_v<std::remove_cvref_t<last_arg_t<F>>, direct_out<T>>`
unfoldable pub is_direct_out_of : OutputArg → Option Param → Bool
is_direct_out_of (object t) (some (out_param u plain)) = u == t
is_direct_out_of _ _ = false

module _ (f : Callable) where
  unfoldable pub inferable_direct_output_callable : Bool
  unfolding bind_callable member_bind_callable last_arg direct_out_arg_like
  inferable_direct_output_callable =
      bind_callable f
      && not (member_bind_callable f)
      && ltb 0 (arity f)
      && direct_out_arg_like (last_arg f)

  unfoldable pub ordinary_bind_callable : Bool
  unfolding bind_callable member_bind_callable inferable_direct_output_callable
  ordinary_bind_callable =
      bind_callable f && not (member_bind_callable f) && not inferable_direct_output_callable

  unfoldable pub inferable_forward_prev_callable : Bool
  unfolding ordinary_bind_callable
  inferable_forward_prev_callable = ordinary_bind_callable

  unfoldable pub inferable_direct_output_member_callable : Bool
  unfolding member_bind_callable last_arg direct_out_arg_like
  inferable_direct_output_member_callable =
      member_bind_callable f && ltb 0 (arity f) && direct_out_arg_like (last_arg f)

  unfoldable pub ordinary_member_bind_callable : Bool
  unfolding member_bind_callable inferable_direct_output_member_callable
  ordinary_member_bind_callable =
      member_bind_callable f && not inferable_direct_output_member_callable

  -- The concepts on a callable and the number of specs, `sizeof...(Specs)`.
  unfoldable pub bind_signature_matches : ℕ → Bool
  unfolding ordinary_bind_callable
  bind_signature_matches specs = ordinary_bind_callable && arity f == specs

  unfoldable pub member_bound_signature_matches : ℕ → Bool
  unfolding ordinary_member_bind_callable
  member_bound_signature_matches specs = ordinary_member_bind_callable && arity f == specs

  unfoldable pub bind_into_signature_matches : OutputArg → ℕ → Bool
  unfolding inferable_direct_output_callable last_arg is_direct_out_of
  bind_into_signature_matches t specs =
      inferable_direct_output_callable && arity f == specs + 1 && is_direct_out_of t (last_arg f)

  unfoldable pub member_bound_into_signature_matches : OutputArg → ℕ → Bool
  unfolding inferable_direct_output_member_callable last_arg is_direct_out_of
  member_bound_into_signature_matches t specs =
      inferable_direct_output_member_callable
      && arity f == specs + 1
      && is_direct_out_of t (last_arg f)

  unfoldable pub inferred_bind_into_signature_matches : ℕ → Bool
  unfolding inferable_direct_output_callable
  inferred_bind_into_signature_matches specs =
      inferable_direct_output_callable && arity f == specs + 1

  unfoldable pub inferred_forward_prev_signature_matches : ℕ → Bool
  unfolding inferable_forward_prev_callable
  inferred_forward_prev_signature_matches specs =
      inferable_forward_prev_callable && arity f == specs

  unfoldable pub inferred_member_bound_into_signature_matches : ℕ → Bool
  unfolding inferable_direct_output_member_callable
  inferred_member_bound_into_signature_matches specs =
      inferable_direct_output_member_callable && arity f == specs + 1
