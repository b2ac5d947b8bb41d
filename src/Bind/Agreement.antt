-- ===== src/Bind/Agreement.antt =====
-- The concepts of include/yorch/detail/bind/traits.hpp against the checks of
-- include/yorch/detail/bind/tasks/validate.hpp.
use yorch.Base.{ℕ, ◌≡◌, refl, true, false, Option, some, arith}
use yorch.Bind.{
  Param, out_param, Callable, OutputArg, void_type, reference_to, object, last_arg,
  direct_out_arg_like, is_direct_out_of, inferable_direct_output_callable, ordinary_bind_callable,
  inferable_direct_output_member_callable, ordinary_member_bind_callable, bind_signature_matches,
  member_bound_signature_matches, bind_into_signature_matches, member_bound_into_signature_matches,
}
use yorch.Bind.Validate.{
  is_reference_or_void, validate_bind, validate_bind_into, validate_bind_member,
  validate_bind_into_member, bind_ok, bind_into_ok, bind_member_ok, bind_into_member_ok,
}

pub direct_out_like :
    (t : OutputArg) (p : Option Param) → is_direct_out_of t p ≡ true → direct_out_arg_like p ≡ true
unfolding is_direct_out_of direct_out_arg_like
direct_out_like (object t) (some (out_param u plain)) h = refl
direct_out_like t p h = ground arith

never_direct_out :
    (t : OutputArg) (p : Option Param)
    → is_reference_or_void t ≡ true
    → is_direct_out_of t p ≡ false
unfolding is_direct_out_of is_reference_or_void
never_direct_out void_type p h = refl
never_direct_out (reference_to t) p h = refl
never_direct_out (object t) p h = cc

module _ (f : Callable) (specs : ℕ) where
  validate_bind-agrees : bind_signature_matches f specs ≡ bind_ok (validate_bind f specs)
  unfolding bind_signature_matches validate_bind bind_ok ordinary_bind_callable
  validate_bind-agrees = ground arith

  validate_bind_member-agrees :
      member_bound_signature_matches f specs ≡ bind_member_ok (validate_bind_member f specs)
  unfolding member_bound_signature_matches validate_bind_member bind_member_ok
      ordinary_member_bind_callable
  validate_bind_member-agrees = ground arith

  module _ (t : OutputArg) where
    validate_bind_into-agrees :
        bind_into_signature_matches f t specs ≡ bind_into_ok (validate_bind_into f specs t)
    unfolding bind_into_signature_matches validate_bind_into bind_into_ok
        inferable_direct_output_callable
    validate_bind_into-agrees =
        ground (arith, direct_out_like t (last_arg f), never_direct_out t (last_arg f))

    validate_bind_into_member-agrees :
        member_bound_into_signature_matches f t specs
        ≡ bind_into_member_ok (validate_bind_into_member f specs t)
    unfolding member_bound_into_signature_matches validate_bind_into_member bind_into_member_ok
        inferable_direct_output_member_callable
    validate_bind_into_member-agrees =
        ground (arith, direct_out_like t (last_arg f), never_direct_out t (last_arg f))

  -- Each concept on a callable and a number of specs holds exactly when the checks of the function
  -- that it guards find nothing wrong: `bind`, `bind_member`, and `bind_into` and `bind_into_member` with any
  -- output type.
  pub concepts_agree :
      (bind_signature_matches f specs ≡ bind_ok (validate_bind f specs))
      × (member_bound_signature_matches f specs ≡ bind_member_ok (validate_bind_member f specs))
      × ((t : OutputArg)
          → (bind_into_signature_matches f t specs ≡ bind_into_ok (validate_bind_into f specs t))
            × (member_bound_into_signature_matches f t specs
                ≡ bind_into_member_ok (validate_bind_into_member f specs t)))
  concepts_agree = (
    validate_bind-agrees,
    validate_bind_member-agrees,
    λ t. (validate_bind_into-agrees t, validate_bind_into_member-agrees t),
  )
