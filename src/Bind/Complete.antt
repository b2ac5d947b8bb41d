-- ===== src/Bind/Complete.antt =====
-- When the calls of the binders compile.
use yorch.Base.{
  ℕ, ◌≡◌, refl, Bool, true, false, not, Option, none, some, List, length, ◌==◌, ◌&&◌, arith, ◌∙◌,
  ◌>>=◌, if◌then◌else◌,
}
use yorch.Task.{TaskType}
use yorch.Task.Access.{Spec}
use yorch.Bind.{
  Param, input, out_param, Callable, object, params_of, last_arg, direct_out_payload,
  is_direct_out_of, bind_signature_matches, member_bound_signature_matches,
  bind_into_signature_matches, member_bound_into_signature_matches,
  inferred_bind_into_signature_matches, inferred_forward_prev_signature_matches,
  inferred_member_bound_into_signature_matches,
}
use yorch.Validation.Sources.{is_void}
use yorch.Bind.Validate.{is_reference_or_void}
use yorch.Bind.ForwardPrev.{
  result_of, is_void_or_step, prev_access_count, unique_prev_payload, payload_matches,
  bindings_supported, validate_bind_forward_prev, forward_prev_ok,
}
use yorch.Bind.Agreement.{concepts_agree}
use yorch.Bind.Tasks.{bind, bind_member, bind_into, bind_into_member, bind_forward_prev}
use yorch.Bind.Adapters.{AdapterDesc}
use yorch.Bind.Binders.{
  adapted, call_task, call_into, call_forward_prev, call_member, call_into_member,
}

-- Whether a call compiles.
abbrev pub compiles : Option TaskType → Bool
compiles none = false
compiles (some made) = true

payload-is_direct_out :
    (p : Option Param) (t : ℕ)
    → direct_out_payload p ≡ some t
    → is_direct_out_of (object t) p ≡ true
unfolding direct_out_payload is_direct_out_of
payload-is_direct_out (some (out_param u true)) t e = ground arith
payload-is_direct_out (some (out_param u false)) t e = cc
payload-is_direct_out (some (input a)) t e = cc
payload-is_direct_out none t e = cc

module _ (f : Callable) (chain : List AdapterDesc) where
  compiles-adapted : (made : Option TaskType) → compiles (adapted f chain made) ≡ compiles made
  unfolding adapted
  compiles-adapted none = refl
  compiles-adapted (some inner) = refl

  module _ (specs : List Spec) where
    compiles-bind : compiles (bind f specs) ≡ bind_signature_matches f (length specs)
    unfolding bind
    compiles-bind = ground (arith, (concepts_agree f (length specs)).0)

    -- The call of `task(f, adapters)` with specs compiles exactly when its `requires` clause holds.
    compiles-call_task :
        compiles (call_task f chain specs) ≡ bind_signature_matches f (length specs)
    unfolding call_task
    compiles-call_task = ground (arith, compiles-bind, compiles-adapted (bind f specs))

    compiles-bind_into :
        (t : ℕ)
        → compiles (bind_into f (object t) specs)
          ≡ bind_into_signature_matches f (object t) (length specs)
    unfolding bind_into
    compiles-bind_into t = ground (arith, ((concepts_agree f (length specs)).2 (object t)).0)

    compiles-inferred :
        (matches : Bool) (inferred : Option ℕ) (make : ℕ → Option TaskType)
        → ((t : ℕ) → inferred ≡ some t → compiles (make t) ≡ matches)
        → compiles (if matches then (inferred >>= λ t. adapted f chain (make t)) else none)
          ≡ (matches && not (is_void inferred))
    unfolding is_void
    compiles-inferred false inferred make each = refl
    compiles-inferred true none make each = refl
    compiles-inferred true (some t) make each = compiles-adapted (make t) ∙ each t refl

    into_matches :
        (t : ℕ)
        → direct_out_payload (last_arg f) ≡ some t
        → bind_into_signature_matches f (object t) (length specs)
          ≡ inferred_bind_into_signature_matches f (length specs)
    unfolding bind_into_signature_matches inferred_bind_into_signature_matches
    into_matches t e = ground (arith, payload-is_direct_out (last_arg f) t)

    compiles-call_into : compiles (call_into f chain specs) ≡ (
        inferred_bind_into_signature_matches f (length specs)
        && not (is_void (direct_out_payload (last_arg f))))
    unfolding call_into
    compiles-call_into =
        compiles-inferred (inferred_bind_into_signature_matches f (length specs))
          (direct_out_payload (last_arg f)) (λ t. bind_into f (object t) specs)
          (λ t e. compiles-bind_into t ∙ into_matches t e)

    module _ (receiver : Spec) where
      compiles-bind_member :
          compiles (bind_member f receiver specs) ≡ member_bound_signature_matches f (length specs)
      unfolding bind_member
      compiles-bind_member = ground (arith, (concepts_agree f (length specs)).1)

      compiles-call_member :
          compiles (call_member f chain receiver specs)
          ≡ member_bound_signature_matches f (length specs)
      unfolding call_member
      compiles-call_member =
          ground (arith, compiles-bind_member, compiles-adapted (bind_member f receiver specs))

      compiles-bind_into_member :
          (t : ℕ)
          → compiles (bind_into_member f (object t) receiver specs)
            ≡ member_bound_into_signature_matches f (object t) (length specs)
      unfolding bind_into_member
      compiles-bind_into_member t =
          ground (arith, ((concepts_agree f (length specs)).2 (object t)).1)

      into_member_matches :
          (t : ℕ)
          → direct_out_payload (last_arg f) ≡ some t
          → member_bound_into_signature_matches f (object t) (length specs)
            ≡ inferred_member_bound_into_signature_matches f (length specs)
      unfolding member_bound_into_signature_matches inferred_member_bound_into_signature_matches
      into_member_matches t e = ground (arith, payload-is_direct_out (last_arg f) t)

      compiles-call_into_member : compiles (call_into_member f chain receiver specs) ≡ (
          inferred_member_bound_into_signature_matches f (length specs)
          && not (is_void (direct_out_payload (last_arg f))))
      unfolding call_into_member
      compiles-call_into_member =
          compiles-inferred (inferred_member_bound_into_signature_matches f (length specs))
            (direct_out_payload (last_arg f)) (λ t. bind_into_member f (object t) receiver specs)
            (λ t e. compiles-bind_into_member t ∙ into_member_matches t e)

    -- The calls with specs of `task` and `task_member` compile exactly when their `requires` clauses hold; those
    -- of `task_into` and `task_into_member`, when besides the sink is a parameter of the type
    -- `direct_out<T>` itself, not a reference to it and not const.
    pub calls_compile :
        (compiles (call_task f chain specs) ≡ bind_signature_matches f (length specs))
        × (compiles (call_into f chain specs) ≡ (
            inferred_bind_into_signature_matches f (length specs)
            && not (is_void (direct_out_payload (last_arg f)))))
        × ((receiver : Spec)
            → (compiles (call_member f chain receiver specs)
                ≡ member_bound_signature_matches f (length specs))
              × (compiles (call_into_member f chain receiver specs) ≡ (
                  inferred_member_bound_into_signature_matches f (length specs)
                  && not (is_void (direct_out_payload (last_arg f))))))
    calls_compile = (
      compiles-call_task,
      compiles-call_into,
      λ receiver. (compiles-call_member receiver, compiles-call_into_member receiver),
    )

    forward_prev_ok-inferred :
        (u : ℕ)
        → unique_prev_payload specs ≡ some u
        → inferred_forward_prev_signature_matches f (length specs) ≡ true
        → forward_prev_ok (validate_bind_forward_prev (object u) f specs) ≡ (
            is_void_or_step (result_of f)
            && prev_access_count specs == 1
            && bindings_supported (object u) (params_of f) specs)
    unfolding forward_prev_ok validate_bind_forward_prev inferred_forward_prev_signature_matches
        payload_matches is_reference_or_void
    forward_prev_ok-inferred u e matches = ground arith

    -- The call of `task_forward_prev(f, adapters)` with specs for which the binder infers an output type `u`, in
    -- the terms of the checks.
    pub compiles-call_forward_prev :
        (u : ℕ)
        → unique_prev_payload specs ≡ some u
        → compiles (call_forward_prev f chain specs) ≡ (
            inferred_forward_prev_signature_matches f (length specs)
            && is_void_or_step (result_of f)
            && prev_access_count specs == 1
            && bindings_supported (object u) (params_of f) specs)
    unfolding call_forward_prev bind_forward_prev
    compiles-call_forward_prev u e = ground (
      arith,
      forward_prev_ok-inferred u e,
      compiles-adapted (bind_forward_prev f (object u) specs),
    )
