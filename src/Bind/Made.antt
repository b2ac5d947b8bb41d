-- ===== src/Bind/Made.antt =====
-- The tasks that the binders of include/yorch/bind/builders/core.hpp make.
use yorch.Base.{
  ℕ, ◌≡◌, refl, Bool, Option, none, some, List, ◌∷◌, length, ◌>>=◌, if-eq-some, >>=-eq-some,
  if◌then◌else◌,
}
use yorch.Task.{
  OutputProtocol, TaskType, RawResult, no_declared_output, direct_output, forward_prev_output,
}
use yorch.Task.Access.{Spec, TaskBinding}
use yorch.Bind.{
  Callable, object, last_arg, direct_out_payload, bind_signature_matches,
  member_bound_signature_matches, inferred_bind_into_signature_matches,
  inferred_forward_prev_signature_matches, inferred_member_bound_into_signature_matches,
}
use yorch.Bind.ForwardPrev.{
  result_of, unique_prev_payload, forward_prev_ok, forward_prev_member_ok,
  validate_bind_forward_prev, validate_bind_forward_prev_member,
}
use yorch.Bind.Validate.{
  validate_bind, validate_bind_into, validate_bind_member, validate_bind_into_member, bind_ok,
  bind_into_ok, bind_member_ok, bind_into_member_ok,
}
use yorch.Bind.Tasks.{
  bindings, member_bindings, bind, bind_into, bind_member, bind_into_member, bind_forward_prev,
  bind_forward_prev_member, bound_task, bound_output_task, bound_forward_prev_task,
}
use yorch.Bind.Adapters.{AdapterDesc, apply_adapters}
use yorch.Bind.Binders.{
  adapted, BinderKind, task, into, forward_prev, task_member, into_member, forward_prev_member,
  call_task, call_into, call_forward_prev, call_member, call_into_member, call_forward_prev_member,
  call_binder,
}
use yorch.Bind.Protocols.{
  IsForwarding, bind_forward_prev-IsForwarding, bind_forward_prev_member-IsForwarding,
}

-- The three kinds of bound tasks by their protocols; one that forwards the parent's output has passed its
-- checks.
pub data IsBound (protocol : OutputProtocol) (made : TaskType) : Type 0 where
  returning :
      (r : RawResult) (b : TaskBinding)
      → protocol ≡ no_declared_output
      → made ≡ bound_task r b
      → IsBound protocol made
  sinking :
      (t : ℕ) (b : TaskBinding)
      → protocol ≡ direct_output
      → made ≡ bound_output_task (object t) b
      → IsBound protocol made
  forwarding :
      (t : ℕ) (b : TaskBinding)
      → protocol ≡ forward_prev_output
      → made ≡ bound_forward_prev_task (object t) b
      → IsForwarding made
      → IsBound protocol made

-- The protocol of the tasks that a binder makes.
abbrev pub protocol_of : BinderKind → OutputProtocol
protocol_of task = no_declared_output
protocol_of into = direct_output
protocol_of forward_prev = forward_prev_output
protocol_of (task_member receiver) = no_declared_output
protocol_of (into_member receiver) = direct_output
protocol_of (forward_prev_member receiver) = forward_prev_output

-- A task that some binder makes is a bound task in the adapters of the chain.
abbrev pub FromBound : List AdapterDesc → OutputProtocol → TaskType → Type 0
FromBound chain protocol made =
    (inner : TaskType) × (made ≡ apply_adapters chain inner) × IsBound protocol inner

module _ (f : Callable) (chain : List AdapterDesc) where
  adapted-FromBound :
      {protocol : OutputProtocol} (bound : Option TaskType) {made : TaskType}
      → ((inner : TaskType) → bound ≡ some inner → IsBound protocol inner)
      → adapted f chain bound ≡ some made
      → FromBound chain protocol made
  unfolding adapted
  adapted-FromBound (some inner) each e = (inner, cc, each inner refl)
  adapted-FromBound none each e = cc

  module _ (specs : List Spec) where
    bind-IsBound : (inner : TaskType) → bind f specs ≡ some inner → IsBound no_declared_output inner
    unfolding bind
    bind-IsBound inner e =
        let (_, made) = if-eq-some (bind_ok (validate_bind f (length specs))) e in
        returning (result_of f) (bindings f specs) refl (cc)

    bind_into-IsBound :
        (t : ℕ) (inner : TaskType)
        → bind_into f (object t) specs ≡ some inner
        → IsBound direct_output inner
    unfolding bind_into
    bind_into-IsBound t inner e =
        let (_, made) =
          if-eq-some (bind_into_ok (validate_bind_into f (length specs) (object t))) e in
        sinking t (bindings f specs) refl (cc)

    bind_forward_prev-IsBound :
        (t : ℕ) (inner : TaskType)
        → bind_forward_prev f (object t) specs ≡ some inner
        → IsBound forward_prev_output inner
    unfolding bind_forward_prev
    bind_forward_prev-IsBound t inner e =
        let (_, made) =
          if-eq-some (forward_prev_ok (validate_bind_forward_prev (object t) f specs)) e in
        forwarding t (bindings f specs) refl (cc)
          (bind_forward_prev-IsForwarding (object t) f specs e)

    module _ (receiver : Spec) where
      bind_member-IsBound :
          (inner : TaskType)
          → bind_member f receiver specs ≡ some inner
          → IsBound no_declared_output inner
      unfolding bind_member
      bind_member-IsBound inner e =
          let (_, made) = if-eq-some (bind_member_ok (validate_bind_member f (length specs))) e in
          returning (result_of f) (member_bindings f receiver specs) refl (cc)

      bind_into_member-IsBound :
          (t : ℕ) (inner : TaskType)
          → bind_into_member f (object t) receiver specs ≡ some inner
          → IsBound direct_output inner
      unfolding bind_into_member
      bind_into_member-IsBound t inner e =
          let (_, made) =
            if-eq-some (bind_into_member_ok (validate_bind_into_member f (length specs) (object t)))
              e in
          sinking t (member_bindings f receiver specs) refl (cc)

      bind_forward_prev_member-IsBound :
          (t : ℕ) (inner : TaskType)
          → bind_forward_prev_member f (object t) receiver specs ≡ some inner
          → IsBound forward_prev_output inner
      unfolding bind_forward_prev_member
      bind_forward_prev_member-IsBound t inner e =
          let (_, made) =
            if-eq-some
              (forward_prev_member_ok
                (validate_bind_forward_prev_member (object t) f receiver specs))
              e in
          forwarding t (member_bindings f receiver specs) refl (cc)
            (bind_forward_prev_member-IsForwarding (object t) f receiver specs e)

    -- A guard and an inferred output type before the bound task.
    inferred-FromBound :
        {protocol : OutputProtocol} (matches : Bool) (inferred : Option ℕ)
        (make : ℕ → Option TaskType) {made : TaskType}
        → ((t : ℕ) (inner : TaskType) → make t ≡ some inner → IsBound protocol inner)
        → (if matches then (inferred >>= λ t. adapted f chain (make t)) else none) ≡ some made
        → FromBound chain protocol made
    inferred-FromBound matches inferred make each e =
        let (_, tail) = if-eq-some matches e in
        let (t, _, last) = >>=-eq-some inferred (λ t. adapted f chain (make t)) tail in
        adapted-FromBound (make t) (each t) last

    pub call_binder-FromBound :
        (kind : BinderKind) {made : TaskType}
        → call_binder f chain kind specs ≡ some made
        → FromBound chain (protocol_of kind) made
    unfolding call_binder call_task call_into call_forward_prev call_member call_into_member
        call_forward_prev_member
    call_binder-FromBound task e =
        adapted-FromBound (bind f specs) bind-IsBound
          (if-eq-some (bind_signature_matches f (length specs)) e).1
    call_binder-FromBound into e =
        inferred-FromBound (inferred_bind_into_signature_matches f (length specs))
          (direct_out_payload (last_arg f)) (λ t. bind_into f (object t) specs) bind_into-IsBound e
    call_binder-FromBound forward_prev e =
        inferred-FromBound (inferred_forward_prev_signature_matches f (length specs))
          (unique_prev_payload specs) (λ t. bind_forward_prev f (object t) specs)
          bind_forward_prev-IsBound e
    call_binder-FromBound (task_member receiver) e =
        adapted-FromBound (bind_member f receiver specs) (bind_member-IsBound receiver)
          (if-eq-some (member_bound_signature_matches f (length specs)) e).1
    call_binder-FromBound (into_member receiver) e =
        inferred-FromBound (inferred_member_bound_into_signature_matches f (length specs))
          (direct_out_payload (last_arg f)) (λ t. bind_into_member f (object t) receiver specs)
          (bind_into_member-IsBound receiver) e
    call_binder-FromBound (forward_prev_member receiver) e =
        inferred-FromBound (member_bound_signature_matches f (length specs))
          (unique_prev_payload (receiver ∷ specs))
          (λ t. bind_forward_prev_member f (object t) receiver specs)
          (bind_forward_prev_member-IsBound receiver) e
