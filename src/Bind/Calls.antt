-- ===== src/Bind/Calls.antt =====
-- Which calls of the binders make a task, and what every task that they make keeps to.
use yorch.Base.{◌≡◌, refl, true, some, List, [], ◌∷◌, arith, ◌∙◌, sym}
use yorch.Task.{
  OutputProtocol, TaskType, step_result, forward_prev_output, uses_forward_prev, raw_output,
}
use yorch.Task.Access.{Spec}
use yorch.Validation.Sources.{is_void}
use yorch.Run.Contract.{protocol_fits}
use yorch.Bind.{Callable}
use yorch.Bind.Tasks.{bound_task, bound_output_task, bound_forward_prev_task}
use yorch.Bind.Adapters.{
  AdapterDesc, catch_as_failure_desc, catch_with_policy_desc, retry_desc, apply_adapter,
  apply_adapters,
}
use yorch.Bind.Binders.{BinderKind, call_binder}
use yorch.Bind.Protocols.{IsForwarding, apply_adapters-IsForwarding}
use yorch.Bind.Made.{IsBound, returning, sinking, forwarding, protocol_of, call_binder-FromBound}

-- A task's type fits its protocol, and one that forwards returns a `step_result`.
record KeepsProtocol (made : TaskType) : Type 0 where
  fits : protocol_fits made ≡ true
  steps : uses_forward_prev made ≡ true → made.raw_result ≡ step_result

apply_adapter-KeepsProtocol :
    (desc : AdapterDesc) (made : TaskType)
    → KeepsProtocol made
    → KeepsProtocol (apply_adapter desc made)
unfolding apply_adapter protocol_fits uses_forward_prev raw_output is_void
apply_adapter-KeepsProtocol catch_as_failure_desc made keeps = record {
  fits = ground (arith, keeps.fits, keeps.steps);
  steps = λ forwards. rw (keeps.steps forwards) refl;
}
apply_adapter-KeepsProtocol (catch_with_policy_desc r) made keeps = record {
  fits = ground (arith, keeps.fits, keeps.steps);
  steps = λ forwards. rw (keeps.steps forwards) refl;
}
apply_adapter-KeepsProtocol retry_desc made keeps = record {
  fits = keeps.fits;
  steps = keeps.steps;
}

apply_adapters-KeepsProtocol :
    (chain : List AdapterDesc) (made : TaskType)
    → KeepsProtocol made
    → KeepsProtocol (apply_adapters chain made)
unfolding apply_adapters
apply_adapters-KeepsProtocol [] made keeps = keeps
apply_adapters-KeepsProtocol (desc ∷ chain) made keeps =
    apply_adapters-KeepsProtocol chain (apply_adapter desc made)
      (apply_adapter-KeepsProtocol desc made keeps)

module _ {protocol : OutputProtocol} {inner : TaskType} where
  IsBound-KeepsProtocol : IsBound protocol inner → KeepsProtocol inner
  unfolding bound_task bound_output_task bound_forward_prev_task protocol_fits uses_forward_prev
      raw_output is_void
  IsBound-KeepsProtocol (returning r b p e) = rw e (record { fits = refl; steps = λ h. cc })
  IsBound-KeepsProtocol (sinking t b p e) = rw e (record { fits = refl; steps = λ h. cc })
  IsBound-KeepsProtocol (forwarding t b p e v) = rw e (record { fits = refl; steps = λ h. refl })

  IsBound-protocol : IsBound protocol inner → inner.output_protocol ≡ protocol
  unfolding bound_task bound_output_task bound_forward_prev_task
  IsBound-protocol (returning r b p e) = rw (e, p) refl
  IsBound-protocol (sinking t b p e) = rw (e, p) refl
  IsBound-protocol (forwarding t b p e v) = rw (e, p) refl

  IsBound-IsForwarding :
      IsBound protocol inner → protocol ≡ forward_prev_output → IsForwarding inner
  IsBound-IsForwarding (returning r b p e) h = cc
  IsBound-IsForwarding (sinking t b p e) h = cc
  IsBound-IsForwarding (forwarding t b p e v) h = v

apply_adapters-protocol :
    (chain : List AdapterDesc) (made : TaskType)
    → (apply_adapters chain made).output_protocol ≡ made.output_protocol
unfolding apply_adapters apply_adapter
apply_adapters-protocol [] made = refl
apply_adapters-protocol (catch_as_failure_desc ∷ chain) made = apply_adapters-protocol chain _
apply_adapters-protocol (catch_with_policy_desc r ∷ chain) made = apply_adapters-protocol chain _
apply_adapters-protocol (retry_desc ∷ chain) made = apply_adapters-protocol chain _

module _ (f : Callable) (chain : List AdapterDesc) (kind : BinderKind) (specs : List Spec)
    {made : TaskType} where
  -- Whatever callable, specs and adapters: the task that a binder makes has a type that fits its output
  -- protocol.
  pub call_binder-protocol_fits :
      call_binder f chain kind specs ≡ some made → protocol_fits made ≡ true
  call_binder-protocol_fits e =
      let (inner, same, b) = call_binder-FromBound f chain specs kind e in
      rw same (apply_adapters-KeepsProtocol chain inner (IsBound-KeepsProtocol b)).fits

  -- The protocol of a task says which binder made it, whatever adapters are around it.
  pub call_binder-protocol :
      call_binder f chain kind specs ≡ some made → made.output_protocol ≡ protocol_of kind
  call_binder-protocol e =
      let (inner, same, b) = call_binder-FromBound f chain specs kind e in
      rw same (apply_adapters-protocol chain inner ∙ IsBound-protocol b)

  -- A task that a binder makes and that forwards its parent's output has one access to it, a mutable
  -- borrow, which is valid, also inside adapters.
  pub call_binder-IsForwarding :
      call_binder f chain kind specs ≡ some made
      → made.output_protocol ≡ forward_prev_output
      → IsForwarding made
  call_binder-IsForwarding e forwards =
      let (inner, same, b) = call_binder-FromBound f chain specs kind e in
      let forwards' = sym (call_binder-protocol e) ∙ forwards in
      rw same (apply_adapters-IsForwarding chain inner (IsBound-IsForwarding b forwards'))
