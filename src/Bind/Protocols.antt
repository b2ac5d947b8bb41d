-- ===== src/Bind/Protocols.antt =====
-- What holds of every task that a binder makes, whatever adapters are put around it.
use yorch.Base.{
  ℕ, ◌≡◌, refl, true, some, List, [], ◌∷◌, length, arith, ◌∙◌, ap, subst, if-eq-some, if◌then◌else◌,
}
use yorch.Task.{TaskType}
use yorch.Task.Access.{
  Spec, TaskBinding, MemberFunction, access_summary, access_valid, bindings_valid, receiver_valid,
  is_locally_valid, summarize_task_binding, summarize_specs, is_prev_access, no_access,
}
use yorch.Bind.{
  Signature, Callable, no_signature, function, member, OutputArg, params_of, member_bind_callable,
}
use yorch.Bind.ForwardPrev.{
  prev_access_count, bindings_supported, member_bindings_supported, receiver_supported,
  forward_prev_ok, forward_prev_member_ok, validate_bind_forward_prev,
  validate_bind_forward_prev_member,
}
use yorch.Bind.Forwarding.{
  supported-specs_valid, summarize-supported, with_mutable, summarize-may_forward, with_mutable_add,
  receiver_supported-may_forward, receiver_supported-receiver_valid,
}
use yorch.Bind.Tasks.{
  with_args, bindings, member_bindings, bound_forward_prev_task, bind_forward_prev,
  bind_forward_prev_member,
}
use yorch.Bind.Adapters.{
  AdapterDesc, catch_as_failure_desc, catch_with_policy_desc, retry_desc, apply_adapter,
  apply_adapters,
}

-- A task with one access to its parent's output, a mutable borrow.
pub record IsForwarding (task : TaskType) : Type 0 where
  pub valid : access_valid task.form ≡ true
  pub single : (access_summary task.form).prev_access_count ≡ 1
  pub mutable : (access_summary task.form).borrow_prev_mut_count ≡ 1
  pub exclusive : (access_summary task.form).exclusive_prev_access_count ≡ 1
  pub kept : (access_summary task.form).consume_prev_count ≡ 0

one_mutable_access :
    (t : OutputArg) (b : TaskBinding)
    → bindings_valid b ≡ true
    → summarize_task_binding b ≡ with_mutable no_access 1
    → IsForwarding (bound_forward_prev_task t b)
unfolding bound_forward_prev_task access_summary access_valid is_locally_valid
one_mutable_access t b valid summary = record {
  valid = rw (valid, summary) refl;
  single = rw summary refl;
  mutable = rw summary refl;
  exclusive = rw summary refl;
  kept = rw summary refl;
}

module _ (t : OutputArg) (f : Callable) (specs : List Spec) where
  validated :
      forward_prev_ok (validate_bind_forward_prev t f specs) ≡ true
      → (length specs ≡ length (params_of f))
        × (prev_access_count specs ≡ 1)
        × (bindings_supported t (params_of f) specs ≡ true)
  unfolding forward_prev_ok validate_bind_forward_prev
  validated ok = ground arith

  bindings-IsForwarding :
      forward_prev_ok (validate_bind_forward_prev t f specs) ≡ true
      → IsForwarding (bound_forward_prev_task t (bindings f specs))
  unfolding bindings bindings_valid receiver_valid summarize_task_binding
  bindings-IsForwarding ok =
      let (same, one, supported) = validated ok in
      one_mutable_access t (bindings f specs)
        (supported-specs_valid t (params_of f) specs supported)
        (summarize-supported t (params_of f) specs no_access same supported
          ∙ ap (with_mutable no_access) one)

  pub bind_forward_prev-IsForwarding :
      {task : TaskType} → bind_forward_prev f t specs ≡ some task → IsForwarding task
  unfolding bind_forward_prev
  bind_forward_prev-IsForwarding e =
      let (ok, same) = if-eq-some (forward_prev_ok (validate_bind_forward_prev t f specs)) e in
      subst IsForwarding (cc) (bindings-IsForwarding ok)

module _ (t : OutputArg) (g : MemberFunction) (s : Signature) (receiver : Spec)
    (specs : List Spec) where
  validated_member :
      forward_prev_member_ok (validate_bind_forward_prev_member t (member g s) receiver specs)
        ≡ true
      → (length specs ≡ length s.params)
        × (prev_access_count (receiver ∷ specs) ≡ 1)
        × (receiver_supported t g receiver ≡ true)
        × (bindings_supported t s.params specs ≡ true)
  unfolding forward_prev_member_ok validate_bind_forward_prev_member member_bindings_supported
  validated_member ok = ground arith

  member_bindings-IsForwarding :
      forward_prev_member_ok (validate_bind_forward_prev_member t (member g s) receiver specs)
        ≡ true
      → IsForwarding (bound_forward_prev_task t (member_bindings (member g s) receiver specs))
  unfolding member_bindings bindings_valid summarize_task_binding prev_access_count
  member_bindings-IsForwarding ok =
      let (same, one, fits, supported) = validated_member ok in
      let used : ℕ = if is_prev_access receiver then 1 else 0 in
      let fits' = receiver_supported-receiver_valid t g receiver fits in
      one_mutable_access t (member_bindings (member g s) receiver specs)
        (rw fits' (supported-specs_valid t s.params specs supported))
        (ap (λ m. summarize_specs m (with_args specs s.params))
            (summarize-may_forward receiver no_access
              (receiver_supported-may_forward t g receiver fits))
          ∙ summarize-supported t s.params specs (with_mutable no_access used) same supported
          ∙ with_mutable_add no_access used (prev_access_count specs)
          ∙ ap (with_mutable no_access) one)

needs_member :
    (t : OutputArg) (f : Callable) (receiver : Spec) (specs : List Spec)
    → forward_prev_member_ok (validate_bind_forward_prev_member t f receiver specs) ≡ true
    → member_bind_callable f ≡ true
unfolding forward_prev_member_ok validate_bind_forward_prev_member
needs_member t f receiver specs ok = ground arith

member_ok-IsForwarding :
    (t : OutputArg) (f : Callable) (receiver : Spec) (specs : List Spec)
    → forward_prev_member_ok (validate_bind_forward_prev_member t f receiver specs) ≡ true
    → member_bind_callable f ≡ true
    → IsForwarding (bound_forward_prev_task t (member_bindings f receiver specs))
unfolding member_bind_callable
member_ok-IsForwarding t no_signature receiver specs ok is_member = cc
member_ok-IsForwarding t (function s) receiver specs ok is_member = cc
member_ok-IsForwarding t (member g s) receiver specs ok is_member =
    member_bindings-IsForwarding t g s receiver specs ok

pub bind_forward_prev_member-IsForwarding :
    (t : OutputArg) (f : Callable) (receiver : Spec) (specs : List Spec) {task : TaskType}
    → bind_forward_prev_member f t receiver specs ≡ some task
    → IsForwarding task
unfolding bind_forward_prev_member
bind_forward_prev_member-IsForwarding t f receiver specs e =
    let (ok, same) =
      if-eq-some (forward_prev_member_ok (validate_bind_forward_prev_member t f receiver specs))
        e in
    subst IsForwarding (cc)
      (member_ok-IsForwarding t f receiver specs ok (needs_member t f receiver specs ok))

apply_adapter-IsForwarding :
    (desc : AdapterDesc) (task : TaskType)
    → IsForwarding task
    → IsForwarding (apply_adapter desc task)
unfolding apply_adapter access_valid access_summary
apply_adapter-IsForwarding catch_as_failure_desc task v = record {
  valid = v.valid;
  single = v.single;
  mutable = v.mutable;
  exclusive = v.exclusive;
  kept = v.kept;
}
apply_adapter-IsForwarding (catch_with_policy_desc r) task v = record {
  valid = v.valid;
  single = v.single;
  mutable = v.mutable;
  exclusive = v.exclusive;
  kept = v.kept;
}
apply_adapter-IsForwarding retry_desc task v = record {
  valid = ground (arith, v.valid, v.kept);
  single = v.single;
  mutable = v.mutable;
  exclusive = v.exclusive;
  kept = v.kept;
}

pub apply_adapters-IsForwarding :
    (chain : List AdapterDesc) (task : TaskType)
    → IsForwarding task
    → IsForwarding (apply_adapters chain task)
unfolding apply_adapters
apply_adapters-IsForwarding [] task v = v
apply_adapters-IsForwarding (desc ∷ chain) task v =
    apply_adapters-IsForwarding chain (apply_adapter desc task)
      (apply_adapter-IsForwarding desc task v)
