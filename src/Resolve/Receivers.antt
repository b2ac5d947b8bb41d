-- ===== src/Resolve/Receivers.antt =====
-- include/yorch/detail/bind/member_receiver.hpp: the object that a bound member function is called on.
use yorch.Base.{
  ℕ, ◌<◌, ◌≡◌, refl, Bool, true, false, not, Option, none, some, List, ◌==◌, ◌&&◌, ◌||◌, arith,
  if◌then◌else◌, Bool-cases, inl, inr, all_below-true, ◌∙◌,
}
use yorch.Task.{TaskType}
use yorch.Task.Access.{
  Spec, borrow_prev_mut, copy_prev, consume_prev, ArgType, by_value, const_lvalue, lvalue,
  MemberFunction, TaskBinding, is_prev_access, is_exclusive, matches_member_receiver,
  bindings_valid, receiver_valid, uses_exclusive_prev_access,
}
use yorch.Plan.Compiled.{CompiledPlan}
use yorch.Validation.Plans.{task_type, output_type}
use yorch.Validation.Sources.{is_root, node_prev_access_valid, plan_prev_access_valid}
use yorch.Validation.Errors.{ok, validate_plan}
use yorch.Validation.Sound.{validate_plan-sources}
use yorch.Resolve.{
  TypeRelations, PrevType, Resolution, prev_contains, is_mutable_source, resolve_from_ctx,
  resolve_value, resolve_borrow_prev, resolve_borrow_prev_mut, resolve_copy_prev,
  resolve_consume_prev, resolve_as,
}
use yorch.Resolve.Bindings.{binding_of, exclusive-receiver, exclusive-form, valid-binding}
use yorch.Resolve.Rules.{requested}
use yorch.Resolve.Plans.{node_prev_view_type, view-contains, view-is_mutable}

-- `member_receiver_arg_t`
unfoldable pub receiver_arg : MemberFunction → ArgType
receiver_arg f = if f.is_const then const_lvalue f.class_type else lvalue f.class_type

-- `borrowed_member_receiver`, `copied_member_receiver`, `consumed_member_receiver`
pub data Receiver : Type 0 where
  borrowed copied_receiver consumed : Resolution → Receiver

abbrev pub hold : (Resolution → Receiver) → Option Resolution → Option Receiver
hold holder none = none
hold holder (some r) = some (holder r)

module _ (types : TypeRelations) (schema : Option (List ℕ)) (prev : PrevType) where
  -- `resolve_member_receiver`; a static assertion that fails is `none`.
  unfoldable pub resolve_member_receiver : Spec → MemberFunction → Option Receiver
  unfolding resolve_as receiver_arg
  resolve_member_receiver (copy_prev t) f =
      if t == f.class_type
      then hold copied_receiver (resolve_as types schema prev (copy_prev t) (by_value f.class_type))
      else none
  resolve_member_receiver (consume_prev t) f =
      if t == f.class_type
      then hold consumed (resolve_as types schema prev (consume_prev t) (by_value f.class_type))
      else none
  resolve_member_receiver spec f =
      hold borrowed (resolve_as types schema prev spec (receiver_arg f))

-- The constructor that a copy or a move into the receiver calls exists.
unfoldable pub is_receiver_makeable : TypeRelations → Spec → Bool
is_receiver_makeable types (copy_prev t) = types.from_const t t
is_receiver_makeable types (consume_prev t) = types.from_rvalue t t
is_receiver_makeable types spec = true

abbrev pub has_receiver : Option Receiver → Bool
has_receiver none = false
has_receiver (some r) = true

-- A mutable borrow for a const member function
unfoldable pub borrows_mutably_for_const : Spec → MemberFunction → Bool
borrows_mutably_for_const (borrow_prev_mut t) f = f.is_const
borrows_mutably_for_const spec f = false

module _ (types : TypeRelations) (schema : Option (List ℕ)) (prev : PrevType) where
  -- A receiver's spec that reads the parent's output resolves exactly when it matches the class of the member
  -- function, does not borrow mutably for a const member function, the view carries the requested type,
  -- the view is mutable in case the access is exclusive, and the constructor that the receiver needs exists.
  resolve_member_receiver_iff :
      (spec : Spec) (f : MemberFunction)
      → is_prev_access spec ≡ true
      → has_receiver (resolve_member_receiver types schema prev spec f) ≡ (
          matches_member_receiver spec f
          && not (borrows_mutably_for_const spec f)
          && prev_contains (requested spec) prev
          && (not (is_exclusive spec) || is_mutable_source prev)
          && is_receiver_makeable types spec)
  unfolding resolve_member_receiver resolve_as resolve_from_ctx resolve_value resolve_borrow_prev
      resolve_borrow_prev_mut resolve_copy_prev resolve_consume_prev is_prev_access is_exclusive
      matches_member_receiver requested is_receiver_makeable borrows_mutably_for_const receiver_arg
  resolve_member_receiver_iff spec f access = ground arith

module _ (plan : CompiledPlan TaskType) (i : ℕ) (inner : is_root plan i ≡ false) where
  -- The receiver of a bound member function in a plan that passes `validate_plan`, whose spec reads the
  -- parent's output: when it asks for the type of that output, the constructor that it needs exists, and it
  -- does not borrow mutably for a const member function, it resolves on the view that the node is given,
  -- through all adapters. A mutable borrow for a const member function does not resolve there.
  pub validated-has_receiver :
      (types : TypeRelations) (schema : Option (List ℕ)) (b : TaskBinding) (spec : Spec)
      (f : MemberFunction)
      → validate_plan plan ≡ ok
      → i < plan.node_count
      → binding_of (task_type plan i).form ≡ some b
      → b.receiver ≡ some (spec, f)
      → is_prev_access spec ≡ true
      → output_type plan (plan.parent_indices i) ≡ some (requested spec)
      → is_receiver_makeable types spec ≡ true
      → has_receiver (resolve_member_receiver types schema (node_prev_view_type plan i) spec f)
        ≡ not (borrows_mutably_for_const spec f)
  unfolding plan_prev_access_valid node_prev_access_valid bindings_valid receiver_valid
      uses_exclusive_prev_access
  validated-has_receiver types schema b spec f valid h binds e access output makes =
      let (_, modes, _, _) = validate_plan-sources plan valid in
      let form = (task_type plan i).form in
      let here = all_below-true (node_prev_access_valid plan) plan.node_count i modes h in
      let fits = valid-binding form b binds here in
      let matches : matches_member_receiver spec f ≡ true = ground (arith, fits, e, access) in
      let there = view-contains plan i inner (requested spec) output in
      let mutable : (not (is_exclusive spec) || is_mutable_source (node_prev_view_type plan i))
          ≡ true =
        elim (Bool-cases (is_exclusive spec)) [
          | inl exclusive ↦
              let counted = exclusive-form form b binds (exclusive-receiver b spec f e exclusive) in
              rw (exclusive, view-is_mutable plan i inner (requested spec) output (ground arith))
                refl
          | inr shared ↦ rw shared refl
        ] in
      resolve_member_receiver_iff types schema (node_prev_view_type plan i) spec f access
      ∙ rw (matches, there, mutable, makes) (ground arith)
