-- ===== src/Resolve/Plans.antt =====
-- Arguments of the tasks of a validated plan: the view that `make_node_prev_view`
-- (include/yorch/detail/executor/node_entry.hpp) makes, and `resolve_as` on it.
use yorch.Base.{
  ℕ, ◌<◌, ◌≡◌, ◌∙◌, refl, Bool, true, false, not, Option, none, some, List, ◌==◌, ==_iff, ◌||◌,
  if◌then◌else◌, get_elem?, all_below-true, Bool-cases, inl, inr, arith,
}
use yorch.Task.{TaskType}
use yorch.Task.Access.{
  Spec, ArgType, TaskBinding, is_prev_access, is_exclusive, bindings_valid,
  uses_exclusive_prev_access,
}
use yorch.Plan.Compiled.{CompiledPlan}
use yorch.Validation.Plans.{task_type, output_type}
use yorch.Validation.Fanout.{node_uses_staged_copy_prev}
use yorch.Validation.Siblings.{copy_only-exclusive}
use yorch.Validation.Sources.{
  is_void, is_root, parent_is_void, node_prev_access_valid, plan_prev_access_valid,
}
use yorch.Validation.Errors.{ok, validate_plan}
use yorch.Validation.Sound.{validate_plan-sources}
use yorch.Storage.{SlotOps}
use yorch.Storage.Maybe.{MaybeStorage}
use yorch.Run.{PrevView, no_prev, const_slot, mutable_slot}
use yorch.Run.Nodes.{make_node_prev_view}
use yorch.Resolve.{
  TypeRelations, PrevType, no_prev_type, slot_type, prev_contains, is_mutable_source, resolve_as,
}
use yorch.Resolve.Bindings.{
  binding_of, specs_valid-at, exclusive-binding, exclusive-form, valid-binding,
}
use yorch.Resolve.Rules.{requested, is_makeable, is_resolved, resolve_as_iff}

-- `prev_slot` of an object of the type, or `no_prev`.
unfoldable pub slot_view_type : Bool → Option ℕ → PrevType
slot_view_type is_const none = no_prev_type
slot_view_type is_const (some t) = slot_type is_const t

-- `node_prev_view_t`, the type that `make_node_prev_view` returns, written out case by case.
unfoldable pub node_prev_view_type : CompiledPlan TaskType → ℕ → PrevType
unfolding slot_view_type
node_prev_view_type plan i =
    if is_root plan i
    then no_prev_type
    else (if node_uses_staged_copy_prev plan i
        then slot_view_type true (output_type plan (plan.parent_indices i))
        else (if uses_exclusive_prev_access (task_type plan i).form
            then slot_view_type false (output_type plan (plan.parent_indices i))
            else slot_view_type true (output_type plan (plan.parent_indices i))))

module _ (plan : CompiledPlan TaskType) (i : ℕ) (inner : is_root plan i ≡ false) where
  exclusive-unstaged :
      uses_exclusive_prev_access (task_type plan i).form ≡ true
      → node_uses_staged_copy_prev plan i ≡ false
  unfolding node_uses_staged_copy_prev
  exclusive-unstaged exclusive =
      let shared = copy_only-exclusive (task_type plan i) in ground (arith, shared)

  pub view-contains :
      (t : ℕ)
      → output_type plan (plan.parent_indices i) ≡ some t
      → prev_contains t (node_prev_view_type plan i) ≡ true
  unfolding node_prev_view_type slot_view_type prev_contains
  view-contains t e = let same : (t == t) ≡ true = (==_iff t t).1 refl in ground arith

  pub view-is_mutable :
      (t : ℕ)
      → output_type plan (plan.parent_indices i) ≡ some t
      → uses_exclusive_prev_access (task_type plan i).form ≡ true
      → is_mutable_source (node_prev_view_type plan i) ≡ true
  unfolding node_prev_view_type slot_view_type is_mutable_source
  view-is_mutable t e exclusive =
      let unstaged = exclusive-unstaged exclusive in rw (inner, unstaged, exclusive, e) refl

  -- An argument of a task of a plan that passes `validate_plan` whose spec reads the parent's output:
  -- when the spec asks for the type of that output, and the constructor that the argument needs exists,
  -- `resolve_as` resolves it on the view that the node is given. In particular, the view is mutable
  -- where the access is exclusive, through all adapters, and a staged copy is never consumed.
  pub validated-is_resolved :
      (types : TypeRelations) (schema : Option (List ℕ)) (b : TaskBinding) (k : ℕ) (spec : Spec)
      (arg : ArgType)
      → validate_plan plan ≡ ok
      → i < plan.node_count
      → binding_of (task_type plan i).form ≡ some b
      → get_elem? b.specs k ≡ some (spec, arg)
      → is_prev_access spec ≡ true
      → output_type plan (plan.parent_indices i) ≡ some (requested spec)
      → is_makeable types spec arg ≡ true
      → is_resolved (resolve_as types schema (node_prev_view_type plan i) spec arg) ≡ true
  unfolding plan_prev_access_valid node_prev_access_valid bindings_valid uses_exclusive_prev_access
  validated-is_resolved types schema b k spec arg valid h binds e access output makes =
      let (_, modes, _, _) = validate_plan-sources plan valid in
      let form = (task_type plan i).form in
      let here = all_below-true (node_prev_access_valid plan) plan.node_count i modes h in
      let fits = valid-binding form b binds here in
      let matches = specs_valid-at b.specs k spec arg (ground arith) e access in
      let there = view-contains (requested spec) output in
      let mutable : (not (is_exclusive spec) || is_mutable_source (node_prev_view_type plan i))
          ≡ true =
        elim (Bool-cases (is_exclusive spec)) [
          | inl exclusive ↦
              let counted =
                exclusive-form form b binds (exclusive-binding b k spec arg e exclusive) in
              rw (exclusive, view-is_mutable (requested spec) output (ground arith)) refl
          | inr shared ↦ rw shared refl
        ] in
      resolve_as_iff types schema (node_prev_view_type plan i) spec arg access
      ∙ rw (matches, there, mutable, makes) refl

-- A view of the given type.
unfoldable pub view_fits : {V : Type 0} → PrevView V → PrevType → Bool
view_fits no_prev no_prev_type = true
view_fits (const_slot v) (slot_type is_const t) = is_const
view_fits (mutable_slot v) (slot_type is_const t) = not is_const
view_fits _ _ = false

-- The two translations of `make_node_prev_view`, as a function of a run and as the type of its result, agree:
-- a view is there, and mutable, exactly when its type says so.
make_node_prev_view-fits :
    {V Store : Type 0} (plan : CompiledPlan TaskType) (ops : SlotOps V Store) (i : ℕ)
    (slots : Store) (staging : ℕ → MaybeStorage V) (prev : PrevView V)
    → make_node_prev_view plan ops i slots staging ≡ some prev
    → view_fits prev (node_prev_view_type plan i) ≡ true
unfolding make_node_prev_view node_prev_view_type slot_view_type view_fits parent_is_void is_void
make_node_prev_view-fits plan ops i slots staging prev e = ground arith
