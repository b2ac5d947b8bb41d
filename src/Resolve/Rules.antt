-- ===== src/Resolve/Rules.antt =====
-- The rules of include/yorch/resolve.hpp and those by which tasks are checked beforehand
-- (include/yorch/detail/executor/prev_access_specs.hpp) agree.
use yorch.Base.{ℕ, ◌≡◌, Bool, true, false, not, Option, none, some, List, ◌&&◌, ◌||◌, arith}
use yorch.Task.Access.{
  Spec, from_ctx, value, borrow_prev, borrow_prev_mut, copy_prev, consume_prev, ArgType, by_value,
  is_prev_access, is_exclusive, matches_arg,
}
use yorch.Resolve.{
  TypeRelations, PrevType, Resolution, const_reference, rvalue_reference, copied, moved,
  prev_contains, is_mutable_source, bind_from_lvalue, resolve_from_ctx, resolve_value,
  resolve_borrow_prev, resolve_borrow_prev_mut, resolve_copy_prev, resolve_consume_prev, resolve_as,
  resolve_reference,
}

-- The type that a spec asks for.
unfoldable pub requested : Spec → ℕ
requested (from_ctx t) = t
requested (value t) = t
requested (borrow_prev t) = t
requested (borrow_prev_mut t) = t
requested (copy_prev t) = t
requested (consume_prev t) = t

-- The constructor that a copy or a move into a value calls exists.
unfoldable pub is_makeable : TypeRelations → Spec → ArgType → Bool
is_makeable types (copy_prev t) (by_value a) = types.from_const t t
is_makeable types (consume_prev t) (by_value a) = types.from_rvalue t t
is_makeable types _ _ = true

abbrev pub is_resolved : Option Resolution → Bool
is_resolved o = elim o [ none ↦ false | some r ↦ true ]

-- What lets the callable change the object that the argument comes from.
unfoldable pub can_change_source : Resolution → Bool
can_change_source (const_reference t) = false
can_change_source (copied t) = false
can_change_source _ = true

-- What takes the value away from it.
unfoldable pub can_move_source : Resolution → Bool
can_move_source (moved t) = true
can_move_source (rvalue_reference t) = true
can_move_source _ = false

module _ (types : TypeRelations) (schema : Option (List ℕ)) (prev : PrevType) where
  -- A spec for the parent's output resolves exactly when the argument's type is one that
  -- `matches_arg` admits, the view carries the requested type, the view is mutable in case the access
  -- is exclusive, and the constructor that the argument needs exists.
  pub resolve_as_iff :
      (spec : Spec) (arg : ArgType)
      → is_prev_access spec ≡ true
      → is_resolved (resolve_as types schema prev spec arg) ≡ (
          matches_arg spec arg
          && prev_contains (requested spec) prev
          && (not (is_exclusive spec) || is_mutable_source prev)
          && is_makeable types spec arg)
  unfolding resolve_as resolve_from_ctx resolve_value resolve_borrow_prev resolve_borrow_prev_mut
      resolve_copy_prev resolve_consume_prev is_prev_access is_exclusive matches_arg requested
      is_makeable
  resolve_as_iff spec arg access = ground arith

  -- An argument that can change the parent's output comes from an exclusive access, and one that can
  -- take a value away from where it is stored comes from `consume_prev`: the context and stored values
  -- are never moved from.
  pub resolve_as-protects :
      (spec : Spec) (arg : ArgType) (r : Resolution)
      → resolve_as types schema prev spec arg ≡ some r
      → (is_prev_access spec ≡ true → can_change_source r ≡ true → is_exclusive spec ≡ true)
        × (can_move_source r ≡ true → spec ≡ consume_prev (requested spec))
  unfolding resolve_as resolve_from_ctx resolve_value bind_from_lvalue resolve_borrow_prev
      resolve_borrow_prev_mut resolve_copy_prev resolve_consume_prev is_prev_access is_exclusive
      requested can_change_source can_move_source
  resolve_as-protects spec arg r e = (λ access changes. ground arith, λ moves. ground arith)

module _ (types : TypeRelations) where
  -- A value that is stored in a spec is never changed or moved from, and one that a
  -- `std::reference_wrapper` refers to is never moved from.
  stored-protects :
      (const_spec : Bool) (arg : ArgType) (t : ℕ) (r : Resolution)
      → (resolve_value types const_spec arg t ≡ some r
          → (can_change_source r ≡ false) × (can_move_source r ≡ false))
        × (resolve_reference types arg t ≡ some r → can_move_source r ≡ false)
  unfolding resolve_value resolve_reference can_change_source can_move_source
  stored-protects const_spec arg t r = (λ e. (ground arith, ground arith), λ e. ground arith)
