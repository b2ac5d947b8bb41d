-- ===== src/Resolve.antt =====
-- include/yorch/resolve.hpp: how an argument of a bound task is made from its spec, the context and the view
-- of the direct parent's output. A `static_assert` or a `requires` clause that fails is `none`.
pub mod Rules
pub mod Bindings
pub mod Plans
pub mod Receivers
use yorch.Base.{
  ℕ, zero, suc, ◌+◌, Bool, true, false, not, Option, none, some, List, [], ◌∷◌, ◌==◌, ◌&&◌,
  if◌then◌else◌,
}
use yorch.Task.Access.{
  Spec, from_ctx, value, borrow_prev, borrow_prev_mut, copy_prev, consume_prev, ArgType, by_value,
  const_lvalue, lvalue, rvalue,
}

-- What the compiler says of two types: `std::is_constructible_v` of the first one from a const or a
-- mutable lvalue of the second one and from an rvalue, and `std::is_convertible_v` of such an lvalue to
-- a const or a mutable reference.
pub record TypeRelations : Type 0 where
  pub from_const : ℕ → ℕ → Bool
  pub from_mutable : ℕ → ℕ → Bool
  pub from_rvalue : ℕ → ℕ → Bool
  pub const_ref_to_const : ℕ → ℕ → Bool
  pub const_ref_to_mutable : ℕ → ℕ → Bool
  pub mutable_ref : ℕ → ℕ → Bool

-- The type of the view: `no_prev`, or `prev_slot_view<T>` with its constness.
pub data PrevType : Type 0 where
  no_prev_type : PrevType
  slot_type : Bool → ℕ → PrevType

-- The argument that the callable is given.
pub data Resolution : Type 0 where
  const_reference mutable_reference rvalue_reference copied moved : ℕ → Resolution

-- `type_count_v`, and `context<Ts...>::contains<T>`
unfoldable pub type_count : ℕ → List ℕ → ℕ
type_count t [] = 0
type_count t (u ∷ types) = (if t == u then 1 else 0) + type_count t types

unfoldable pub context_contains : ℕ → List ℕ → Bool
unfolding type_count
context_contains t types = type_count t types == 1

-- `no_prev::contains`, `prev_slot_view<T>::contains`
unfoldable pub prev_contains : ℕ → PrevType → Bool
prev_contains t no_prev_type = false
prev_contains t (slot_type is_const u) = t == u

unfoldable pub is_mutable_source : PrevType → Bool
is_mutable_source no_prev_type = false
is_mutable_source (slot_type is_const t) = not is_const

module _ (types : TypeRelations) where
  -- `bind_from_lvalue`
  unfoldable pub bind_from_lvalue : ArgType → ℕ → Option Resolution
  bind_from_lvalue (by_value a) source =
      if types.from_mutable a source then some (copied a) else none
  bind_from_lvalue (const_lvalue a) source =
      if types.const_ref_to_mutable a source then some (const_reference a) else none
  bind_from_lvalue (lvalue a) source =
      if types.mutable_ref a source then some (mutable_reference a) else none
  bind_from_lvalue _ source = none

  -- `resolve_as(from_ctx_t<T>, ...)`; the context is `none` for `void`.
  unfoldable pub resolve_from_ctx : ArgType → ℕ → Option (List ℕ) → Option Resolution
  unfolding bind_from_lvalue context_contains
  resolve_from_ctx arg t none = none
  resolve_from_ctx arg t (some schema) =
      if context_contains t schema then bind_from_lvalue arg t else none

  -- `resolve_as(value_t<T>&, ...)` and `resolve_as(const value_t<T>&, ...)`
  unfoldable pub resolve_value : Bool → ArgType → ℕ → Option Resolution
  resolve_value const_spec (by_value a) t =
      if (if const_spec then types.from_const a t else types.from_mutable a t)
      then some (copied a)
      else none
  resolve_value const_spec (const_lvalue a) t =
      if (if const_spec then types.const_ref_to_const a t else types.const_ref_to_mutable a t)
      then some (const_reference a)
      else none
  resolve_value const_spec _ t = none

  -- `resolve_as` on `value_t<std::reference_wrapper<T>>`
  unfoldable pub resolve_reference : ArgType → ℕ → Option Resolution
  resolve_reference (const_lvalue a) t =
      if types.const_ref_to_mutable a t then some (const_reference a) else none
  resolve_reference (lvalue a) t =
      if types.mutable_ref a t then some (mutable_reference a) else none
  resolve_reference _ t = none

module _ (types : TypeRelations) (prev : PrevType) where
  -- `resolve_as(borrow_prev_t<T>, ...)`
  unfoldable pub resolve_borrow_prev : ArgType → ℕ → Option Resolution
  unfolding prev_contains
  resolve_borrow_prev (const_lvalue a) t =
      if a == t && prev_contains t prev then some (const_reference t) else none
  resolve_borrow_prev _ t = none

  -- `resolve_as(borrow_prev_mut_t<T>, ...)`
  unfoldable pub resolve_borrow_prev_mut : ArgType → ℕ → Option Resolution
  unfolding prev_contains is_mutable_source
  resolve_borrow_prev_mut (lvalue a) t =
      if a == t && prev_contains t prev && is_mutable_source prev
      then some (mutable_reference t)
      else none
  resolve_borrow_prev_mut _ t = none

  -- `resolve_as(copy_prev_t<T>, ...)`
  unfoldable pub resolve_copy_prev : ArgType → ℕ → Option Resolution
  unfolding prev_contains
  resolve_copy_prev (by_value a) t =
      if a == t && prev_contains t prev && types.from_const t t then some (copied t) else none
  resolve_copy_prev _ t = none

  -- `resolve_as(consume_prev_t<T>, ...)`
  unfoldable pub resolve_consume_prev : ArgType → ℕ → Option Resolution
  unfolding prev_contains is_mutable_source
  resolve_consume_prev (by_value a) t =
      if a == t && prev_contains t prev && is_mutable_source prev && types.from_rvalue t t
      then some (moved t)
      else none
  resolve_consume_prev (rvalue a) t =
      if a == t && prev_contains t prev && is_mutable_source prev
      then some (rvalue_reference t)
      else none
  resolve_consume_prev _ t = none

-- The overloads of `resolve_as` on a bound task's specs. Those on `value_t<std::reference_wrapper<T>>` are
-- `resolve_reference`, which no spec here reaches: a `value` holds an object.
module _ (types : TypeRelations) (schema : Option (List ℕ)) (prev : PrevType) where
  unfoldable pub resolve_as : Spec → ArgType → Option Resolution
  unfolding resolve_from_ctx resolve_value resolve_borrow_prev resolve_borrow_prev_mut
      resolve_copy_prev resolve_consume_prev
  resolve_as (from_ctx t) arg = resolve_from_ctx types arg t schema
  resolve_as (value t) arg = resolve_value types false arg t
  resolve_as (borrow_prev t) arg = resolve_borrow_prev types prev arg t
  resolve_as (borrow_prev_mut t) arg = resolve_borrow_prev_mut types prev arg t
  resolve_as (copy_prev t) arg = resolve_copy_prev types prev arg t
  resolve_as (consume_prev t) arg = resolve_consume_prev types prev arg t
