-- ===== src/Storage/Typed.antt =====
-- The one-to-one storage: include/yorch/detail/slots/typed_slot.hpp, and the specialization of
-- `plan_exec_slots_impl` in include/yorch/slots/plan_exec_slots.hpp, on nodes that own a payload.
pub mod Placement
pub mod Refinement
pub mod Cleanup
use yorch.Base.{
  ℕ, zero, suc, Bool, true, false, not, Option, none, some, ◌==◌, ◌&&◌, ltb, if◌then◌else◌, ◌>>=◌,
  update,
}
use yorch.Task.Policy.{SlotLogicalPolicy}
use yorch.Storage.{SlotOps, Payloads}
use yorch.Storage.Maybe.{
  MaybeStorage, start_lifetime, end_lifetime, emplace, get, assign, destroy, has_value,
}

abbrev pub is_maybe : SlotLogicalPolicy → Bool
is_maybe SlotLogicalPolicy.maybe_payload = true
is_maybe _ = false

-- `typed_slot<T, Policy>`: a must slot has no `engaged_` and leaves the field of the model as it is.
module _ {V : Type 0} (policy : SlotLogicalPolicy) where
  unfoldable pub emplace_typed : V → MaybeStorage V → Option (MaybeStorage V)
  unfolding emplace start_lifetime
  emplace_typed v slot = if is_maybe policy then emplace v slot else start_lifetime v slot

  unfoldable pub get_typed : MaybeStorage V → Option V
  unfolding get
  get_typed slot = if is_maybe policy then get slot else slot.object

  unfoldable pub destroy_typed : MaybeStorage V → Option (MaybeStorage V)
  unfolding destroy end_lifetime
  destroy_typed slot = if is_maybe policy then destroy slot else end_lifetime slot

-- `storage` and `live_slots_`
pub record TypedSlots (V : Type 0) : Type 0 where
  pub storage : ℕ → MaybeStorage V
  pub live_slots : ℕ → Bool

module _ {V : Type 0} (index : ℕ → ℕ) where
  -- The slot of a node with new contents.
  abbrev pub with_slot : ℕ → TypedSlots V → MaybeStorage V → TypedSlots V
  with_slot i s slot = record s { storage = update s.storage (index i) slot }

module _ {V : Type 0} (index : ℕ → ℕ) (logical : ℕ → SlotLogicalPolicy) where
  -- `emplace<I>`
  unfoldable pub emplace_node : ℕ → V → TypedSlots V → Option (TypedSlots V)
  emplace_node i v s = emplace_typed (logical i) v (s.storage (index i)) >>= λ slot.
      some (record (with_slot index i s slot) { live_slots = update s.live_slots i true })

  -- `get<I>` on a node that owns its slot
  unfoldable pub get_node : ℕ → TypedSlots V → Option V
  get_node i s = get_typed (logical i) (s.storage (index i))

  -- An assignment to the object that `get<I>` refers to.
  unfoldable pub assign_node : ℕ → V → TypedSlots V → Option (TypedSlots V)
  assign_node i w s = get_node i s >>= λ v.
      some (with_slot index i s (record (s.storage (index i)) { object = some w }))

  -- `slot_has_value_impl<I>` on a node that owns its slot
  unfoldable pub has_value_node : ℕ → TypedSlots V → Bool
  unfolding has_value
  has_value_node i s = if is_maybe (logical i) then has_value (s.storage (index i)) else true

module _ {V : Type 0} (index : ℕ → ℕ) where
  -- The sink of `out<I>()` is a `slot_view` on the `maybe_storage`, with no owner record.
  unfoldable pub out_emplace_node : ℕ → V → TypedSlots V → Option (TypedSlots V)
  unfolding start_lifetime
  out_emplace_node i v s =
      if (s.storage (index i)).engaged
      then none
      else (start_lifetime v (s.storage (index i)) >>= λ slot.
          some (with_slot index i s (record slot { engaged = true })))

  unfoldable pub out_destroy_node : ℕ → TypedSlots V → Option (TypedSlots V)
  unfolding end_lifetime
  out_destroy_node i s =
      if not (s.storage (index i)).engaged
      then some s
      else (end_lifetime (s.storage (index i)) >>= λ slot.
          some (with_slot index i s (record slot { engaged = false })))

module _ {V : Type 0} (payload : ℕ → Bool) (index : ℕ → ℕ) (logical : ℕ → SlotLogicalPolicy) where
  -- `destroy<I>` before it clears `live_slots_[I]`
  unfoldable pub destroy_object : ℕ → TypedSlots V → Option (TypedSlots V)
  unfolding has_value
  destroy_object i s =
      if (if is_maybe (logical i) then has_value (s.storage (index i)) else s.live_slots i)
      then (destroy_typed (logical i) (s.storage (index i)) >>= λ slot.
          some (with_slot index i s slot))
      else some s

  -- `destroy<I>`
  unfoldable pub destroy_node : ℕ → TypedSlots V → Option (TypedSlots V)
  destroy_node i s =
      if payload i
      then (destroy_object i s >>= λ after.
          some (record after { live_slots = update after.live_slots i false }))
      else some s

  -- `destroy_active_slots` on the first `k` nodes
  unfoldable pub destroy_active_slots : ℕ → TypedSlots V → Option (TypedSlots V)
  destroy_active_slots zero s = some s
  destroy_active_slots (suc k) s =
      let before = destroy_active_slots k s in before >>= destroy_node k

  unfoldable pub typed_ops : SlotOps V (TypedSlots V)
  typed_ops = record {
    emplace = emplace_node index logical;
    get = get_node index logical;
    assign = assign_node index logical;
    destroy = destroy_node;
    has_value = has_value_node index logical;
    out_emplace = out_emplace_node index;
    out_destroy = out_destroy_node index;
  }

module _ {V : Type 0} (payload : ℕ → Bool) (index : ℕ → ℕ) (n : ℕ) where
  -- The payload of a node of the plan is alive when an object lives in its slot.
  unfoldable pub typed_view : TypedSlots V → Payloads V
  typed_view s i = if payload i && ltb i n then (s.storage (index i)).object else none
