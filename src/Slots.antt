-- ===== src/Slots.antt =====
-- The erased slots of the compact layout: include/yorch/detail/slots/erased_slot.hpp and slot_view.hpp,
-- and their use by nodes in include/yorch/slots/plan_exec_slots.hpp. An operation is `none` where an
-- assertion fails or where an object's lifetime would be started or ended twice.
pub mod View
pub mod Cleanup
pub mod Entry
use yorch.Base.{
  ℕ, zero, suc, Bool, true, false, not, Option, none, some, ◌==◌, ◌&&◌, if◌then◌else◌, ◌>>=◌,
  update,
}
use yorch.Task.Policy.{SlotPhysicalPolicy}
use yorch.SlotLayout.{no_physical_slot}

-- `erased_slot`: the object that lives in its bytes, the engagement flag that a maybe slot has, and
-- the owner.
pub record ErasedSlot (V : Type 0) : Type 0 where
  pub object : Option V
  pub engaged : Bool
  pub owner_node : ℕ

abbrev pub is_maybe : SlotPhysicalPolicy → Bool
is_maybe SlotPhysicalPolicy.maybe_payload = true
is_maybe _ = false

module _ {V : Type 0} where
  abbrev pub holds : ErasedSlot V → Bool
  holds slot = elim slot.object [ none ↦ false | some v ↦ true ]

  -- A slot as it is default-constructed.
  unfoldable pub empty_slot : ErasedSlot V
  empty_slot = record { object = none; engaged = false; owner_node = no_physical_slot }

  -- `std::construct_at` and `std::destroy_at` on the slot's bytes.
  unfoldable pub construct_at : V → ErasedSlot V → Option (ErasedSlot V)
  construct_at v slot = if holds slot then none else some (record slot { object = some v })

  unfoldable pub destroy_at : ErasedSlot V → Option (ErasedSlot V)
  destroy_at slot = if holds slot then some (record slot { object = none }) else none

module _ {V : Type 0} (policy : SlotPhysicalPolicy) where
  -- `slot_view::emplace`; `owner` is `view_owner_node`.
  unfoldable pub emplace : ℕ → V → ErasedSlot V → Option (ErasedSlot V)
  unfolding construct_at
  emplace owner v slot =
      if is_maybe policy
      then (if slot.engaged
          then none
          else (construct_at v slot >>= λ s.
              some (record s { engaged = true; owner_node = owner })))
      else (construct_at v slot >>= λ s. some (record s { owner_node = owner }))

  -- `slot_view::get`
  unfoldable pub get : ErasedSlot V → Option V
  get slot = if is_maybe policy && not slot.engaged then none else slot.object

  -- `slot_view::destroy`
  unfoldable pub destroy : ErasedSlot V → Option (ErasedSlot V)
  unfolding destroy_at
  destroy slot =
      if is_maybe policy
      then (if not slot.engaged
          then some slot
          else (destroy_at slot >>= λ s.
              some (record s { engaged = false; owner_node = no_physical_slot })))
      else (destroy_at slot >>= λ s. some (record s { owner_node = no_physical_slot }))

  -- `slot_view::has_value`
  unfoldable pub has_value : ErasedSlot V → Bool
  has_value slot = if is_maybe policy then slot.engaged else true

-- The storage of a plan: `payload` is `payload_node`, `index` and `policies` are the layout's tables.
module _ {V : Type 0} (payload : ℕ → Bool) (index : ℕ → ℕ) (policies : ℕ → SlotPhysicalPolicy) where
  -- `plan_exec_slots_impl::emplace<I>`
  unfoldable pub emplace_node : ℕ → V → (ℕ → ErasedSlot V) → Option (ℕ → ErasedSlot V)
  emplace_node i v slots =
      emplace (policies (index i)) i v (slots (index i)) >>= λ s. some (update slots (index i) s)

  -- `plan_exec_slots_impl::destroy<I>`
  unfoldable pub destroy_node : ℕ → (ℕ → ErasedSlot V) → Option (ℕ → ErasedSlot V)
  destroy_node i slots =
      if payload i
      then (destroy (policies (index i)) (slots (index i)) >>= λ s. some (update slots (index i) s))
      else some slots

  -- One step of `destroy_active_slots`, for the node `i`.
  unfoldable pub destroy_active : ℕ → (ℕ → ErasedSlot V) → Option (ℕ → ErasedSlot V)
  destroy_active i slots =
      if payload i && (slots (index i)).owner_node == i
      then (destroy (policies (index i)) (slots (index i)) >>= λ s. some (update slots (index i) s))
      else some slots

  -- `destroy_active_slots` on the first `k` nodes: what the destructor does when `k` is their number.
  unfoldable pub destroy_active_slots : ℕ → (ℕ → ErasedSlot V) → Option (ℕ → ErasedSlot V)
  destroy_active_slots zero slots = some slots
  destroy_active_slots (suc k) slots =
      let before = destroy_active_slots k slots in before >>= destroy_active k
