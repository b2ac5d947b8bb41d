-- ===== src/Slots/View.antt =====
-- What the operations of `slot_view` (include/yorch/detail/slots/slot_view.hpp) do to a slot whose flag
-- and owner tell whether it holds an object.
use yorch.Base.{ℕ, ◌≡◌, ◌≢◌, refl, true, false, not, none, some, ◌==◌, Bool-cases, inl, inr, arith}
use yorch.Task.Policy.{SlotPhysicalPolicy}
use yorch.SlotLayout.{no_physical_slot}
use yorch.Slots.{
  ErasedSlot, is_maybe, holds, empty_slot, construct_at, destroy_at, emplace, get, destroy,
}

-- The flag of a maybe slot and the owner agree with the object.
pub record IsTracked {V : Type 0} (policy : SlotPhysicalPolicy) (slot : ErasedSlot V) : Type 0 where
  pub flag : is_maybe policy ≡ true → slot.engaged ≡ holds slot
  pub owner : holds slot ≡ not (slot.owner_node == no_physical_slot)

module _ {V : Type 0} (policy : SlotPhysicalPolicy) where
  pub empty_slot-IsTracked : IsTracked {V = V} policy empty_slot
  unfolding empty_slot
  empty_slot-IsTracked = record { flag = λ e. refl; owner = refl }

  -- A value that is constructed in an empty slot for a node is held under that node, and is what the
  -- slot then gives back.
  pub get-emplace :
      (slot : ErasedSlot V) (node : ℕ) (v : V)
      → IsTracked policy slot
      → holds slot ≡ false
      → node ≢ no_physical_slot
      → (filled : ErasedSlot V) × (emplace policy node v slot ≡ some filled)
        × (get policy filled ≡ some v)
        × (filled.owner_node ≡ node)
        × IsTracked policy filled
  unfolding emplace get construct_at
  get-emplace slot node v tracked empty real = elim (Bool-cases (is_maybe policy)) [
    | inl maybe ↦ (
      record slot { object = some v; engaged = true; owner_node = node },
      ground (arith, tracked.flag maybe),
      ground arith,
      refl,
      record { flag = λ e. refl; owner = ground arith },
    )
    | inr must ↦ (
      record slot { object = some v; owner_node = node },
      ground arith,
      ground arith,
      refl,
      record { flag = λ e. cc; owner = ground arith },
    )
  ]

  -- Destroying the object of a slot leaves the slot empty and unowned.
  pub destroy-IsTracked :
      (slot : ErasedSlot V)
      → IsTracked policy slot
      → holds slot ≡ true
      → (emptied : ErasedSlot V) × (destroy policy slot ≡ some emptied)
        × (holds emptied ≡ false)
        × IsTracked policy emptied
  unfolding destroy destroy_at
  destroy-IsTracked slot tracked full = elim (Bool-cases (is_maybe policy)) [
    | inl maybe ↦ (
      record slot { object = none; engaged = false; owner_node = no_physical_slot },
      ground (arith, tracked.flag maybe),
      refl,
      record { flag = λ e. refl; owner = refl },
    )
    | inr must ↦ (
      record slot { object = none; owner_node = no_physical_slot },
      ground arith,
      refl,
      record { flag = λ e. cc; owner = refl },
    )
  ]
