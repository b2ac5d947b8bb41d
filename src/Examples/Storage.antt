-- ===== src/Examples/Storage.antt =====
-- The slot storage of a plan of two nodes, of which the second one is live.
use yorch.Base.{ℕ, ◌≡◌, refl, Bool, true, false, none, some, ◌==◌, if◌then◌else◌, arith}
use yorch.Task.Policy.{SlotPhysicalPolicy}
use yorch.SlotLayout.{no_physical_slot}
use yorch.Slots.{ErasedSlot, holds, destroy_active_slots}
use yorch.Slots.View.{IsTracked}
use yorch.Slots.Cleanup.{IsPending, destroy_active_slots-empty}

-- A maybe slot before and after a value is constructed in it for node 1.
abbrev vacant : ErasedSlot ℕ
vacant = record { object = none; engaged = false; owner_node = no_physical_slot }

abbrev taken : ErasedSlot ℕ
taken = record { object = some 42; engaged = true; owner_node = 1 }

vacant-IsTracked : (policy : SlotPhysicalPolicy) → IsTracked policy vacant
vacant-IsTracked policy = record { flag = λ e. refl; owner = refl }

taken-IsTracked : (policy : SlotPhysicalPolicy) → IsTracked policy taken
taken-IsTracked policy = record { flag = λ e. refl; owner = refl }

abbrev slot_of_all : ℕ → ℕ
slot_of_all i = 0

abbrev all_payloads : ℕ → Bool
all_payloads i = true

abbrev maybe_slots : ℕ → SlotPhysicalPolicy
maybe_slots k = SlotPhysicalPolicy.maybe_payload

abbrev storage : ℕ → ErasedSlot ℕ
storage k = if k == 0 then taken else vacant

storage-IsTracked : (k : ℕ) → IsTracked (maybe_slots k) (storage k)
storage-IsTracked k = record { flag = λ e. ground arith; owner = ground arith }

storage-IsPending : IsPending all_payloads slot_of_all maybe_slots 2 0 storage
storage-IsPending = record {
  tracked = storage-IsTracked;
  owned = λ s full. (omega arith, ground arith, refl, ground arith);
}

destroy_active_slots-empty_example :
    (slots : ℕ → ErasedSlot ℕ) × (destroy_active_slots all_payloads slot_of_all maybe_slots 2
        storage
      ≡ some slots)
    × ((s : ℕ) → holds (slots s) ≡ false)
destroy_active_slots-empty_example =
    destroy_active_slots-empty all_payloads slot_of_all maybe_slots 2 (omega arith) storage
      storage-IsPending
