-- ===== src/Examples/Stores.antt =====
-- The two storages of a plan of two nodes, and the storage of one object.
use yorch.Base.{ℕ, ◌<◌, ◌≡◌, ◌≢◌, refl, Bool, true, false, none, some, ◌==◌, if◌then◌else◌, arith}
use yorch.Task.Policy.{SlotLogicalPolicy, SlotPhysicalPolicy}
use yorch.SlotLayout.{make_one_to_one_physical_slot_indices, one_to_one_physical_slot_owner_node}
use yorch.SlotLayout.Owners.{owner_node-indices}
use yorch.Slots.Cleanup.{IsPending}
use yorch.Storage.{IsStorage}
use yorch.Storage.Maybe.{MaybeStorage, IsSound, assign_from, assign_from-IsSound}
use yorch.Storage.Compact.{compact_ops, compact_view}
use yorch.Storage.Compact.Refinement.{compact_ops-IsStorage}
use yorch.Storage.Typed.{is_maybe, TypedSlots, typed_ops, typed_view, destroy_active_slots}
use yorch.Storage.Typed.Placement.{IsTyped, AreDistinct}
use yorch.Storage.Typed.Refinement.{typed_ops-IsStorage}
use yorch.Storage.Typed.Cleanup.{destroy_active_slots-Cleared}

abbrev all_payloads : ℕ → Bool
all_payloads i = true

-- Both nodes share the slot 0, which tracks engagement.
abbrev shared : ℕ → ℕ
shared i = 0

abbrev flagged : ℕ → SlotPhysicalPolicy
flagged k = SlotPhysicalPolicy.maybe_payload

compact_ops-IsStorage_example :
    IsStorage {V = ℕ}
      (compact_ops all_payloads shared flagged)
      2
      all_payloads
      all_payloads
      (λ j i. shared j ≢ shared i)
      (IsPending all_payloads shared flagged 2 0)
      (compact_view all_payloads shared)
compact_ops-IsStorage_example =
    compact_ops-IsStorage all_payloads shared flagged 2 (omega arith) all_payloads
      (λ i h own may. refl)

abbrev own_slot : ℕ → ℕ
own_slot i = i

-- The node 0 always has a payload, the node 1 may have none.
abbrev logical : ℕ → SlotLogicalPolicy
logical i = if i == 1 then SlotLogicalPolicy.maybe_payload else SlotLogicalPolicy.must_payload

own_slots : AreDistinct all_payloads own_slot 2
own_slots j i hj hi a b e = e

typed_ops-IsStorage_example :
    IsStorage {V = ℕ}
      (typed_ops all_payloads own_slot logical)
      2
      all_payloads
      (λ i. is_maybe (logical i))
      (λ j i. j ≢ i)
      (IsTyped all_payloads own_slot logical 2)
      (typed_view all_payloads own_slot 2)
typed_ops-IsStorage_example = typed_ops-IsStorage all_payloads own_slot logical 2 own_slots

abbrev engaged : MaybeStorage ℕ
engaged = record { object = some 42; engaged = true }

abbrev disengaged : MaybeStorage ℕ
disengaged = record { object = none; engaged = false }

-- The node 0 has been constructed, the node 1 through its sink.
abbrev both_alive : TypedSlots ℕ
both_alive = record {
  storage = λ k. if k == 1 then engaged else record { object = some 7; engaged = false };
  live_slots = λ i. i == 0;
}

both_alive-IsTyped : IsTyped all_payloads own_slot logical 2 both_alive
both_alive-IsTyped = record {
  flag = λ i h own may. ground arith;
  bit = λ i h own must. ground arith;
}

destroy_active_slots-Cleared_example :
    (s : TypedSlots ℕ) × (destroy_active_slots all_payloads own_slot logical 2 both_alive ≡ some s)
    × IsTyped all_payloads own_slot logical 2 s
    × ((j : ℕ) → j < 2 → typed_view all_payloads own_slot 2 s j ≡ none)
destroy_active_slots-Cleared_example =
    destroy_active_slots-Cleared all_payloads own_slot logical 2 own_slots both_alive
      both_alive-IsTyped

assign_from-IsSound_example :
    (after : MaybeStorage ℕ) × (assign_from false disengaged engaged ≡ some after)
    × (after.object ≡ none)
    × IsSound after
assign_from-IsSound_example = assign_from-IsSound false disengaged engaged refl refl

owner_node-indices_example :
    one_to_one_physical_slot_owner_node all_payloads 3
      (make_one_to_one_physical_slot_indices all_payloads 3 2)
    ≡ 2
owner_node-indices_example = owner_node-indices all_payloads 3 2 (omega arith) (omega arith) refl
