-- ===== src/Storage/Compact.antt =====
-- The compact storage: the primary `plan_exec_slots_impl` of include/yorch/slots/plan_exec_slots.hpp, on
-- nodes that own a payload.
mod Placement
pub mod Refinement
use yorch.Base.{ℕ, Bool, true, false, Option, none, some, ◌==◌, ◌&&◌, if◌then◌else◌, ◌>>=◌, update}
use yorch.Task.Policy.{SlotPhysicalPolicy}
use yorch.Slots.{ErasedSlot, get, destroy, has_value, emplace_node, destroy_node}
use yorch.Storage.{SlotOps, Payloads}

module _ {V : Type 0} (index : ℕ → ℕ) (policies : ℕ → SlotPhysicalPolicy) where
  -- `get<I>` on a node that owns its slot
  unfoldable pub get_node : ℕ → (ℕ → ErasedSlot V) → Option V
  get_node i slots = get (policies (index i)) (slots (index i))

  -- An assignment to the object that `get<I>` refers to.
  unfoldable pub assign_node : ℕ → V → (ℕ → ErasedSlot V) → Option (ℕ → ErasedSlot V)
  assign_node i w slots = get_node i slots >>= λ v.
      some (update slots (index i) (record (slots (index i)) { object = some w }))

  -- `slot_has_value_impl<I>` on a node that owns its slot
  unfoldable pub has_value_node : ℕ → (ℕ → ErasedSlot V) → Bool
  has_value_node i slots = has_value (policies (index i)) (slots (index i))

  -- `direct_out::destroy` on the view of the slot that `out<I>()` holds
  unfoldable pub out_destroy_node : ℕ → (ℕ → ErasedSlot V) → Option (ℕ → ErasedSlot V)
  out_destroy_node i slots =
      destroy (policies (index i)) (slots (index i)) >>= λ s. some (update slots (index i) s)

module _ {V : Type 0} (payload : ℕ → Bool) (index : ℕ → ℕ) (policies : ℕ → SlotPhysicalPolicy) where
  unfoldable pub compact_ops : SlotOps V (ℕ → ErasedSlot V)
  compact_ops = record {
    emplace = emplace_node payload index policies;
    get = get_node index policies;
    assign = assign_node index policies;
    destroy = destroy_node payload index policies;
    has_value = has_value_node index policies;
    out_emplace = emplace_node payload index policies;
    out_destroy = out_destroy_node index policies;
  }

module _ {V : Type 0} (payload : ℕ → Bool) (index : ℕ → ℕ) where
  -- The payload of a node is alive when the node owns the slot that the layout gives it.
  unfoldable pub compact_view : (ℕ → ErasedSlot V) → Payloads V
  compact_view slots i =
      if payload i && (slots (index i)).owner_node == i then (slots (index i)).object else none
