-- ===== src/SlotLayout/Plans.antt =====
-- The compact layout of a compiled plan (include/yorch/detail/slots/layout.hpp, `plan_slot_layout`).
use yorch.Base.{ℕ, zero, suc, ◌<◌, ◌≢◌, Bool, ◌∙◌, arith}
use yorch.Plan.Compiled.{CompiledPlan}
use yorch.Plan.Compiled.Structure.{IsTree}
use yorch.Task.{TaskType, output_storage_mode}
use yorch.Task.Policy.{is_owned}
use yorch.Validation.Plans.{task_type}
use yorch.SlotLayout.{make_serial_dfs_compact_slot_layout, CompactSlotIndexLayout}
use yorch.SlotLayout.Reuse.{IsCompact, make_serial_dfs_compact_slot_layout-IsCompact}

module _ (plan : CompiledPlan TaskType) where
  -- `payload_node<Plan, I>`
  unfoldable pub is_payload_node : ℕ → Bool
  is_payload_node i = is_owned (output_storage_mode (task_type plan i))

  -- `plan_slot_layout<Plan, slot_layout_serial_dfs_compact_policy>::indices`
  unfoldable pub compact_layout : CompactSlotIndexLayout
  compact_layout =
      make_serial_dfs_compact_slot_layout is_payload_node plan.parent_indices plan.node_count

  pub earlier :
      IsTree plan
      → (i : ℕ) → i < plan.node_count
      → plan.parent_indices i ≢ plan.node_count
      → plan.parent_indices i < i
  earlier tree zero h inner = absurd (inner (tree.root ∙ tree.sentinel))
  earlier tree (suc i) h inner = (tree.parent (suc i) (omega arith) h).before

  -- In the compact layout of a plan whose tables fit one tree, the payloads on one path from the root
  -- have different slots, all below the slot count, which is at most the number of nodes with a payload
  -- and whose last slot is used; the other nodes get no slot.
  pub compact_layout-IsCompact :
      IsTree plan → IsCompact is_payload_node plan.parent_indices plan.node_count compact_layout
  unfolding compact_layout
  compact_layout-IsCompact tree =
      make_serial_dfs_compact_slot_layout-IsCompact is_payload_node plan.parent_indices
        plan.node_count (earlier tree)
