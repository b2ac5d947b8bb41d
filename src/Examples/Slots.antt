-- ===== src/Examples/Slots.antt =====
-- Slot layouts of the example tree: nodes 0 and 1 have a payload, and node 0 is the parent of 1 and 3.
use yorch.Base.{ℕ, ◌<◌, ◌≤◌, ◌≢◌, refl, Bool, Option, some, ◌==◌, if◌then◌else◌, ltb, arith}
use yorch.SlotLayout.{
  payload_node_count, make_one_to_one_physical_slot_indices, make_serial_dfs_compact_slot_layout,
  make_physical_slot_maxima,
}
use yorch.SlotLayout.OneToOne.{IsOneToOne, make_one_to_one_physical_slot_indices-IsOneToOne}
use yorch.SlotLayout.Reuse.{IsCompact, make_serial_dfs_compact_slot_layout-IsCompact}
use yorch.SlotLayout.Storage.{maxima_bound}

abbrev payload : ℕ → Bool
payload i = ltb i 2

-- The parents of the nodes; 4 is the sentinel.
abbrev parents : ℕ → ℕ
parents i = if i == 0 then 4 else if i == 2 then 1 else 0

earlier : (i : ℕ) → i < 4 → parents i ≢ 4 → parents i < i
earlier i h ne = ground arith

make_one_to_one_physical_slot_indices-IsOneToOne_example :
    IsOneToOne payload 4
      (make_one_to_one_physical_slot_indices payload 4)
      (payload_node_count payload 4)
make_one_to_one_physical_slot_indices-IsOneToOne_example =
    make_one_to_one_physical_slot_indices-IsOneToOne payload 4

make_serial_dfs_compact_slot_layout-IsCompact_example :
    IsCompact payload parents 4 (make_serial_dfs_compact_slot_layout payload parents 4)
make_serial_dfs_compact_slot_layout-IsCompact_example =
    make_serial_dfs_compact_slot_layout-IsCompact payload parents 4 earlier

-- Two nodes that share the slot 0.
abbrev shared : ℕ → ℕ
shared i = 0

abbrev size_of : ℕ → ℕ
size_of t = t

abbrev outputs : ℕ → Option ℕ
outputs i = some 8

maxima_bound_example : size_of 8 ≤ make_physical_slot_maxima size_of shared outputs 2 (shared 1)
maxima_bound_example =
    maxima_bound size_of shared outputs 2 1 8 (omega arith) refl (λ e. omega (arith, e))
