-- ===== src/SlotLayout.antt =====
-- include/yorch/detail/slots/layout.hpp: which physical slot each node's output is stored in, under
-- the one-to-one policy and under the compact policy for serial depth-first execution.
pub mod OneToOne
pub mod Owners
pub mod Compact
pub mod Reuse
pub mod Storage
pub mod Plans
use yorch.Base.{
  ℕ, zero, suc, ◌+◌, ◌-◌, ◌^◌, Bool, true, false, Option, none, some, ◌==◌, ltb, if◌then◌else◌,
  update,
}
use yorch.Task.Policy.{SlotLogicalPolicy, SlotPhysicalPolicy}

-- `no_physical_slot`
abbrev pub no_physical_slot : ℕ
no_physical_slot = 2 ^ 64 - 1

-- `payload_node_count_v`, the loop after `k` entries.
unfoldable pub payload_node_count : (ℕ → Bool) → ℕ → ℕ
payload_node_count payload zero = 0
payload_node_count payload (suc k) =
    let count = payload_node_count payload k in if payload k then count + 1 else count

-- `make_one_to_one_physical_slot_indices`: its variables after `k` rounds.
pub record OneToOneState : Type 0 where
  pub next : ℕ
  pub indices : ℕ → ℕ

unfoldable pub one_to_one_rounds : (ℕ → Bool) → ℕ → OneToOneState
one_to_one_rounds payload zero = record { next = 0; indices = λ _. no_physical_slot }
one_to_one_rounds payload (suc node) =
    let before = one_to_one_rounds payload node in
    if payload node
    then record { next = before.next + 1; indices = update before.indices node before.next }
    else before

unfoldable pub make_one_to_one_physical_slot_indices : (ℕ → Bool) → ℕ → ℕ → ℕ
unfolding one_to_one_rounds
make_one_to_one_physical_slot_indices payload n = (one_to_one_rounds payload n).indices

-- `compact_slot_index_layout`
pub record CompactSlotIndexLayout : Type 0 where
  pub physical_slot_indices : ℕ → ℕ
  pub payload_depths : ℕ → ℕ
  pub physical_slot_count : ℕ

-- One round of `make_serial_dfs_compact_slot_layout`, for a node of the given depth.
unfoldable pub compact_round : Bool → ℕ → ℕ → CompactSlotIndexLayout → CompactSlotIndexLayout
compact_round payload node parent_depth before =
    let depth = parent_depth + (if payload then 1 else 0) in
    record {
      physical_slot_indices =
          if payload
          then update before.physical_slot_indices node (depth - 1)
          else before.physical_slot_indices;
      payload_depths = update before.payload_depths node depth;
      physical_slot_count =
          if payload
          then (if ltb before.physical_slot_count depth then depth else before.physical_slot_count)
          else before.physical_slot_count;
    }

-- The layout after `k` rounds; `parents` is `Plan::parent_indices`, `n` is `Plan::no_parent`.
unfoldable pub compact_rounds : (ℕ → Bool) → (ℕ → ℕ) → ℕ → ℕ → CompactSlotIndexLayout
unfolding compact_round
compact_rounds payload parents n zero = record {
  physical_slot_indices = λ _. no_physical_slot;
  payload_depths = λ _. 0;
  physical_slot_count = 0;
}
compact_rounds payload parents n (suc node) =
    let before = compact_rounds payload parents n node in
    compact_round (payload node) node
      (if parents node == n then 0 else before.payload_depths (parents node)) before

unfoldable pub make_serial_dfs_compact_slot_layout :
    (ℕ → Bool) → (ℕ → ℕ) → ℕ → CompactSlotIndexLayout
unfolding compact_rounds
make_serial_dfs_compact_slot_layout payload parents n = compact_rounds payload parents n n

-- `join_slot_physical_policy`
unfoldable pub join_slot_physical_policy :
    SlotPhysicalPolicy → SlotLogicalPolicy → SlotPhysicalPolicy
join_slot_physical_policy left SlotLogicalPolicy.none = left
join_slot_physical_policy SlotPhysicalPolicy.none SlotLogicalPolicy.must_payload =
    SlotPhysicalPolicy.must_payload
join_slot_physical_policy SlotPhysicalPolicy.none SlotLogicalPolicy.maybe_payload =
    SlotPhysicalPolicy.maybe_payload
join_slot_physical_policy SlotPhysicalPolicy.must_payload SlotLogicalPolicy.must_payload =
    SlotPhysicalPolicy.must_payload
join_slot_physical_policy _ _ = SlotPhysicalPolicy.maybe_payload

-- `make_physical_slot_policies` after the first `k` nodes.
unfoldable pub make_physical_slot_policies :
    (ℕ → ℕ) → (ℕ → SlotLogicalPolicy) → ℕ → ℕ → SlotPhysicalPolicy
unfolding join_slot_physical_policy
make_physical_slot_policies indices logical zero = λ _. SlotPhysicalPolicy.none
make_physical_slot_policies indices logical (suc i) =
    let policies = make_physical_slot_policies indices logical i in
    if indices i == no_physical_slot
    then policies
    else update policies (indices i) (join_slot_physical_policy (policies (indices i)) (logical i))

-- `make_physical_slot_sizes` and `make_physical_slot_alignments` after the first `k` nodes:
-- `measure` is `sizeof` or `alignof`, which the compiler gives.
unfoldable pub make_physical_slot_maxima : (ℕ → ℕ) → (ℕ → ℕ) → (ℕ → Option ℕ) → ℕ → ℕ → ℕ
make_physical_slot_maxima measure indices output zero = λ _. 0
make_physical_slot_maxima measure indices output (suc i) =
    let sizes = make_physical_slot_maxima measure indices output i in
    elim (output i) [
      | none ↦ sizes
      | some t ↦
          if indices i == no_physical_slot
          then sizes
          else update sizes (indices i)
              (if ltb (sizes (indices i)) (measure t) then measure t else sizes (indices i))
    ]

-- `one_to_one_physical_slot_owner_node`, the loop from `node` over the `k` nodes that are left.
unfoldable pub owner_scan : (ℕ → ℕ) → ℕ → ℕ → ℕ → ℕ
owner_scan indices slot node zero = no_physical_slot
owner_scan indices slot node (suc k) =
    let later = owner_scan indices slot (suc node) k in if indices node == slot then node else later

unfoldable pub one_to_one_physical_slot_owner_node : (ℕ → Bool) → ℕ → ℕ → ℕ
unfolding owner_scan make_one_to_one_physical_slot_indices
one_to_one_physical_slot_owner_node payload n slot =
    owner_scan (make_one_to_one_physical_slot_indices payload n) slot 0 n
