-- ===== src/SlotLayout/Owners.antt =====
-- The owners of the one-to-one slots (include/yorch/detail/slots/layout.hpp): the tuple of typed slots is
-- laid out by slot, with the output type and the slot policy of the node that owns it.
use yorch.Base.{
  ℕ, zero, suc, ◌+◌, ◌<◌, ◌≤◌, ◌≡◌, ◌≢◌, refl, Bool, true, false, ◌==◌, ==_iff, Bool-cases, inl,
  inr, arith,
}
use yorch.SlotLayout.{
  no_physical_slot, make_one_to_one_physical_slot_indices, owner_scan,
  one_to_one_physical_slot_owner_node,
}
use yorch.SlotLayout.OneToOne.{count_le_nodes, make_one_to_one_physical_slot_indices-IsOneToOne}

-- The scan stops at the first node with the slot.
owner_scan_lem :
    (indices : ℕ → ℕ) (slot i node k : ℕ)
    → node ≤ i
    → i < node + k
    → indices i ≡ slot
    → ((j : ℕ) → j < i → indices j ≢ slot)
    → owner_scan indices slot node k ≡ i
unfolding owner_scan
owner_scan_lem indices slot i node zero le h here first = absurd (omega arith)
owner_scan_lem indices slot i node (suc k) le h here first = elim (Bool-cases (node == i)) [
  | inl same ↦ ground arith
  | inr other ↦
      let before : node < i = ground arith in
      let skip : (indices node == slot) ≡ false = elim (Bool-cases (indices node == slot)) [
        | inl hit ↦ absurd (first node before ((==_iff (indices node) slot).0 hit))
        | inr miss ↦ miss
      ] in
      rw skip (owner_scan_lem indices slot i (suc node) k (omega arith) (omega arith) here first)
]

-- A node's slot has the node as its owner, and with it the node's output type and policy, when the
-- node has a payload.
pub owner_node-indices :
    (payload : ℕ → Bool) (n i : ℕ)
    → n ≤ no_physical_slot
    → i < n
    → payload i ≡ true
    → one_to_one_physical_slot_owner_node payload n
        (make_one_to_one_physical_slot_indices payload n i)
      ≡ i
unfolding one_to_one_physical_slot_owner_node
owner_node-indices payload n i small h own =
    let layout = make_one_to_one_physical_slot_indices-IsOneToOne payload n in
    owner_scan_lem (make_one_to_one_physical_slot_indices payload n)
      (make_one_to_one_physical_slot_indices payload n i) i 0 n (omega arith) (omega arith) refl
      (λ j less same. elim (Bool-cases (payload j)) [
        | inl own' ↦ let apart = layout.distinct j i less h own' own in omega (arith, same)
        | inr unowned ↦
            let none' = layout.unowned j (omega arith) unowned in
            let below = layout.owned_below i h own in
            omega (arith, same, none', below, count_le_nodes payload n)
      ])
