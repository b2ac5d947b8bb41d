-- ===== src/SlotLayout/Reuse.antt =====
-- Which nodes may share a slot in the compact layout (include/yorch/detail/slots/layout.hpp), and
-- how many slots it takes.
use yorch.Base.{
  ℕ, zero, suc, ◌+◌, ◌-◌, ◌∙◌, ◌≤◌, ◌<◌, ◌≡◌, ◌≢◌, ◌⊎◌, sym, refl, ◌&&◌, Bool, true, false, inl,
  inr, ltb, if◌then◌else◌, Bool-cases, arith,
}
use yorch.SlotLayout.{
  no_physical_slot, payload_node_count, CompactSlotIndexLayout, compact_rounds,
  make_serial_dfs_compact_slot_layout,
}
use yorch.SlotLayout.Compact.{
  Ancestor, depth, rounds, indices_at, count_bound, Ancestor-depth, Ancestor-lt, owned_depth,
  depth_le_count, count_le as payload_count_le,
}

-- The slots of `n` nodes under a layout that reuses them along the depth-first order.
pub record IsCompact (payload : ℕ → Bool) (parents : ℕ → ℕ) (n : ℕ)
    (layout : CompactSlotIndexLayout) : Type 0 where
  pub owned_below :
      (i : ℕ)
      → i < n
      → payload i ≡ true
      → layout.physical_slot_indices i < layout.physical_slot_count
  pub unowned :
      (i : ℕ) → i < n → payload i ≡ false → layout.physical_slot_indices i ≡ no_physical_slot
  pub path_distinct :
      (a b : ℕ)
      → b < n
      → Ancestor parents n a b
      → payload a ≡ true
      → payload b ≡ true
      → layout.physical_slot_indices a < layout.physical_slot_indices b
  pub count_used :
      (layout.physical_slot_count ≡ 0)
      ⊎ ((i : ℕ) × (i < n)
          × (payload i ≡ true)
          × (layout.physical_slot_indices i + 1 ≡ layout.physical_slot_count))
  pub count_le : layout.physical_slot_count ≤ payload_node_count payload n

module _ (payload : ℕ → Bool) (parents : ℕ → ℕ) (n : ℕ)
    (earlier : (i : ℕ) → i < n → parents i ≢ n → parents i < i) where
  abbrev Attained : ℕ → Type 0
  Attained k =
      ((rounds payload parents n k).physical_slot_count ≡ 0)
      ⊎ ((i : ℕ) × (i < k)
          × (payload i ≡ true)
          × (depth payload parents n i ≡ (rounds payload parents n k).physical_slot_count))

  abbrev count : ℕ → ℕ
  count k = (rounds payload parents n k).physical_slot_count

  count_step :
      (k : ℕ)
      → count (suc k) ≡ (
          if payload k && ltb (count k) (depth payload parents n k)
          then depth payload parents n k
          else count k)
  unfolding compact_rounds
  count_step k = ground arith

  kept : (k : ℕ) → count (suc k) ≡ count k → Attained k → Attained (suc k)
  kept k same (inl zero_count) = inl (same ∙ zero_count)
  kept k same (inr (i, h, e, d)) = inr (i, omega arith, e, d ∙ sym same)

  attained : (k : ℕ) → Attained k
  attained zero = inl (unfold compact_rounds in refl)
  attained (suc k) = elim (Bool-cases (payload k && ltb (count k) (depth payload parents n k))) [
    | inl deeper ↦ inr (k, omega arith, ground arith, ground (arith, count_step k))
    | inr shallow ↦ kept k (ground (arith, count_step k)) (attained k)
  ]

  -- The count is the largest number that the bounds on the depths allow.
  count_le_payloads : (k : ℕ) → k ≤ n → count k ≤ payload_node_count payload n
  count_le_payloads k h = elim (attained k) [
    | inl none_owned ↦ omega (arith, none_owned)
    | inr (i, b, e, d) ↦ omega (
      arith,
      d,
      depth_le_count payload parents n earlier k i b h,
      payload_count_le payload (suc i) n (omega arith),
    )
  ]

  slot_of :
      (i : ℕ)
      → i < n
      → payload i ≡ true
      → (rounds payload parents n n).physical_slot_indices i ≡ depth payload parents n i - 1
  slot_of i h e = rw e at (indices_at payload parents n n i h)

  owned_deeper :
      {a b : ℕ}
      → Ancestor parents n a b
      → b < n
      → payload b ≡ true
      → depth payload parents n a + 1 ≤ depth payload parents n b
  owned_deeper up h e = ground (arith, Ancestor-depth payload parents n earlier up h)

  -- When each node but the root has an earlier parent, the compact layout gives different slots to
  -- any two nodes with payloads on one path from the root, all below the slot count, whose last slot
  -- is used; the count is at most the number of payloads, and the other nodes get no slot.
  pub make_serial_dfs_compact_slot_layout-IsCompact :
      IsCompact payload parents n (make_serial_dfs_compact_slot_layout payload parents n)
  unfolding make_serial_dfs_compact_slot_layout
  make_serial_dfs_compact_slot_layout-IsCompact = record {
    owned_below = λ i h e. omega (
      arith,
      slot_of i h e,
      owned_depth payload parents n earlier i h e,
      count_bound payload parents n n i h e,
    );
    unowned = λ i h e. rw e at (indices_at payload parents n n i h);
    path_distinct = λ a b h up e f.
        let a_lt = Ancestor-lt payload parents n earlier up h in
        omega (
          arith,
          slot_of a (omega arith) e,
          slot_of b h f,
          owned_deeper up h f,
          owned_depth payload parents n earlier a (omega arith) e,
        );
    count_used = used (attained n);
    count_le = count_le_payloads n (omega arith);
  }
    where
      used :
          Attained n
          → (count n ≡ 0)
            ⊎ ((i : ℕ) × (i < n)
                × (payload i ≡ true)
                × ((rounds payload parents n n).physical_slot_indices i + 1 ≡ count n))
      used (inl z) = inl z
      used (inr (i, h, e, d)) =
          inr
            (i, h, e, omega (arith, slot_of i h e, d, owned_depth payload parents n earlier i h e))
