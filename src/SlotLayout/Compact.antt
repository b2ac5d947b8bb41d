-- ===== src/SlotLayout/Compact.antt =====
-- The compact layout of include/yorch/detail/slots/layout.hpp: a payload's slot is the number of
-- owned payloads above it on its path to the root.
use yorch.Base.{
  ℕ, zero, suc, ◌+◌, ◌-◌, ◌≤◌, ◌<◌, ◌≡◌, ◌≢◌, refl, Bool, true, inl, inr, ◌==◌, if◌then◌else◌,
  Bool-cases, arith,
}
use yorch.SlotLayout.{no_physical_slot, CompactSlotIndexLayout, compact_rounds, payload_node_count}
use yorch.SlotLayout.OneToOne.{count_mono}

count_unfold :
    (payload : ℕ → Bool) (i : ℕ)
    → payload_node_count payload (suc i)
      ≡ payload_node_count payload i + (if payload i then 1 else 0)
unfolding payload_node_count
count_unfold payload i = ground arith

pub count_le :
    (payload : ℕ → Bool) (i j : ℕ)
    → i ≤ j
    → payload_node_count payload i ≤ payload_node_count payload j
count_le payload i j h =
    let e : i + (j - i) ≡ j = omega arith in rw e at (count_mono payload i (j - i))

-- The nodes on the path from a node to the root, itself excluded.
pub data Ancestor (parents : ℕ → ℕ) (n a : ℕ) : ℕ → Type 0 where
  parent : (b : ℕ) → parents b ≢ n → parents b ≡ a → Ancestor parents n a b
  above : (b : ℕ) → parents b ≢ n → Ancestor parents n a (parents b) → Ancestor parents n a b

module _ (payload : ℕ → Bool) (parents : ℕ → ℕ) (n : ℕ) where
  abbrev pub rounds : ℕ → CompactSlotIndexLayout
  rounds = compact_rounds payload parents n

  -- The depth that a node's own round writes.
  abbrev pub depth : ℕ → ℕ
  depth i = (rounds (suc i)).payload_depths i

  abbrev pub weight : ℕ → ℕ
  weight i = if payload i then 1 else 0

  depths_at : (k i : ℕ) → i < k → (rounds k).payload_depths i ≡ depth i
  unfolding compact_rounds
  depths_at zero i h = absurd (omega arith)
  depths_at (suc k) i h = ground (arith, depths_at k i)

  indices_fresh : (k i : ℕ) → k ≤ i → (rounds k).physical_slot_indices i ≡ no_physical_slot
  unfolding compact_rounds
  indices_fresh zero i h = refl
  indices_fresh (suc k) i h = ground (arith, indices_fresh k i)

  pub indices_at :
      (k i : ℕ)
      → i < k
      → (rounds k).physical_slot_indices i ≡ (if payload i then depth i - 1 else no_physical_slot)
  unfolding compact_rounds
  indices_at zero i h = absurd (omega arith)
  indices_at (suc k) i h = ground (arith, indices_at k i, indices_fresh k i)

  pub count_bound : (k i : ℕ) → i < k → payload i ≡ true → depth i ≤ (rounds k).physical_slot_count
  unfolding compact_rounds
  count_bound zero i h e = absurd (omega arith)
  count_bound (suc k) i h e = ground (arith, count_bound k i)

  module _ (earlier : (i : ℕ) → i < n → parents i ≢ n → parents i < i) where
    depth_lem :
        (i : ℕ) → i < n → depth i ≡ (if parents i == n then 0 else depth (parents i)) + weight i
    unfolding compact_rounds
    depth_lem i h = ground (arith, earlier i h, depths_at i (parents i))

    pub Ancestor-depth : {a b : ℕ} → Ancestor parents n a b → b < n → depth a + weight b ≤ depth b
    Ancestor-depth (parent b inner e) h = ground (arith, depth_lem b h)
    Ancestor-depth {a} (above b inner up) h =
        let before = earlier b h inner in
        ground (arith, depth_lem b h, Ancestor-depth up (omega arith))

    pub Ancestor-lt : {a b : ℕ} → Ancestor parents n a b → b < n → a < b
    Ancestor-lt (parent b inner e) h = ground (arith, earlier b h inner)
    Ancestor-lt (above b inner up) h =
        let before = earlier b h inner in omega (arith, Ancestor-lt up (omega arith))

    pub owned_depth : (i : ℕ) → i < n → payload i ≡ true → 0 < depth i
    owned_depth i h e = ground (arith, depth_lem i h)

    -- No payload is deeper than the number of owned payloads up to it.
    pub depth_le_count : (k i : ℕ) → i < k → k ≤ n → depth i ≤ payload_node_count payload (suc i)
    depth_le_count zero i h le = absurd (omega arith)
    depth_le_count (suc k) i h le = elim (Bool-cases (parents i == n)) [
      | inl root ↦
          let step = count_unfold payload i in ground (arith, depth_lem i (omega arith), step)
      | inr inner ↦
          let ne : parents i ≢ n = ground arith in
          let before = earlier i (omega arith) ne in
          let up = depth_le_count k (parents i) (omega arith) (omega arith) in
          let mono = count_le payload (suc (parents i)) i before in
          ground (arith, depth_lem i (omega arith), count_unfold payload i)
    ]
