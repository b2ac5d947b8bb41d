-- ===== src/SlotLayout/OneToOne.antt =====
-- The one-to-one layout of include/yorch/detail/slots/layout.hpp gives each owned payload a slot of
-- its own.
use yorch.Base.{
  ℕ, zero, suc, ◌+◌, ◌-◌, ◌∙◌, ◌≤◌, ◌<◌, ◌≡◌, refl, Bool, true, false, inl, inr, ◌==◌,
  if◌then◌else◌, Bool-cases, arith,
}
use yorch.SlotLayout.{
  no_physical_slot, payload_node_count, one_to_one_rounds, make_one_to_one_physical_slot_indices,
}

pub count_le_nodes : (payload : ℕ → Bool) (k : ℕ) → payload_node_count payload k ≤ k
unfolding payload_node_count
count_le_nodes payload zero = omega arith
count_le_nodes payload (suc k) = ground (arith, count_le_nodes payload k)

module _ (payload : ℕ → Bool) where
  next_count : (k : ℕ) → (one_to_one_rounds payload k).next ≡ payload_node_count payload k
  unfolding one_to_one_rounds payload_node_count
  next_count zero = refl
  next_count (suc k) = ground (arith, next_count k)

  pub count_mono : (i d : ℕ) → payload_node_count payload i ≤ payload_node_count payload (i + d)
  count_mono i zero = let e : i + 0 ≡ i = omega arith in rw e (omega arith)
  count_mono i (suc d) =
      let e : i + suc d ≡ suc (i + d) = omega arith in
      let step : payload_node_count payload (i + d) ≤ payload_node_count payload (suc (i + d)) =
        unfold payload_node_count in ground arith in
      rw e (omega (arith, step, count_mono i d))

  -- A node's slot is the number of owned payloads before it.
  indices_at :
      (k i : ℕ)
      → i < k
      → (one_to_one_rounds payload k).indices i
        ≡ (if payload i then payload_node_count payload i else no_physical_slot)
  unfolding one_to_one_rounds
  indices_at zero i h = absurd (omega arith)
  indices_at (suc k) i h = ground (arith, indices_at k i, next_count k, fresh k k)
    where
      fresh : (j i : ℕ) → j ≤ i → (one_to_one_rounds payload j).indices i ≡ no_physical_slot
      fresh zero i le = refl
      fresh (suc j) i le = ground (arith, fresh j i)

  count_step :
      (i : ℕ)
      → payload i ≡ true
      → payload_node_count payload (suc i) ≡ payload_node_count payload i + 1
  unfolding payload_node_count
  count_step i e = rw e

  count_lt :
      (i j : ℕ)
      → payload i ≡ true
      → i < j
      → payload_node_count payload i < payload_node_count payload j
  count_lt i j e h =
      let eq : suc i + (j - suc i) ≡ j = omega arith in
      let mono : payload_node_count payload (suc i) ≤ payload_node_count payload j =
        rw eq at (count_mono (suc i) (j - suc i)) in
      omega (arith, count_step i e, mono)

  -- The slots of `n` nodes: each owned payload has one, no two share one, and none is spare.
  pub record IsOneToOne (n : ℕ) (indices : ℕ → ℕ) (count : ℕ) : Type 0 where
    pub owned_below : (i : ℕ) → i < n → payload i ≡ true → indices i < count
    pub distinct :
        (i j : ℕ) → i < j → j < n → payload i ≡ true → payload j ≡ true → indices i < indices j
    pub unowned : (i : ℕ) → i < n → payload i ≡ false → indices i ≡ no_physical_slot
    pub owner :
        (slot : ℕ) → slot < count → (i : ℕ) × (i < n) × (payload i ≡ true) × (indices i ≡ slot)

  owner_of :
      (n slot : ℕ)
      → slot < payload_node_count payload n
      → (i : ℕ) × (i < n) × (payload i ≡ true) × (payload_node_count payload i ≡ slot)
  unfolding payload_node_count
  owner_of zero slot h = absurd (omega arith)
  owner_of (suc n) slot h = elim (Bool-cases (payload n)) [
    | inl e ↦ elim (Bool-cases (payload_node_count payload n == slot)) [
      | inl last ↦ (n, omega arith, e, ground arith)
      | inr earlier ↦ owner_from n slot (owner_of n slot (ground arith))
    ]
    | inr e ↦ owner_from n slot (owner_of n slot (ground arith))
  ]
    where
      owner_from :
          (n slot : ℕ)
          → (i : ℕ) × (i < n) × (payload i ≡ true) × (payload_node_count payload i ≡ slot)
          → (i : ℕ) × (i < suc n) × (payload i ≡ true) × (payload_node_count payload i ≡ slot)
      owner_from n slot (i, h, e, c) = (i, omega arith, e, c)

  slot_of :
      (n i : ℕ)
      → i < n
      → payload i ≡ true
      → make_one_to_one_physical_slot_indices payload n i ≡ payload_node_count payload i
  unfolding make_one_to_one_physical_slot_indices
  slot_of n i h e = rw e at (indices_at n i h)

  -- The one-to-one layout gives each node with a payload a slot of its own, numbers the slots without
  -- gaps up to the number of payloads, and gives the other nodes none.
  pub make_one_to_one_physical_slot_indices-IsOneToOne :
      (n : ℕ)
      → IsOneToOne n
          (make_one_to_one_physical_slot_indices payload n)
          (payload_node_count payload n)
  make_one_to_one_physical_slot_indices-IsOneToOne n = record {
    owned_below = λ i h e. rw (slot_of n i h e) (count_lt i n e h);
    distinct =
        λ i j lt h e f. rw (slot_of n i (omega arith) e, slot_of n j h f) (count_lt i j e lt);
    unowned = λ i h e. unfold make_one_to_one_physical_slot_indices in rw e at (indices_at n i h);
    owner = λ slot h. let (i, b, e, c) = owner_of n slot h in (i, b, e, slot_of n i b e ∙ c);
  }
