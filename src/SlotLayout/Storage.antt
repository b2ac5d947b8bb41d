-- ===== src/SlotLayout/Storage.antt =====
-- The storage of a physical slot (include/yorch/detail/slots/layout.hpp) serves every node that it
-- is given to: it is large enough, and tracks engagement where one of them may leave it empty.
use yorch.Base.{ℕ, zero, suc, ◌≤◌, ◌<◌, ◌≡◌, ◌≢◌, ◌⊎◌, ◌↔◌, refl, inl, inr, Option, some, arith}
use yorch.Task.Policy.{SlotLogicalPolicy, SlotPhysicalPolicy}
use yorch.SlotLayout.{
  no_physical_slot, make_physical_slot_policies, make_physical_slot_maxima,
  join_slot_physical_policy,
}

-- The size or the alignment computed for a physical slot is at least that of each output which is
-- stored in it.
pub maxima_bound :
    (measure indices : ℕ → ℕ) (output : ℕ → Option ℕ) (k i : ℕ) (t : ℕ)
    → i < k
    → output i ≡ some t
    → indices i ≢ no_physical_slot
    → measure t ≤ make_physical_slot_maxima measure indices output k (indices i)
unfolding make_physical_slot_maxima
maxima_bound measure indices output zero i t h e ne = absurd (omega arith)
maxima_bound measure indices output (suc k) i t h e ne =
    ground (arith, maxima_bound measure indices output k i t)

module _ (indices : ℕ → ℕ) (logical : ℕ → SlotLogicalPolicy) where
  abbrev policies : ℕ → ℕ → SlotPhysicalPolicy
  policies = make_physical_slot_policies indices logical

  pub maybe_owner :
      (k i : ℕ)
      → i < k
      → indices i ≢ no_physical_slot
      → logical i ≡ SlotLogicalPolicy.maybe_payload
      → policies k (indices i) ≡ SlotPhysicalPolicy.maybe_payload
  unfolding make_physical_slot_policies join_slot_physical_policy
  maybe_owner zero i h ne e = absurd (omega arith)
  maybe_owner (suc k) i h ne e = ground (arith, maybe_owner k i)

  must_owner :
      (k i : ℕ)
      → i < k
      → indices i ≢ no_physical_slot
      → logical i ≡ SlotLogicalPolicy.must_payload
      → policies k (indices i) ≢ SlotPhysicalPolicy.none
  unfolding make_physical_slot_policies join_slot_physical_policy
  must_owner zero i h ne e = absurd (omega arith)
  must_owner (suc k) i h ne e = ground (arith, must_owner k i)

  abbrev pub MaybeOwner : ℕ → ℕ → Type 0
  MaybeOwner k slot =
      (j : ℕ) × (j < k)
      × (indices j ≢ no_physical_slot)
      × (indices j ≡ slot)
      × (logical j ≡ SlotLogicalPolicy.maybe_payload)

  MaybeOwner-suc : (k slot : ℕ) → MaybeOwner k slot → MaybeOwner (suc k) slot
  MaybeOwner-suc k slot (j, h, ne, e, m) = (j, omega arith, ne, e, m)

  -- What one round does to the policy of a slot.
  policy_step :
      (k slot : ℕ)
      → policies (suc k) slot ≡ SlotPhysicalPolicy.maybe_payload
      → (policies k slot ≡ SlotPhysicalPolicy.maybe_payload)
        ⊎ ((indices k ≢ no_physical_slot)
            × (indices k ≡ slot)
            × (logical k ≡ SlotLogicalPolicy.maybe_payload))
  unfolding make_physical_slot_policies join_slot_physical_policy
  policy_step k slot e = ground arith

  no_policy : (slot : ℕ) → policies 0 slot ≡ SlotPhysicalPolicy.none
  unfolding make_physical_slot_policies
  no_policy slot = refl

  maybe_has_owner :
      (k slot : ℕ) → policies k slot ≡ SlotPhysicalPolicy.maybe_payload → MaybeOwner k slot
  maybe_has_owner zero slot e = cc (no_policy slot)
  maybe_has_owner (suc k) slot e = elim (policy_step k slot e) [
    | inl old ↦ MaybeOwner-suc k slot (maybe_has_owner k slot old)
    | inr (ne, same, m) ↦ (k, omega arith, ne, same, m)
  ]

  must_of :
      (p : SlotPhysicalPolicy)
      → p ≢ SlotPhysicalPolicy.none
      → p ≢ SlotPhysicalPolicy.maybe_payload
      → p ≡ SlotPhysicalPolicy.must_payload
  must_of p a b = ground arith

  -- The physical slot of a node with a payload goes without an engagement flag exactly when no node
  -- that shares it may leave it empty.
  must_iff :
      (k i : ℕ)
      → i < k
      → indices i ≢ no_physical_slot
      → logical i ≢ SlotLogicalPolicy.none
      → (policies k (indices i) ≡ SlotPhysicalPolicy.must_payload) ↔ ¬ MaybeOwner k (indices i)
  must_iff k i h ne some_payload = (
    λ must (j, b, ne', e, m). cc (maybe_owner k j b ne' m),
    λ free.
        must_of (policies k (indices i))
          (λ e. ground (arith, maybe_owner k i h ne, must_owner k i h ne))
          (λ e. free (maybe_has_owner k (indices i) e)),
  )
