-- ===== src/Storage/Typed/Cleanup.antt =====
-- The destructor of the one-to-one storage: `destroy_active_slots` of the specialization in
-- include/yorch/slots/plan_exec_slots.hpp.
use yorch.Base.{
  ℕ, zero, suc, ◌≤◌, ◌<◌, ◌≡◌, ◌∙◌, refl, subst, Bool, false, none, some, ◌==◌, ==_iff, Bool-cases,
  update, inl, inr, arith,
}
use yorch.Task.Policy.{SlotLogicalPolicy}
use yorch.Storage.Typed.{TypedSlots, destroy_node, destroy_active_slots, typed_view}
use yorch.Storage.Typed.Placement.{IsTyped, AreDistinct}
use yorch.Storage.Typed.Refinement.{destroy-Stepped}

module _ {V : Type 0} (payload : ℕ → Bool) (index : ℕ → ℕ) (logical : ℕ → SlotLogicalPolicy) (n : ℕ)
    (distinct : AreDistinct payload index n) where
  -- The nodes before `k` are not alive.
  abbrev Cleared : ℕ → TypedSlots V → Type 0
  Cleared k s = (j : ℕ) → j < k → typed_view payload index n s j ≡ none

  unowned : (k : ℕ) (s : TypedSlots V) → payload k ≡ false → typed_view payload index n s k ≡ none
  unfolding typed_view
  unowned k s off = rw off refl

  taken :
      (k : ℕ) (s : TypedSlots V)
      → Cleared k s
      → (j : ℕ) → j < suc k
      → update (typed_view payload index n s) k none j ≡ none
  taken k s cleared j b = elim (Bool-cases (k == j)) [
    | inl same ↦ rw same refl
    | inr other ↦ rw other (cleared j (ground arith))
  ]

  round :
      (k : ℕ) (s : TypedSlots V)
      → k < n
      → IsTyped payload index logical n s
      → Cleared k s
      → (s' : TypedSlots V) × (destroy_node payload index logical k s ≡ some s')
        × IsTyped payload index logical n s'
        × Cleared (suc k) s'
  unfolding destroy_node
  round k s h valid cleared = elim (Bool-cases (payload k)) [
    | inl on ↦
        let step = destroy-Stepped payload index logical n distinct k s h on valid in
        (step.store, step.returned, step.valid, λ j b. step.viewed j ∙ taken k s cleared j b)
    | inr off ↦ (
      s,
      rw off refl,
      valid,
      λ j b. elim (Bool-cases (k == j)) [
        | inl same ↦
            subst (λ i. typed_view payload index n s i ≡ none) ((==_iff k j).0 same)
              (unowned k s off)
        | inr other ↦ cleared j (ground arith)
      ],
    )
  ]

  rounds :
      (k : ℕ) (s : TypedSlots V)
      → k ≤ n
      → IsTyped payload index logical n s
      → (s' : TypedSlots V) × (destroy_active_slots payload index logical k s ≡ some s')
        × IsTyped payload index logical n s'
        × Cleared k s'
  unfolding destroy_active_slots
  rounds zero s h valid = (s, refl, valid, λ j b. absurd (omega arith))
  rounds (suc k) s h valid =
      let (middle, e, valid', cleared) = rounds k s (omega arith) valid in
      let (last, e', valid'', cleared') = round k middle (omega arith) valid' cleared in
      (last, rw e e', valid'', cleared')

  -- The destructor of the one-to-one storage, whichever nodes are alive, ends the lifetime of each
  -- object once: it returns, and no node of the plan is alive. The flags and bits are to tell which
  -- nodes are, and no two nodes have one slot.
  pub destroy_active_slots-Cleared :
      (s : TypedSlots V)
      → IsTyped payload index logical n s
      → (s' : TypedSlots V) × (destroy_active_slots payload index logical n s ≡ some s')
        × IsTyped payload index logical n s'
        × ((j : ℕ) → j < n → typed_view payload index n s' j ≡ none)
  destroy_active_slots-Cleared s valid = rounds n s (omega arith) valid
