-- ===== src/Slots/Cleanup.antt =====
-- The destructor of the compact storage: `destroy_active_slots` in
-- include/yorch/slots/plan_exec_slots.hpp.
use yorch.Base.{
  ℕ, zero, suc, ◌≤◌, ◌<◌, ◌≡◌, ◌≢◌, refl, sym, ◌∙◌, subst, ap, Bool, true, false, some, ◌==◌,
  ==_iff, ◌&&◌, update, Bool-cases, inl, inr, arith,
}
use yorch.Task.Policy.{SlotPhysicalPolicy}
use yorch.SlotLayout.{no_physical_slot}
use yorch.Slots.{ErasedSlot, holds, destroy_active, destroy_active_slots}
use yorch.Slots.View.{IsTracked, destroy-IsTracked}

module _ {V : Type 0} (payload : ℕ → Bool) (index : ℕ → ℕ) (policies : ℕ → SlotPhysicalPolicy)
    (n : ℕ) where
  -- Every object belongs to a node from `k` on that stores its output in the slot.
  pub record IsPending (k : ℕ) (slots : ℕ → ErasedSlot V) : Type 0 where
    pub tracked : (s : ℕ) → IsTracked (policies s) (slots s)
    pub owned :
        (s : ℕ)
        → holds (slots s) ≡ true
        → (k ≤ (slots s).owner_node)
          × ((slots s).owner_node < n)
          × (payload (slots s).owner_node ≡ true)
          × (index (slots s).owner_node ≡ s)

module _ {V : Type 0} (payload : ℕ → Bool) (index : ℕ → ℕ) (policies : ℕ → SlotPhysicalPolicy)
    (n : ℕ) (small : n ≤ no_physical_slot) where
  abbrev Pending : ℕ → (ℕ → ErasedSlot V) → Type 0
  Pending = IsPending payload index policies n

  -- The owners that are left after the round of `k`.
  later :
      (k : ℕ) (slots : ℕ → ErasedSlot V) (s : ℕ)
      → Pending k slots
      → holds (slots s) ≡ true
      → (slots s).owner_node ≢ k
      → suc k ≤ (slots s).owner_node
  later k slots s pending full other = let (above, _, _, _) = pending.owned s full in ground arith

  update-IsTracked :
      (k : ℕ) (slots : ℕ → ErasedSlot V) (emptied : ErasedSlot V)
      → Pending k slots
      → IsTracked (policies (index k)) emptied
      → (s : ℕ) → IsTracked (policies s) (update slots (index k) emptied s)
  update-IsTracked k slots emptied pending after s = elim (Bool-cases (index k == s)) [
    | inl same ↦
        let e = (==_iff (index k) s).0 same in
        rw same (subst (λ x. IsTracked (policies x) emptied) e after)
    | inr other ↦ rw other (pending.tracked s)
  ]

  updated_owned :
      (k : ℕ) (slots : ℕ → ErasedSlot V) (emptied : ErasedSlot V)
      → Pending k slots
      → holds emptied ≡ false
      → (s : ℕ) → holds (update slots (index k) emptied s) ≡ true
      → (suc k ≤ (update slots (index k) emptied s).owner_node)
        × ((update slots (index k) emptied s).owner_node < n)
        × (payload (update slots (index k) emptied s).owner_node ≡ true)
        × (index (update slots (index k) emptied s).owner_node ≡ s)
  updated_owned k slots emptied pending gone s full = elim (Bool-cases (index k == s)) [
    | inl same ↦ let full' = rw same at full in absurd (ground arith)
    | inr other ↦
        let full' = rw other at full in
        let (above, below, on, there) = pending.owned s full' in
        let apart : (slots s).owner_node ≢ k =
          λ e. ground (arith, ==_iff (index k) s, ap index e, there) in
        rw other (later k slots s pending full' apart, below, on, there)
  ]

  -- The node of the round owns its slot: the slot is emptied.
  round_owned :
      (k : ℕ) (slots : ℕ → ErasedSlot V)
      → k < n
      → Pending k slots
      → payload k ≡ true
      → (slots (index k)).owner_node ≡ k
      → (slots' : ℕ → ErasedSlot V) × (destroy_active payload index policies k slots ≡ some slots')
        × Pending (suc k) slots'
  unfolding destroy_active
  round_owned k slots h pending on owner =
      let here = pending.tracked (index k) in
      let full : holds (slots (index k)) ≡ true = ground (arith, here.owner) in
      let (emptied, e, gone, after) =
        destroy-IsTracked (policies (index k)) (slots (index k)) here full in
      let mine : ((slots (index k)).owner_node == k) ≡ true =
        (==_iff (slots (index k)).owner_node k).1 owner in
      (
        update slots (index k) emptied,
        rw (on, mine, e),
        record {
          tracked = update-IsTracked k slots emptied pending after;
          owned = updated_owned k slots emptied pending gone;
        },
      )

  -- The node of the round owns nothing.
  round_other :
      (k : ℕ) (slots : ℕ → ErasedSlot V)
      → Pending k slots
      → (payload k && (slots (index k)).owner_node == k) ≡ false
      → Pending (suc k) slots
  round_other k slots pending off = record {
    tracked = pending.tracked;
    owned = λ s full.
        let (above, below, on, there) = pending.owned s full in
        let apart : (slots s).owner_node ≢ k = λ e.
          let on' = subst (λ x. payload x ≡ true) e on in
          let mine = subst (λ x. (slots x).owner_node ≡ k) (sym there ∙ ap index e) e in
          let mine' = (==_iff (slots (index k)).owner_node k).1 mine in ground arith in
        (later k slots s pending full apart, below, on, there);
  }

  round :
      (k : ℕ) (slots : ℕ → ErasedSlot V)
      → k < n
      → Pending k slots
      → (slots' : ℕ → ErasedSlot V) × (destroy_active payload index policies k slots ≡ some slots')
        × Pending (suc k) slots'
  unfolding destroy_active
  round k slots h pending = elim (Bool-cases (payload k && (slots (index k)).owner_node == k)) [
    | inl mine ↦
        round_owned k slots h pending (ground arith)
          (ground (arith, ==_iff (slots (index k)).owner_node k))
    | inr other ↦ (slots, rw other, round_other k slots pending other)
  ]

  rounds :
      (k : ℕ) (slots : ℕ → ErasedSlot V)
      → k ≤ n
      → Pending 0 slots
      → (slots' : ℕ → ErasedSlot V) × (destroy_active_slots payload index policies k slots
          ≡ some slots')
        × Pending k slots'
  unfolding destroy_active_slots
  rounds zero slots h pending = (slots, refl, pending)
  rounds (suc k) slots h pending =
      let (middle, e, next) = rounds k slots (omega arith) pending in
      let (last, e', done) = round k middle (omega arith) next in (last, rw e e', done)

  -- When each object in the slots belongs to a node that stores its output there, and the flags and
  -- owners tell which slots hold one, the destructor of the storage ends every object's lifetime
  -- once: it returns, and all slots are empty. The plan has at most 2^64 - 1 nodes.
  pub destroy_active_slots-empty :
      (slots : ℕ → ErasedSlot V)
      → IsPending payload index policies n 0 slots
      → (slots' : ℕ → ErasedSlot V) × (destroy_active_slots payload index policies n slots
          ≡ some slots')
        × ((s : ℕ) → holds (slots' s) ≡ false)
  destroy_active_slots-empty slots pending =
      let (slots', e, done) = rounds n slots (omega arith) pending in
      (
        slots',
        e,
        λ s. elim (Bool-cases (holds (slots' s))) [
          | inl full ↦ let (above, below, _, _) = done.owned s full in absurd (omega arith)
          | inr gone ↦ gone
        ],
      )
