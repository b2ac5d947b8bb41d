-- ===== src/Storage/Compact/Placement.antt =====
-- The compact storage (include/yorch/slots/plan_exec_slots.hpp, the primary `plan_exec_slots_impl`)
-- against the map from nodes to payloads: what new contents of a node's slot change.
use yorch.Base.{
  ℕ, ◌≤◌, ◌<◌, ◌≡◌, ◌≢◌, refl, sym, ◌∙◌, subst, Bool, true, false, Option, none, some, ◌==◌, ==_iff,
  ◌&&◌, if◌then◌else◌, update, Bool-cases, Option-cases, inl, inr, arith,
}
use yorch.Task.Policy.{SlotPhysicalPolicy}
use yorch.SlotLayout.{no_physical_slot}
use yorch.Slots.{ErasedSlot, holds}
use yorch.Slots.View.{IsTracked}
use yorch.Slots.Cleanup.{IsPending}
use yorch.Storage.{Payloads, Stepped}
use yorch.Storage.Compact.{compact_view}

-- Who may own the slot of `i`.
abbrev pub OwnedBy : {V : Type 0} → ErasedSlot V → ℕ → Type 0
OwnedBy slot i = holds slot ≡ true → slot.owner_node ≡ i

module _ {V : Type 0} (payload : ℕ → Bool) (index : ℕ → ℕ) (policies : ℕ → SlotPhysicalPolicy)
    (n : ℕ) (small : n ≤ no_physical_slot) where
  abbrev Valid : (ℕ → ErasedSlot V) → Type 0
  Valid = IsPending payload index policies n 0

  abbrev view : (ℕ → ErasedSlot V) → Payloads V
  view = compact_view payload index

  -- A node that is alive owns its slot.
  pub alive :
      (i : ℕ) (v : V) (s : ℕ → ErasedSlot V)
      → view s i ≡ some v
      → (payload i ≡ true) × ((s (index i)).owner_node ≡ i) × ((s (index i)).object ≡ some v)
  unfolding compact_view
  alive i v s e = (ground arith, ground (arith, ==_iff (s (index i)).owner_node i), ground arith)

  pub alive_below : (i : ℕ) (v : V) (s : ℕ → ErasedSlot V) → Valid s → view s i ≡ some v → i < n
  alive_below i v s valid e =
      let (_, owner, object) = alive i v s e in
      let (_, below, _, _) = valid.owned (index i) (rw object refl) in omega arith

  owner-viewed :
      (s : ℕ → ErasedSlot V) (k i : ℕ) (v : V)
      → payload i ≡ true
      → index i ≡ k
      → (s k).owner_node ≡ i
      → (s k).object ≡ some v
      → view s i ≡ some v
  unfolding compact_view
  owner-viewed s k i v on e own object = rw (on, e, (==_iff (s k).owner_node i).1 own) object

  -- The slot of a node is empty when no node is alive that shares it.
  pub unshared_empty :
      (i : ℕ) (s : ℕ → ErasedSlot V)
      → Valid s
      → ((j : ℕ) → view s j ≢ none → index j ≢ index i)
      → holds (s (index i)) ≡ false
  unshared_empty i s valid apart = elim (Bool-cases (holds (s (index i)))) [
    | inl full ↦
        let (_, _, on, there) = valid.owned (index i) full in
        let o : ℕ = (s (index i)).owner_node in
        elim (Option-cases (s (index i)).object) [
          | inl none' ↦ rw none' refl
          | inr (v, e) ↦
              let seen = owner-viewed s (index i) o v on there refl e in
              absurd (apart o (λ x. cc (sym seen ∙ x)) there)
        ]
    | inr gone ↦ gone
  ]

  slot_view :
      (slot : ErasedSlot V) (j : ℕ) (i : ℕ)
      → OwnedBy slot i
      → j ≢ i
      → (if payload j && slot.owner_node == j then slot.object else none) ≡ none
  slot_view slot j i own ne = ground (arith, ==_iff slot.owner_node j)

  same_view :
      (slot : ErasedSlot V) (i : ℕ)
      → payload i ≡ true
      → OwnedBy slot i
      → (if payload i && slot.owner_node == i then slot.object else none) ≡ slot.object
  same_view slot i on own = ground (arith, ==_iff slot.owner_node i)

  -- A node's slot is given new contents that are the node's.
  module _ (i : ℕ) (s : ℕ → ErasedSlot V) (x : ErasedSlot V) (h : i < n) (on : payload i ≡ true)
      (valid : Valid s) (tracked : IsTracked (policies (index i)) x) (own : OwnedBy x i) where
    placed-IsTracked : (k : ℕ) → IsTracked (policies k) (update s (index i) x k)
    placed-IsTracked k = elim (Bool-cases (index i == k)) [
      | inl same ↦
          let e = (==_iff (index i) k).0 same in
          rw same (subst (λ y. IsTracked (policies y) x) e tracked)
      | inr other ↦ rw other (valid.tracked k)
    ]

    placed-Valid : Valid (update s (index i) x)
    placed-Valid = record {
      tracked = placed-IsTracked;
      owned = λ k full. elim (Bool-cases (index i == k)) [
        | inl same ↦
            let mine = own (rw same at full) in
            let there = (==_iff (index i) k).0 same in rw (same, mine) (omega arith, h, on, there)
        | inr other ↦ rw other (valid.owned k (rw other at full))
      ];
    }

    placed_here : view (update s (index i) x) i ≡ x.object
    unfolding compact_view
    placed_here = rw ((==_iff (index i) (index i)).1 refl) (same_view x i on own)

    placed_elsewhere :
        OwnedBy (s (index i)) i → (j : ℕ) → i ≢ j → view (update s (index i) x) j ≡ view s j
    unfolding compact_view
    placed_elsewhere before j ne = elim (Bool-cases (index i == index j)) [
      | inl same ↦
          let gone = slot_view x j i own (λ e. ne (sym e)) in
          let gone' = slot_view (s (index i)) j i before (λ e. ne (sym e)) in
          rw (same, gone)
            (subst (λ k. none ≡ (if payload j && (s k).owner_node == j then (s k).object else none))
              ((==_iff (index i) (index j)).0 same) (sym gone'))
      | inr other ↦ rw other refl
    ]

    placed_view :
        OwnedBy (s (index i)) i
        → (j : ℕ) → view (update s (index i) x) j ≡ update (view s) i x.object j
    placed_view before j = elim (Bool-cases (i == j)) [
      | inl same ↦
          let here = (==_iff i j).0 same in
          rw same (subst (λ k. view (update s (index i) x) k ≡ x.object) here placed_here)
      | inr other ↦ rw other (placed_elsewhere before j (λ e. cc ((==_iff i j).1 e)))
    ]

    pub placed-Stepped :
        (o : Option (ℕ → ErasedSlot V)) (payload' : Option V)
        → o ≡ some (update s (index i) x)
        → x.object ≡ payload'
        → OwnedBy (s (index i)) i
        → Stepped Valid view (update (view s) i payload') o
    placed-Stepped o payload' e object before = record {
      store = update s (index i) x;
      returned = e;
      valid = placed-Valid;
      viewed = λ j.
          subst (λ p. view (update s (index i) x) j ≡ update (view s) i p j) object
            (placed_view before j);
    }
