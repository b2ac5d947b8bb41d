-- ===== src/Storage/Typed/Placement.antt =====
-- The one-to-one storage (include/yorch/slots/plan_exec_slots.hpp): what new contents of a node's slot
-- change.
use yorch.Base.{
  ℕ, ◌<◌, ◌≡◌, ◌≢◌, ◌∙◌, ap, refl, sym, subst, Bool, true, false, Option, some, ◌==◌, ==_iff, ◌&&◌,
  ltb, update, Bool-cases, inl, inr, arith,
}
use yorch.Task.Policy.{SlotLogicalPolicy}
use yorch.Storage.{Payloads, Stepped}
use yorch.Storage.Maybe.{MaybeStorage, lives, IsSound}
use yorch.Storage.Typed.{is_maybe, TypedSlots, typed_view}

module _ {V : Type 0} (payload : ℕ → Bool) (index : ℕ → ℕ) (logical : ℕ → SlotLogicalPolicy)
    (n : ℕ) where
  -- The flag of a maybe slot, or the liveness bit of the node of a must slot, tells whether an object
  -- lives there.
  pub record IsTyped (s : TypedSlots V) : Type 0 where
    pub flag :
        (i : ℕ)
        → i < n
        → payload i ≡ true
        → is_maybe (logical i) ≡ true
        → IsSound (s.storage (index i))
    pub bit :
        (i : ℕ)
        → i < n
        → payload i ≡ true
        → is_maybe (logical i) ≡ false
        → s.live_slots i ≡ lives (s.storage (index i))

apart : {i : ℕ} (j : ℕ) → (i == j) ≡ false → i ≢ j
apart {i} j off e = cc ((==_iff i j).1 e)

-- Two nodes that own a payload have different slots.
abbrev pub AreDistinct : (ℕ → Bool) → (ℕ → ℕ) → ℕ → Type 0
AreDistinct payload index n =
    (j i : ℕ) → j < n → i < n → payload j ≡ true → payload i ≡ true → index j ≡ index i → j ≡ i

module _ {V : Type 0} (payload : ℕ → Bool) (index : ℕ → ℕ) (logical : ℕ → SlotLogicalPolicy) (n : ℕ)
    (distinct : AreDistinct payload index n) where
  abbrev view : TypedSlots V → Payloads V
  view = typed_view payload index n

  -- A node that is alive is a node of the plan that owns a payload, and its slot holds the object.
  pub alive :
      (i : ℕ) (v : V) (s : TypedSlots V)
      → view s i ≡ some v
      → (i < n) × (payload i ≡ true) × ((s.storage (index i)).object ≡ some v)
  unfolding typed_view
  alive i v s e = (ground arith, ground arith, ground arith)

  -- What the view shows of a node of the plan that owns a payload.
  pub viewed :
      (i : ℕ) (s : TypedSlots V)
      → i < n
      → payload i ≡ true
      → view s i ≡ (s.storage (index i)).object
  unfolding typed_view
  viewed i s h on = ground arith

  module _ (i : ℕ) (s : TypedSlots V) (x : MaybeStorage V) (bits : ℕ → Bool) (h : i < n)
      (on : payload i ≡ true) (valid : IsTyped payload index logical n s)
      (sound : is_maybe (logical i) ≡ true → IsSound x)
      (bit : is_maybe (logical i) ≡ false → bits i ≡ lives x)
      (kept : (j : ℕ) → i ≢ j → bits j ≡ s.live_slots j) where
    abbrev after : TypedSlots V
    after = record { storage = update s.storage (index i) x; live_slots = bits }

    other_slot :
        (j : ℕ) → j < n → payload j ≡ true → i ≢ j → after.storage (index j) ≡ s.storage (index j)
    other_slot j b on' ne = elim (Bool-cases (index i == index j)) [
      | inl same ↦ absurd (ne (distinct i j h b on on' ((==_iff (index i) (index j)).0 same)))
      | inr other ↦ rw other refl
    ]

    own_slot : after.storage (index i) ≡ x
    own_slot = rw ((==_iff (index i) (index i)).1 refl) refl

    placed-IsTyped : IsTyped payload index logical n after
    placed-IsTyped = record {
      flag = λ j b on' m. elim (Bool-cases (i == j)) [
        | inl same ↦
            let here = (==_iff i j).0 same in
            subst (λ k. IsSound (after.storage (index k))) here
              (subst IsSound (sym own_slot)
                (sound (subst (λ k. is_maybe (logical k) ≡ true) (sym here) m)))
        | inr other ↦
            subst IsSound (sym (other_slot j b on' (apart j other))) (valid.flag j b on' m)
      ];
      bit = λ j b on' m. elim (Bool-cases (i == j)) [
        | inl same ↦
            let here = (==_iff i j).0 same in
            subst (λ k. bits k ≡ lives (after.storage (index k))) here
              (subst (λ z. bits i ≡ lives z) (sym own_slot)
                (bit (subst (λ k. is_maybe (logical k) ≡ false) (sym here) m)))
        | inr other ↦
            subst (λ z. bits j ≡ lives z) (sym (other_slot j b on' (apart j other)))
              (kept j (apart j other) ∙ valid.bit j b on' m)
      ];
    }

    placed_elsewhere : (j : ℕ) → i ≢ j → view after j ≡ view s j
    unfolding typed_view
    placed_elsewhere j ne = elim (Bool-cases (payload j && ltb j n)) [
      | inl live ↦
          let same = other_slot j (ground arith) (ground arith) ne in
          rw live (subst (λ z. z.object ≡ (s.storage (index j)).object) (sym same) refl)
      | inr off ↦ rw off refl
    ]

    placed_view : (j : ℕ) → view after j ≡ update (view s) i x.object j
    placed_view j = elim (Bool-cases (i == j)) [
      | inl same ↦
          let here = (==_iff i j).0 same in
          rw same (
            subst (λ k. view after k ≡ x.object) here
              (viewed i after h on ∙ ap (λ z. z.object) own_slot))
      | inr other ↦ rw other (placed_elsewhere j (apart j other))
    ]

    -- The slot of a node of the plan is given new contents, with a flag or a bit that fits them.
    pub placed-Stepped :
        (o : Option (TypedSlots V)) (payload' : Option V)
        → o ≡ some after
        → x.object ≡ payload'
        → Stepped (IsTyped payload index logical n) view (update (view s) i payload') o
    placed-Stepped o payload' e object = record {
      store = after;
      returned = e;
      valid = placed-IsTyped;
      viewed = λ j. subst (λ p. view after j ≡ update (view s) i p j) object (placed_view j);
    }
