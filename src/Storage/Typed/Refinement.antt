-- ===== src/Storage/Typed/Refinement.antt =====
-- The one-to-one storage (include/yorch/slots/plan_exec_slots.hpp, the specialization of
-- `plan_exec_slots_impl`) against the map from nodes to payloads.
use yorch.Base.{
  ℕ, ◌<◌, ◌≡◌, ◌≢◌, ◌∙◌, refl, sym, Bool, true, false, none, some, if◌then◌else◌, update,
  update_here, update_there, update_same, Bool-cases, Option-cases, inl, inr, arith,
}
use yorch.Task.Policy.{SlotLogicalPolicy}
use yorch.Storage.{Payloads, Stepped, IsStorage, unchanged-Stepped}
use yorch.Storage.Maybe.{
  MaybeStorage, lives, IsSound, start_lifetime, end_lifetime, emplace, get, destroy, has_value,
}
use yorch.Storage.Typed.Placement.{IsTyped, AreDistinct, alive, viewed, placed-Stepped}
use yorch.Storage.Typed.{
  is_maybe, TypedSlots, emplace_typed, get_typed, destroy_typed, emplace_node, get_node,
  assign_node, has_value_node, out_emplace_node, out_destroy_node, destroy_object, destroy_node,
  typed_ops, typed_view,
}

-- The slot after a value has been put into it, and after it has been taken out.
module _ {V : Type 0} (policy : SlotLogicalPolicy) where
  emplace_typed-empty :
      (v : V) (slot : MaybeStorage V)
      → (is_maybe policy ≡ true → IsSound slot)
      → slot.object ≡ none
      → (x : MaybeStorage V) × (emplace_typed policy v slot ≡ some x)
        × (x.object ≡ some v)
        × (is_maybe policy ≡ true → IsSound x)
  unfolding emplace_typed emplace start_lifetime
  emplace_typed-empty v slot sound e = elim (Bool-cases (is_maybe policy)) [
    | inl may ↦
        (record { object = some v; engaged = true }, ground (arith, sound may), refl, λ _. refl)
    | inr must ↦ (record slot { object = some v }, ground arith, refl, λ m. cc)
  ]

  destroy_typed-full :
      (v : V) (slot : MaybeStorage V)
      → (is_maybe policy ≡ true → IsSound slot)
      → slot.object ≡ some v
      → (x : MaybeStorage V) × (destroy_typed policy slot ≡ some x)
        × (x.object ≡ none)
        × (is_maybe policy ≡ true → IsSound x)
  unfolding destroy_typed destroy end_lifetime
  destroy_typed-full v slot sound e = elim (Bool-cases (is_maybe policy)) [
    | inl may ↦
        (record { object = none; engaged = false }, ground (arith, sound may), refl, λ _. refl)
    | inr must ↦ (record slot { object = none }, ground arith, refl, λ m. cc)
  ]

  get_typed-full :
      (v : V) (slot : MaybeStorage V)
      → (is_maybe policy ≡ true → IsSound slot)
      → slot.object ≡ some v
      → get_typed policy slot ≡ some v
  unfolding get_typed get
  get_typed-full v slot sound e = ground (arith, sound)

module _ {V : Type 0} (payload : ℕ → Bool) (index : ℕ → ℕ) (logical : ℕ → SlotLogicalPolicy) (n : ℕ)
    (distinct : AreDistinct payload index n) where
  abbrev Valid : TypedSlots V → Type 0
  Valid = IsTyped payload index logical n

  abbrev view : TypedSlots V → Payloads V
  view = typed_view payload index n

  -- What the flag or the bit of a node says.
  guard_lives :
      (i : ℕ) (s : TypedSlots V)
      → i < n
      → payload i ≡ true
      → Valid s
      → (if is_maybe (logical i) then has_value (s.storage (index i)) else s.live_slots i)
        ≡ lives (s.storage (index i))
  unfolding has_value
  guard_lives i s h on valid = ground (arith, valid.flag i h on, valid.bit i h on)

  filled : (x : MaybeStorage V) (v : V) → x.object ≡ some v → lives x ≡ true
  filled x v e = rw e refl

  vacant : (x : MaybeStorage V) → x.object ≡ none → lives x ≡ false
  vacant x e = rw e refl

  emplace-Stepped :
      (i : ℕ) (v : V) (s : TypedSlots V)
      → i < n
      → payload i ≡ true
      → Valid s
      → view s i ≡ none
      → Stepped Valid view (update (view s) i (some v)) (emplace_node index logical i v s)
  unfolding emplace_node
  emplace-Stepped i v s h on valid e =
      let empty = sym (viewed payload index logical n distinct i s h on) ∙ e in
      let (x, put, object, sound) =
        emplace_typed-empty (logical i) v (s.storage (index i)) (valid.flag i h on) empty in
      placed-Stepped payload index logical n distinct i s x (update s.live_slots i true) h on valid
        sound (λ must. update_here s.live_slots i true ∙ sym (filled x v object))
        (update_there s.live_slots i true) (emplace_node index logical i v s) (some v) (rw put refl)
        object

  get-viewed :
      (i : ℕ) (v : V) (s : TypedSlots V)
      → Valid s
      → view s i ≡ some v
      → get_node index logical i s ≡ some v
  unfolding get_node
  get-viewed i v s valid e =
      let (h, on, object) = alive payload index logical n distinct i v s e in
      get_typed-full (logical i) v (s.storage (index i)) (valid.flag i h on) object

  assign-Stepped :
      (i : ℕ) (v w : V) (s : TypedSlots V)
      → Valid s
      → view s i ≡ some v
      → Stepped Valid view (update (view s) i (some w)) (assign_node index logical i w s)
  unfolding assign_node
  assign-Stepped i v w s valid e =
      let (h, on, object) = alive payload index logical n distinct i v s e in
      let was = filled (s.storage (index i)) v object in
      placed-Stepped payload index logical n distinct i s
        (record (s.storage (index i)) { object = some w }) s.live_slots h on valid
        (λ may. valid.flag i h on may ∙ was) (λ must. valid.bit i h on must ∙ was) (λ j ne. refl)
        (assign_node index logical i w s) (some w) (rw (get-viewed i v s valid e) refl) refl

  destroy-full :
      (i : ℕ) (v : V) (s : TypedSlots V)
      → Valid s
      → view s i ≡ some v
      → Stepped Valid view (update (view s) i none) (destroy_node payload index logical i s)
  unfolding destroy_node destroy_object
  destroy-full i v s valid e =
      let (h, on, object) = alive payload index logical n distinct i v s e in
      let (x, out, gone, sound) =
        destroy_typed-full (logical i) v (s.storage (index i)) (valid.flag i h on) object in
      let live = guard_lives i s h on valid ∙ filled (s.storage (index i)) v object in
      placed-Stepped payload index logical n distinct i s x (update s.live_slots i false) h on valid
        sound (λ must. update_here s.live_slots i false ∙ sym (vacant x gone))
        (update_there s.live_slots i false) (destroy_node payload index logical i s) none
        (rw (on, live, out) refl) gone

  destroy-vacant :
      (i : ℕ) (s : TypedSlots V)
      → i < n
      → payload i ≡ true
      → Valid s
      → view s i ≡ none
      → Stepped Valid view (update (view s) i none) (destroy_node payload index logical i s)
  unfolding destroy_node destroy_object
  destroy-vacant i s h on valid e =
      let empty = sym (viewed payload index logical n distinct i s h on) ∙ e in
      let gone = vacant (s.storage (index i)) empty in
      let dead = guard_lives i s h on valid ∙ gone in
      placed-Stepped payload index logical n distinct i s (s.storage (index i))
        (update s.live_slots i false) h on valid (valid.flag i h on)
        (λ must. update_here s.live_slots i false ∙ sym gone) (update_there s.live_slots i false)
        (destroy_node payload index logical i s) none
        (rw (on, dead, update_same s.storage (index i) (s.storage (index i)) refl) refl) empty

  out_emplace-Stepped :
      (i : ℕ) (v : V) (s : TypedSlots V)
      → i < n
      → payload i ≡ true
      → is_maybe (logical i) ≡ true
      → Valid s
      → view s i ≡ none
      → Stepped Valid view (update (view s) i (some v)) (out_emplace_node index i v s)
  unfolding out_emplace_node start_lifetime
  out_emplace-Stepped i v s h on may valid e =
      let empty = sym (viewed payload index logical n distinct i s h on) ∙ e in
      let gone = vacant (s.storage (index i)) empty in
      let off = valid.flag i h on may ∙ gone in
      placed-Stepped payload index logical n distinct i s
        (record { object = some v; engaged = true }) s.live_slots h on valid (λ _. refl)
        (λ must. absurd (ground arith)) (λ j ne. refl) (out_emplace_node index i v s) (some v)
        (rw (off, gone) refl) refl

  out_destroy-full :
      (i : ℕ) (v : V) (s : TypedSlots V)
      → is_maybe (logical i) ≡ true
      → Valid s
      → view s i ≡ some v
      → Stepped Valid view (update (view s) i none) (out_destroy_node index i s)
  unfolding out_destroy_node end_lifetime
  out_destroy-full i v s may valid e =
      let (h, on, object) = alive payload index logical n distinct i v s e in
      let was = filled (s.storage (index i)) v object in
      let engaged = valid.flag i h on may ∙ was in
      placed-Stepped payload index logical n distinct i s
        (record { object = none; engaged = false }) s.live_slots h on valid (λ _. refl)
        (λ must. absurd (ground arith)) (λ j ne. refl) (out_destroy_node index i s) none
        (rw (engaged, was) refl) refl

  out_destroy-vacant :
      (i : ℕ) (s : TypedSlots V)
      → i < n
      → payload i ≡ true
      → is_maybe (logical i) ≡ true
      → Valid s
      → view s i ≡ none
      → out_destroy_node index i s ≡ some s
  unfolding out_destroy_node
  out_destroy-vacant i s h on may valid e =
      let empty = sym (viewed payload index logical n distinct i s h on) ∙ e in
      rw (valid.flag i h on may ∙ vacant (s.storage (index i)) empty) refl

  has_value-full :
      (i : ℕ) (v : V) (s : TypedSlots V)
      → Valid s
      → view s i ≡ some v
      → has_value_node index logical i s ≡ true
  unfolding has_value_node has_value
  has_value-full i v s valid e =
      let (h, on, object) = alive payload index logical n distinct i v s e in
      ground (arith, filled (s.storage (index i)) v object, valid.flag i h on)

  -- `destroy<I>` on a node of the plan, alive or not.
  pub destroy-Stepped :
      (i : ℕ) (s : TypedSlots V)
      → i < n
      → payload i ≡ true
      → Valid s
      → Stepped Valid view (update (view s) i none) (destroy_node payload index logical i s)
  destroy-Stepped i s h on valid = elim (Option-cases (view s i)) [
    | inl e ↦ destroy-vacant i s h on valid e
    | inr (v, e) ↦ destroy-full i v s valid e
  ]

  -- The one-to-one storage implements the map from nodes to payloads, with any nodes alive at the same
  -- time, when no two nodes of the plan have one slot: every operation that the map allows goes
  -- through, gives the map's payload, and changes no other node's.
  pub typed_ops-IsStorage :
      IsStorage {V = V}
        (typed_ops payload index logical)
        n
        payload
        (λ i. is_maybe (logical i))
        (λ j i. j ≢ i)
        (IsTyped payload index logical n)
        (typed_view payload index n)
  unfolding typed_ops
  typed_ops-IsStorage = record {
    emplace_law = λ i v s h on valid e apart. emplace-Stepped i v s h on valid e;
    get_law = λ i v s valid e. get-viewed i v s valid e;
    assign_law = λ i v w s valid e. assign-Stepped i v w s valid e;
    destroy_law = λ i v s valid e. destroy-full i v s valid e;
    destroy_empty = λ i s h on may valid e apart. destroy-Stepped i s h on valid;
    has_value_full = λ i v s may valid e. has_value-full i v s valid e;
    out_emplace_law = λ i v s h on may valid e apart. out_emplace-Stepped i v s h on may valid e;
    out_destroy_law = λ i v s may valid e. out_destroy-full i v s may valid e;
    out_destroy_empty = λ i s h on may valid e apart.
        unchanged-Stepped Valid view i s (out_destroy_node index i s) valid e
          (out_destroy-vacant i s h on may valid e);
  }
