-- ===== src/Storage/Compact/Refinement.antt =====
-- The compact storage (include/yorch/slots/plan_exec_slots.hpp, the primary `plan_exec_slots_impl`)
-- against the map from nodes to payloads.
use yorch.Base.{
  update_same, ℕ, ◌≤◌, ◌<◌, ◌≡◌, ◌≢◌, refl, sym, ◌∙◌, subst, ap, Bool, true, false, none, some,
  update, arith,
}
use yorch.Task.Policy.{SlotPhysicalPolicy}
use yorch.SlotLayout.{no_physical_slot}
use yorch.Slots.{ErasedSlot, is_maybe, holds, get, has_value, emplace_node, destroy_node}
use yorch.Slots.View.{IsTracked, get-emplace, destroy-IsTracked}
use yorch.Slots.Entry.{destroy_empty}
use yorch.Slots.Cleanup.{IsPending}
use yorch.Storage.{Payloads, Stepped, IsStorage, unchanged-Stepped}
use yorch.Storage.Compact.Placement.{alive, alive_below, unshared_empty, placed-Stepped}
use yorch.Storage.Compact.{
  get_node, assign_node, has_value_node, out_destroy_node, compact_ops, compact_view,
}

module _ {V : Type 0} (payload : ℕ → Bool) (index : ℕ → ℕ) (policies : ℕ → SlotPhysicalPolicy)
    (n : ℕ) (small : n ≤ no_physical_slot) where
  abbrev Valid : (ℕ → ErasedSlot V) → Type 0
  Valid = IsPending payload index policies n 0

  abbrev view : (ℕ → ErasedSlot V) → Payloads V
  view = compact_view payload index

  emptied_object : (slot : ErasedSlot V) → holds slot ≡ false → slot.object ≡ none
  emptied_object slot e = ground arith

  got_object :
      (policy : SlotPhysicalPolicy) (slot : ErasedSlot V) (v : V)
      → get policy slot ≡ some v
      → slot.object ≡ some v
  unfolding get
  got_object policy slot v e = ground arith

  full_get :
      (policy : SlotPhysicalPolicy) (slot : ErasedSlot V) (v : V)
      → IsTracked policy slot
      → slot.object ≡ some v
      → get policy slot ≡ some v
  unfolding get
  full_get policy slot v tracked e = ground (arith, tracked.flag)

  emplace-Stepped :
      (i : ℕ) (v : V) (s : ℕ → ErasedSlot V)
      → i < n
      → payload i ≡ true
      → Valid s
      → ((j : ℕ) → view s j ≢ none → index j ≢ index i)
      → Stepped Valid view (update (view s) i (some v)) (emplace_node payload index policies i v s)
  unfolding emplace_node
  emplace-Stepped i v s h on valid apart =
      let empty = unshared_empty payload index policies n small i s valid apart in
      let (filled, e, got, owner, after) =
        get-emplace (policies (index i)) (s (index i)) i v (valid.tracked (index i)) empty
          (λ x. omega arith) in
      placed-Stepped payload index policies n small i s filled h on valid after (λ f. owner)
        (emplace_node payload index policies i v s) (some v) (rw e refl)
        (got_object (policies (index i)) filled v got) (λ full. cc)

  get-viewed :
      (i : ℕ) (v : V) (s : ℕ → ErasedSlot V)
      → Valid s
      → view s i ≡ some v
      → get_node index policies i s ≡ some v
  unfolding get_node
  get-viewed i v s valid e =
      let (_, _, object) = alive payload index policies n small i v s e in
      full_get (policies (index i)) (s (index i)) v (valid.tracked (index i)) object

  assign-Stepped :
      (i : ℕ) (v w : V) (s : ℕ → ErasedSlot V)
      → Valid s
      → view s i ≡ some v
      → Stepped Valid view (update (view s) i (some w)) (assign_node index policies i w s)
  unfolding assign_node
  assign-Stepped i v w s valid e =
      let (on, owner, object) = alive payload index policies n small i v s e in
      let old = valid.tracked (index i) in
      placed-Stepped payload index policies n small i s (record (s (index i)) { object = some w })
        (alive_below payload index policies n small i v s valid e) on valid
        (record { flag = λ m. old.flag m ∙ (rw object refl); owner = rw object at old.owner })
        (λ f. owner) (assign_node index policies i w s) (some w)
        (rw (get-viewed i v s valid e) refl) refl (λ f. owner)

  destroy_slot-Stepped :
      (i : ℕ) (v : V) (s : ℕ → ErasedSlot V)
      → Valid s
      → view s i ≡ some v
      → Stepped Valid view (update (view s) i none) (out_destroy_node index policies i s)
  unfolding out_destroy_node
  destroy_slot-Stepped i v s valid e =
      let (on, owner, object) = alive payload index policies n small i v s e in
      let (emptied, out, gone, after) =
        destroy-IsTracked (policies (index i)) (s (index i)) (valid.tracked (index i))
          (rw object refl) in
      placed-Stepped payload index policies n small i s emptied
        (alive_below payload index policies n small i v s valid e) on valid after (λ f. cc)
        (out_destroy_node index policies i s) none (rw out refl) (emptied_object emptied gone)
        (λ f. owner)

  destroy_node-slot :
      (i : ℕ) (s : ℕ → ErasedSlot V)
      → payload i ≡ true
      → destroy_node payload index policies i s ≡ out_destroy_node index policies i s
  unfolding destroy_node out_destroy_node
  destroy_node-slot i s on = rw on refl

  destroy-Stepped :
      (i : ℕ) (v : V) (s : ℕ → ErasedSlot V)
      → Valid s
      → view s i ≡ some v
      → Stepped Valid view (update (view s) i none) (destroy_node payload index policies i s)
  destroy-Stepped i v s valid e =
      let (on, _, _) = alive payload index policies n small i v s e in
      subst (Stepped Valid view (update (view s) i none)) (sym (destroy_node-slot i s on))
        (destroy_slot-Stepped i v s valid e)

  module _ (maybe : ℕ → Bool)
      (tracks : (i : ℕ)
        → i < n
        → payload i ≡ true
        → maybe i ≡ true
        → is_maybe (policies (index i)) ≡ true) where
    destroy_slot-empty :
        (i : ℕ) (s : ℕ → ErasedSlot V)
        → i < n
        → payload i ≡ true
        → maybe i ≡ true
        → Valid s
        → ((j : ℕ) → view s j ≢ none → index j ≢ index i)
        → out_destroy_node index policies i s ≡ some s
    unfolding out_destroy_node
    destroy_slot-empty i s h on may valid apart =
        let empty = unshared_empty payload index policies n small i s valid apart in
        rw
          (destroy_empty (policies (index i)) (s (index i)) (tracks i h on may)
            (valid.tracked (index i)) empty)
          (ap some (update_same s (index i) (s (index i)) refl))

    has_value-viewed :
        (i : ℕ) (v : V) (s : ℕ → ErasedSlot V)
        → maybe i ≡ true
        → Valid s
        → view s i ≡ some v
        → has_value_node index policies i s ≡ true
    unfolding has_value_node has_value
    has_value-viewed i v s may valid e =
        let (on, _, object) = alive payload index policies n small i v s e in
        let h = alive_below payload index policies n small i v s valid e in
        rw (tracks i h on may, (valid.tracked (index i)).flag (tracks i h on may), object) refl

    -- When every node that may leave its payload out has a slot that tracks engagement, the compact
    -- storage implements the map from nodes to payloads, as long as no two nodes are alive that share
    -- a slot: every operation that the map allows goes through, gives the map's payload, and changes no
    -- other node's. The plan has at most 2^64 - 1 nodes.
    pub compact_ops-IsStorage :
        IsStorage {V = V}
          (compact_ops payload index policies)
          n
          payload
          maybe
          (λ j i. index j ≢ index i)
          (IsPending payload index policies n 0)
          (compact_view payload index)
    unfolding compact_ops
    compact_ops-IsStorage = record {
      emplace_law = λ i v s h on valid none' apart. emplace-Stepped i v s h on valid apart;
      get_law = λ i v s valid e. get-viewed i v s valid e;
      assign_law = λ i v w s valid e. assign-Stepped i v w s valid e;
      destroy_law = λ i v s valid e. destroy-Stepped i v s valid e;
      destroy_empty = λ i s h on may valid none' apart.
          unchanged-Stepped Valid view i s (destroy_node payload index policies i s) valid none'
            (destroy_node-slot i s on ∙ destroy_slot-empty i s h on may valid apart);
      has_value_full = λ i v s may valid e. has_value-viewed i v s may valid e;
      out_emplace_law = λ i v s h on may valid none' apart. emplace-Stepped i v s h on valid apart;
      out_destroy_law = λ i v s may valid e. destroy_slot-Stepped i v s valid e;
      out_destroy_empty = λ i s h on may valid none' apart.
          unchanged-Stepped Valid view i s (out_destroy_node index policies i s) valid none'
            (destroy_slot-empty i s h on may valid apart);
    }
