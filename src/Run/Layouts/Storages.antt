-- ===== src/Run/Layouts/Storages.antt =====
-- The storage that each slot layout gives a plan (include/yorch/slots/plan_exec_slots.hpp and
-- detail/slots/layout.hpp), and the state that a run starts from.
use yorch.Base.{ℕ, ◌<◌, ◌≤◌, ◌≡◌, ◌≢◌, refl, true, false, arith, ltb, inl, inr, Bool-cases}
use yorch.Task.{TaskType, slot_logical_policy}
use yorch.Task.Policy.{SlotLogicalPolicy, SlotPhysicalPolicy}
use yorch.Plan.Compiled.{CompiledPlan}
use yorch.Plan.Compiled.Structure.{IsTree}
use yorch.SlotLayout.{
  no_physical_slot, make_physical_slot_policies, make_one_to_one_physical_slot_indices,
}
use yorch.SlotLayout.Plans.{is_payload_node, compact_layout, compact_layout-IsCompact, earlier}
use yorch.SlotLayout.Compact.{Ancestor-lt}
use yorch.SlotLayout.OneToOne.{count_le_nodes, make_one_to_one_physical_slot_indices-IsOneToOne}
use yorch.SlotLayout.Storage.{maybe_owner}
use yorch.Validation.Plans.{task_type}
use yorch.Slots.{ErasedSlot, empty_slot}
use yorch.Slots as Slots
use yorch.Slots.View.{empty_slot-IsTracked}
use yorch.Slots.Cleanup.{IsPending}
use yorch.Storage.{IsStorage}
use yorch.Storage.Maybe.{empty}
use yorch.Storage.Compact.{compact_ops, compact_view}
use yorch.Storage.Compact.Refinement.{compact_ops-IsStorage}
use yorch.Storage.Typed.{is_maybe, TypedSlots, typed_view}
use yorch.Storage.Typed.Placement.{IsTyped, AreDistinct}
use yorch.Run.{RunState}
use yorch.Run.Enter.{may_be_empty, AreApart}
use yorch.Run.Safety.{IsIdle}

module _ (plan : CompiledPlan TaskType) where
  abbrev pub logical_policy : ℕ → SlotLogicalPolicy
  logical_policy i = slot_logical_policy (task_type plan i)

  -- `physical_slot_index` and `slot_physical_policy` of the compact layout
  unfoldable pub compact_index : ℕ → ℕ
  compact_index = (compact_layout plan).physical_slot_indices

  unfoldable pub compact_policies : ℕ → SlotPhysicalPolicy
  unfolding compact_index
  compact_policies = make_physical_slot_policies compact_index logical_policy plan.node_count

  -- `physical_slot_index` of the one-to-one layout
  unfoldable pub typed_index : ℕ → ℕ
  typed_index = make_one_to_one_physical_slot_indices (is_payload_node plan) plan.node_count

module _ {V World : Type 0} (world : World) where
  -- The states that a run starts from: slots and stages as they are default-constructed.
  unfoldable pub fresh_compact : RunState V (ℕ → ErasedSlot V) World
  unfolding empty
  fresh_compact = record {
    slots = λ _. empty_slot;
    staging = λ _. empty;
    world = world;
    faulted = false;
  }

  unfoldable pub fresh_typed : RunState V (TypedSlots V) World
  unfolding empty
  fresh_typed = record {
    slots = record { storage = λ _. empty; live_slots = λ _. false };
    staging = λ _. empty;
    world = world;
    faulted = false;
  }

module _ (plan : CompiledPlan TaskType) (tree : IsTree plan)
    (small : plan.node_count ≤ no_physical_slot) where
  -- A node with a payload has a slot.
  has_slot :
      (i : ℕ)
      → i < plan.node_count
      → is_payload_node plan i ≡ true
      → compact_index plan i ≢ no_physical_slot
  unfolding compact_index
  has_slot i h own e =
      let layout = compact_layout-IsCompact plan tree in
      let below = layout.owned_below i h own in
      let count = layout.count_le in
      omega (arith, count_le_nodes (is_payload_node plan) plan.node_count)

  -- A node that may leave its payload out has a slot with a flag.
  tracks_flag :
      (i : ℕ)
      → i < plan.node_count
      → is_payload_node plan i ≡ true
      → may_be_empty plan i ≡ true
      → Slots.is_maybe (compact_policies plan (compact_index plan i)) ≡ true
  unfolding compact_policies
  tracks_flag i h own may =
      let policy =
        maybe_owner (compact_index plan) (logical_policy plan) plan.node_count i h
          (has_slot i h own) (maybe_policy (logical_policy plan i) may) in
      rw policy refl
    where
      maybe_policy :
          (p : SlotLogicalPolicy) → is_maybe p ≡ true → p ≡ SlotLogicalPolicy.maybe_payload
      maybe_policy p e = ground arith

  pub compact-IsStorage :
      {V : Type 0}
      → IsStorage {V = V}
          (compact_ops (is_payload_node plan) (compact_index plan) (compact_policies plan))
          plan.node_count
          (is_payload_node plan)
          (may_be_empty plan)
          (λ j i. compact_index plan j ≢ compact_index plan i)
          (IsPending
            (is_payload_node plan)
            (compact_index plan)
            (compact_policies plan)
            plan.node_count
            0)
          (compact_view (is_payload_node plan) (compact_index plan))
  compact-IsStorage =
      compact_ops-IsStorage (is_payload_node plan) (compact_index plan) (compact_policies plan)
        plan.node_count small (may_be_empty plan) tracks_flag

  pub compact_apart : AreApart plan (λ j i. compact_index plan j ≢ compact_index plan i)
  unfolding compact_index
  compact_apart j i h upward own own' e =
      let less = (compact_layout-IsCompact plan tree).path_distinct j i h upward own own' in
      omega (arith, e)

  pub compact-IsIdle :
      {V World : Type 0} (world : World)
      → IsIdle
          (IsPending {V = V}
            (is_payload_node plan)
            (compact_index plan)
            (compact_policies plan)
            plan.node_count
            0)
          (compact_view (is_payload_node plan) (compact_index plan))
          (fresh_compact world)
  unfolding fresh_compact compact_view empty_slot empty
  compact-IsIdle world = record {
    sane = refl;
    slots_valid = record {
      tracked = λ s. empty_slot-IsTracked (compact_policies plan s);
      owned = λ s full. cc;
    };
    no_payload = λ j. ground arith;
    stages_sound = λ j. refl;
    no_copy = λ j. refl;
  }

module _ (plan : CompiledPlan TaskType) (tree : IsTree plan) where
  pub typed_distinct : AreDistinct (is_payload_node plan) (typed_index plan) plan.node_count
  unfolding typed_index
  typed_distinct j i hj hi own own' e =
      let layout =
        make_one_to_one_physical_slot_indices-IsOneToOne (is_payload_node plan) plan.node_count in
      elim (Bool-cases (ltb j i)) [
        | inl less ↦
            let apart = layout.distinct j i (ground arith) hi own own' in absurd (omega (arith, e))
        | inr more ↦ elim (Bool-cases (ltb i j)) [
          | inl less ↦
              let apart = layout.distinct i j (ground arith) hj own' own in
              absurd (omega (arith, e))
          | inr same ↦ ground arith
        ]
      ]

  pub typed_apart : AreApart plan (λ j i. j ≢ i)
  typed_apart j i h upward own own' e =
      let less =
        Ancestor-lt (is_payload_node plan) plan.parent_indices plan.node_count (earlier plan tree)
          upward h in
      omega (arith, e)

  pub typed-IsIdle :
      {V World : Type 0} (world : World)
      → IsIdle
          (IsTyped {V = V}
            (is_payload_node plan)
            (typed_index plan)
            (logical_policy plan)
            plan.node_count)
          (typed_view (is_payload_node plan) (typed_index plan) plan.node_count)
          (fresh_typed world)
  unfolding fresh_typed typed_view empty
  typed-IsIdle world = record {
    sane = refl;
    slots_valid = record { flag = λ i h own may. refl; bit = λ i h own must. refl };
    no_payload = λ j. ground arith;
    stages_sound = λ j. refl;
    no_copy = λ j. refl;
  }
