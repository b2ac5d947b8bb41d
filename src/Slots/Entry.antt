-- ===== src/Slots/Entry.antt =====
-- What the entry of a node does with its task's result: include/yorch/detail/executor/result.hpp and
-- include/yorch/detail/executor/node_entry.hpp, on the slot of the node.
use yorch.Base.{
  ℕ, ◌≡◌, ◌≢◌, refl, sym, ◌∙◌, Bool, true, false, Option, none, some, ==_iff, if◌then◌else◌, ◌>>=◌,
  Bool-cases, Option-cases, inl, inr, arith,
}
use yorch.Result.{
  StepStatus, success, ok, RawValue, void_value, step_value, task_value, plain_value,
  extract_step_result,
}
use yorch.Task.Policy.{SlotPhysicalPolicy}
use yorch.SlotLayout.{no_physical_slot}
use yorch.Executor.Interface.{NodeEnterResult}
use yorch.Slots.{ErasedSlot, is_maybe, holds, emplace, destroy, has_value}
use yorch.Slots.View.{IsTracked, get-emplace, destroy-IsTracked}

module _ {V : Type 0} (policy : SlotPhysicalPolicy) (node : ℕ) where
  abbrev store_value : V → ErasedSlot V → Option (Bool × ErasedSlot V)
  store_value v slot = emplace policy node v slot >>= λ s. some (true, s)

  -- `store_node_output`: whether a payload was stored, and the slot.
  unfoldable pub store_node_output : RawValue V → ErasedSlot V → Option (Bool × ErasedSlot V)
  store_node_output void_value slot = some (false, slot)
  store_node_output (step_value s) slot = some (false, slot)
  store_node_output (task_value r) slot =
      if ok r.step
      then elim r.value [ none ↦ none | some v ↦ store_value v slot ]
      else some (false, slot)
  store_node_output (plain_value v) slot = store_value v slot

  -- `enter_node_with_exec_context` after `invoke_raw` has returned.
  unfoldable pub enter_raw : RawValue V → ErasedSlot V → Option (NodeEnterResult × ErasedSlot V)
  enter_raw raw slot =
      let step = extract_step_result raw in
      if ok step
      then (store_node_output raw slot >>= λ stored.
          some (record { step = step; payload_live = stored.0 }, stored.1))
      else some (record { step = step; payload_live = false }, slot)

module _ {V : Type 0} (policy : SlotPhysicalPolicy) where
  -- `finalize_direct_output_step`
  unfoldable pub finalize_direct_output_step :
      StepStatus → ErasedSlot V → Option (StepStatus × ErasedSlot V)
  finalize_direct_output_step step slot =
      if ok step
      then (if has_value policy slot then some (step, slot) else none)
      else (destroy policy slot >>= λ s. some (step, s))

  -- `enter_node_with_exec_context` after `invoke_into` has returned.
  unfoldable pub enter_direct : StepStatus → ErasedSlot V → Option (NodeEnterResult × ErasedSlot V)
  enter_direct step slot = finalize_direct_output_step step slot >>= λ final.
      some (record { step = final.0; payload_live = ok final.0 }, final.1)

-- A `task_result` that succeeds carries a payload.
unfoldable pub carries_payload : {V : Type 0} → RawValue V → Bool
carries_payload (task_value r) =
    if ok r.step then elim r.value [ none ↦ false | some v ↦ true ] else true
carries_payload _ = true

module _ {V : Type 0} (policy : SlotPhysicalPolicy) (node : ℕ) where
  stored :
      (slot : ErasedSlot V) (v : V)
      → IsTracked policy slot
      → holds slot ≡ false
      → node ≢ no_physical_slot
      → (filled : ErasedSlot V) × (store_value policy node v slot ≡ some (true, filled))
        × (holds filled ≡ true)
        × IsTracked policy filled
  stored slot v tracked empty real =
      let (filled, e, _, owner, after) = get-emplace policy slot node v tracked empty real in
      (
        filled,
        rw e refl,
        ground (arith, after.owner, ==_iff filled.owner_node no_physical_slot),
        after,
      )

  -- A node with an empty slot whose task has returned, a success with its payload: the entry goes
  -- through, keeps the task's status, and its flag tells exactly whether the slot holds an object.
  pub enter_raw-IsTracked :
      (raw : RawValue V) (slot : ErasedSlot V)
      → IsTracked policy slot
      → holds slot ≡ false
      → node ≢ no_physical_slot
      → carries_payload raw ≡ true
      → (entered : NodeEnterResult × ErasedSlot V) × (enter_raw policy node raw slot ≡ some entered)
        × (entered.0.step ≡ extract_step_result raw)
        × (entered.0.payload_live ≡ holds entered.1)
        × IsTracked policy entered.1
  unfolding enter_raw store_node_output extract_step_result carries_payload ok
  enter_raw-IsTracked void_value slot tracked empty real carries =
      ((record { step = success; payload_live = false }, slot), refl, refl, sym empty, tracked)
  enter_raw-IsTracked (step_value s) slot tracked empty real carries =
      ((record { step = s; payload_live = false }, slot), ground arith, refl, sym empty, tracked)
  enter_raw-IsTracked (task_value r) slot tracked empty real carries =
      elim (Bool-cases (ok r.step)) [
        | inl passed ↦ elim (Option-cases r.value) [
          | inl missing ↦ absurd (ground arith)
          | inr (v, e) ↦
              let (filled, put, full, after) = stored slot v tracked empty real in
              (
                (record { step = r.step; payload_live = true }, filled),
                rw (passed, e, put) refl,
                refl,
                sym full,
                after,
              )
        ]
        | inr failed ↦ (
          (record { step = r.step; payload_live = false }, slot),
          rw failed refl,
          refl,
          sym empty,
          tracked,
        )
      ]
  enter_raw-IsTracked (plain_value v) slot tracked empty real carries =
      let (filled, put, full, after) = stored slot v tracked empty real in
      ((record { step = success; payload_live = true }, filled), rw put refl, refl, sym full, after)

module _ {V : Type 0} (policy : SlotPhysicalPolicy) where
  pub destroy_empty :
      (slot : ErasedSlot V)
      → is_maybe policy ≡ true
      → IsTracked policy slot
      → holds slot ≡ false
      → destroy policy slot ≡ some slot
  unfolding destroy
  destroy_empty slot maybe tracked empty = ground (arith, tracked.flag maybe)

  finalize_failed :
      (step : StepStatus) (slot emptied : ErasedSlot V)
      → ok step ≡ false
      → destroy policy slot ≡ some emptied
      → finalize_direct_output_step policy step slot ≡ some (step, emptied)
  unfolding finalize_direct_output_step
  finalize_failed step slot emptied failed e = rw (failed, e) refl

  finalize_passed :
      (step : StepStatus) (slot : ErasedSlot V)
      → ok step ≡ true
      → is_maybe policy ≡ true
      → IsTracked policy slot
      → holds slot ≡ true
      → finalize_direct_output_step policy step slot ≡ some (step, slot)
  unfolding finalize_direct_output_step has_value
  finalize_passed step slot passed maybe tracked full = ground (arith, tracked.flag maybe)

  -- A direct-output node with a maybe slot: whatever the task has left in its sink, with a success
  -- its payload, the entry goes through, keeps the status, and its flag tells exactly whether the slot
  -- holds an object.
  pub enter_direct-IsTracked :
      (step : StepStatus) (slot : ErasedSlot V)
      → is_maybe policy ≡ true
      → IsTracked policy slot
      → (ok step ≡ true → holds slot ≡ true)
      → (entered : NodeEnterResult × ErasedSlot V) × (enter_direct policy step slot ≡ some entered)
        × (entered.0.step ≡ step)
        × (entered.0.payload_live ≡ holds entered.1)
        × IsTracked policy entered.1
  unfolding enter_direct
  enter_direct-IsTracked step slot maybe tracked honest = elim (Bool-cases (ok step)) [
    | inl passed ↦ (
      (record { step = step; payload_live = ok step }, slot),
      rw (finalize_passed step slot passed maybe tracked (honest passed)) refl,
      refl,
      passed ∙ sym (honest passed),
      tracked,
    )
    | inr failed ↦ elim (Bool-cases (holds slot)) [
      | inl full ↦
          let (emptied, e, gone, after) = destroy-IsTracked policy slot tracked full in
          (
            (record { step = step; payload_live = ok step }, emptied),
            rw (finalize_failed step slot emptied failed e) refl,
            refl,
            failed ∙ sym gone,
            after,
          )
      | inr empty ↦
          let e = destroy_empty slot maybe tracked empty in
          (
            (record { step = step; payload_live = ok step }, slot),
            rw (finalize_failed step slot slot failed e) refl,
            refl,
            failed ∙ sym empty,
            tracked,
          )
    ]
  ]
