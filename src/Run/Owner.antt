-- ===== src/Run/Owner.antt =====
-- Whose payload a node's output is: `canonical_output_owner_node_v` in
-- include/yorch/slots/plan_exec_slots.hpp.
use yorch.Base.{
  ℕ, zero, suc, ◌<◌, ◌≤◌, ◌≡◌, refl, sym, subst, Bool, true, false, [], ◌∷◌, ==_iff, Bool-cases,
  inl, inr, arith, all_below-true,
}
use yorch.Task.{TaskType, task_output, output_storage_mode, uses_forward_prev}
use yorch.Task.Policy.{is_owned}
use yorch.Plan.Compiled.{CompiledPlan}
use yorch.Plan.Compiled.Structure.{IsTree}
use yorch.SlotLayout.Plans.{is_payload_node}
use yorch.Validation.Plans.{task_type, output_type}
use yorch.Validation.Sources.{
  is_void, is_root, parent_is_void, node_forward_prev_source_valid, plan_forward_prev_source_valid,
}
use yorch.Validation.Errors.{ok, validate_plan}
use yorch.Validation.Sound.{validate_plan-sources}
use yorch.Executor.Discipline.{ActivePath}
use yorch.Run.Nodes.{is_forwarded, forwards_prev, owner_after, canonical_output_owner_node}
use yorch.Run.Paths.{on_path, LeadsTo}

-- An output that is not forwarded is owned.
nonvoid-owned :
    (task : TaskType)
    → is_void (task_output task) ≡ false
    → is_forwarded (output_storage_mode task) ≡ false
    → is_owned (output_storage_mode task) ≡ true
unfolding is_void task_output output_storage_mode is_owned uses_forward_prev
nonvoid-owned task some_output own = ground arith

forwarded-uses :
    (task : TaskType)
    → is_forwarded (output_storage_mode task) ≡ true
    → uses_forward_prev task ≡ true
unfolding output_storage_mode uses_forward_prev
forwarded-uses task forwards = ground arith

module _ (plan : CompiledPlan TaskType) (tree : IsTree plan) (pos : 0 < plan.node_count)
    (valid : validate_plan plan ≡ ok) where
  -- A node that forwards its parent's output has a parent with an output.
  forwards-source :
      (i : ℕ)
      → i < plan.node_count
      → forwards_prev plan i ≡ true
      → (is_root plan i ≡ false) × (parent_is_void plan i ≡ false)
  unfolding plan_forward_prev_source_valid node_forward_prev_source_valid
  forwards-source i h forwards =
      let (_, _, sources, _) = validate_plan-sources plan valid in
      let here = all_below-true (node_forward_prev_source_valid plan) plan.node_count i sources h in
      let uses = forwarded-uses (task_type plan i) forwards in (ground arith, ground arith)

  own_output :
      (i : ℕ)
      → is_void (output_type plan i) ≡ false
      → forwards_prev plan i ≡ false
      → is_payload_node plan i ≡ true
  unfolding output_type is_payload_node
  own_output i some_output own = nonvoid-owned (task_type plan i) some_output own

  pub root_is : is_root plan 0 ≡ true
  unfolding is_root
  root_is = (==_iff (plan.parent_indices 0) plan.no_parent).1 tree.root

  owner_own : (k i : ℕ) → forwards_prev plan i ≡ false → owner_after plan k i ≡ i
  unfolding owner_after
  owner_own zero i off = refl
  owner_own (suc k) i off = rw off refl

  -- The owner is on a path and owns a payload.
  abbrev pub IsOwner : ℕ → ActivePath → Type 0
  IsOwner o path = (on_path o path ≡ true) × (is_payload_node plan o ≡ true)

  here-IsOwner :
      (k i : ℕ) (path : ActivePath) (live : Bool)
      → is_void (output_type plan i) ≡ false
      → forwards_prev plan i ≡ false
      → IsOwner (owner_after plan k i) ((i, live) ∷ path)
  unfolding on_path
  here-IsOwner k i path live some_output off =
      let on : on_path i ((i, live) ∷ path) ≡ true = rw ((==_iff i i).1 refl) refl in
      subst (λ o. IsOwner o ((i, live) ∷ path)) (sym (owner_own k i off))
        (on, own_output i some_output off)

  above-IsOwner :
      (k i p : ℕ) (path : ActivePath) (live : Bool)
      → forwards_prev plan i ≡ true
      → plan.parent_indices i ≡ p
      → IsOwner (owner_after plan k p) path
      → IsOwner (owner_after plan (suc k) i) ((i, live) ∷ path)
  unfolding owner_after on_path
  above-IsOwner k i p path live on e (found, own) =
      let on' : on_path (owner_after plan k p) ((i, live) ∷ path) ≡ true = ground arith in
      let same : owner_after plan (suc k) i ≡ owner_after plan k p = rw (on, e) refl in
      subst (λ o. IsOwner o ((i, live) ∷ path)) (sym same) (on', own)

  -- The owner of a node's output is the node or on its path, and owns a payload.
  pub owner_after-IsOwner :
      (k i : ℕ) (path : ActivePath) (live : Bool)
      → LeadsTo plan path i
      → i ≤ k
      → is_void (output_type plan i) ≡ false
      → IsOwner (owner_after plan k i) ((i, live) ∷ path)
  unfolding LeadsTo parent_is_void
  owner_after-IsOwner k i [] live leads le some_output = elim (Bool-cases (forwards_prev plan i)) [
    | inl on ↦
        let (inner, _) = forwards-source i (omega arith) on in
        let root = subst (λ x. is_root plan x ≡ true) (sym leads) root_is in absurd (ground arith)
    | inr off ↦ here-IsOwner k i [] live some_output off
  ]
  owner_after-IsOwner zero i ((p, l) ∷ path) live (up, h, e, leads) le some_output =
      absurd (omega arith)
  owner_after-IsOwner (suc k) i ((p, l) ∷ path) live (up, h, e, leads) le some_output =
      elim (Bool-cases (forwards_prev plan i)) [
        | inl on ↦
            let (_, source) = forwards-source i h on in
            let before = (tree.parent i up h).before in
            above-IsOwner k i p ((p, l) ∷ path) live on e (
              owner_after-IsOwner k p path l leads (omega arith)
                (subst (λ x. is_void (output_type plan x) ≡ false) e source))
        | inr off ↦ here-IsOwner (suc k) i ((p, l) ∷ path) live some_output off
      ]

  pub canonical_output_owner_node-IsOwner :
      (i : ℕ) (path : ActivePath) (live : Bool)
      → LeadsTo plan path i
      → is_void (output_type plan i) ≡ false
      → IsOwner (canonical_output_owner_node plan i) ((i, live) ∷ path)
  unfolding canonical_output_owner_node
  canonical_output_owner_node-IsOwner i path live leads some_output =
      rw some_output (owner_after-IsOwner i i path live leads (omega arith) some_output)
