-- ===== src/Run/Prev.antt =====
-- A node's view of its direct parent's output: `get<I>` in
-- include/yorch/slots/plan_exec_slots.hpp, `make_node_prev_view` in
-- include/yorch/detail/executor/node_entry.hpp.
use yorch.Base.{
  ℕ, ◌<◌, ◌≡◌, ◌∙◌, refl, sym, subst, Bool, true, false, Option, some, [], ◌∷◌, ==_iff, ◌&&◌,
  Bool-cases, inl, inr, arith,
}
use yorch.Task.{TaskType}
use yorch.Task.Access.{uses_exclusive_prev_access}
use yorch.Plan.Compiled.{CompiledPlan}
use yorch.Plan.Compiled.Structure.{IsTree}
use yorch.SlotLayout.Plans.{is_payload_node}
use yorch.Validation.Plans.{task_type, output_type}
use yorch.Validation.Fanout.{parent_requires_fanout_staging, node_uses_staged_copy_prev}
use yorch.Validation.Sources.{is_void, is_root, parent_is_void}
use yorch.Validation.Errors.{ok, validate_plan}
use yorch.Storage.{SlotOps, Payloads, IsStorage}
use yorch.Storage.Maybe.{MaybeStorage, lives, IsSound, get, get-IsSound}
use yorch.Executor.Discipline.{ActivePath}
use yorch.Run.{PrevView, no_prev, const_slot, mutable_slot}
use yorch.Run.Nodes.{canonical_output_owner_node, get_output, make_node_prev_view, write_prev}
use yorch.Run.Paths.{on_path, LeadsTo}
use yorch.Run.Owner.{root_is, canonical_output_owner_node-IsOwner}
use yorch.Run.Tracking.{Tracks, LeadsAlong, get-Tracks, assign-Tracks, full_value}

-- The stages that hold a copy are those of the nodes on the path that have one.
pub record Staged {V : Type 0} (plan : CompiledPlan TaskType) (path : ActivePath)
    (staging : ℕ → MaybeStorage V) : Type 0 where
  pub sound : (j : ℕ) → IsSound (staging j)
  pub held : (j : ℕ) → lives (staging j) ≡ (on_path j path && parent_requires_fanout_staging plan j)

module _ {V Store : Type 0} {ops : SlotOps V Store} {n : ℕ} {maybe : ℕ → Bool}
    {Apart : ℕ → ℕ → Type 0} {IsValid : Store → Type 0} {view : Store → Payloads V}
    (plan : CompiledPlan TaskType)
    (storage : IsStorage ops n (is_payload_node plan) maybe Apart IsValid view) (tree : IsTree plan)
    (pos : 0 < plan.node_count) (valid : validate_plan plan ≡ ok) where
  abbrev Tracked : ActivePath → Store → Type 0
  Tracked = Tracks (is_payload_node plan) IsValid view

  -- The output of a node that has one can be read while the node is on the path.
  pub get_output-Tracks :
      (i : ℕ) (path : ActivePath) (live : Bool) (s : Store)
      → LeadsTo plan path i
      → is_void (output_type plan i) ≡ false
      → Tracked ((i, live) ∷ path) s
      → (v : V) × (get_output plan ops i s ≡ some v)
  unfolding get_output
  get_output-Tracks i path live s leads some_output tracks =
      let (on, own) =
        canonical_output_owner_node-IsOwner plan tree pos valid i path live leads some_output in
      get-Tracks storage ((i, live) ∷ path) (canonical_output_owner_node plan i) s tracks on own

  write_output :
      (i : ℕ) (path : ActivePath) (live : Bool) (w : V) (s : Store)
      → LeadsTo plan path i
      → is_void (output_type plan i) ≡ false
      → Tracked ((i, live) ∷ path) s
      → LeadsAlong
          (is_payload_node plan)
          IsValid
          view
          ((i, live) ∷ path)
          (ops.assign (canonical_output_owner_node plan i) w s)
  write_output i path live w s leads some_output tracks =
      let (on, own) =
        canonical_output_owner_node-IsOwner plan tree pos valid i path live leads some_output in
      assign-Tracks storage ((i, live) ∷ path) (canonical_output_owner_node plan i) w s tracks on
        own

  inner :
      (i p : ℕ) → 0 < i → i < plan.node_count → plan.parent_indices i ≡ p → is_root plan i ≡ false
  unfolding is_root
  inner i p up h e = let before = (tree.parent i up h).before in ground (arith, tree.sentinel)

  -- The parent of a node that reads a staged copy has one.
  stage_value :
      (i p : ℕ) (path : ActivePath) (l : Bool) (staging : ℕ → MaybeStorage V)
      → plan.parent_indices i ≡ p
      → Staged plan ((p, l) ∷ path) staging
      → node_uses_staged_copy_prev plan i ≡ true
      → (v : V) × (get (staging p) ≡ some v)
  unfolding node_uses_staged_copy_prev on_path
  stage_value i p path l staging e staged copies =
      let needs : parent_requires_fanout_staging plan p ≡ true =
        subst (λ x. parent_requires_fanout_staging plan x ≡ true) e (ground arith) in
      let on : on_path p ((p, l) ∷ path) ≡ true = rw ((==_iff p p).1 refl) refl in
      let (v, found) = full_value (staging p).object (staged.held p ∙ rw (on, needs) refl) in
      (v, get-IsSound (staging p) (staged.sound p) ∙ found)

  -- A view of the parent's output, through which a task can write.
  abbrev pub Views : ActivePath → ℕ → Store → Option (PrevView V) → Type 0
  Views path i s o =
      (prev : PrevView V) × (o ≡ some prev)
      × ((w : V)
          → LeadsAlong (is_payload_node plan) IsValid view path (write_prev plan ops i prev w s))

  -- At every node of the plan, the view of the parent's output can be made.
  pub make_node_prev_view-Views :
      (i : ℕ) (path : ActivePath) (s : Store) (staging : ℕ → MaybeStorage V)
      → LeadsTo plan path i
      → Tracked path s
      → Staged plan path staging
      → Views path i s (make_node_prev_view plan ops i s staging)
  unfolding make_node_prev_view get_output write_prev LeadsTo parent_is_void
  make_node_prev_view-Views i [] s staging leads tracks staged =
      let root = subst (λ x. is_root plan x ≡ true) (sym leads) (root_is plan tree pos valid) in
      (no_prev, rw root refl, λ w. (s, refl, tracks))
  make_node_prev_view-Views i ((p, l) ∷ path) s staging (up, h, e, leads) tracks staged =
      elim (Bool-cases (is_void (output_type plan p))) [
        | inl void ↦ (no_prev, rw (inner i p up h e, e, void) refl, λ w. (s, refl, tracks))
        | inr some_output ↦ elim (Bool-cases (node_uses_staged_copy_prev plan i)) [
          | inl copies ↦
              let (v, found) = stage_value i p path l staging e staged copies in
              (
                const_slot v,
                rw (inner i p up h e, e, some_output, copies, found) refl,
                λ w. (s, refl, tracks),
              )
          | inr reads ↦
              let (v, found) = get_output-Tracks p path l s leads some_output tracks in
              elim (Bool-cases (uses_exclusive_prev_access (task_type plan i).form)) [
                | inl exclusive ↦ (
                  mutable_slot v,
                  rw (inner i p up h e, e, some_output, reads, exclusive, found) refl,
                  λ w.
                      subst
                        (λ x.
                          LeadsAlong (is_payload_node plan) IsValid view ((p, l) ∷ path)
                            (ops.assign (canonical_output_owner_node plan x) w s))
                        (sym e) (write_output p path l w s leads some_output tracks),
                )
                | inr shared ↦ (
                  const_slot v,
                  rw (inner i p up h e, e, some_output, reads, shared, found) refl,
                  λ w. (s, refl, tracks),
                )
              ]
        ]
      ]
