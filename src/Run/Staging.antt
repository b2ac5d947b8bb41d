-- ===== src/Run/Staging.antt =====
-- The staged copies of a run: `plan_fanout_state` in include/yorch/detail/executor/fanout.hpp.
use yorch.Base.{
  ℕ, ◌<◌, ◌≡◌, ◌∙◌, refl, sym, subst, Bool, true, false, some, none, ◌∷◌, ◌==◌, ==_iff, ◌&&◌,
  update, Bool-cases, inl, inr, arith, all_below-true, count_below_found,
}
use yorch.Task.{TaskType}
use yorch.Task.Access.{uses_prev_access, uses_copy_prev}
use yorch.Task.Access.Laws.{access_summary-IsConsistent}
use yorch.Plan.Compiled.{CompiledPlan, child_index}
use yorch.Plan.Compiled.Structure.{IsTree}
use yorch.Validation.Plans.{task_type, output_type}
use yorch.Validation.Fanout.{
  parent_requires_fanout_staging, copy_only_prev_child_count, uses_copy_only_prev_access,
  child_task,
}
use yorch.Validation.Sources.{
  is_void, parent_is_void, node_prev_source_valid, plan_prev_source_valid,
  node_forward_prev_source_valid, plan_forward_prev_source_valid,
}
use yorch.Validation.Errors.{ok, validate_plan}
use yorch.Validation.Sound.{validate_plan-sources}
use yorch.Storage.Maybe.{
  MaybeStorage, lives, IsSound, emplace, emplace-IsSound, destroy, destroy-IsSound,
}
use yorch.Executor.Discipline.{ActivePath}
use yorch.Run.Paths.{on_path}
use yorch.Run.Prev.{Staged}

copy_only-uses :
    (task : TaskType) → uses_copy_only_prev_access task ≡ true → uses_prev_access task.form ≡ true
unfolding uses_copy_only_prev_access uses_prev_access uses_copy_prev
copy_only-uses task copies = ground (arith, (access_summary-IsConsistent task.form).total)

module _ (plan : CompiledPlan TaskType) (tree : IsTree plan) (valid : validate_plan plan ≡ ok) where
  -- The parent of a node that reads its output has one.
  read_output :
      (i : ℕ)
      → 0 < i
      → i < plan.node_count
      → uses_prev_access (task_type plan i).form ≡ true
      → is_void (output_type plan (plan.parent_indices i)) ≡ false
  unfolding plan_prev_source_valid node_prev_source_valid plan_forward_prev_source_valid
      node_forward_prev_source_valid parent_is_void
  read_output i up h uses =
      let (prevs, _, forwards, _) = validate_plan-sources plan valid in
      let a = all_below-true (node_prev_source_valid plan) plan.node_count i prevs h in
      let b = all_below-true (node_forward_prev_source_valid plan) plan.node_count i forwards h in
      ground arith

  -- A node whose output is staged has one.
  pub staged_output :
      (p : ℕ)
      → p < plan.node_count
      → parent_requires_fanout_staging plan p ≡ true
      → is_void (output_type plan p) ≡ false
  unfolding parent_requires_fanout_staging copy_only_prev_child_count
  staged_output p h needs =
      let (ord, less, copies) =
        count_below_found (λ ord. uses_copy_only_prev_access (child_task plan p ord))
          (plan.child_counts p) (λ e. ground arith) in
      let (below, inside, e) = tree.child_sound p ord h less in
      subst (λ x. is_void (output_type plan x) ≡ false) e
        (read_output (child_index plan p ord) (omega arith) inside
          (copy_only-uses (child_task plan p ord) copies))

module _ {V : Type 0} (plan : CompiledPlan TaskType) (path : ActivePath) (i : ℕ) (live : Bool)
    (staging : ℕ → MaybeStorage V) (off : on_path i path ≡ false) where
  -- A stage with new contents, on a path that differs in its node only.
  restaged :
      (from to : ActivePath) (x : MaybeStorage V)
      → Staged plan from staging
      → IsSound x
      → lives x ≡ (on_path i to && parent_requires_fanout_staging plan i)
      → ((j : ℕ) → (i == j) ≡ false → on_path j from ≡ on_path j to)
      → Staged plan to (update staging i x)
  restaged from to x staged sound here there = record {
    sound = λ j. elim (Bool-cases (i == j)) [
      | inl same ↦ rw same sound
      | inr other ↦ rw other (staged.sound j)
    ];
    held = λ j. elim (Bool-cases (i == j)) [
      | inl same ↦ rw same (
          subst (λ k. lives x ≡ (on_path k to && parent_requires_fanout_staging plan k))
            ((==_iff i j).0 same) here)
      | inr other ↦
          let e : on_path j from ≡ on_path j to = there j other in rw (other, ← e) (staged.held j)
    ];
  }

  longer : (j : ℕ) → (i == j) ≡ false → on_path j path ≡ on_path j ((i, live) ∷ path)
  unfolding on_path
  longer j other = rw other refl

  here : on_path i ((i, live) ∷ path) ≡ true
  unfolding on_path
  here = rw ((==_iff i i).1 refl) refl

  -- A copy is staged for the children of a node that is put on the path,
  pub emplace-Staged :
      (v : V)
      → parent_requires_fanout_staging plan i ≡ true
      → Staged plan path staging
      → (x : MaybeStorage V) × (emplace v (staging i) ≡ some x)
        × Staged plan ((i, live) ∷ path) (update staging i x)
  emplace-Staged v needs staged =
      let empty : lives (staging i) ≡ false = staged.held i ∙ rw off refl in
      (
        record { object = some v; engaged = true },
        emplace-IsSound v (staging i) (staged.sound i) (ground arith),
        restaged path ((i, live) ∷ path) (record { object = some v; engaged = true }) staged refl
            (rw (here, needs) refl) longer,
      )

  -- and destroyed when the node leaves the path.
  pub destroy-Staged :
      Staged plan ((i, live) ∷ path) staging
      → (x : MaybeStorage V) × (destroy (staging i) ≡ some x)
        × Staged plan path (update staging i x)
  destroy-Staged staged = (
    record { object = none; engaged = false },
    destroy-IsSound (staging i) (staged.sound i),
    restaged ((i, live) ∷ path) path (record { object = none; engaged = false }) staged refl
        (rw off refl) (λ j other. sym (longer j other)),
  )

  unstaged :
      (j : ℕ)
      → parent_requires_fanout_staging plan i ≡ false
      → (on_path j path && parent_requires_fanout_staging plan j)
        ≡ (on_path j ((i, live) ∷ path) && parent_requires_fanout_staging plan j)
  unstaged j free = elim (Bool-cases (i == j)) [
    | inl same ↦
        let free' =
          subst (λ k. parent_requires_fanout_staging plan k ≡ false) ((==_iff i j).0 same) free in
        ground arith
    | inr other ↦ rw (longer j other) refl
  ]

  -- A node without staging changes no stage by being on the path.
  pub unstaged-Staged :
      parent_requires_fanout_staging plan i ≡ false
      → Staged plan path staging
      → Staged plan ((i, live) ∷ path) staging
  unstaged-Staged free staged = record {
    sound = staged.sound;
    held = λ j. staged.held j ∙ unstaged j free;
  }

  pub left-Staged :
      parent_requires_fanout_staging plan i ≡ false
      → Staged plan ((i, live) ∷ path) staging
      → Staged plan path staging
  left-Staged free staged = record {
    sound = staged.sound;
    held = λ j. staged.held j ∙ sym (unstaged j free);
  }
