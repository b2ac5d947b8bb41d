-- ===== src/Run/Steps.antt =====
-- How the condition of a run changes when a node is put on the path and when it leaves it
-- (include/yorch/detail/executor/serial_dfs.hpp).
use yorch.Base.{
  ℕ, ◌<◌, ◌≡◌, ◌∙◌, refl, sym, subst, ap, Bool, true, false, not, some, [], ◌∷◌, ◌&&◌,
  if◌then◌else◌, update, Bool-cases, inl, inr, arith,
}
use yorch.Task.{TaskType}
use yorch.Plan.Compiled.{CompiledPlan}
use yorch.Plan.Compiled.Structure.{IsTree}
use yorch.SlotLayout.Plans.{is_payload_node}
use yorch.Validation.Fanout.{parent_requires_fanout_staging}
use yorch.Validation.Errors.{validate_plan}
use yorch.Validation.Errors as Errors
use yorch.Storage.{SlotOps, Payloads, IsStorage}
use yorch.Storage.Maybe.{MaybeStorage, emplace}
use yorch.Executor.Discipline.{ActivePath}
use yorch.Executor.Equivalence.Runs.{cleanup}
use yorch.Executor.Plans.{plan_invokers}
use yorch.Run.{TaskBodies, RunState}
use yorch.Run.Nodes.{
  get_output, prepare_fanout_staging, destroy_fanout_staging, destroy_payload, node_operations,
}
use yorch.Run.Paths.{LeadsTo, LeadsTo-lt, LeadsTo-off}
use yorch.Run.Tracking.{Tracks}
use yorch.Run.Tracking.Operations.{destroy-Tracks, left-Tracks}
use yorch.Run.Prev.{Staged, get_output-Tracks}
use yorch.Run.Staging.{staged_output, emplace-Staged, destroy-Staged, unstaged-Staged, left-Staged}
use yorch.Run.Enter.{may_be_empty}

-- The flags that the executor keeps on its path say which nodes own a payload.
unfoldable pub flags_fit : (ℕ → Bool) → ActivePath → Bool
flags_fit payload [] = true
flags_fit payload ((p, live) ∷ path) =
    (if live then payload p else not (payload p)) && flags_fit payload path

-- While execution is at the end of a path, the program has not faulted, and alive are the payloads and
-- staged the copies of the nodes on the path, and no other.
pub record IsRunning {V Store World : Type 0} (plan : CompiledPlan TaskType)
    (IsValid : Store → Type 0) (view : Store → Payloads V) (path : ActivePath)
    (s : RunState V Store World) : Type 0 where
  pub sane : s.faulted ≡ false
  pub tracked : Tracks (is_payload_node plan) IsValid view path s.slots
  pub staged : Staged plan path s.staging
  pub flags : flags_fit (is_payload_node plan) path ≡ true

module _ {V Store World : Type 0} (plan : CompiledPlan TaskType) (ops : SlotOps V Store)
    (bodies : TaskBodies V World) (i : ℕ) (s : RunState V Store World) where
  prepared :
      (v : V) (x : MaybeStorage V)
      → parent_requires_fanout_staging plan i ≡ true
      → get_output plan ops i s.slots ≡ some v
      → emplace (bodies.copy_construct v) (s.staging i) ≡ some x
      → prepare_fanout_staging plan ops bodies i s ≡ record s { staging = update s.staging i x }
  unfolding prepare_fanout_staging
  prepared v x needs found put = rw (needs, found, put) refl

  unprepared :
      parent_requires_fanout_staging plan i ≡ false → prepare_fanout_staging plan ops bodies i s ≡ s
  unfolding prepare_fanout_staging
  unprepared free = rw free refl

  destroyed :
      (slots : Store)
      → ops.destroy i s.slots ≡ some slots
      → destroy_payload plan ops bodies i s ≡ record s { slots = slots }
  unfolding destroy_payload
  destroyed slots e = rw (destroy_payload, e) refl

  -- What is destroyed when a node leaves the path: its staged copy, then its payload.
  cleaned_up :
      (live : Bool)
      → cleanup (plan_invokers plan (node_operations plan ops bodies)) i live s ≡ (
          if live
          then destroy_payload plan ops bodies i (destroy_fanout_staging plan ops bodies i s)
          else destroy_fanout_staging plan ops bodies i s)
  unfolding cleanup plan_invokers node_operations destroy_fanout_staging
  cleaned_up live = elim (Bool-cases (parent_requires_fanout_staging plan i)) [
    | inl needs ↦ rw needs refl
    | inr free ↦ rw free refl
  ]

module _ {V Store World : Type 0} (plan : CompiledPlan TaskType) (ops : SlotOps V Store)
    (bodies : TaskBodies V World) (i : ℕ) (s : RunState V Store World)
    (staging : ℕ → MaybeStorage V)
    (e : destroy_fanout_staging plan ops bodies i s ≡ record s { staging = staging }) where
  cleaned_owned :
      (slots : Store)
      → ops.destroy i s.slots ≡ some slots
      → cleanup (plan_invokers plan (node_operations plan ops bodies)) i true s
        ≡ record s { slots = slots; staging = staging }
  cleaned_owned slots out =
      cleaned_up plan ops bodies i s true
      ∙ ap (destroy_payload plan ops bodies i) e
      ∙ destroyed plan ops bodies i (record s { staging = staging }) slots out

  cleaned_unowned :
      cleanup (plan_invokers plan (node_operations plan ops bodies)) i false s
      ≡ record s { staging = staging }
  cleaned_unowned = cleaned_up plan ops bodies i s false ∙ e

module _ {V Store World : Type 0} {ops : SlotOps V Store} {Apart : ℕ → ℕ → Type 0}
    {IsValid : Store → Type 0} {view : Store → Payloads V} (plan : CompiledPlan TaskType)
    (bodies : TaskBodies V World)
    (storage : IsStorage ops plan.node_count
      (is_payload_node plan)
      (may_be_empty plan)
      Apart
      IsValid
      view)
    (tree : IsTree plan) (pos : 0 < plan.node_count) (valid : validate_plan plan ≡ Errors.ok) where
  abbrev Running : ActivePath → RunState V Store World → Type 0
  Running = IsRunning plan IsValid view

  -- The output of a node that has succeeded is staged for its children when they need it.
  pub prepare-Running :
      (path : ActivePath) (i : ℕ) (live : Bool) (s : RunState V Store World)
      → LeadsTo plan path i
      → s.faulted ≡ false
      → Tracks (is_payload_node plan) IsValid view ((i, live) ∷ path) s.slots
      → Staged plan path s.staging
      → flags_fit (is_payload_node plan) ((i, live) ∷ path) ≡ true
      → Running ((i, live) ∷ path) (prepare_fanout_staging plan ops bodies i s)
  prepare-Running path i live s leads sane tracks staged flags =
      elim (Bool-cases (parent_requires_fanout_staging plan i)) [
        | inl needs ↦
            let off = LeadsTo-off plan tree pos path i leads in
            let inside = LeadsTo-lt plan tree pos path i leads in
            let (v, found) =
              get_output-Tracks plan storage tree pos valid i path live s.slots leads
                (staged_output plan tree valid i inside needs) tracks in
            let (x, put, staged') =
              emplace-Staged plan path i live s.staging off (bodies.copy_construct v) needs
                staged in
            subst (Running ((i, live) ∷ path))
              (sym (prepared plan ops bodies i s v x needs found put))
              (record { sane = sane; tracked = tracks; staged = staged'; flags = flags })
        | inr free ↦
            subst (Running ((i, live) ∷ path)) (sym (unprepared plan ops bodies i s free)) (record {
              sane = sane;
              tracked = tracks;
              staged =
                  unstaged-Staged plan path i live s.staging
                    (LeadsTo-off plan tree pos path i leads) free staged;
              flags = flags;
            })
      ]

  -- The staged copy of a node that leaves the path is destroyed.
  unstage-Staged :
      (path : ActivePath) (i : ℕ) (live : Bool) (s : RunState V Store World)
      → LeadsTo plan path i
      → Staged plan ((i, live) ∷ path) s.staging
      → (staging : ℕ → MaybeStorage V) × (destroy_fanout_staging plan ops bodies i s
          ≡ record s { staging = staging })
        × Staged plan path staging
  unfolding destroy_fanout_staging
  unstage-Staged path i live s leads staged =
      let off = LeadsTo-off plan tree pos path i leads in
      elim (Bool-cases (parent_requires_fanout_staging plan i)) [
        | inl needs ↦
            let (x, out, staged') = destroy-Staged plan path i live s.staging off staged in
            (update s.staging i x, rw (needs, out) refl, staged')
        | inr free ↦
            (s.staging, rw free refl, left-Staged plan path i live s.staging off free staged)
      ]

  pub leave-Running :
      (path : ActivePath) (i : ℕ) (live : Bool) (s : RunState V Store World)
      → LeadsTo plan path i
      → Running ((i, live) ∷ path) s
      → Running path (cleanup (plan_invokers plan (node_operations plan ops bodies)) i live s)
  unfolding flags_fit
  leave-Running path i true s leads running =
      let (staging, e, staged) = unstage-Staged path i true s leads running.staged in
      let own : is_payload_node plan i ≡ true = ground (arith, running.flags) in
      let (slots, out, tracks) =
        destroy-Tracks storage path i true s.slots running.tracked own
          (LeadsTo-off plan tree pos path i leads) in
      subst (Running path) (sym (cleaned_owned plan ops bodies i s staging e slots out)) (record {
        sane = running.sane;
        tracked = tracks;
        staged = staged;
        flags = ground (arith, running.flags);
      })
  leave-Running path i false s leads running =
      let (staging, e, staged) = unstage-Staged path i false s leads running.staged in
      let own : is_payload_node plan i ≡ false = ground (arith, running.flags) in
      subst (Running path) (sym (cleaned_unowned plan ops bodies i s staging e)) (record {
        sane = running.sane;
        tracked = left-Tracks storage path i false s.slots own running.tracked;
        staged = staged;
        flags = ground (arith, running.flags);
      })
