-- ===== src/Run/Settle.antt =====
-- What becomes of a node's result: the slots after `enter_node_with_exec_context`
-- (include/yorch/detail/executor/node_entry.hpp), once the task has returned.
use yorch.Base.{
  ℕ, ==_iff, ◌<◌, ◌≡◌, refl, sym, subst, Bool, true, false, Option, some, List, [], ◌∷◌, ◌&&◌,
  if◌then◌else◌, Bool-cases, Option-cases, inl, inr, arith,
}
use yorch.Result.{
  StepStatus, success, RawValue, void_value, step_value, task_value, plain_value, ok,
  extract_step_result,
}
use yorch.Storage.{SlotOps, Payloads, IsStorage}
use yorch.Slots.Entry.{carries_payload}
use yorch.Executor.Discipline.{ActivePath}
use yorch.Executor.Interface.{NodeEnterResult}
use yorch.Run.{SinkAction, sink_emplace, sink_destroy, sink_action, sink_actions}
use yorch.Run.Paths.{on_path}
use yorch.Run.Nodes.{store_output, settle_raw, finalize_step, settle_into}
use yorch.Run.Contract.{stores_payload, sink_after}
use yorch.Run.Tracking.{Tracks, LeadsAlong, Beside}
use yorch.Run.Tracking.Operations.{
  emplace-Tracks, out_emplace-Tracks, destroy-Tracks, out_destroy-Tracks, destroy-vacant,
  out_destroy-vacant, has_value-Tracks, unowned-Tracks,
}

-- The path after a node has been entered.
abbrev pub entered_path : ActivePath → ℕ → NodeEnterResult → ActivePath
entered_path path i r = if ok r.step then (i, r.payload_live) ∷ path else path

-- A node has been entered: its flag tells whether it has succeeded with a payload of its own, and
-- alive are the nodes on the path, with it if it has succeeded.
abbrev pub Enters :
    {V Store : Type 0} (payload : ℕ → Bool) (IsValid : Store → Type 0) (view : Store → Payloads V)
    (path : ActivePath) (i : ℕ) (outcome : Option (NodeEnterResult × Store))
    → Type 0
Enters {Store = Store} payload IsValid view path i outcome =
    (r : NodeEnterResult) × (after : Store) × (outcome ≡ some (r, after))
    × (r.payload_live ≡ (ok r.step && payload i))
    × Tracks payload IsValid view (entered_path path i r) after

module _ {V Store : Type 0} {ops : SlotOps V Store} {n : ℕ} {payload maybe : ℕ → Bool}
    {Apart : ℕ → ℕ → Type 0} {IsValid : Store → Type 0} {view : Store → Payloads V}
    (storage : IsStorage ops n payload maybe Apart IsValid view) (path : ActivePath) (i : ℕ)
    (h : i < n) (off : on_path i path ≡ false)
    (apart : payload i ≡ true → Beside storage path i) where
  abbrev Tracked : ActivePath → Store → Type 0
  Tracked = Tracks payload IsValid view

  abbrev Entered : Option (NodeEnterResult × Store) → Type 0
  Entered = Enters payload IsValid view path i

  settle_plain :
      (v : V) (s : Store)
      → payload i ≡ true
      → Tracked path s
      → Entered (settle_raw ops i (plain_value v) s)
  unfolding settle_raw store_output extract_step_result ok
  settle_plain v s own tracks =
      let (after, e, tracks') =
        emplace-Tracks storage path i true v s tracks h own off (apart own) in
      (record { step = success; payload_live = true }, after, rw e refl, sym own, tracks')

  -- After `invoke_raw`: the payload that a success carries is stored.
  pub settle_raw-Enters :
      (raw : RawValue V) (s : Store)
      → stores_payload raw ≡ payload i
      → carries_payload raw ≡ true
      → Tracked path s
      → Entered (settle_raw ops i raw s)
  unfolding settle_raw store_output extract_step_result ok stores_payload carries_payload
  settle_raw-Enters void_value s own carries tracks = (
    record { step = success; payload_live = false },
    s,
    refl,
    own,
    unowned-Tracks storage path i false s (sym own) tracks,
  )
  settle_raw-Enters (step_value step) s own carries tracks = elim (Bool-cases (ok step)) [
    | inl passed ↦ (
      record { step = step; payload_live = false },
      s,
      rw passed refl,
      rw passed own,
      rw passed (unowned-Tracks storage path i false s (sym own) tracks),
    )
    | inr failed ↦ (
      record { step = step; payload_live = false },
      s,
      rw failed refl,
      rw failed refl,
      rw failed tracks,
    )
  ]
  settle_raw-Enters (task_value r) s own carries tracks = elim (Bool-cases (ok r.step)) [
    | inl passed ↦ elim (Option-cases r.value) [
      | inl missing ↦ absurd (ground arith)
      | inr (v, e) ↦
          let (after, put, tracks') =
            emplace-Tracks storage path i true v s tracks h (sym own) off (apart (sym own)) in
          (
            record { step = r.step; payload_live = true },
            after,
            rw (passed, e, put) refl,
            rw passed own,
            rw passed tracks',
          )
    ]
    | inr failed ↦ (
      record { step = r.step; payload_live = false },
      s,
      rw failed refl,
      rw failed refl,
      rw failed tracks,
    )
  ]
  settle_raw-Enters (plain_value v) s own carries tracks = settle_plain v s (sym own) tracks

  -- The path while a sink holds a payload or none.
  abbrev pub sink_path : Bool → ActivePath
  sink_path full = if full then (i, true) ∷ path else path

  module _ (own : payload i ≡ true) (may : maybe i ≡ true) where
    emptied :
        (full : Bool) (s : Store)
        → Tracked (sink_path full) s
        → LeadsAlong payload IsValid view path (ops.out_destroy i s)
    emptied true s tracks = out_destroy-Tracks storage path i true s tracks own may off
    emptied false s tracks = out_destroy-vacant storage path i s tracks h own may off (apart own)

    -- A task's actions on its sink go through, and leave a payload there when they should.
    pub sink_actions-Tracks :
        (full : Bool) (actions : List (SinkAction V)) (s : Store) (full' : Bool)
        → sink_after full actions ≡ some full'
        → Tracked (sink_path full) s
        → LeadsAlong payload IsValid view (sink_path full') (sink_actions ops i actions s)
    unfolding sink_actions sink_action sink_after
    sink_actions-Tracks full [] s full' e tracks =
        (s, refl, subst (λ b. Tracked (sink_path b) s) (ground arith) tracks)
    sink_actions-Tracks true (sink_emplace v ∷ actions) s full' e tracks = cc
    sink_actions-Tracks false (sink_emplace v ∷ actions) s full' e tracks =
        let (after, put, next) =
          out_emplace-Tracks storage path i true v s tracks h own may off (apart own) in
        let (last, rest, done) = sink_actions-Tracks true actions after full' e next in
        (last, rw put rest, done)
    sink_actions-Tracks full (sink_destroy ∷ actions) s full' e tracks =
        let (after, out, next) = emptied full s tracks in
        let (last, rest, done) = sink_actions-Tracks false actions after full' e next in
        (last, rw out rest, done)

    destroyed :
        (full : Bool) (s : Store)
        → Tracked (sink_path full) s
        → LeadsAlong payload IsValid view path (ops.destroy i s)
    destroyed true s tracks = destroy-Tracks storage path i true s tracks own off
    destroyed false s tracks = destroy-vacant storage path i s tracks h own may off (apart own)

    -- After `invoke_into`: a success keeps the payload in the slot, and anything else destroys what
    -- the sink holds.
    pub settle_into-Enters :
        (full : Bool) (step : StepStatus) (s : Store)
        → (ok step ≡ true → full ≡ true)
        → Tracked (sink_path full) s
        → Entered (settle_into ops i step s)
    unfolding settle_into finalize_step on_path
    settle_into-Enters full step s honest tracks = elim (Bool-cases (ok step)) [
      | inl passed ↦
          let tracks' = subst (λ b. Tracked (sink_path b) s) (honest passed) tracks in
          let present =
            has_value-Tracks storage ((i, true) ∷ path) i s tracks' (rw ((==_iff i i).1 refl) refl)
              own may in
          (
            record { step = step; payload_live = ok step },
            s,
            rw (passed, present) refl,
            rw (passed, own) refl,
            rw passed tracks',
          )
      | inr failed ↦
          let (after, out, tracks') = destroyed full s tracks in
          (
            record { step = step; payload_live = ok step },
            after,
            rw (failed, out) refl,
            rw failed refl,
            rw failed tracks',
          )
    ]
