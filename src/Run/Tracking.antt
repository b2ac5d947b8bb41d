-- ===== src/Run/Tracking.antt =====
-- Which payloads are alive while depth-first execution is at a node: those of the nodes on its path. What
-- the operations of a storage (include/yorch/slots/plan_exec_slots.hpp) do to that.
pub mod Operations
use yorch.Base.{
  ℕ, ◌<◌, ◌≡◌, ◌≢◌, ◌∙◌, ◌||◌, ◌&&◌, refl, sym, subst, ap, Bool, true, false, Option, none, some,
  List, [], ◌∷◌, ◌==◌, ==_iff, if◌then◌else◌, ◌>>=◌, update, Bool-cases, Option-cases, inl, inr,
  arith,
}
use yorch.Storage.{SlotOps, Payloads, Stepped, IsStorage}
use yorch.Executor.Discipline.{ActivePath}
use yorch.Run.{SinkAction, sink_emplace, sink_destroy, sink_action, sink_actions}
use yorch.Run.Paths.{on_path}

abbrev pub is_full : {V : Type 0} → Option V → Bool
is_full o = elim o [ none ↦ false | some v ↦ true ]

pub full_value : {V : Type 0} (o : Option V) → is_full o ≡ true → (v : V) × (o ≡ some v)
full_value o e = elim (Option-cases o) [ inl empty ↦ absurd (ground arith) | inr found ↦ found ]

-- The storage is valid, and alive are exactly the nodes on the path that own a payload.
pub record Tracks {V Store : Type 0} (payload : ℕ → Bool) (IsValid : Store → Type 0)
    (view : Store → Payloads V) (path : ActivePath) (slots : Store) : Type 0 where
  pub valid : IsValid slots
  pub alive : (j : ℕ) → is_full (view slots j) ≡ (on_path j path && payload j)

-- A step of the storage that leaves the nodes of a path alive.
abbrev pub LeadsAlong :
    {V Store : Type 0} (payload : ℕ → Bool) (IsValid : Store → Type 0) (view : Store → Payloads V)
    (path : ActivePath) (outcome : Option Store)
    → Type 0
LeadsAlong {Store = Store} payload IsValid view path outcome =
    (after : Store) × (outcome ≡ some after) × Tracks payload IsValid view path after

module _ {V Store : Type 0} {ops : SlotOps V Store} {n : ℕ} {payload maybe : ℕ → Bool}
    {Apart : ℕ → ℕ → Type 0} {IsValid : Store → Type 0} {view : Store → Payloads V}
    (storage : IsStorage ops n payload maybe Apart IsValid view) where
  abbrev Tracked : ActivePath → Store → Type 0
  Tracked = Tracks payload IsValid view

  abbrev Leads : ActivePath → Option Store → Type 0
  Leads = LeadsAlong payload IsValid view

  -- The nodes on a path that own a payload may be alive beside `i`.
  abbrev pub Beside : ActivePath → ℕ → Type 0
  Beside path i = (j : ℕ) → on_path j path ≡ true → payload j ≡ true → Apart j i

  pub stepped :
      (path path' : ActivePath) (i : ℕ) (o : Option V) (s : Store) (outcome : Option Store)
      → Tracked path s
      → Stepped IsValid view (update (view s) i o) outcome
      → ((j : ℕ)
          → (if i == j then is_full o else on_path j path && payload j)
            ≡ (on_path j path' && payload j))
      → Leads path' outcome
  stepped path path' i o s outcome tracks step same = (
    step.store,
    step.returned,
    record { valid = step.valid; alive = λ j. ap is_full (step.viewed j) ∙ fullness j ∙ same j },
  )
    where
      fullness :
          (j : ℕ)
          → is_full (update (view s) i o j)
            ≡ (if i == j then is_full o else on_path j path && payload j)
      fullness j = elim (Bool-cases (i == j)) [
        | inl here ↦ rw here refl
        | inr there ↦ rw there (tracks.alive j)
      ]

  -- What the path has alive beside a node that is not on it.
  pub beside :
      (path : ActivePath) (i : ℕ) (s : Store)
      → Tracked path s
      → Beside path i
      → (j : ℕ) → view s j ≢ none
      → Apart j i
  beside path i s tracks apart j ne = elim (Option-cases (view s j)) [
    | inl e ↦ absurd (ne e)
    | inr (v, e) ↦
        let alive = sym (tracks.alive j) ∙ ap is_full e in apart j (ground arith) (ground arith)
  ]

  pub vacant :
      (path : ActivePath) (i : ℕ) (s : Store)
      → Tracked path s
      → on_path i path ≡ false
      → view s i ≡ none
  vacant path i s tracks off = elim (Option-cases (view s i)) [
    | inl e ↦ e
    | inr (v, e) ↦ let alive = sym (tracks.alive i) ∙ ap is_full e in absurd (ground arith)
  ]

  pub occupied :
      (path : ActivePath) (i : ℕ) (s : Store)
      → Tracked path s
      → on_path i path ≡ true
      → payload i ≡ true
      → (v : V) × (view s i ≡ some v)
  occupied path i s tracks on own = full_value (view s i) (tracks.alive i ∙ rw (on, own) refl)

  -- The payload of a node on the path can be read.
  pub get-Tracks :
      (path : ActivePath) (i : ℕ) (s : Store)
      → Tracked path s
      → on_path i path ≡ true
      → payload i ≡ true
      → (v : V) × (ops.get i s ≡ some v)
  get-Tracks path i s tracks on own =
      let (v, e) = occupied path i s tracks on own in (v, storage.get_law i v s tracks.valid e)

  pub same_node : (i j : ℕ) (f : ℕ → Bool) → (i == j) ≡ true → f i ≡ true → f j ≡ true
  same_node i j f same on = subst (λ k. f k ≡ true) ((==_iff i j).0 same) on

  -- It can be written, and no other payload changes.
  pub assign-Tracks :
      (path : ActivePath) (i : ℕ) (w : V) (s : Store)
      → Tracked path s
      → on_path i path ≡ true
      → payload i ≡ true
      → Leads path (ops.assign i w s)
  assign-Tracks path i w s tracks on own =
      let (v, e) = occupied path i s tracks on own in
      stepped path path i (some w) s (ops.assign i w s) tracks
        (storage.assign_law i v w s tracks.valid e)
        λ j. ground (arith, same_node i j (λ k. on_path k path), same_node i j payload)
