-- ===== src/Run/Tracking/Operations.antt =====
-- How the operations of a storage (include/yorch/slots/plan_exec_slots.hpp) put a node on the path and take
-- it off.
use yorch.Base.{
  ℕ, ◌<◌, ◌≡◌, ◌∙◌, ◌&&◌, refl, sym, subst, Bool, true, false, Option, none, some, ◌∷◌, ◌==◌,
  ==_iff, if◌then◌else◌, Bool-cases, inl, inr, arith,
}
use yorch.Storage.{SlotOps, Payloads, IsStorage}
use yorch.Executor.Discipline.{ActivePath}
use yorch.Run.Paths.{on_path}
use yorch.Run.Tracking.{Tracks, LeadsAlong, Beside, stepped, beside, vacant, occupied, same_node}

module _ {V Store : Type 0} {ops : SlotOps V Store} {n : ℕ} {payload maybe : ℕ → Bool}
    {Apart : ℕ → ℕ → Type 0} {IsValid : Store → Type 0} {view : Store → Payloads V}
    (storage : IsStorage ops n payload maybe Apart IsValid view) where
  abbrev Tracked : ActivePath → Store → Type 0
  Tracked = Tracks payload IsValid view

  abbrev Leads : ActivePath → Option Store → Type 0
  Leads = LeadsAlong payload IsValid view

  joins :
      (path : ActivePath) (i : ℕ) (live : Bool) (j : ℕ)
      → payload i ≡ true
      → (if i == j then true else on_path j path && payload j)
        ≡ (on_path j ((i, live) ∷ path) && payload j)
  unfolding on_path
  joins path i live j own = ground (arith, same_node storage i j payload)

  leaves :
      (path : ActivePath) (i : ℕ) (live : Bool) (j : ℕ)
      → on_path i path ≡ false
      → (if i == j then false else on_path j ((i, live) ∷ path) && payload j)
        ≡ (on_path j path && payload j)
  unfolding on_path
  leaves path i live j off = elim (Bool-cases (i == j)) [
    | inl same ↦
        let off' = subst (λ k. on_path k path ≡ false) ((==_iff i j).0 same) off in
        rw (same, off') refl
    | inr other ↦ rw other refl
  ]

  stays :
      (path : ActivePath) (i : ℕ) (j : ℕ)
      → on_path i path ≡ false
      → (if i == j then false else on_path j path && payload j) ≡ (on_path j path && payload j)
  stays path i j off = elim (Bool-cases (i == j)) [
    | inl same ↦
        let off' = subst (λ k. on_path k path ≡ false) ((==_iff i j).0 same) off in
        rw (same, off') refl
    | inr other ↦ rw other refl
  ]

  -- A node that is not on the path is put on it by constructing its payload,
  pub emplace-Tracks :
      (path : ActivePath) (i : ℕ) (live : Bool) (v : V) (s : Store)
      → Tracked path s
      → i < n
      → payload i ≡ true
      → on_path i path ≡ false
      → Beside storage path i
      → Leads ((i, live) ∷ path) (ops.emplace i v s)
  emplace-Tracks path i live v s tracks h own off apart =
      stepped storage path ((i, live) ∷ path) i (some v) s (ops.emplace i v s) tracks
        (storage.emplace_law i v s h own tracks.valid (vacant storage path i s tracks off)
          (beside storage path i s tracks apart))
        (λ j. joins path i live j own)

  -- or through its sink;
  pub out_emplace-Tracks :
      (path : ActivePath) (i : ℕ) (live : Bool) (v : V) (s : Store)
      → Tracked path s
      → i < n
      → payload i ≡ true
      → maybe i ≡ true
      → on_path i path ≡ false
      → Beside storage path i
      → Leads ((i, live) ∷ path) (ops.out_emplace i v s)
  out_emplace-Tracks path i live v s tracks h own may off apart =
      stepped storage path ((i, live) ∷ path) i (some v) s (ops.out_emplace i v s) tracks
        (storage.out_emplace_law i v s h own may tracks.valid (vacant storage path i s tracks off)
          (beside storage path i s tracks apart))
        (λ j. joins path i live j own)

  -- and it leaves the path by destroying it.
  pub destroy-Tracks :
      (path : ActivePath) (i : ℕ) (live : Bool) (s : Store)
      → Tracked ((i, live) ∷ path) s
      → payload i ≡ true
      → on_path i path ≡ false
      → Leads path (ops.destroy i s)
  unfolding on_path
  destroy-Tracks path i live s tracks own off =
      let (v, e) =
        occupied storage ((i, live) ∷ path) i s tracks (rw ((==_iff i i).1 refl) refl) own in
      stepped storage ((i, live) ∷ path) path i none s (ops.destroy i s) tracks
        (storage.destroy_law i v s tracks.valid e) (λ j. leaves path i live j off)

  pub out_destroy-Tracks :
      (path : ActivePath) (i : ℕ) (live : Bool) (s : Store)
      → Tracked ((i, live) ∷ path) s
      → payload i ≡ true
      → maybe i ≡ true
      → on_path i path ≡ false
      → Leads path (ops.out_destroy i s)
  unfolding on_path
  out_destroy-Tracks path i live s tracks own may off =
      let (v, e) =
        occupied storage ((i, live) ∷ path) i s tracks (rw ((==_iff i i).1 refl) refl) own in
      stepped storage ((i, live) ∷ path) path i none s (ops.out_destroy i s) tracks
        (storage.out_destroy_law i v s may tracks.valid e) (λ j. leaves path i live j off)

  -- Destroying nothing.
  pub destroy-vacant :
      (path : ActivePath) (i : ℕ) (s : Store)
      → Tracked path s
      → i < n
      → payload i ≡ true
      → maybe i ≡ true
      → on_path i path ≡ false
      → Beside storage path i
      → Leads path (ops.destroy i s)
  destroy-vacant path i s tracks h own may off apart =
      stepped storage path path i none s (ops.destroy i s) tracks
        (storage.destroy_empty i s h own may tracks.valid (vacant storage path i s tracks off)
          (beside storage path i s tracks apart))
        (λ j. stays path i j off)

  pub out_destroy-vacant :
      (path : ActivePath) (i : ℕ) (s : Store)
      → Tracked path s
      → i < n
      → payload i ≡ true
      → maybe i ≡ true
      → on_path i path ≡ false
      → Beside storage path i
      → Leads path (ops.out_destroy i s)
  out_destroy-vacant path i s tracks h own may off apart =
      stepped storage path path i none s (ops.out_destroy i s) tracks
        (storage.out_destroy_empty i s h own may tracks.valid (vacant storage path i s tracks off)
          (beside storage path i s tracks apart))
        (λ j. stays path i j off)

  pub has_value-Tracks :
      (path : ActivePath) (i : ℕ) (s : Store)
      → Tracked path s
      → on_path i path ≡ true
      → payload i ≡ true
      → maybe i ≡ true
      → ops.has_value i s ≡ true
  has_value-Tracks path i s tracks on own may =
      let (v, e) = occupied storage path i s tracks on own in
      storage.has_value_full i v s may tracks.valid e

  unowned :
      (path : ActivePath) (i : ℕ) (live : Bool) (j : ℕ)
      → payload i ≡ false
      → (on_path j path && payload j) ≡ (on_path j ((i, live) ∷ path) && payload j)
  unfolding on_path
  unowned path i live j own = elim (Bool-cases (i == j)) [
    | inl same ↦ let own' = subst (λ k. payload k ≡ false) ((==_iff i j).0 same) own in ground arith
    | inr other ↦ rw other refl
  ]

  -- A node without a payload changes nothing by being on the path,
  pub unowned-Tracks :
      (path : ActivePath) (i : ℕ) (live : Bool) (s : Store)
      → payload i ≡ false
      → Tracked path s
      → Tracked ((i, live) ∷ path) s
  unowned-Tracks path i live s own tracks = record {
    valid = tracks.valid;
    alive = λ j. tracks.alive j ∙ unowned path i live j own;
  }

  -- or by leaving it.
  pub left-Tracks :
      (path : ActivePath) (i : ℕ) (live : Bool) (s : Store)
      → payload i ≡ false
      → Tracked ((i, live) ∷ path) s
      → Tracked path s
  left-Tracks path i live s own tracks = record {
    valid = tracks.valid;
    alive = λ j. tracks.alive j ∙ sym (unowned path i live j own);
  }
