-- ===== src/Executor/Equivalence/Runs.antt =====
-- How a call of `run_node` or `run_children` (serial_dfs.hpp) that returns has run.
use yorch.Base.{
  ℕ, zero, suc, ◌≡◌, refl, sym, ◌∙◌, Bool, true, false, inl, inr, Option, none, some, ◌==◌, ◌||◌,
  if◌then◌else◌, ◌>>=◌, >>=-eq-some, Bool-cases, arith,
}
use yorch.Result.{StepStatus, success, ok, is_abort_branch}
use yorch.Executor.Interface.{Invokers, IsLawful}
use yorch.Executor.Recursive.{
  run_node, run_children, after_child, begin_children, release_fanout, release_slot,
}

module _ {S : Type 0} (inv : Invokers S) where
  open inv use {
    child_count, child_index, requires_fanout_staging, enter_node, destroy_payload, prepare_fanout,
    destroy_fanout,
  }

  -- What a node's two guards destroy.
  unfoldable pub cleanup : ℕ → Bool → S → S
  cleanup i live s =
      let s' = if requires_fanout_staging i then destroy_fanout i s else s in
      if live then destroy_payload i s' else s'

  -- `run_children` without what it does at ordinal 0.
  unfoldable pub core : ℕ → ℕ → ℕ → S → Option (StepStatus × S)
  core zero i ord s = none
  core (suc f) i ord s =
      if ord == child_count i
      then some (success, s)
      else (run_node inv f (child_index i ord) s
          >>= after_child inv (run_children inv f i (suc ord)))

  run_children-core :
      (f i ord : ℕ) (s : S)
      → run_children inv f i ord s
        ≡ (core f i ord (begin_children inv i ord s) >>= λ r. some (release_fanout inv i ord r))
  unfolding run_children core
  run_children-core zero i ord s = refl
  run_children-core (suc f) i ord s = refl

  run_children-core-suc :
      (f i ord : ℕ) (s : S) → run_children inv f i (suc ord) s ≡ core f i (suc ord) s
  run_children-core-suc f i ord s = run_children-core f i (suc ord) s ∙ ground arith

  cleanup-guards :
      (lawful : IsLawful inv) (i : ℕ) (live : Bool) (r : StepStatus) (s : S)
      → release_slot inv i live (release_fanout inv i 0 (r, s)) ≡ (r, cleanup i live s)
  unfolding cleanup
  cleanup-guards lawful i live r s = elim (Bool-cases (requires_fanout_staging i)) [
    | inl e ↦ rw e
    | inr e ↦ rw (e, lawful.destroy_unstaged i s e)
  ]

  -- The two ways in which a call of `run_node` ends.
  pub data NodeRun (f i : ℕ) (s : S) (r : StepStatus) (s' : S) : Type 0 where
    stops :
        ok (enter_node i s).0.step ≡ false
        → (enter_node i s).0.step ≡ r
        → (enter_node i s).1 ≡ s'
        → NodeRun f i s r s'
    descends :
        (t : S)
        → ok (enter_node i s).0.step ≡ true
        → core f i 0 (prepare_fanout i (enter_node i s).1) ≡ some (r, t)
        → cleanup i (enter_node i s).0.payload_live t ≡ s'
        → NodeRun f i s r s'

  descends_from :
      (lawful : IsLawful inv) (f i : ℕ) (s : S) {r : StepStatus} {s' : S}
      (o : Option (StepStatus × S))
      → ok (enter_node i s).0.step ≡ true
      → core f i 0 (prepare_fanout i (enter_node i s).1) ≡ o
      → ((o >>= λ q. some (release_fanout inv i 0 q)) >>= λ q.
          some (release_slot inv i (enter_node i s).0.payload_live q))
        ≡ some (r, s')
      → NodeRun f i s r s'
  descends_from lawful f i s none passed ran e = cc
  descends_from lawful f i s (some (q, t)) passed ran e =
      descends t passed (cc) (cc (cleanup-guards lawful i (enter_node i s).0.payload_live q t))

  pub run_node-NodeRun :
      (lawful : IsLawful inv) (f i : ℕ) (s : S) {r : StepStatus} {s' : S}
      → run_node inv (suc f) i s ≡ some (r, s')
      → NodeRun f i s r s'
  unfolding run_node
  run_node-NodeRun lawful f i s e = elim (Bool-cases (ok (enter_node i s).0.step)) [
    | inl passed ↦
        descends_from lawful f i s _ passed refl
          (rw (passed, run_children-core f i 0 (enter_node i s).1) at e)
    | inr failed ↦ let e' = rw failed at e in stops failed (cc) (cc)
  ]

  -- The three ways in which the children of a node run from an ordinal on.
  pub data ChildrenRun (f i ord : ℕ) (s : S) (r : StepStatus) (s' : S) : Type 0 where
    exhausted : (ord == child_count i) ≡ true → success ≡ r → s ≡ s' → ChildrenRun f i ord s r s'
    stopped :
        (ord == child_count i) ≡ false
        → run_node inv f (child_index i ord) s ≡ some (r, s')
        → (ok r || is_abort_branch r) ≡ false
        → ChildrenRun f i ord s r s'
    goes_on :
        (c : StepStatus) (t : S)
        → (ord == child_count i) ≡ false
        → run_node inv f (child_index i ord) s ≡ some (c, t)
        → (ok c || is_abort_branch c) ≡ true
        → core f i (suc ord) t ≡ some (r, s')
        → ChildrenRun f i ord s r s'

  after_child_stops :
      (rest : S → Option (StepStatus × S)) (c : StepStatus) (t : S)
      → (ok c || is_abort_branch c) ≡ false
      → after_child inv rest (c, t) ≡ some (c, t)
  unfolding ok is_abort_branch
  after_child_stops rest c t off = ground arith

  goes_on_or_stops :
      (f i ord : ℕ) (s t : S) (c : StepStatus) {r : StepStatus} {s' : S}
      → (ord == child_count i) ≡ false
      → run_node inv f (child_index i ord) s ≡ some (c, t)
      → after_child inv (run_children inv f i (suc ord)) (c, t) ≡ some (r, s')
      → ChildrenRun f i ord s r s'
  goes_on_or_stops f i ord s t c left ran e = elim (Bool-cases (ok c || is_abort_branch c)) [
    | inl on ↦ goes_on c t left ran on (sym (run_children-core-suc f i ord t) ∙ ground arith)
    | inr off ↦
        let same = sym (after_child_stops (run_children inv f i (suc ord)) c t off) ∙ e in
        stopped left (ran ∙ same) (cc same)
  ]

  pub core-ChildrenRun :
      (f i ord : ℕ) (s : S) {r : StepStatus} {s' : S}
      → core (suc f) i ord s ≡ some (r, s')
      → ChildrenRun f i ord s r s'
  unfolding core
  core-ChildrenRun f i ord s e = elim (Bool-cases (ord == child_count i)) [
    | inl done ↦ let e' = rw done at e in exhausted done (cc) (cc)
    | inr left ↦
        let (ct, ran, next) =
          >>=-eq-some (run_node inv f (child_index i ord) s)
            (after_child inv (run_children inv f i (suc ord))) (rw left at e) in
        goes_on_or_stops f i ord s ct.1 ct.0 left ran next
  ]

  pub run_node-zero : (i : ℕ) (s : S) → run_node inv zero i s ≡ none
  unfolding run_node
  run_node-zero i s = refl

  pub core-zero : (i ord : ℕ) (s : S) → core zero i ord s ≡ none
  unfolding core
  core-zero i ord s = refl
