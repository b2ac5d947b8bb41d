-- ===== src/Validation/Accesses.antt =====
-- Which accesses to the parent's output a task may have, spec by spec
-- (include/yorch/detail/executor/prev_access_task_traits.hpp).
use yorch.Base.{
  ℕ, suc, ◌≡◌, ◌↔◌, refl, inl, inr, Bool, true, false, not, Option, none, some, List, [], ◌∷◌,
  get_elem?, arith, ◌==◌, ◌&&◌, ◌||◌, Bool-cases, Option-cases, ◌∙◌,
}
use yorch.Task.Access.{
  Spec, ArgType, MemberFunction, TaskBinding, TaskForm, custom, bound, catch_failure,
  catch_failure_with_policy, retry, PrevAccessSummary, is_prev_access, matches_arg,
  matches_member_receiver, specs_valid, receiver_valid, bindings_valid, is_locally_valid,
  summarize_task_binding, access_summary, access_valid, no_access,
}
use yorch.Resolve.Bindings.{binding_of, specs_valid-at}
use yorch.Validation.SpecCounts.{
  is_consume, all_specs, count_specs_pos, count_specs_none, summarize_task_binding-Counts,
  LoneExclusive, counted-LoneExclusive, LoneExclusive-counted,
}

-- Each spec that reads the parent's output fits its parameter, or the member function whose receiver it
-- gives, and one with exclusive access is the only one that reads.
pub record IsFittingBinding (b : TaskBinding) : Type 0 where
  pub receiver_fits :
      (spec : Spec) (f : MemberFunction)
      → b.receiver ≡ some (spec, f)
      → is_prev_access spec ≡ true
      → matches_member_receiver spec f ≡ true
  pub arguments_fit :
      (k : ℕ) (spec : Spec) (arg : ArgType)
      → get_elem? b.specs k ≡ some (spec, arg)
      → is_prev_access spec ≡ true
      → matches_arg spec arg ≡ true
  pub lone : LoneExclusive (all_specs b)

specs_valid_intro :
    (specs : List (Spec × ArgType))
    → ((k : ℕ) (spec : Spec) (arg : ArgType)
        → get_elem? specs k ≡ some (spec, arg)
        → is_prev_access spec ≡ true
        → matches_arg spec arg ≡ true)
    → specs_valid specs ≡ true
unfolding specs_valid
specs_valid_intro [] fits = refl
specs_valid_intro ((spec, arg) ∷ specs) fits =
    let rest = specs_valid_intro specs (λ k. fits (suc k)) in
    let here = fits 0 spec arg refl in ground arith

receiver_valid_iff :
    (r : Option (Spec × MemberFunction))
    → (receiver_valid r ≡ true) ↔ (
        (spec : Spec) (f : MemberFunction)
        → r ≡ some (spec, f)
        → is_prev_access spec ≡ true
        → matches_member_receiver spec f ≡ true)
unfolding receiver_valid
receiver_valid_iff none = (λ v spec f e reads. cc, λ fits. refl)
receiver_valid_iff (some (s, g)) =
    (λ v spec f e reads. ground arith, λ fits. let here = fits s g refl in ground arith)

module _ (b : TaskBinding) where
  binding_valid-IsFitting :
      bindings_valid b ≡ true
      → is_locally_valid (summarize_task_binding b) ≡ true
      → IsFittingBinding b
  unfolding bindings_valid is_locally_valid
  binding_valid-IsFitting valid local =
      let c = summarize_task_binding-Counts b in
      record {
        receiver_fits = (receiver_valid_iff b.receiver).0 (ground arith);
        arguments_fit = λ k spec arg. specs_valid-at b.specs k spec arg (ground arith);
        lone = counted-LoneExclusive (all_specs b) (ground (arith, c.reads_eq, c.exclusives_eq));
      }

  IsFitting-binding_valid :
      IsFittingBinding b → (bindings_valid b && is_locally_valid (summarize_task_binding b)) ≡ true
  unfolding bindings_valid is_locally_valid
  IsFitting-binding_valid fits =
      let c = summarize_task_binding-Counts b in
      let args = specs_valid_intro b.specs fits.arguments_fit in
      let receiver = (receiver_valid_iff b.receiver).1 fits.receiver_fits in
      let counted = LoneExclusive-counted (all_specs b) fits.lone in
      ground (arith, c.reads_eq, c.exclusives_eq)

-- There is a retry adapter around the task.
unfoldable pub is_retried : TaskForm → Bool
is_retried custom = false
is_retried (bound b) = false
is_retried (catch_failure t) = is_retried t
is_retried (catch_failure_with_policy t) = is_retried t
is_retried (retry t) = true

-- The accesses of a task: those of the bound task inside its adapters fit together, and when it is retried
-- none of them consumes the output.
pub record IsFittingTask (form : TaskForm) : Type 0 where
  pub binding : (b : TaskBinding) → binding_of form ≡ some b → IsFittingBinding b
  pub kept :
      (b : TaskBinding) (k : ℕ) (spec : Spec)
      → is_retried form ≡ true
      → binding_of form ≡ some b
      → get_elem? (all_specs b) k ≡ some spec
      → is_consume spec ≡ false

summary_of : Option TaskBinding → PrevAccessSummary
summary_of none = no_access
summary_of (some b) = summarize_task_binding b

valid_of : Option TaskBinding → Bool
valid_of none = true
valid_of (some b) = bindings_valid b && is_locally_valid (summarize_task_binding b)

access_summary_of : (form : TaskForm) → access_summary form ≡ summary_of (binding_of form)
unfolding access_summary binding_of summary_of
access_summary_of custom = refl
access_summary_of (bound b) = refl
access_summary_of (catch_failure t) = access_summary_of t
access_summary_of (catch_failure_with_policy t) = access_summary_of t
access_summary_of (retry t) = access_summary_of t

access_valid_of :
    (form : TaskForm)
    → access_valid form ≡ (
        valid_of (binding_of form)
        && (not (is_retried form) || (summary_of (binding_of form)).consume_prev_count == 0))
unfolding access_valid binding_of is_retried valid_of
access_valid_of custom = refl
access_valid_of (bound b) = ground arith
access_valid_of (catch_failure t) = access_valid_of t
access_valid_of (catch_failure_with_policy t) = access_valid_of t
access_valid_of (retry t) = let rest = access_valid_of t in rw (access_summary_of t) (ground arith)

access_valid-bound :
    (form : TaskForm) (b : TaskBinding)
    → binding_of form ≡ some b
    → access_valid form ≡ (
        (bindings_valid b && is_locally_valid (summarize_task_binding b))
        && (not (is_retried form) || (summarize_task_binding b).consume_prev_count == 0))
unfolding valid_of summary_of
access_valid-bound form b e = access_valid_of form ∙ rw e refl

access_valid-unbound : (form : TaskForm) → binding_of form ≡ none → access_valid form ≡ true
unfolding valid_of summary_of
access_valid-unbound form e = access_valid_of form ∙ rw e (ground arith)

kept-consumes :
    (b : TaskBinding)
    → (summarize_task_binding b).consume_prev_count ≡ 0
    → (k : ℕ) (spec : Spec) → get_elem? (all_specs b) k ≡ some spec
    → is_consume spec ≡ false
kept-consumes b none_consumes k spec at = elim (Bool-cases (is_consume spec)) [
  | inl on ↦
      let pos = count_specs_pos is_consume (all_specs b) k spec at on in
      let c = summarize_task_binding-Counts b in absurd (omega (arith, c.consumes_eq))
  | inr off ↦ off
]

access_valid-IsFitting : (form : TaskForm) → access_valid form ≡ true → IsFittingTask form
access_valid-IsFitting form v = record {
  binding = λ b e.
      let all = access_valid-bound form b e in
      binding_valid-IsFitting b (ground arith) (ground arith);
  kept = λ b k spec retried e at.
      let all = access_valid-bound form b e in kept-consumes b (ground arith) k spec at;
}

IsFitting-access_valid : (form : TaskForm) → IsFittingTask form → access_valid form ≡ true
IsFitting-access_valid form fits = elim (Option-cases (binding_of form)) [
  | inl unbound ↦ access_valid-unbound form unbound
  | inr (b, e) ↦
      let all = access_valid-bound form b e in
      let valid = IsFitting-binding_valid b (fits.binding b e) in
      elim (Bool-cases (is_retried form)) [
        | inl retried ↦
            let c = summarize_task_binding-Counts b in
            let kept =
              count_specs_none is_consume (all_specs b) (λ k spec. fits.kept b k spec retried e) in
            ground (arith, c.consumes_eq)
        | inr once ↦ ground arith
      ]
]

-- The accesses of a task are valid exactly when, in the bound task inside its adapters, each spec that reads the
-- parent's output fits its parameter or member function, one with exclusive access is the only one
-- that reads, and under a retry adapter none consumes the output.
pub access_valid_iff : (form : TaskForm) → (access_valid form ≡ true) ↔ IsFittingTask form
access_valid_iff form = (access_valid-IsFitting form, IsFitting-access_valid form)
