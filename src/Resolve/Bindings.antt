-- ===== src/Resolve/Bindings.antt =====
-- The bound task inside a task's adapters: include/yorch/detail/executor/prev_access_task_traits.hpp looks
-- through them.
use yorch.Base.{
  ℕ, zero, suc, ◌<◌, ◌≤◌, ◌≡◌, sym, subst, true, Option, none, some, List, [], ◌∷◌, get_elem?,
  Option-cases, inl, inr, arith,
}
use yorch.Task.Access.{
  Spec, ArgType, MemberFunction, TaskBinding, TaskForm, custom, bound, catch_failure,
  catch_failure_with_policy, retry, PrevAccessSummary, is_prev_access, is_exclusive, matches_arg,
  specs_valid, bindings_valid, merge_prev_access_summary, summarize_prev_access_spec,
  summarize_specs, summarize_task_binding, access_summary, access_valid, no_access,
}

-- The bound task inside the adapters.
unfoldable pub binding_of : TaskForm → Option TaskBinding
binding_of custom = none
binding_of (bound b) = some b
binding_of (catch_failure t) = binding_of t
binding_of (catch_failure_with_policy t) = binding_of t
binding_of (retry t) = binding_of t

pub specs_valid-at :
    (specs : List (Spec × ArgType)) (k : ℕ) (spec : Spec) (arg : ArgType)
    → specs_valid specs ≡ true
    → get_elem? specs k ≡ some (spec, arg)
    → is_prev_access spec ≡ true
    → matches_arg spec arg ≡ true
unfolding specs_valid
specs_valid-at [] k spec arg valid e access = cc
specs_valid-at ((s, a) ∷ specs) zero spec arg valid e access = ground arith
specs_valid-at ((s, a) ∷ specs) (suc k) spec arg valid e access =
    specs_valid-at specs k spec arg (ground arith) e access

summarize_specs_mono :
    (specs : List (Spec × ArgType)) (s : PrevAccessSummary)
    → s.exclusive_prev_access_count ≤ (summarize_specs s specs).exclusive_prev_access_count
unfolding summarize_specs merge_prev_access_summary
summarize_specs_mono [] s = omega arith
summarize_specs_mono ((spec, arg) ∷ specs) s =
    let rest =
      summarize_specs_mono specs (merge_prev_access_summary s (summarize_prev_access_spec spec)) in
    omega (arith, rest)

exclusive_counted :
    (spec : Spec)
    → is_exclusive spec ≡ true
    → (summarize_prev_access_spec spec).exclusive_prev_access_count ≡ 1
unfolding is_exclusive summarize_prev_access_spec
exclusive_counted spec e = ground arith

summarize_specs-counts :
    (specs : List (Spec × ArgType)) (s : PrevAccessSummary) (k : ℕ) (spec : Spec) (arg : ArgType)
    → get_elem? specs k ≡ some (spec, arg)
    → is_exclusive spec ≡ true
    → 0 < (summarize_specs s specs).exclusive_prev_access_count
unfolding summarize_specs merge_prev_access_summary
summarize_specs-counts [] s k spec arg e exclusive = cc
summarize_specs-counts ((p, a) ∷ specs) s zero spec arg e exclusive =
    let rest =
      summarize_specs_mono specs (merge_prev_access_summary s (summarize_prev_access_spec p)) in
    let same : p ≡ spec = ground arith in
    let one = exclusive_counted p (subst (λ x. is_exclusive x ≡ true) (sym same) exclusive) in
    omega (arith, rest, one)
summarize_specs-counts ((p, a) ∷ specs) s (suc k) spec arg e exclusive =
    summarize_specs-counts specs (merge_prev_access_summary s (summarize_prev_access_spec p)) k spec
      arg e exclusive

pub exclusive-binding :
    (b : TaskBinding) (k : ℕ) (spec : Spec) (arg : ArgType)
    → get_elem? b.specs k ≡ some (spec, arg)
    → is_exclusive spec ≡ true
    → 0 < (summarize_task_binding b).exclusive_prev_access_count
unfolding summarize_task_binding
exclusive-binding b k spec arg e exclusive = elim (Option-cases b.receiver) [
  | inl free ↦ rw free (summarize_specs-counts b.specs no_access k spec arg e exclusive)
  | inr ((receiver, f), member) ↦ rw member (
      summarize_specs-counts b.specs
        (merge_prev_access_summary no_access (summarize_prev_access_spec receiver)) k spec arg e
        exclusive)
]

pub exclusive-receiver :
    (b : TaskBinding) (spec : Spec) (f : MemberFunction)
    → b.receiver ≡ some (spec, f)
    → is_exclusive spec ≡ true
    → 0 < (summarize_task_binding b).exclusive_prev_access_count
unfolding summarize_task_binding merge_prev_access_summary
exclusive-receiver b spec f e exclusive =
    let counted = exclusive_counted spec exclusive in
    let more =
      summarize_specs_mono b.specs
        (merge_prev_access_summary no_access (summarize_prev_access_spec spec)) in
    rw e (omega (arith, counted, more))

pub exclusive-form :
    (form : TaskForm) (b : TaskBinding)
    → binding_of form ≡ some b
    → 0 < (summarize_task_binding b).exclusive_prev_access_count
    → 0 < (access_summary form).exclusive_prev_access_count
unfolding binding_of access_summary
exclusive-form custom b e h = cc
exclusive-form (bound c) b e h = ground arith
exclusive-form (catch_failure t) b e h = exclusive-form t b e h
exclusive-form (catch_failure_with_policy t) b e h = exclusive-form t b e h
exclusive-form (retry t) b e h = exclusive-form t b e h

pub valid-binding :
    (form : TaskForm) (b : TaskBinding)
    → binding_of form ≡ some b
    → access_valid form ≡ true
    → bindings_valid b ≡ true
unfolding binding_of access_valid
valid-binding custom b e h = cc
valid-binding (bound c) b e h = ground arith
valid-binding (catch_failure t) b e h = valid-binding t b e h
valid-binding (catch_failure_with_policy t) b e h = valid-binding t b e h
valid-binding (retry t) b e h = valid-binding t b e (ground arith)
