-- ===== src/Bind/Forwarding.antt =====
-- What the checks of include/yorch/detail/bind/tasks/forward_prev.hpp make sure of.
use yorch.Base.{
  ℕ, ◌+◌, ◌%◌, ◌≡◌, refl, Bool, true, false, not, some, List, [], ◌∷◌, length, ◌==◌, ◌||◌, arith,
  if◌then◌else◌, ◌∙◌, ap,
}
use yorch.Task.Access.{
  Spec, from_ctx, value, borrow_prev_mut, lvalue, is_prev_access, MemberFunction, receiver_valid,
  matches_arg, specs_valid, PrevAccessSummary, merge_prev_access_summary,
  summarize_prev_access_spec, summarize_specs,
}
use yorch.Validation.Sources.{is_void}
use yorch.Bind.{Param, input, OutputArg, object}
use yorch.Bind.ForwardPrev.{
  prev_access_count, payload_type, unique_prev_payload, spec_matches_binding, bindings_supported,
  receiver_supported,
}
use yorch.Bind.Tasks.{arg_type, with_args}

-- `forward_prev_unique_prev_payload_t` is void exactly when the number of specs that access the parent's
-- output is even: of three such specs it gives a payload type.
pub unique_prev_payload-parity :
    (specs : List Spec) → is_void (unique_prev_payload specs) ≡ (prev_access_count specs % 2 == 0)
unfolding is_void unique_prev_payload prev_access_count payload_type is_prev_access
unique_prev_payload-parity [] = refl
unique_prev_payload-parity (from_ctx t ∷ specs) = ground (arith, unique_prev_payload-parity specs)
unique_prev_payload-parity (value t ∷ specs) = ground (arith, unique_prev_payload-parity specs)
unique_prev_payload-parity (spec ∷ specs) = ground (arith, unique_prev_payload-parity specs)

supported-matches :
    (t : OutputArg) (p : Param) (spec : Spec)
    → spec_matches_binding t p spec ≡ true
    → matches_arg spec (arg_type p) ≡ true
unfolding spec_matches_binding matches_arg
supported-matches (object t) (input (lvalue a)) (borrow_prev_mut u) h = ground arith
supported-matches t p spec h = ground arith

-- Supported bindings are valid accesses.
pub supported-specs_valid :
    (t : OutputArg) (params : List Param) (specs : List Spec)
    → bindings_supported t params specs ≡ true
    → specs_valid (with_args specs params) ≡ true
unfolding bindings_supported specs_valid with_args
supported-specs_valid t params [] h = refl
supported-specs_valid t [] (spec ∷ specs) h = refl
supported-specs_valid t (p ∷ params) (spec ∷ specs) h =
    ground (arith, supported-matches t p spec, supported-specs_valid t params specs)

-- Of a summary, `n` accesses more, all of them mutable.
abbrev pub with_mutable : PrevAccessSummary → ℕ → PrevAccessSummary
with_mutable s n = record s {
  prev_access_count = s.prev_access_count + n;
  exclusive_prev_access_count = s.exclusive_prev_access_count + n;
  borrow_prev_mut_count = s.borrow_prev_mut_count + n;
}

-- A spec that reads the parent's output, if it does, by a mutable borrow.
abbrev pub may_forward : Spec → Bool
may_forward (from_ctx t) = true
may_forward (value t) = true
may_forward (borrow_prev_mut t) = true
may_forward _ = false

pub summarize-may_forward :
    (spec : Spec) (s : PrevAccessSummary)
    → may_forward spec ≡ true
    → merge_prev_access_summary s (summarize_prev_access_spec spec)
      ≡ with_mutable s (if is_prev_access spec then 1 else 0)
unfolding merge_prev_access_summary summarize_prev_access_spec is_prev_access
summarize-may_forward spec s h = ground arith

supported-may_forward :
    (t : OutputArg) (p : Param) (spec : Spec)
    → (not (is_prev_access spec) || spec_matches_binding t p spec) ≡ true
    → may_forward spec ≡ true
unfolding spec_matches_binding is_prev_access
supported-may_forward (object t) (input (lvalue a)) (borrow_prev_mut u) h = refl
supported-may_forward t p spec h = ground arith

pub with_mutable_add :
    (s : PrevAccessSummary) (m n : ℕ) → with_mutable (with_mutable s m) n ≡ with_mutable s (m + n)
with_mutable_add s m n = ground arith

pub receiver_supported-may_forward :
    (t : OutputArg) (f : MemberFunction) (spec : Spec)
    → receiver_supported t f spec ≡ true
    → may_forward spec ≡ true
unfolding receiver_supported
receiver_supported-may_forward (object t) f (borrow_prev_mut u) h = refl
receiver_supported-may_forward t f spec h = ground arith

pub receiver_supported-receiver_valid :
    (t : OutputArg) (f : MemberFunction) (spec : Spec)
    → receiver_supported t f spec ≡ true
    → receiver_valid (some (spec, f)) ≡ true
unfolding receiver_supported receiver_valid is_prev_access
receiver_supported-receiver_valid (object t) f (borrow_prev_mut u) h = ground arith
receiver_supported-receiver_valid t f spec h = ground arith

pub summarize-supported :
    (t : OutputArg) (params : List Param) (specs : List Spec) (s : PrevAccessSummary)
    → length specs ≡ length params
    → bindings_supported t params specs ≡ true
    → summarize_specs s (with_args specs params) ≡ with_mutable s (prev_access_count specs)
unfolding bindings_supported with_args summarize_specs prev_access_count
summarize-supported t params [] s e h = ground arith
summarize-supported t [] (spec ∷ specs) s e h = absurd (omega arith)
summarize-supported t (p ∷ params) (spec ∷ specs) s e h =
    let used : ℕ = if is_prev_access spec then 1 else 0 in
    ap (λ m. summarize_specs m (with_args specs params))
      (summarize-may_forward spec s (supported-may_forward t p spec (ground arith)))
    ∙ summarize-supported t params specs (with_mutable s used) (omega arith) (ground arith)
    ∙ with_mutable_add s used (prev_access_count specs)
