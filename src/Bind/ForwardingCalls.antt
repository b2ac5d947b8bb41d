-- ===== src/Bind/ForwardingCalls.antt =====
-- Which calls of the binder of `task_forward_prev` compile (include/yorch/bind/builders/core.hpp,
-- include/yorch/detail/bind/tasks/forward_prev.hpp).
use yorch.Base.{
  ℕ, zero, suc, ◌≡◌, ◌≢◌, ◌↔◌, refl, sym, ap, ◌∙◌, true, false, none, some, List, [], ◌∷◌, length,
  ==_iff, get_elem?, Bool-cases, Option-cases, inl, inr, arith,
}
use yorch.Task.Access.{Spec, borrow_prev_mut, lvalue, is_prev_access}
use yorch.Bind.{Param, input, Callable, object, params_of, inferred_forward_prev_signature_matches}
use yorch.Bind.ForwardPrev.{
  prev_access_count, payload_type, unique_prev_payload, spec_matches_binding, bindings_supported,
  is_void_or_step, result_of,
}
use yorch.Bind.Adapters.{AdapterDesc}
use yorch.Bind.Binders.{call_forward_prev}
use yorch.Bind.Complete.{compiles, compiles-call_forward_prev}

-- No spec of the list reads the parent's output.
abbrev pub ReadsNothing : List Spec → Type 0
ReadsNothing specs =
    (j : ℕ) (spec : Spec) → get_elem? specs j ≡ some spec → is_prev_access spec ≡ false

-- The spec at `k` is the only one that reads the parent's output: it borrows the type `u` mutably, and its
-- parameter is `u&`.
pub record IsForwardBinding (params : List Param) (specs : List Spec) (u k : ℕ) : Type 0 where
  pub borrowed : get_elem? specs k ≡ some (borrow_prev_mut u)
  pub target : get_elem? params k ≡ some (input (lvalue u))
  pub alone :
      (j : ℕ) (spec : Spec) → get_elem? specs j ≡ some spec → j ≢ k → is_prev_access spec ≡ false

count-ReadsNothing : (specs : List Spec) → prev_access_count specs ≡ 0 → ReadsNothing specs
unfolding prev_access_count
count-ReadsNothing [] e j spec at = cc
count-ReadsNothing (s ∷ specs) e zero spec at = ground arith
count-ReadsNothing (s ∷ specs) e (suc j) spec at = count-ReadsNothing specs (ground arith) j spec at

ReadsNothing-supported :
    (u : ℕ) (params : List Param) (specs : List Spec)
    → ReadsNothing specs
    → (prev_access_count specs ≡ 0)
      × (unique_prev_payload specs ≡ none)
      × (bindings_supported (object u) params specs ≡ true)
unfolding prev_access_count unique_prev_payload bindings_supported
ReadsNothing-supported u params [] silent = (refl, refl, refl)
ReadsNothing-supported u [] (s ∷ specs) silent =
    let (zero_count, no_payload, fits) =
      ReadsNothing-supported u [] specs (λ j spec at. silent (suc j) spec at) in
    let off = silent zero s refl in (ground arith, ground arith, refl)
ReadsNothing-supported u (p ∷ params) (s ∷ specs) silent =
    let (zero_count, no_payload, fits) =
      ReadsNothing-supported u params specs (λ j spec at. silent (suc j) spec at) in
    let off = silent zero s refl in (ground arith, ground arith, ground arith)

matches-borrow :
    (u : ℕ) (p : Param) (spec : Spec)
    → spec_matches_binding (object u) p spec ≡ true
    → (spec ≡ borrow_prev_mut u) × (p ≡ input (lvalue u))
unfolding spec_matches_binding
matches-borrow u (input (lvalue a)) (borrow_prev_mut t) e =
    let same = (==_iff t u).0 (ground arith) in
    let same' = (==_iff a u).0 (ground arith) in
    (ap borrow_prev_mut same, ap (λ x. input (lvalue x)) same')
matches-borrow u p spec e = ground arith

module _ (s : Spec) (specs : List Spec) where
  alone_head :
      ReadsNothing specs
      → (j : ℕ) (spec : Spec) → get_elem? (s ∷ specs) j ≡ some spec
      → j ≢ 0
      → is_prev_access spec ≡ false
  alone_head silent zero spec at ne = absurd (ne refl)
  alone_head silent (suc j) spec at ne = silent j spec at

  alone_tail :
      (k : ℕ)
      → is_prev_access s ≡ false
      → ((j : ℕ) (spec : Spec)
          → get_elem? specs j ≡ some spec
          → j ≢ k
          → is_prev_access spec ≡ false)
      → (j : ℕ) (spec : Spec) → get_elem? (s ∷ specs) j ≡ some spec
      → j ≢ suc k
      → is_prev_access spec ≡ false
  alone_tail k off alone zero spec at ne = ground (arith, at)
  alone_tail k off alone (suc j) spec at ne = alone j spec at (λ e. ne (ap suc e))

supported-IsForwardBinding :
    (u : ℕ) (params : List Param) (specs : List Spec)
    → length specs ≡ length params
    → prev_access_count specs ≡ 1
    → bindings_supported (object u) params specs ≡ true
    → (k : ℕ) × IsForwardBinding params specs u k
unfolding prev_access_count bindings_supported
supported-IsForwardBinding u params [] same one fits = absurd (omega (arith, one))
supported-IsForwardBinding u [] (s ∷ specs) same one fits = absurd (omega (arith, same))
supported-IsForwardBinding u (p ∷ params) (s ∷ specs) same one fits =
    elim (Bool-cases (is_prev_access s)) [
      | inl reads ↦
          let (borrowed, target) = matches-borrow u p s (ground arith) in
          let silent = count-ReadsNothing specs (ground arith) in
          (
            0,
            record {
              borrowed = ap some borrowed;
              target = ap some target;
              alone = alone_head s specs silent;
            },
          )
      | inr silent ↦
          let (k, b) =
            supported-IsForwardBinding u params specs (omega arith) (ground arith) (ground arith) in
          (
            suc k,
            record {
              borrowed = b.borrowed;
              target = b.target;
              alone = alone_tail s specs k silent b.alone;
            },
          )
    ]

borrow-supported :
    (u : ℕ) (params : List Param) (specs : List Spec)
    → ReadsNothing specs
    → (prev_access_count (borrow_prev_mut u ∷ specs) ≡ 1)
      × (unique_prev_payload (borrow_prev_mut u ∷ specs) ≡ some u)
      × (bindings_supported (object u) (input (lvalue u) ∷ params) (borrow_prev_mut u ∷ specs)
          ≡ true)
unfolding prev_access_count unique_prev_payload bindings_supported spec_matches_binding payload_type
    is_prev_access
borrow-supported u params specs silent =
    let (none_counted, no_payload, fits) = ReadsNothing-supported u params specs silent in
    let same = (==_iff u u).1 refl in (omega arith, rw no_payload refl, ground arith)

here-supported :
    (u : ℕ) (p : Param) (s : Spec) (params : List Param) (specs : List Spec)
    → s ≡ borrow_prev_mut u
    → p ≡ input (lvalue u)
    → ReadsNothing specs
    → (prev_access_count (s ∷ specs) ≡ 1)
      × (unique_prev_payload (s ∷ specs) ≡ some u)
      × (bindings_supported (object u) (p ∷ params) (s ∷ specs) ≡ true)
here-supported u p s params specs borrows fits silent =
    rw (borrows, fits) (borrow-supported u params specs silent)

IsForwardBinding-supported :
    (u k : ℕ) (params : List Param) (specs : List Spec)
    → IsForwardBinding params specs u k
    → (prev_access_count specs ≡ 1)
      × (unique_prev_payload specs ≡ some u)
      × (bindings_supported (object u) params specs ≡ true)
unfolding prev_access_count unique_prev_payload bindings_supported
IsForwardBinding-supported u zero (p ∷ params) (s ∷ specs) b =
    here-supported u p s params specs (let e = b.borrowed in cc) (let e = b.target in cc)
      (λ j spec at. b.alone (suc j) spec at (λ e. omega (arith, e)))
IsForwardBinding-supported u (suc k) (p ∷ params) (s ∷ specs) b =
    let off : is_prev_access s ≡ false = b.alone 0 s refl (λ e. omega (arith, e)) in
    let (one, payload, fits) = IsForwardBinding-supported u k params specs (record {
      borrowed = b.borrowed;
      target = b.target;
      alone = λ j spec at ne. b.alone (suc j) spec at (λ e. ne (omega (arith, e)));
    }) in
    (ground arith, ground arith, ground arith)
IsForwardBinding-supported u k params [] b = let e = b.borrowed in cc
IsForwardBinding-supported u k [] (s ∷ specs) b = let e = b.target in cc

module _ (f : Callable) (chain : List AdapterDesc) (specs : List Spec) where
  -- The callable and the specs are right for the binder of `task_forward_prev`: the callable is neither a
  -- member nor has a sink, and it has as many parameters as there are specs; it returns void or
  -- `step_result`; and one spec only reads the parent's output.
  abbrev pub IsForwardCall : Type 0
  IsForwardCall =
      (inferred_forward_prev_signature_matches f (length specs) ≡ true)
      × (is_void_or_step (result_of f) ≡ true)
      × ((u : ℕ) × (k : ℕ) × IsForwardBinding (params_of f) specs u k)

  compiled-payload :
      compiles (call_forward_prev f chain specs) ≡ true → unique_prev_payload specs ≢ none
  unfolding call_forward_prev
  compiled-payload e no_payload = ground (arith, no_payload)

  matches-length :
      inferred_forward_prev_signature_matches f (length specs) ≡ true
      → length specs ≡ length (params_of f)
  unfolding inferred_forward_prev_signature_matches
  matches-length e = ground arith

  compiled-IsForwardCall : compiles (call_forward_prev f chain specs) ≡ true → IsForwardCall
  compiled-IsForwardCall e = elim (Option-cases (unique_prev_payload specs)) [
    | inl no_payload ↦ absurd (compiled-payload e no_payload)
    | inr (u, payload) ↦
        let all = sym (compiles-call_forward_prev f chain specs u payload) ∙ e in
        let matches : inferred_forward_prev_signature_matches f (length specs) ≡ true =
          ground arith in
        let (k, b) =
          supported-IsForwardBinding u (params_of f) specs (matches-length matches) (ground arith)
            (ground arith) in
        (matches, ground arith, (u, k, b))
  ]

  IsForwardCall-compiled : IsForwardCall → compiles (call_forward_prev f chain specs) ≡ true
  IsForwardCall-compiled (matches, result, (u, k, b)) =
      let (one, payload, fits) = IsForwardBinding-supported u k (params_of f) specs b in
      ground (arith, compiles-call_forward_prev f chain specs u payload)

  -- A call of `task_forward_prev(f, adapters)` with specs compiles exactly when the binder's `requires` clause
  -- holds (the callable is neither a member nor has a sink, and has as many parameters as there are
  -- specs), the callable returns void or `step_result`, and one spec only reads the parent's
  -- output: for some type `u` it borrows `u` mutably, and the parameter at its index is a `u&`.
  pub call_forward_prev-compiles_iff :
      (compiles (call_forward_prev f chain specs) ≡ true) ↔ IsForwardCall
  call_forward_prev-compiles_iff = (compiled-IsForwardCall, IsForwardCall-compiled)
