-- ===== src/Validation/SpecCounts.antt =====
-- The counters of a task's accesses to the parent's output, as counts of its specs
-- (include/yorch/detail/executor/prev_access_task_traits.hpp).
use yorch.Base.{
  ◌⊎◌, ℕ, zero, suc, ◌+◌, ◌≤◌, ◌≡◌, ◌≢◌, refl, ap, inl, inr, Bool, true, false, Option, none, some,
  List, [], ◌∷◌, get_elem?, arith, ◌==◌, ==_iff, Bool-cases, if◌then◌else◌,
}
use yorch.Task.Access.{
  Spec, ArgType, MemberFunction, TaskBinding, PrevAccessSummary, is_prev_access, is_exclusive,
  consume_prev, merge_prev_access_summary, summarize_prev_access_spec, summarize_specs,
  summarize_task_binding, no_access,
}

unfoldable pub is_consume : Spec → Bool
is_consume (consume_prev t) = true
is_consume _ = false

-- The specs of the arguments, and those of a task with that of its receiver.
unfoldable pub arg_specs : List (Spec × ArgType) → List Spec
arg_specs [] = []
arg_specs ((spec, arg) ∷ specs) = spec ∷ arg_specs specs

unfoldable pub all_specs : TaskBinding → List Spec
unfolding arg_specs
all_specs b = elim b.receiver [
  | none ↦ arg_specs b.specs
  | some (spec, f) ↦ spec ∷ arg_specs b.specs
]

module _ (f : Spec → Bool) where
  unfoldable pub count_specs : List Spec → ℕ
  count_specs [] = 0
  count_specs (s ∷ specs) = (if f s then 1 else 0) + count_specs specs

  pub count_specs_pos :
      (specs : List Spec) (k : ℕ) (s : Spec)
      → get_elem? specs k ≡ some s
      → f s ≡ true
      → 1 ≤ count_specs specs
  unfolding count_specs
  count_specs_pos [] k s at on = cc
  count_specs_pos (p ∷ specs) zero s at on = let same : p ≡ s = cc in rw same (rw on (omega arith))
  count_specs_pos (p ∷ specs) (suc k) s at on =
      let rest = count_specs_pos specs k s at on in omega arith

  count_specs_two :
      (specs : List Spec) (j k : ℕ) (s t : Spec)
      → get_elem? specs j ≡ some s
      → get_elem? specs k ≡ some t
      → f s ≡ true
      → f t ≡ true
      → j ≢ k
      → 2 ≤ count_specs specs
  unfolding count_specs
  count_specs_two [] j k s t at at' on on' apart = cc
  count_specs_two (p ∷ specs) zero zero s t at at' on on' apart = absurd (apart refl)
  count_specs_two (p ∷ specs) zero (suc k) s t at at' on on' apart =
      let same : p ≡ s = cc in
      let rest = count_specs_pos specs k t at' on' in rw same (rw on (omega arith))
  count_specs_two (p ∷ specs) (suc j) zero s t at at' on on' apart =
      let same : p ≡ t = cc in
      let rest = count_specs_pos specs j s at on in rw same (rw on' (omega arith))
  count_specs_two (p ∷ specs) (suc j) (suc k) s t at at' on on' apart =
      let rest = count_specs_two specs j k s t at at' on on' (λ e. apart (ap suc e)) in omega arith

  pub count_specs_found :
      (specs : List Spec)
      → count_specs specs ≢ 0
      → (k : ℕ) × (s : Spec) × (get_elem? specs k ≡ some s) × (f s ≡ true)
  unfolding count_specs
  count_specs_found [] some_spec = absurd (some_spec refl)
  count_specs_found (p ∷ specs) some_spec = elim (Bool-cases (f p)) [
    | inl on ↦ (0, p, refl, on)
    | inr off ↦
        let (k, s, at, on) = count_specs_found specs (λ e. some_spec (ground arith)) in
        (suc k, s, at, on)
  ]

  pub count_specs_none :
      (specs : List Spec)
      → ((k : ℕ) (s : Spec) → get_elem? specs k ≡ some s → f s ≡ false)
      → count_specs specs ≡ 0
  count_specs_none specs off = elim (Bool-cases (count_specs specs == 0)) [
    | inl zero_count ↦ ground arith
    | inr more ↦
        let (k, s, at, on) = count_specs_found specs (λ e. ground arith) in
        let no = off k s at in absurd (ground arith)
  ]

  count_specs_one :
      (specs : List Spec) (j : ℕ)
      → ((k : ℕ) (s : Spec) → get_elem? specs k ≡ some s → f s ≡ true → j ≡ k)
      → count_specs specs ≤ 1
  unfolding count_specs
  count_specs_one [] j same = omega arith
  count_specs_one (p ∷ specs) zero same =
      let rest = count_specs_none specs (λ k s at. elim (Bool-cases (f s)) [
        | inl on ↦ let e = same (suc k) s at on in absurd (omega (arith, e))
        | inr off ↦ off
      ]) in
      ground arith
  count_specs_one (p ∷ specs) (suc j) same =
      let rest =
        count_specs_one specs j (λ k s at on. let e = same (suc k) s at on in omega (arith, e)) in
      elim (Bool-cases (f p)) [
        | inl on ↦ let e = same 0 p refl on in absurd (omega (arith, e))
        | inr off ↦ ground arith
      ]

-- The counters of a summary are those of the specs.
pub record Counts (s : PrevAccessSummary) (reads exclusives consumes : ℕ) : Type 0 where
  pub reads_eq : s.prev_access_count ≡ reads
  pub exclusives_eq : s.exclusive_prev_access_count ≡ exclusives
  pub consumes_eq : s.consume_prev_count ≡ consumes

spec-counted :
    (s : PrevAccessSummary) (spec : Spec)
    → Counts
        (merge_prev_access_summary s (summarize_prev_access_spec spec))
        (s.prev_access_count + (if is_prev_access spec then 1 else 0))
        (s.exclusive_prev_access_count + (if is_exclusive spec then 1 else 0))
        (s.consume_prev_count + (if is_consume spec then 1 else 0))
unfolding merge_prev_access_summary summarize_prev_access_spec is_prev_access is_exclusive
    is_consume
spec-counted s (consume_prev t) = omega arith
spec-counted s _ = omega arith

summarize_specs-Counts :
    (specs : List (Spec × ArgType)) (s : PrevAccessSummary)
    → Counts
        (summarize_specs s specs)
        (s.prev_access_count + count_specs is_prev_access (arg_specs specs))
        (s.exclusive_prev_access_count + count_specs is_exclusive (arg_specs specs))
        (s.consume_prev_count + count_specs is_consume (arg_specs specs))
unfolding summarize_specs arg_specs count_specs
summarize_specs-Counts [] s = omega arith
summarize_specs-Counts ((spec, arg) ∷ specs) s =
    let rest =
      summarize_specs-Counts specs
        (merge_prev_access_summary s (summarize_prev_access_spec spec)) in
    let one = spec-counted s spec in
    record {
      reads_eq = omega (arith, rest.reads_eq, one.reads_eq);
      exclusives_eq = omega (arith, rest.exclusives_eq, one.exclusives_eq);
      consumes_eq = omega (arith, rest.consumes_eq, one.consumes_eq);
    }

pub summarize_task_binding-Counts :
    (b : TaskBinding)
    → Counts
        (summarize_task_binding b)
        (count_specs is_prev_access (all_specs b))
        (count_specs is_exclusive (all_specs b))
        (count_specs is_consume (all_specs b))
unfolding summarize_task_binding all_specs count_specs
summarize_task_binding-Counts b = from_receiver b.receiver
  where
    from_receiver :
        (r : Option (Spec × MemberFunction))
        → Counts
            (summarize_task_binding (record b { receiver = r }))
            (count_specs is_prev_access (all_specs (record b { receiver = r })))
            (count_specs is_exclusive (all_specs (record b { receiver = r })))
            (count_specs is_consume (all_specs (record b { receiver = r })))
    from_receiver none =
        let rest = summarize_specs-Counts b.specs no_access in
        record {
          reads_eq = omega (arith, rest.reads_eq);
          exclusives_eq = omega (arith, rest.exclusives_eq);
          consumes_eq = omega (arith, rest.consumes_eq);
        }
    from_receiver (some (spec, f)) =
        let rest =
          summarize_specs-Counts b.specs
            (merge_prev_access_summary no_access (summarize_prev_access_spec spec)) in
        let one = spec-counted no_access spec in
        record {
          reads_eq = omega (arith, rest.reads_eq, one.reads_eq);
          exclusives_eq = omega (arith, rest.exclusives_eq, one.exclusives_eq);
          consumes_eq = omega (arith, rest.consumes_eq, one.consumes_eq);
        }

exclusive-reads : (spec : Spec) → is_exclusive spec ≡ true → is_prev_access spec ≡ true
unfolding is_exclusive is_prev_access
exclusive-reads spec e = ground arith

-- Two specs, of which one has exclusive access and the other reads, are the same.
abbrev pub LoneExclusive : List Spec → Type 0
LoneExclusive specs =
    (j k : ℕ) (s t : Spec)
    → get_elem? specs j ≡ some s
    → get_elem? specs k ≡ some t
    → is_exclusive s ≡ true
    → is_prev_access t ≡ true
    → j ≡ k

module _ (specs : List Spec) where
  pub counted-LoneExclusive :
      (count_specs is_exclusive specs ≡ 0) ⊎ (count_specs is_prev_access specs ≡ 1)
      → LoneExclusive specs
  counted-LoneExclusive (inl none_exclusive) j k s t at at' exclusive reads =
      let one = count_specs_pos is_exclusive specs j s at exclusive in absurd (omega arith)
  counted-LoneExclusive (inr single) j k s t at at' exclusive reads = elim (Bool-cases (j == k)) [
    | inl same ↦ (==_iff j k).0 same
    | inr apart ↦
        let two =
          count_specs_two is_prev_access specs j k s t at at' (exclusive-reads s exclusive) reads
            (λ e. let same = (==_iff j k).1 e in ground arith) in
        absurd (omega arith)
  ]

  pub LoneExclusive-counted :
      LoneExclusive specs
      → (count_specs is_exclusive specs ≡ 0)
        ⊎ ((count_specs is_exclusive specs ≡ 1) × (count_specs is_prev_access specs ≡ 1))
  LoneExclusive-counted lone = elim (Bool-cases (count_specs is_exclusive specs == 0)) [
    | inl zero_count ↦ inl (ground arith)
    | inr more ↦
        let (j, s, at, exclusive) = count_specs_found is_exclusive specs (λ e. ground arith) in
        let one =
          count_specs_one is_exclusive specs j
            (λ k t at' on. lone j k s t at at' exclusive (exclusive-reads t on)) in
        let single =
          count_specs_one is_prev_access specs j (λ k t at' on. lone j k s t at at' exclusive on) in
        let pos = count_specs_pos is_prev_access specs j s at (exclusive-reads s exclusive) in
        inr (ground arith, omega arith)
  ]
