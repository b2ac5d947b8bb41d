-- ===== src/Validation/Policies.antt =====
-- What each fanout policy allows the children of a node (include/yorch/detail/executor/fanout.hpp), child by
-- child.
use yorch.Base.{
  ℕ, ◌<◌, ◌≤◌, ◌≡◌, ◌⊎◌, ◌↔◌, inl, inr, Bool, true, false, not, arith, leb, ◌==◌, ◌&&◌, ==_iff,
  Bool-cases, any_below-false, any_below_none, count_below, count_below_zero, count_below_none,
  count_below_one,
}
use yorch.Tree.{FanoutPolicy, auto, shared_readonly, consume_with_copies}
use yorch.Task.{TaskType}
use yorch.Task.Access.{uses_prev_access, uses_exclusive_prev_access}
use yorch.Plan.Compiled.{CompiledPlan}
use yorch.Validation.Plans.{fanout_policy_type}
use yorch.Validation.Fanout.{
  uses_copy_only_prev_access, uses_consume_only_prev_access, child_task, exclusive_prev_child_count,
  consume_only_prev_child_count, has_non_copy_or_consume_prev_child, policy_valid,
  parent_fanout_policy_valid,
}
use yorch.Validation.Siblings.{two_counted}

module _ (plan : CompiledPlan TaskType) (parent : ℕ) where
  abbrev IsExclusiveChild : ℕ → Type 0
  IsExclusiveChild a = uses_exclusive_prev_access (child_task plan parent a).form ≡ true

  abbrev IsConsumingChild : ℕ → Type 0
  IsConsumingChild a = uses_consume_only_prev_access (child_task plan parent a) ≡ true

  -- Under the default policy a child with exclusive access is the only child; under
  -- `fanout_shared_readonly_policy` there is none; under `fanout_consume_with_copies_policy` every child
  -- that reads the output consumes it or copies it only, and no two consume it.
  unfoldable pub AllowsChildren : FanoutPolicy → Type 0
  AllowsChildren auto =
      (a b : ℕ)
      → a < plan.child_counts parent
      → b < plan.child_counts parent
      → IsExclusiveChild a
      → a ≡ b
  AllowsChildren shared_readonly =
      (a : ℕ)
      → a < plan.child_counts parent
      → uses_exclusive_prev_access (child_task plan parent a).form ≡ false
  AllowsChildren consume_with_copies =
      ((a : ℕ)
        → a < plan.child_counts parent
        → uses_prev_access (child_task plan parent a).form ≡ true
        → IsConsumingChild a ⊎ (uses_copy_only_prev_access (child_task plan parent a) ≡ true))
      × ((a b : ℕ)
          → a < plan.child_counts parent
          → b < plan.child_counts parent
          → IsConsumingChild a
          → IsConsumingChild b
          → a ≡ b)

  exclusive_count-zero : exclusive_prev_child_count plan parent ≡ 0 → AllowsChildren shared_readonly
  unfolding exclusive_prev_child_count AllowsChildren
  exclusive_count-zero e a h =
      count_below_zero (λ ord. uses_exclusive_prev_access (child_task plan parent ord).form)
        (plan.child_counts parent) a e h

  shared-exclusive_count :
      AllowsChildren shared_readonly → exclusive_prev_child_count plan parent ≡ 0
  unfolding exclusive_prev_child_count AllowsChildren
  shared-exclusive_count none_exclusive =
      count_below_none (λ ord. uses_exclusive_prev_access (child_task plan parent ord).form)
        (plan.child_counts parent) none_exclusive

  -- Beside another child, none that is an only child has exclusive access.
  lone-shared : 2 ≤ plan.child_counts parent → AllowsChildren auto → AllowsChildren shared_readonly
  unfolding AllowsChildren
  lone-shared two alone a h =
      elim (Bool-cases (uses_exclusive_prev_access (child_task plan parent a).form)) [
        | inl on ↦
            let first = alone a 0 h (omega arith) on in
            let second = alone a 1 h (omega arith) on in absurd (omega arith)
        | inr off ↦ off
      ]

  only_child : (policy_valid plan parent auto ≡ true) ↔ AllowsChildren auto
  unfolding policy_valid AllowsChildren
  only_child = (
    (λ v a b h h' on. elim (Bool-cases (leb (plan.child_counts parent) 1)) [
      | inl one ↦ let few : plan.child_counts parent ≤ 1 = ground arith in omega arith
      | inr more ↦ let off = exclusive_count-zero (ground arith) a h in absurd (ground arith)
    ]),
    (λ alone. elim (Bool-cases (leb (plan.child_counts parent) 1)) [
      | inl one ↦ ground arith
      | inr more ↦
          let none_exclusive = shared-exclusive_count (lone-shared (ground arith) alone) in
          ground arith
    ]),
  )

  -- A child that reads the output otherwise than by consuming it or copying it only.
  abbrev reads_otherwise : ℕ → Bool
  reads_otherwise ord =
      uses_prev_access (child_task plan parent ord).form
      && not (uses_copy_only_prev_access (child_task plan parent ord))
      && not (uses_consume_only_prev_access (child_task plan parent ord))

  abbrev consumes : ℕ → Bool
  consumes ord = uses_consume_only_prev_access (child_task plan parent ord)

  staged_children :
      (policy_valid plan parent consume_with_copies ≡ true) ↔ AllowsChildren consume_with_copies
  unfolding policy_valid AllowsChildren has_non_copy_or_consume_prev_child
      consume_only_prev_child_count
  staged_children = (
    (λ v. (
      (λ a h on.
          let off = any_below-false reads_otherwise (plan.child_counts parent) a (ground arith) h in
          ground arith),
      (λ a b h h' on on'. elim (Bool-cases (a == b)) [
        | inl same ↦ (==_iff a b).0 same
        | inr apart ↦
            let two =
              two_counted consumes (plan.child_counts parent) a b
                (λ e. let same = (==_iff a b).1 e in ground arith) h h' on on' in
            let one : count_below (plan.child_counts parent) consumes ≤ 1 = ground arith in
            absurd (omega arith)
      ]),
    )),
    (λ (each, unique).
        let none_else = any_below_none reads_otherwise (plan.child_counts parent) (λ a h.
          elim (Bool-cases (uses_prev_access (child_task plan parent a).form)) [
            | inl on ↦ let known = each a h on in ground arith
            | inr off ↦ ground arith
          ]) in
        let one = count_below_one consumes (plan.child_counts parent) unique in ground arith),
  )

  policy_valid_iff :
      (policy : FanoutPolicy) → (policy_valid plan parent policy ≡ true) ↔ AllowsChildren policy
  unfolding policy_valid
  policy_valid_iff auto = only_child
  policy_valid_iff shared_readonly = (
    λ v. exclusive_count-zero (ground arith),
    λ none_exclusive. let z = shared-exclusive_count none_exclusive in ground arith,
  )
  policy_valid_iff consume_with_copies = staged_children

  no_children-AllowsChildren :
      (policy : FanoutPolicy) → plan.child_counts parent ≡ 0 → AllowsChildren policy
  unfolding AllowsChildren
  no_children-AllowsChildren auto v = λ a b h h' on. omega arith
  no_children-AllowsChildren shared_readonly v = λ a h. absurd (omega arith)
  no_children-AllowsChildren consume_with_copies v =
      (λ a h on. absurd (omega arith), λ a b h h' on on'. omega arith)

  pub parent_fanout_policy_valid_iff :
      (parent_fanout_policy_valid plan parent ≡ true)
      ↔ AllowsChildren (fanout_policy_type plan parent)
  unfolding parent_fanout_policy_valid
  parent_fanout_policy_valid_iff =
      let policy = fanout_policy_type plan parent in
      (
        (λ v. elim (Bool-cases (plan.child_counts parent == 0)) [
          | inl no_child ↦ no_children-AllowsChildren policy (ground arith)
          | inr children ↦ (policy_valid_iff policy).0 (ground arith)
        ]),
        (λ allowed. let v = (policy_valid_iff policy).1 allowed in ground arith),
      )
