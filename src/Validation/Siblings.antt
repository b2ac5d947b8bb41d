-- ===== src/Validation/Siblings.antt =====
-- The children of one node whose fanout policy is valid (fanout.hpp), by their ordinals.
use yorch.Base.{
  ℕ, ◌<◌, ◌≤◌, ◌≡◌, ◌≢◌, ◌⊎◌, inl, inr, refl, Bool, true, false, not, arith, ltb, ◌==◌, ◌&&◌,
  ==_iff, Bool-cases, any_below-false, count_below, count_below_pos, count_below_two,
}
use yorch.Tree.{FanoutPolicy, auto, shared_readonly, consume_with_copies}
use yorch.Task.{TaskType}
use yorch.Task.Access.{
  uses_prev_access, uses_exclusive_prev_access, uses_borrow_prev_mut, uses_consume_prev,
}
use yorch.Task.Access.Laws.{access_summary-IsConsistent}
use yorch.Plan.Compiled.{CompiledPlan}
use yorch.Validation.Plans.{fanout_policy_type}
use yorch.Validation.Fanout.{
  uses_copy_only_prev_access, uses_consume_only_prev_access, child_task, exclusive_prev_child_count,
  copy_only_prev_child_count, consume_only_prev_child_count, has_non_copy_or_consume_prev_child,
  policy_valid, parent_fanout_policy_valid, is_consume_with_copies, parent_requires_fanout_staging,
}

-- A task that only copies has no exclusive access.
pub copy_only-exclusive :
    (task : TaskType)
    → uses_copy_only_prev_access task ≡ true
    → uses_exclusive_prev_access task.form ≡ false
unfolding uses_copy_only_prev_access uses_exclusive_prev_access uses_borrow_prev_mut
    uses_consume_prev
copy_only-exclusive task h = ground (arith, (access_summary-IsConsistent task.form).exclusive)

exclusive-uses :
    (task : TaskType)
    → uses_exclusive_prev_access task.form ≡ true
    → uses_prev_access task.form ≡ true
unfolding uses_exclusive_prev_access uses_prev_access
exclusive-uses task h =
    let c = access_summary-IsConsistent task.form in ground (arith, c.total, c.exclusive)

-- A task that consumes does not only copy.
pub consume-copy_only :
    (task : TaskType)
    → uses_consume_only_prev_access task ≡ true
    → uses_copy_only_prev_access task ≡ false
unfolding uses_copy_only_prev_access uses_consume_only_prev_access
consume-copy_only task h = ground arith

module _ (f : ℕ → Bool) where
  -- Two different indices that pass are counted twice, in any order.
  pub two_counted :
      (n i j : ℕ) → i ≢ j → i < n → j < n → f i ≡ true → f j ≡ true → 2 ≤ count_below n f
  two_counted n i j apart hi hj on on' = elim (Bool-cases (ltb i j)) [
    | inl less ↦ count_below_two f n i j (ground arith) hj on on'
    | inr more ↦ elim (Bool-cases (i == j)) [
      | inl same ↦ absurd (apart ((==_iff i j).0 same))
      | inr _ ↦ count_below_two f n j i (ground arith) hi on' on
    ]
  ]

module _ (plan : CompiledPlan TaskType) (p a b : ℕ) (a_child : a < plan.child_counts p)
    (b_child : b < plan.child_counts p) (apart : a ≢ b)
    (exclusive : uses_exclusive_prev_access (child_task plan p a).form ≡ true)
    (uses : uses_prev_access (child_task plan p b).form ≡ true) where
  exclusive_counted : 1 ≤ exclusive_prev_child_count plan p
  unfolding exclusive_prev_child_count
  exclusive_counted =
      count_below_pos (λ ord. uses_exclusive_prev_access (child_task plan p ord).form)
        (plan.child_counts p) a a_child exclusive

  two_children : 2 ≤ plan.child_counts p
  two_children = elim (Bool-cases (a == b)) [
    | inl same ↦ absurd (apart ((==_iff a b).0 same))
    | inr _ ↦ ground arith
  ]

  -- Under `fanout_consume_with_copies_policy` each child that reads its parent copies or consumes.
  copies_or_consumes :
      (c : ℕ)
      → has_non_copy_or_consume_prev_child plan p ≡ false
      → c < plan.child_counts p
      → uses_prev_access (child_task plan p c).form ≡ true
      → (uses_copy_only_prev_access (child_task plan p c) ≡ true)
        ⊎ (uses_consume_only_prev_access (child_task plan p c) ≡ true)
  unfolding has_non_copy_or_consume_prev_child
  copies_or_consumes c none_else h on =
      let off =
        any_below-false
          (λ ord.
            uses_prev_access (child_task plan p ord).form
            && not (uses_copy_only_prev_access (child_task plan p ord))
            && not (uses_consume_only_prev_access (child_task plan p ord)))
          (plan.child_counts p) c none_else h in
      ground arith

  consumer_and_copier :
      has_non_copy_or_consume_prev_child plan p ≡ false
      → consume_only_prev_child_count plan p ≤ 1
      → (uses_consume_only_prev_access (child_task plan p a) ≡ true)
        × (uses_copy_only_prev_access (child_task plan p b) ≡ true)
  unfolding consume_only_prev_child_count
  consumer_and_copier none_else one =
      let consumes : uses_consume_only_prev_access (child_task plan p a) ≡ true =
        elim (copies_or_consumes a none_else a_child
          (exclusive-uses (child_task plan p a) exclusive)) [
            | inl copies ↦
                let shared = copy_only-exclusive (child_task plan p a) copies in
                absurd (ground arith)
            | inr consumes ↦ consumes
          ] in
      (
        consumes,
        elim (copies_or_consumes b none_else b_child uses) [
          | inl copies ↦ copies
          | inr both ↦
              let two =
                two_counted (λ ord. uses_consume_only_prev_access (child_task plan p ord))
                  (plan.child_counts p) a b apart a_child b_child consumes both in
              absurd (omega arith)
        ],
      )

  -- What the policies leave to a child beside one with exclusive access.
  beside_policy :
      (policy : FanoutPolicy)
      → policy_valid plan p policy ≡ true
      → (is_consume_with_copies plan p policy ≡ true)
        × (has_non_copy_or_consume_prev_child plan p ≡ false)
        × (consume_only_prev_child_count plan p ≤ 1)
  unfolding policy_valid
  beside_policy auto v = let n = exclusive_counted in let m = two_children in absurd (ground arith)
  beside_policy shared_readonly v = let n = exclusive_counted in absurd (ground arith)
  beside_policy consume_with_copies v = (refl, ground arith, ground arith)

  staging :
      is_consume_with_copies plan p (fanout_policy_type plan p) ≡ true
      → consume_only_prev_child_count plan p ≤ 1
      → uses_consume_only_prev_access (child_task plan p a) ≡ true
      → uses_copy_only_prev_access (child_task plan p b) ≡ true
      → parent_requires_fanout_staging plan p ≡ true
  unfolding parent_requires_fanout_staging consume_only_prev_child_count copy_only_prev_child_count
  staging policy one consumes copies =
      let n =
        count_below_pos (λ ord. uses_consume_only_prev_access (child_task plan p ord))
          (plan.child_counts p) a a_child consumes in
      let m =
        count_below_pos (λ ord. uses_copy_only_prev_access (child_task plan p ord))
          (plan.child_counts p) b b_child copies in
      ground arith

  pub exclusive-staged :
      parent_fanout_policy_valid plan p ≡ true
      → (parent_requires_fanout_staging plan p ≡ true)
        × (uses_consume_only_prev_access (child_task plan p a) ≡ true)
        × (uses_copy_only_prev_access (child_task plan p b) ≡ true)
  unfolding parent_fanout_policy_valid
  exclusive-staged v =
      let n = two_children in
      let (policy, none_else, one) = beside_policy (fanout_policy_type plan p) (ground arith) in
      let (consumes, copies) = consumer_and_copier none_else one in
      (staging policy one consumes copies, consumes, copies)
