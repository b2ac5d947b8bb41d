-- ===== src/Validation/Sound.antt =====
-- What a plan that passes `validate_plan` gives (plan_validation.hpp, executor/plan.hpp).
use yorch.Base.{
  ℕ, ◌<◌, ◌≡◌, Bool, true, false, not, arith, all_below-true, all_below_intro, any_below,
  any_below-false,
}
use yorch.Task.{TaskType}
use yorch.Plan.Compiled.{CompiledPlan}
use yorch.Validation.Fanout.{plan_fanout_policy_valid, parent_fanout_policy_valid}
use yorch.Validation.Sources.{
  plan_prev_access_valid, plan_prev_source_valid, plan_forward_prev_source_valid,
  node_prev_source_valid, node_prev_access_valid, node_forward_prev_source_valid,
}
use yorch.Validation.Errors.{
  PlanValidationError, ok, prev_access_root_node, prev_access_void_parent, forward_prev_root_node,
  forward_prev_void_parent, forward_prev_parent_type_mismatch, prev_access_mode_invalid,
  fanout_policy_invalid, validate_plan, node_uses_root_prev_access,
  node_uses_void_parent_prev_access, node_uses_root_forward_prev,
  node_uses_void_parent_forward_prev, node_uses_mismatched_forward_prev_parent_type,
}

module _ (plan : CompiledPlan TaskType) where
  -- No check of `validate_plan` has found anything.
  pub record NothingFound : Type 0 where
    pub root_access : any_below plan.node_count (node_uses_root_prev_access plan) ≡ false
    pub void_access : any_below plan.node_count (node_uses_void_parent_prev_access plan) ≡ false
    pub root_forward : any_below plan.node_count (node_uses_root_forward_prev plan) ≡ false
    pub void_forward : any_below plan.node_count (node_uses_void_parent_forward_prev plan) ≡ false
    pub mismatch :
        any_below plan.node_count (node_uses_mismatched_forward_prev_parent_type plan) ≡ false
    pub modes : plan_prev_access_valid plan ≡ true
    pub fanout : plan_fanout_policy_valid plan ≡ true

  pub nothing_found : validate_plan plan ≡ ok → NothingFound
  unfolding validate_plan
  nothing_found e = record {
    root_access = ground arith;
    void_access = ground arith;
    root_forward = ground arith;
    void_forward = ground arith;
    mismatch = ground arith;
    modes = ground arith;
    fanout = ground arith;
  }

  -- Whether node `i` is what the error tells of.
  unfoldable pub has_defect : PlanValidationError → ℕ → Bool
  has_defect ok i = false
  has_defect prev_access_root_node i = node_uses_root_prev_access plan i
  has_defect prev_access_void_parent i = node_uses_void_parent_prev_access plan i
  has_defect forward_prev_root_node i = node_uses_root_forward_prev plan i
  has_defect forward_prev_void_parent i = node_uses_void_parent_forward_prev plan i
  has_defect forward_prev_parent_type_mismatch i =
      node_uses_mismatched_forward_prev_parent_type plan i
  has_defect prev_access_mode_invalid i = not (node_prev_access_valid plan i)
  has_defect fanout_policy_invalid i = not (parent_fanout_policy_valid plan i)

  modes_at :
      plan_prev_access_valid plan ≡ true
      → (i : ℕ) → i < plan.node_count
      → has_defect prev_access_mode_invalid i ≡ false
  unfolding plan_prev_access_valid has_defect
  modes_at e i h =
      ground (arith, all_below-true (node_prev_access_valid plan) plan.node_count i e h)

  fanout_at :
      plan_fanout_policy_valid plan ≡ true
      → (i : ℕ) → i < plan.node_count
      → has_defect fanout_policy_invalid i ≡ false
  unfolding plan_fanout_policy_valid has_defect
  fanout_at e i h =
      ground (arith, all_below-true (λ j. parent_fanout_policy_valid plan j) plan.node_count i e h)

-- The order in which the checks are made.
unfoldable pub check_order : PlanValidationError → ℕ
check_order prev_access_root_node = 0
check_order prev_access_void_parent = 1
check_order forward_prev_root_node = 2
check_order forward_prev_void_parent = 3
check_order forward_prev_parent_type_mismatch = 4
check_order prev_access_mode_invalid = 5
check_order fanout_policy_invalid = 6
check_order ok = 7

module _ (plan : CompiledPlan TaskType) where
  -- No node has a defect whose check comes before that of the error that `validate_plan` returns;
  -- when it returns `ok`, no node has any.
  pub validate_plan-earlier :
      (e : PlanValidationError) (i : ℕ)
      → check_order e < check_order (validate_plan plan)
      → i < plan.node_count
      → has_defect plan e i ≡ false
  unfolding check_order validate_plan has_defect
  validate_plan-earlier ok i less h = ground arith
  validate_plan-earlier prev_access_root_node i less h =
      any_below-false (node_uses_root_prev_access plan) plan.node_count i (ground arith) h
  validate_plan-earlier prev_access_void_parent i less h =
      any_below-false (node_uses_void_parent_prev_access plan) plan.node_count i (ground arith) h
  validate_plan-earlier forward_prev_root_node i less h =
      any_below-false (node_uses_root_forward_prev plan) plan.node_count i (ground arith) h
  validate_plan-earlier forward_prev_void_parent i less h =
      any_below-false (node_uses_void_parent_forward_prev plan) plan.node_count i (ground arith) h
  validate_plan-earlier forward_prev_parent_type_mismatch i less h =
      any_below-false (node_uses_mismatched_forward_prev_parent_type plan) plan.node_count i
        (ground arith) h
  validate_plan-earlier prev_access_mode_invalid i less h = modes_at plan (ground arith) i h
  validate_plan-earlier fanout_policy_invalid i less h = fanout_at plan (ground arith) i h

  root_or_void :
      (i : ℕ)
      → node_uses_root_prev_access plan i ≡ false
      → node_uses_void_parent_prev_access plan i ≡ false
      → node_prev_source_valid plan i ≡ true
  unfolding node_uses_root_prev_access node_uses_void_parent_prev_access node_prev_source_valid
  root_or_void i a b = ground arith

  forward_source :
      (i : ℕ)
      → node_uses_root_forward_prev plan i ≡ false
      → node_uses_void_parent_forward_prev plan i ≡ false
      → node_forward_prev_source_valid plan i ≡ true
  unfolding node_uses_root_forward_prev node_uses_void_parent_forward_prev
      node_forward_prev_source_valid
  forward_source i a b = ground arith

  -- The further conditions that `run_plan` lists beside `plan_valid_v` follow from it.
  pub validate_plan-sources :
      validate_plan plan ≡ ok
      → (plan_prev_source_valid plan ≡ true)
        × (plan_prev_access_valid plan ≡ true)
        × (plan_forward_prev_source_valid plan ≡ true)
        × (plan_fanout_policy_valid plan ≡ true)
  unfolding plan_prev_source_valid plan_forward_prev_source_valid
  validate_plan-sources e =
      let clean = nothing_found plan e in
      (
        all_below_intro (node_prev_source_valid plan) plan.node_count (λ i h.
            root_or_void i
              (any_below-false (node_uses_root_prev_access plan) plan.node_count i clean.root_access
                h)
              (any_below-false (node_uses_void_parent_prev_access plan) plan.node_count i
                clean.void_access h)),
        clean.modes,
        all_below_intro (node_forward_prev_source_valid plan) plan.node_count (λ i h.
            forward_source i
              (any_below-false (node_uses_root_forward_prev plan) plan.node_count i
                clean.root_forward h)
              (any_below-false (node_uses_void_parent_forward_prev plan) plan.node_count i
                clean.void_forward h)),
        clean.fanout,
      )
