-- ===== src/Adapters/RetryLaws.antt =====
-- The attempts that the loops of include/yorch/task_adapters/retry.hpp make.
use yorch.Base.{
  ℕ, zero, suc, ◌+◌, ◌<◌, ◌≤◌, ◌%◌, Bool, true, false, some, ltb, ◌≡◌, refl, Bool-cases, inl, inr,
  arith, ◌∙◌, subst, ◌⊎◌,
}
use yorch.Result.{RawValue, void_value, step_value, task_value, plain_value, is_retry}
use yorch.Adapters.Retry.{
  size_modulus, requests_retry, RetryPolicy, invoke_raw, handle_retry_exhausted,
  retry_exhausted_as_failure, retry_fixed_policy,
}

same_number : (n j : ℕ) → j < suc n → ltb j n ≡ false → n ≡ j
same_number n j h more = ground arith

module _ {V W : Type 0} (task : W → RawValue V × W) where
  -- The state before attempt `k`.
  unfoldable pub before_attempt : ℕ → W → W
  before_attempt zero w = w
  before_attempt (suc k) w = before_attempt k (task w).1

  -- Attempt `k`: the raw result and the state after it.
  unfoldable pub attempt : ℕ → W → RawValue V × W
  attempt k w = task (before_attempt k w)

  -- Whether attempt `k` asks for a retry.
  unfoldable pub asks_retry : ℕ → W → Bool
  asks_retry k w = requests_retry (attempt k w).0

module _ {V W : Type 0} (policy : RetryPolicy V) (task : W → RawValue V × W) where
  pub settled-invoke_raw :
      (fuel c : ℕ) (w : W)
      → asks_retry task 0 w ≡ false
      → invoke_raw policy task (suc fuel) c w ≡ some (task w)
  unfolding invoke_raw asks_retry attempt before_attempt
  settled-invoke_raw fuel c w h = rw h

  exhausted-invoke_raw :
      (fuel c : ℕ) (w : W)
      → asks_retry task 0 w ≡ true
      → policy.should_retry c ≡ false
      → invoke_raw policy task (suc fuel) c w
        ≡ some (handle_retry_exhausted policy (task w).0, (task w).1)
  unfolding invoke_raw asks_retry attempt before_attempt
  exhausted-invoke_raw fuel c w h stop = rw (h, stop)

  again-invoke_raw :
      (fuel c : ℕ) (w : W)
      → asks_retry task 0 w ≡ true
      → policy.should_retry c ≡ true
      → c + 1 < size_modulus
      → invoke_raw policy task (suc fuel) c w ≡ invoke_raw policy task fuel (c + 1) (task w).1
  unfolding invoke_raw asks_retry attempt before_attempt
  again-invoke_raw fuel c w h more small =
      let wraps : (c + 1) % size_modulus ≡ c + 1 = omega arith in rw (h, more, wraps)

module _ {V W : Type 0} (policy : RetryPolicy V) (task : W → RawValue V × W) (max_retries : ℕ) where
  -- How a bounded loop ends on the state `w`: at its first attempt that asks for no retry, or after
  -- `max_retries` further attempts that all ask for one.
  pub data Ending (w : W) : RawValue V × W → Type 0 where
    settled :
        (k : ℕ)
        → k ≤ max_retries
        → ((j : ℕ) → j < k → asks_retry task j w ≡ true)
        → asks_retry task k w ≡ false
        → Ending w (attempt task k w)
    exhausted :
        ((j : ℕ) → j ≤ max_retries → asks_retry task j w ≡ true)
        → Ending w (
          handle_retry_exhausted policy (attempt task max_retries w).0,
          (attempt task max_retries w).1,
        )

module _ {V W : Type 0} (task : W → RawValue V × W) where
  -- The attempts below `n` all ask for a retry, or there is a first one that does not.
  first_settled :
      (n : ℕ) (w : W)
      → ((j : ℕ) → j < n → asks_retry task j w ≡ true)
        ⊎ ((k : ℕ) × (k < n)
            × ((j : ℕ) → j < k → asks_retry task j w ≡ true)
            × (asks_retry task k w ≡ false))
  first_settled zero w = inl (λ j h. absurd (omega arith))
  first_settled (suc n) w = elim (first_settled n w) [
    | inr (k, less, asked, ends) ↦ inr (k, omega arith, asked, ends)
    | inl all ↦ elim (Bool-cases (asks_retry task n w)) [
      | inr ends ↦ inr (n, omega arith, all, ends)
      | inl one_more ↦ inl (λ j h. elim (Bool-cases (ltb j n)) [
        | inl less ↦ all j (ground arith)
        | inr more ↦ subst (λ x. asks_retry task x w ≡ true) (same_number n j h more) one_more
      ])
    ]
  ]

module _ {V W : Type 0} (policy : RetryPolicy V) (task : W → RawValue V × W) (max_retries : ℕ)
    (bounded : (k : ℕ) → policy.should_retry k ≡ ltb k max_retries)
    (small : max_retries < size_modulus) where
  allowed : (c : ℕ) → c < max_retries → policy.should_retry c ≡ true
  allowed c h = bounded c ∙ ground arith

  stopped : policy.should_retry max_retries ≡ false
  stopped = bounded max_retries ∙ ground arith

  -- From the count `c`, the loop returns its first attempt that does not ask for a retry.
  settles_from :
      (k fuel c : ℕ) (w : W)
      → c + k ≤ max_retries
      → k < fuel
      → ((j : ℕ) → j < k → asks_retry task j w ≡ true)
      → asks_retry task k w ≡ false
      → invoke_raw policy task fuel c w ≡ some (attempt task k w)
  unfolding attempt before_attempt asks_retry
  settles_from k zero c w fits h asked ends = absurd (omega arith)
  settles_from zero (suc fuel) c w fits h asked ends = settled-invoke_raw policy task fuel c w ends
  settles_from (suc k) (suc fuel) c w fits h asked ends =
      again-invoke_raw policy task fuel c w (asked 0 (omega arith)) (allowed c (omega arith))
        (omega arith)
      ∙ settles_from k fuel (c + 1) (task w).1 (omega arith) (omega arith)
          (λ j less. asked (suc j) (omega arith)) ends

  -- From the count `c`, when all attempts up to the limit ask for a retry.
  exhausts_from :
      (k fuel c : ℕ) (w : W)
      → c + k ≡ max_retries
      → k < fuel
      → ((j : ℕ) → j ≤ k → asks_retry task j w ≡ true)
      → invoke_raw policy task fuel c w
        ≡ some (handle_retry_exhausted policy (attempt task k w).0, (attempt task k w).1)
  unfolding attempt before_attempt asks_retry
  exhausts_from k zero c w fits h asked = absurd (omega arith)
  exhausts_from zero (suc fuel) c w fits h asked =
      exhausted-invoke_raw policy task fuel c w (asked 0 (omega arith))
        (subst (λ x. policy.should_retry x ≡ false) (omega arith) stopped)
  exhausts_from (suc k) (suc fuel) c w fits h asked =
      again-invoke_raw policy task fuel c w (asked 0 (omega arith)) (allowed c (omega arith))
        (omega arith)
      ∙ exhausts_from k fuel (c + 1) (task w).1 (omega arith) (omega arith)
          (λ j less. asked (suc j) (omega arith))

  -- With a policy that allows exactly `max_retries` further attempts, and a limit below 2^64, the
  -- loop returns within `max_retries + 1` attempts: the first attempt that asks for no retry, or
  -- what the policy makes of the last attempt when all of them ask for one.
  pub invoke_raw-ends :
      (w : W)
      → (result : RawValue V × W) × (invoke_raw policy task (suc max_retries) 0 w ≡ some result)
        × Ending policy task max_retries w result
  invoke_raw-ends w = elim (first_settled task (suc max_retries) w) [
    | inl all ↦ (
      (
        handle_retry_exhausted policy (attempt task max_retries w).0,
        (attempt task max_retries w).1,
      ),
      exhausts_from max_retries (suc max_retries) 0 w (omega arith) (omega arith)
          (λ j h. all j (omega arith)),
      exhausted (λ j h. all j (omega arith)),
    )
    | inr (k, less, asked, ends) ↦ (
      attempt task k w,
      settles_from k (suc max_retries) 0 w (omega arith) (omega arith) asked ends,
      settled k (omega arith) asked ends,
    )
  ]

exhausted_as_failure-settles :
    {V : Type 0} (raw : RawValue V) → requests_retry (retry_exhausted_as_failure raw) ≡ false
unfolding requests_retry retry_exhausted_as_failure is_retry
exhausted_as_failure-settles (step_value s) = refl
exhausted_as_failure-settles (task_value r) = refl
exhausted_as_failure-settles void_value = refl
exhausted_as_failure-settles (plain_value v) = refl

fixed_bounded :
    (V : Type 0) (max_retries k : ℕ)
    → (retry_fixed_policy {V = V} max_retries).should_retry k ≡ ltb k max_retries
unfolding retry_fixed_policy
fixed_bounded V max_retries k = refl

module _ {V W : Type 0} (task : W → RawValue V × W) (max_retries : ℕ) where
  Ending-settles :
      (w : W) {result : RawValue V × W}
      → Ending (retry_fixed_policy max_retries) task max_retries w result
      → requests_retry result.0 ≡ false
  unfolding asks_retry handle_retry_exhausted retry_fixed_policy
  Ending-settles w (settled k less asked ends) = ends
  Ending-settles w (exhausted asked) = exhausted_as_failure-settles (attempt task max_retries w).0

  -- `retry_fixed_policy` with a limit below 2^64: the loop returns within `max_retries + 1` attempts,
  -- and its result never asks for a retry.
  pub retry_fixed-settles :
      (w : W)
      → max_retries < size_modulus
      → (result : RawValue V × W) × (invoke_raw
            (retry_fixed_policy max_retries)
            task
            (suc max_retries)
            0
            w
          ≡ some result)
        × (requests_retry result.0 ≡ false)
  retry_fixed-settles w small =
      let (result, ran, ending) =
        invoke_raw-ends (retry_fixed_policy max_retries) task max_retries
          (fixed_bounded V max_retries) small w in
      (result, ran, Ending-settles w ending)
