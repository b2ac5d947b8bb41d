-- ===== src/Adapters/Retry.antt =====
-- include/yorch/task_adapters/retry.hpp. A task is a function on `W`, the state that its attempts
-- can change; side effects of an attempt are kept, as in the source.
use yorch.Base.{
  ℕ, zero, suc, ◌+◌, ◌%◌, ◌^◌, Bool, true, false, not, Option, none, some, ltb, if◌then◌else◌,
}
use yorch.Result.{
  StepStatus, failure, is_retry, task_failure, RawValue, step_value, task_value,
  extract_step_result,
}

abbrev pub size_modulus : ℕ
size_modulus = 2 ^ 64

module _ {V : Type 0} where
  -- `raw_result_requests_retry`
  unfoldable pub requests_retry : RawValue V → Bool
  requests_retry (step_value s) = is_retry s
  requests_retry (task_value r) = is_retry r.step
  requests_retry _ = false

  -- `retry_exhausted_as_failure`; it is not used at other results.
  unfoldable pub retry_exhausted_as_failure : RawValue V → RawValue V
  retry_exhausted_as_failure (step_value s) = step_value failure
  retry_exhausted_as_failure (task_value r) = task_value task_failure
  retry_exhausted_as_failure raw = raw

-- A retry policy: `should_retry`, and `on_exhausted` where the policy has one.
pub record RetryPolicy (V : Type 0) : Type 0 where
  pub should_retry : ℕ → Bool
  pub on_exhausted : Option (RawValue V → RawValue V)

module _ {V : Type 0} where
  unfoldable pub retry_fixed_policy : ℕ → RetryPolicy V
  retry_fixed_policy max_retries = record {
    should_retry = λ retry_count. ltb retry_count max_retries;
    on_exhausted = some retry_exhausted_as_failure;
  }

  unfoldable pub retry_fixed_passthrough_policy : ℕ → RetryPolicy V
  retry_fixed_passthrough_policy max_retries = record {
    should_retry = λ retry_count. ltb retry_count max_retries;
    on_exhausted = some (λ raw. raw);
  }

  unfoldable pub retry_forever_policy : RetryPolicy V
  retry_forever_policy = record { should_retry = λ _. true; on_exhausted = none }

  unfoldable pub handle_retry_exhausted : RetryPolicy V → RawValue V → RawValue V
  handle_retry_exhausted policy raw = elim policy.on_exhausted [
    | none ↦ raw
    | some on_exhausted ↦ on_exhausted raw
  ]

module _ {V : Type 0} (policy : RetryPolicy V) where
  -- `handle_retry_exhausted` on the status that `invoke_into` returns: a `step_result` again.
  unfoldable pub exhausted_step : StepStatus → StepStatus
  exhausted_step step = extract_step_result (handle_retry_exhausted policy (step_value step))

module _ {V W : Type 0} (policy : RetryPolicy V) where
  -- The loop of `retry_task::invoke_raw`, `none` when the fuel has run out. A result whose type
  -- carries no status leaves the loop in its first round.
  unfoldable pub invoke_raw : (W → RawValue V × W) → ℕ → ℕ → W → Option (RawValue V × W)
  invoke_raw task zero retry_count w = none
  invoke_raw task (suc fuel) retry_count w =
      let (raw, w') = task w in
      let again = invoke_raw task fuel ((retry_count + 1) % size_modulus) w' in
      if not (requests_retry raw)
      then some (raw, w')
      else (if not (policy.should_retry retry_count)
          then some (handle_retry_exhausted policy raw, w')
          else again)

  -- The loop of `retry_task::invoke_into`: the task writes into a sink that may be full, and a full
  -- sink is emptied before the next attempt.
  unfoldable pub invoke_into :
      (Option V × W → StepStatus × Option V × W)
      → ℕ
      → ℕ
      → Option V × W
      → Option (StepStatus × Option V × W)
  invoke_into task zero retry_count s = none
  invoke_into task (suc fuel) retry_count s =
      let (step, out, w) = task s in
      let again = invoke_into task fuel ((retry_count + 1) % size_modulus) (none, w) in
      if not (is_retry step)
      then some (step, out, w)
      else (if not (policy.should_retry retry_count)
          then some (exhausted_step policy step, out, w)
          else again)
