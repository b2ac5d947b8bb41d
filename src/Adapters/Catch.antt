-- ===== src/Adapters/Catch.antt =====
-- include/yorch/task_adapters/catch_as_failure.hpp, with the helpers of
-- include/yorch/detail/task_adapters/result_helpers.hpp. An invocation returns or throws, and what it
-- did to the state `W` before it threw is kept.
use yorch.Base.{ℕ, suc, some, ◌≡◌, false, ap, ◌∙◌}
use yorch.Result.{StepStatus, success, failure, is_retry, RawValue, void_value, step_value}
use yorch.Adapters.Retry.{RetryPolicy, requests_retry, invoke_raw}
use yorch.Adapters.RetryLaws.{settled-invoke_raw, asks_retry, attempt, before_attempt}

-- How a call ends: it returns a result, or throws an exception of the type `E`.
pub data Attempt (E A : Type 0) : Type 0 where
  returned : A → Attempt E A
  threw : E → Attempt E A

module _ {V : Type 0} where
  -- `void_task_success_result` at the results of a void task; other results stay.
  unfoldable pub success_raw : RawValue V → RawValue V
  success_raw void_value = step_value success
  success_raw raw = raw

module _ {E W : Type 0} where
  -- The `try` block around `invoke_into`; `W` holds the sink besides, which a throw leaves as it is.
  unfoldable pub caught_step : (E → StepStatus) → Attempt E StepStatus × W → StepStatus × W
  caught_step handler (returned step, w) = (step, w)
  caught_step handler (threw e, w) = (handler e, w)

  -- `catch_failure_task::invoke_into`
  unfoldable pub catch_into : (W → Attempt E StepStatus × W) → W → StepStatus × W
  catch_into task w = caught_step (λ e. failure) (task w)

  -- `catch_failure_with_policy_task::invoke_into`
  unfoldable pub catch_into_with_policy :
      (E → StepStatus) → (W → Attempt E StepStatus × W) → W → StepStatus × W
  catch_into_with_policy policy task w = caught_step policy (task w)

module _ {V E W : Type 0} where
  -- The `try` block and its handler: a returned result is passed on, an exception is handled.
  unfoldable pub caught_result : (E → RawValue V) → Attempt E (RawValue V) × W → RawValue V × W
  unfolding success_raw
  caught_result handler (returned raw, w) = (success_raw raw, w)
  caught_result handler (threw e, w) = (handler e, w)

  -- `catch_failure_task::invoke_raw`; its wrapped task returns void or a `step_result`.
  unfoldable pub catch_raw : (W → Attempt E (RawValue V) × W) → W → RawValue V × W
  catch_raw task w = caught_result (λ e. step_value failure) (task w)

  -- `catch_failure_with_policy_task::invoke_raw`
  unfoldable pub catch_raw_with_policy :
      (E → RawValue V) → (W → Attempt E (RawValue V) × W) → W → RawValue V × W
  catch_raw_with_policy policy task w = caught_result policy (task w)

  caught :
      (task : W → Attempt E (RawValue V) × W) (w w' : W) (e : E)
      → task w ≡ (threw e, w')
      → catch_raw task w ≡ (step_value failure, w')
  unfolding catch_raw caught_result
  caught task w w' e h = ap (caught_result λ e'. step_value failure) h

  caught-asks_retry :
      (task : W → Attempt E (RawValue V) × W) (w w' : W) (e : E)
      → task w ≡ (threw e, w')
      → asks_retry (catch_raw task) 0 w ≡ false
  unfolding asks_retry attempt before_attempt requests_retry is_retry
  caught-asks_retry task w w' e h = rw (caught task w w' e h)

  -- `with_retry` around `catch_as_failure`, with any policy and at any count: when the wrapped task
  -- throws, the loop makes no further attempt and returns `failure`, with what the task changed
  -- before the throw.
  pub invoke_raw-catch_raw :
      (policy : RetryPolicy V) (task : W → Attempt E (RawValue V) × W) (fuel c : ℕ) (w w' : W)
      (e : E)
      → task w ≡ (threw e, w')
      → invoke_raw policy (catch_raw task) (suc fuel) c w ≡ some (step_value failure, w')
  invoke_raw-catch_raw policy task fuel c w w' e h =
      settled-invoke_raw policy (catch_raw task) fuel c w (caught-asks_retry task w w' e h)
      ∙ ap some (caught task w w' e h)
