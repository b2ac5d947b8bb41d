-- ===== src/Adapters/DirectRetry.antt =====
-- The loop of `retry_task::invoke_into` (include/yorch/task_adapters/retry.hpp) against that of `invoke_raw`.
use yorch.Base.{
  ℕ, zero, suc, ◌+◌, ◌<◌, ◌%◌, ◌≡◌, refl, sym, Option, none, some, ltb, arith, ap, ◌∙◌, ◌>>=◌,
}
use yorch.Result.{StepStatus, RawValue, step_value, extract_step_result}
use yorch.Adapters.Retry.{
  size_modulus, requests_retry, RetryPolicy, invoke_raw, invoke_into, exhausted_step,
}
use yorch.Adapters.RetryLaws.{Ending, invoke_raw-ends}

-- A task with a sink as one that empties the sink, and then returns its `step_result` as a raw result.
abbrev pub clearing :
    {V W : Type 0}
    → (Option V × W → StepStatus × Option V × W)
    → Option V × W
    → RawValue V × (Option V × W)
clearing task s = let (step, out, w) = task (none, s.1) in (step_value step, (out, w))

-- The status, the sink and the state of what the loop on raw results returns.
abbrev pub with_sink : {V W : Type 0} → RawValue V × (Option V × W) → StepStatus × Option V × W
with_sink r = (extract_step_result r.0, r.1.0, r.1.1)

module _ {V W : Type 0} (policy : RetryPolicy V)
    (task : Option V × W → StepStatus × Option V × W) where
  -- The loop with a sink does what the loop on raw results does for the task that empties the sink first.
  invoke_into-clearing :
      (fuel c : ℕ) (out : Option V) (w : W)
      → (invoke_raw policy (clearing task) fuel c (out, w) >>= λ r. some (with_sink r))
        ≡ invoke_into policy task fuel c (none, w)
  unfolding invoke_raw invoke_into requests_retry extract_step_result exhausted_step
  invoke_into-clearing zero c out w = refl
  invoke_into-clearing (suc fuel) c out w =
      let (step, after, w') = task (none, w) in
      ground (arith, invoke_into-clearing fuel ((c + 1) % size_modulus) after w')

module _ {V W : Type 0} (policy : RetryPolicy V) (task : Option V × W → StepStatus × Option V × W)
    (max_retries : ℕ) where
  -- With a policy that allows exactly `max_retries` further attempts, and a limit below 2^64, the loop
  -- of a task with a sink that is empty at first returns within `max_retries + 1` attempts, each of which
  -- finds the sink empty: the status, the sink and the state of the first attempt that asks for no
  -- retry, or, when all of them ask for one, the sink and the state of the last attempt with what the
  -- policy makes of its status.
  pub invoke_into-ends :
      ((k : ℕ) → policy.should_retry k ≡ ltb k max_retries)
      → max_retries < size_modulus
      → (w : W)
      → (result : RawValue V × (Option V × W)) × (invoke_into policy task
            (suc max_retries)
            0
            (none, w)
          ≡ some (with_sink result))
        × Ending policy (clearing task) max_retries (none, w) result
  invoke_into-ends bounded small w =
      let (result, ran, ending) =
        invoke_raw-ends policy (clearing task) max_retries bounded small (none, w) in
      (
        result,
        sym (invoke_into-clearing policy task (suc max_retries) 0 none w)
            ∙ ap (λ o. o >>= λ r. some (with_sink r)) ran,
        ending,
      )
