-- ===== src/Examples/Tasks.antt =====
-- Tasks with adapters.
use yorch.Base.{Option, ℕ, ◌+◌, ◌≡◌, refl, false, none, some, ltb, if◌then◌else◌, arith}
use yorch.Result.{StepStatus, success, failure, retry as retry_status, RawValue, step_value}
use yorch.Adapters.Retry.{requests_retry, RetryPolicy, retry_fixed_policy, invoke_raw, invoke_into}
use yorch.Adapters.DirectRetry.{clearing, with_sink, invoke_into-ends}
use yorch.Adapters.RetryLaws.{Ending, invoke_raw-ends, retry_fixed-settles}
use yorch.Adapters.Catch.{Attempt, threw, catch_raw, invoke_raw-catch_raw}

-- A task that asks for a retry in its first two attempts.
abbrev third_time : ℕ → RawValue ℕ × ℕ
third_time n = (step_value (if ltb n 2 then retry_status else success), n + 1)

abbrev at_most_three : RetryPolicy ℕ
at_most_three = record { should_retry = λ k. ltb k 3; on_exhausted = none }

invoke_raw-ends_example :
    (result : RawValue ℕ × ℕ) × (invoke_raw at_most_three third_time 4 0 0 ≡ some result)
    × Ending at_most_three third_time 3 0 result
invoke_raw-ends_example = invoke_raw-ends at_most_three third_time 3 (λ k. refl) (omega arith) 0

retry_fixed-settles_example :
    (result : RawValue ℕ × ℕ) × (invoke_raw (retry_fixed_policy 1) third_time 2 0 0 ≡ some result)
    × (requests_retry result.0 ≡ false)
retry_fixed-settles_example = retry_fixed-settles third_time 1 0 (omega arith)

-- A task that counts its attempts and throws.
abbrev throwing : ℕ → Attempt ℕ (RawValue ℕ) × ℕ
throwing n = (threw 13, n + 1)

invoke_raw-catch_raw_example :
    invoke_raw at_most_three (catch_raw throwing) 1 0 0 ≡ some (step_value failure, 1)
invoke_raw-catch_raw_example = invoke_raw-catch_raw at_most_three throwing 0 0 0 1 13 refl

-- A task that fills its sink and yet asks for a retry in its first two attempts.
abbrev third_into : Option ℕ × ℕ → StepStatus × Option ℕ × ℕ
third_into (out, n) = (if ltb n 2 then retry_status else success, some n, n + 1)

invoke_into-ends_example :
    (result : RawValue ℕ × (Option ℕ × ℕ)) × (invoke_into at_most_three third_into 4 0 (none, 0)
      ≡ some (with_sink result))
    × Ending at_most_three (clearing third_into) 3 (none, 0) result
invoke_into-ends_example = invoke_into-ends at_most_three third_into 3 (λ k. refl) (omega arith) 0
