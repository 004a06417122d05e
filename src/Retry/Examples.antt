-- ===== src/Retry/Examples.antt =====
-- The theorems on retries at concrete policies.
use you_mi_agent.Prelude.{
  ℕ, min, ◌+◌, ◌*◌, ◌/◌, ◌≤◌, ◌≡◌, refl, some, none, [], ◌∷◌, arith, ◌==◌, if◌then◌else◌,
}
use you_mi_agent.Retry.{
  RetryPolicy, exponential, Exc, Attempt, returned, raised, Ended, Retry, retry_async, retryable,
  is_retryable_by_policy, delay_after, compute_backoff_delay,
}
use you_mi_agent.Retry.Backoff.{next_wait, backoff_recurrence, jitter_bounded}
use you_mi_agent.Retry.Attempts.{EndsAfter, retry_async_ends}

-- The defaults of `RetryPolicy`, in milliseconds.
abbrev default_policy : RetryPolicy
default_policy = record {
  max_retries = 3;
  base_delay = 1000;
  max_delay = 60000;
  backoff = exponential;
  retryable_exceptions = "TimeoutError" ∷ "ConnectionError" ∷ [];
}

abbrev timeout : Exc
timeout = record { mro = "TimeoutError" ∷ "OSError" ∷ "Exception" ∷ []; text = "slow" }

-- An operation that fails twice and then returns 7.
abbrev flaky_fn : ℕ → Attempt ℕ
flaky_fn n = if n == 3 then returned 7 else raised timeout

abbrev flaky : Retry ℕ
flaky = record {
  fn = flaky_fn;
  policy = default_policy;
  is_retryable = none;
  on_retry = λ n e d. none;
  uniform = λ n. n;
}

retry_async_ends_example : (e : Ended ℕ) × (retry_async flaky ≡ some e) × EndsAfter flaky 0 e
retry_async_ends_example = retry_async_ends flaky (λ n d e. refl)

-- Two sleeps, of one second and of two.
flaky_run :
    retry_async flaky ≡ some (record { outcome = returned 7; calls = 3; slept = 1000 ∷ 2000 ∷ [] })
unfolding retry_async retryable is_retryable_by_policy delay_after
flaky_run = refl

backoff_recurrence_example :
    (compute_backoff_delay (λ n. n) 1 default_policy 0 ≡ min 1000 60000)
    × (compute_backoff_delay (λ n. n) 6 default_policy 0
        ≡ min
            (next_wait exponential 1000 (compute_backoff_delay (λ n. n) 5 default_policy 0))
            60000)
backoff_recurrence_example = backoff_recurrence (λ n. n) default_policy 5 (omega arith)

jitter_bounded_example :
    (compute_backoff_delay (λ n. n) 9 default_policy 0
      ≤ compute_backoff_delay (λ n. n) 9 default_policy 100)
    × (compute_backoff_delay (λ n. n) 9 default_policy 100
        ≤ compute_backoff_delay (λ n. n) 9 default_policy 0
          + compute_backoff_delay (λ n. n) 9 default_policy 0 * 100 / 1000)
jitter_bounded_example = jitter_bounded (λ n. n) default_policy 9 100 (λ k. omega arith)

-- Jitter passes the limit of the policy.
jitter_above_max : compute_backoff_delay (λ n. n) 9 default_policy 100 ≡ 66000
unfolding compute_backoff_delay
jitter_above_max = refl
