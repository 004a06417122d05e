-- ===== src/Retry.antt =====
-- youmi/core/resilience.py, `compute_backoff_delay`, `_is_retryable_by_policy` and `retry_async`;
-- youmi/core/types.py, `BackoffStrategy` and `RetryPolicy`.
--
-- Delays are whole numbers of some small unit of time where the source has floats; the overflow of
-- `2 ** (attempt - 1)` as a float, from attempt 1025 on, is left out. The operation
-- that is retried is a function from the number of the attempt to its result; the callback
-- `on_retry` answers `some x` where it raises `x`, which leaves the loop. Log lines are left out.
pub mod Backoff
pub mod Attempts
mod Examples
use you_mi_agent.Prelude.{
  ℕ, zero, suc, ◌+◌, ◌-◌, ◌*◌, ◌/◌, ◌^◌, min, String, Bool, true, false, not, ◌&&◌, ◌||◌, Option,
  none, some, List, [], ◌∷◌, ltb, str_eq, any, if◌then◌else◌,
}

pub data BackoffStrategy : Type 0 where
  fixed linear exponential : BackoffStrategy

pub record RetryPolicy : Type 0 where
  pub max_retries : ℕ
  pub base_delay : ℕ
  pub max_delay : ℕ
  pub backoff : BackoffStrategy
  pub retryable_exceptions : List String

unstretched : BackoffStrategy → ℕ → ℕ → ℕ
unstretched fixed base attempt = base
unstretched linear base attempt = base * attempt
unstretched exponential base attempt = base * 2 ^ (attempt - 1)

-- `compute_backoff_delay`. The jitter ratio is given in thousandths, and `uniform n` stands for
-- the draw `random.uniform(0.0, n)`.
unfoldable pub compute_backoff_delay : (ℕ → ℕ) → ℕ → RetryPolicy → ℕ → ℕ
unfolding unstretched
compute_backoff_delay uniform attempt policy jitter =
    let delay = min (unstretched policy.backoff policy.base_delay attempt) policy.max_delay in
    if ltb 0 jitter && ltb 0 delay then delay + uniform (delay * jitter / 1000) else delay

-- An exception: the names of the classes of `type(exc).__mro__`, and its text.
pub record Exc : Type 0 where
  pub mro : List String
  pub text : String

-- `name in names`
is_in : List String → String → Bool
is_in names name = any (λ n. str_eq n name) names

unfoldable pub is_retryable_by_policy : Exc → RetryPolicy → Bool
unfolding is_in
is_retryable_by_policy exc policy = any (is_in policy.retryable_exceptions) exc.mro

pub data Attempt {ℓ} (A : Type ℓ) : Type ℓ where
  returned : A → Attempt A
  raised : Exc → Attempt A

-- How the loop ends: its result, the number of calls of `fn`, and the sleeps in order.
pub record Ended {ℓ} (A : Type ℓ) : Type ℓ where
  pub outcome : Attempt A
  pub calls : ℕ
  pub slept : List ℕ

module _ {ℓ} {A : Type ℓ} where
  slept_first : ℕ → Option (Ended A) → Option (Ended A)
  slept_first d none = none
  slept_first d (some r) = if ltb 0 d then some (record r { slept = d ∷ r.slept }) else some r

  after_callback : Option Exc → ℕ → ℕ → Option (Ended A) → Option (Ended A)
  unfolding slept_first
  after_callback (some x) attempt d rest =
      some (record { outcome = raised x; calls = attempt; slept = [] })
  after_callback none attempt d rest = slept_first d rest

-- The arguments of `retry_async`.
pub record Retry {ℓ} (A : Type ℓ) : Type ℓ where
  pub fn : ℕ → Attempt A
  pub policy : RetryPolicy
  pub is_retryable : Option (Exc → Bool)
  pub on_retry : ℕ → Exc → ℕ → Option Exc
  pub uniform : ℕ → ℕ

module _ {ℓ} {A : Type ℓ} (r : Retry A) where
  unfoldable pub retryable : Exc → Bool
  retryable exc = elim r.is_retryable [
    | none ↦ is_retryable_by_policy exc r.policy
    | some f ↦ f exc
  ]

  -- The wait before the next attempt: no jitter.
  unfoldable pub delay_after : ℕ → ℕ
  unfolding compute_backoff_delay
  delay_after attempt = compute_backoff_delay r.uniform attempt r.policy 0

  -- One round of `while True`, given the rounds after it.
  round : Attempt A → ℕ → Option (Ended A) → Option (Ended A)
  unfolding after_callback
  round (returned a) attempt rest =
      some (record { outcome = returned a; calls = attempt; slept = [] })
  round (raised exc) attempt rest =
      if not (retryable exc) || ltb r.policy.max_retries attempt
      then some (record { outcome = raised exc; calls = attempt; slept = [] })
      else let d = delay_after attempt in after_callback (r.on_retry attempt exc d) attempt d rest

  -- The loop, for at most `fuel` rounds, from the given number of attempts made.
  loop : ℕ → ℕ → Option (Ended A)
  unfolding round
  loop zero made = none
  loop (suc fuel) made = let rest = loop fuel (made + 1) in round (r.fn (made + 1)) (made + 1) rest

  -- `retry_async`: `none` says that the rounds did not suffice.
  unfoldable pub retry_async : Option (Ended A)
  unfolding loop
  retry_async = loop (r.policy.max_retries + 1) 0
