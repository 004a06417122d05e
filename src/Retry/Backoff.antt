-- ===== src/Retry/Backoff.antt =====
-- `compute_backoff_delay`: its bounds, its growth, and the jitter.
use you_mi_agent.Prelude.{
  zero, suc, ap, sym, ◌∙◌, ℕ, ◌+◌, ◌-◌, ◌*◌, ◌/◌, ◌≤◌, ◌≡◌, refl, min, arith,
}
use you_mi_agent.Retry.{
  BackoffStrategy, fixed, linear, exponential, RetryPolicy, unstretched, compute_backoff_delay,
}

-- What a strategy makes of the wait before: the same, a base more, or twice as much.
abbrev pub next_wait : BackoffStrategy → ℕ → ℕ → ℕ
next_wait fixed base d = d
next_wait linear base d = d + base
next_wait exponential base d = d + d

unstretched-next :
    (s : BackoffStrategy) (base n : ℕ)
    → 1 ≤ n
    → unstretched s base (n + 1) ≡ next_wait s base (unstretched s base n)
unfolding unstretched
unstretched-next fixed base n h = refl
unstretched-next linear base n h = grind arith
unstretched-next exponential base zero h = absurd (omega (arith, h))
unstretched-next exponential base (suc n) h =
    let raised : suc n + 1 - 1 ≡ suc n = omega arith in
    let before : suc n - 1 ≡ n = omega arith in rw (raised, before) (grind arith)

unstretched_first : (s : BackoffStrategy) (base : ℕ) → unstretched s base 1 ≡ base
unfolding unstretched
unstretched_first fixed base = refl
unstretched_first linear base = omega arith
unstretched_first exponential base = omega arith

next_wait-min :
    (s : BackoffStrategy) (base d limit : ℕ)
    → min (next_wait s base (min d limit)) limit ≡ min (next_wait s base d) limit
next_wait-min fixed base d limit = omega arith
next_wait-min linear base d limit = omega arith
next_wait-min exponential base d limit = omega arith

-- Without jitter the first wait is `base_delay`, and each later one is as long as the one before with
-- FIXED, `base_delay` longer with LINEAR and twice as long with EXPONENTIAL, all of them cut to
-- `max_delay`.
pub backoff_recurrence :
    (uniform : ℕ → ℕ) (p : RetryPolicy) (n : ℕ)
    → 1 ≤ n
    → (compute_backoff_delay uniform 1 p 0 ≡ min p.base_delay p.max_delay)
      × (compute_backoff_delay uniform (n + 1) p 0
          ≡ min
              (next_wait p.backoff p.base_delay (compute_backoff_delay uniform n p 0))
              p.max_delay)
unfolding compute_backoff_delay
backoff_recurrence uniform p n h =
    let base = p.base_delay in
    let before = unstretched p.backoff base n in
    (
      ap (λ d. min d p.max_delay) (unstretched_first p.backoff base),
      ap (λ d. min d p.max_delay) (unstretched-next p.backoff base n h)
          ∙ sym (next_wait-min p.backoff base before p.max_delay),
    )

-- If a draw from 0 to `n` is at most `n`, jitter lengthens a wait by at most its ratio.
pub jitter_bounded :
    (uniform : ℕ → ℕ) (p : RetryPolicy) (n jitter : ℕ)
    → ((k : ℕ) → uniform k ≤ k)
    → let d = compute_backoff_delay uniform n p 0 in
      (d ≤ compute_backoff_delay uniform n p jitter)
      × (compute_backoff_delay uniform n p jitter ≤ d + d * jitter / 1000)
unfolding compute_backoff_delay
jitter_bounded uniform p n jitter h =
    let d = min (unstretched p.backoff p.base_delay n) p.max_delay in
    ground (arith, h (d * jitter / 1000))
