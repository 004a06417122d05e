-- ===== src/Breaker/Trips.antt =====
-- When a breaker opens, and what it refuses while it is open.
use you_mi_agent.Prelude.{
  ℕ, ◌+◌, ◌-◌, ◌≤◌, ◌<◌, ◌≡◌, refl, true, some, List, [], ◌∷◌, map, arith, ltb, if◌then◌else◌,
  length, All, Bool-cases, inl, inr,
}
use you_mi_agent.Breaker.{closed, open_, Breaker, before_call, record_failure, record_success}
use you_mi_agent.Breaker.Calls.{
  Event, returned, raised, begin, end, after_call, step, run, admitted,
}
use you_mi_agent.Breaker.Invariant.{IsSound}

-- Failures that are recorded one after the other, at the given times.
abbrev pub failures : List ℕ → List Event
failures = map (end raised)

-- Calls that begin at the given times, and do not end.
abbrev begins : List ℕ → List Event
begins = map begin

record IsOpen (b : Breaker) : Type 0 where
  enabled : b.config.enabled ≡ true
  opened : b.state ≡ open_

record_failure-IsOpen : (b : Breaker) (t : ℕ) → IsOpen b → IsOpen (record_failure t b)
unfolding record_failure
record_failure-IsOpen b t h = ground arith

failures-IsOpen : (b : Breaker) (ts : List ℕ) → IsOpen b → IsOpen (run b (failures ts))
unfolding run step after_call
failures-IsOpen b [] h = h
failures-IsOpen b (t ∷ ts) h = failures-IsOpen (record_failure t b) ts (record_failure-IsOpen b t h)

module _ (b : Breaker) (t : ℕ) (on : b.config.enabled ≡ true) (c : b.state ≡ closed) where
  record_failure_trips :
      b.config.failure_threshold ≤ b.failure_count + 1 → IsOpen (record_failure t b)
  unfolding record_failure
  record_failure_trips h = ground arith

  record_failure_counts :
      b.failure_count + 1 < b.config.failure_threshold
      → ((record_failure t b).config ≡ b.config)
        × ((record_failure t b).state ≡ closed)
        × ((record_failure t b).failure_count ≡ b.failure_count + 1)
  unfolding record_failure
  record_failure_counts h = ground arith

failures_open :
    (b : Breaker) (ts : List ℕ)
    → b.config.enabled ≡ true
    → b.state ≡ closed
    → b.failure_count < b.config.failure_threshold
    → (run b (failures ts)).state
      ≡ (if ltb (b.failure_count + length ts) b.config.failure_threshold then closed else open_)
unfolding run step after_call
failures_open b [] on c h = ground arith
failures_open b (t ∷ ts) on c h =
    elim (Bool-cases (ltb (b.failure_count + 1) b.config.failure_threshold)) [
      | inl low ↦
          ground (arith, record_failure_counts b t on c, failures_open (record_failure t b) ts)
      | inr high ↦ ground (
        arith,
        (failures-IsOpen (record_failure t b) ts
            (record_failure_trips b t on c (ground arith))).opened,
      )
    ]

-- In an enabled, sound and closed breaker, failures recorded one after the other open it exactly
-- when they and the failures counted before reach the threshold.
pub trips_at_threshold :
    (b : Breaker) (ts : List ℕ)
    → b.config.enabled ≡ true
    → b.state ≡ closed
    → IsSound b
    → (run b (failures ts)).state
      ≡ (if ltb (b.failure_count + length ts) b.config.failure_threshold then closed else open_)
trips_at_threshold b ts on c h = failures_open b ts on c (ground (arith, h.below_threshold, c))

-- In an enabled and closed breaker with a positive threshold, a success forgets the failures before
-- it: the failures after it open the breaker exactly when they reach the threshold by themselves.
pub success_forgets :
    (b : Breaker) (t : ℕ) (ts : List ℕ)
    → b.config.enabled ≡ true
    → b.state ≡ closed
    → 1 ≤ b.config.failure_threshold
    → (run b (end returned t ∷ failures ts)).state
      ≡ (if ltb (length ts) b.config.failure_threshold then closed else open_)
unfolding run step after_call record_success
success_forgets b t ts on c h = ground (arith, failures_open (record_success b) ts)

refused :
    (b : Breaker) (t : ℕ)
    → IsOpen b
    → 1 ≤ b.config.recovery_timeout
    → t < b.opened_at + b.config.recovery_timeout
    → before_call t b ≡ (
      record b { rejected = b.rejected + 1 },
      some (record {
        breaker = b.name;
        retry_after = b.config.recovery_timeout - (t - b.opened_at);
      }),
    )
unfolding before_call
refused b t h pos w = ground arith

-- While an enabled breaker with a positive timeout is open, calls that begin before `opened_at + recovery_timeout` are all
-- refused, and they change nothing but the count of refusals.
open_refuses :
    (b : Breaker) (ts : List ℕ)
    → b.config.enabled ≡ true
    → b.state ≡ open_
    → 1 ≤ b.config.recovery_timeout
    → All (λ t. t < b.opened_at + b.config.recovery_timeout) ts
    → (admitted b ts ≡ 0) × (run b (begins ts) ≡ record b { rejected = b.rejected + length ts })
unfolding run step admitted
open_refuses b [] on o pos h = (refl, ground arith)
open_refuses b (t ∷ ts) on o pos h =
    let again = open_refuses (record b { rejected = b.rejected + 1 }) ts on o pos h.1 in
    ground (arith, refused b t (record { enabled = on; opened = o }) pos h.0, again)
