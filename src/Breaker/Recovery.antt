-- ===== src/Breaker/Recovery.antt =====
-- How an open breaker is tried again, and what a cancelled trial leaves behind.
use you_mi_agent.Prelude.{
  ℕ, ◌+◌, ◌-◌, ◌≤◌, ◌<◌, ◌≡◌, true, none, List, [], ◌∷◌, arith, leb, length, is_some, min,
  Bool-cases, inl, inr,
}
use you_mi_agent.Breaker.{
  ConfigIsValid, closed, open_, half_open, Breaker, before_call, record_success, record_failure,
}
use you_mi_agent.Breaker.Calls.{
  returned, raised, cancelled, Event, begin, end, after_call, step, run, call, admitted,
}

-- In an enabled and open breaker whose timeout has passed, a call runs: it closes the breaker and
-- forgets the failures if it returns, and it opens the breaker again, from the time of its failure,
-- if it raises.
pub trial_decides :
    (b : Breaker) (t u : ℕ)
    → ConfigIsValid b.config
    → b.config.enabled ≡ true
    → b.state ≡ open_
    → b.opened_at + b.config.recovery_timeout ≤ t
    → ((call t u returned b).1 ≡ true)
      × ((call t u returned b).0.state ≡ closed)
      × ((call t u returned b).0.failure_count ≡ 0)
      × ((call t u raised b).1 ≡ true)
      × ((call t u raised b).0.state ≡ open_)
      × ((call t u raised b).0.opened_at ≡ u)
unfolding call before_call after_call record_success record_failure
trial_decides b t u v on o h = ground arith

module _ (b : Breaker) (t : ℕ) (on : b.config.enabled ≡ true) (half : b.state ≡ half_open) where
  before_call_free :
      b.half_open_in_flight < b.config.half_open_max_calls
      → before_call t b ≡ (record b { half_open_in_flight = b.half_open_in_flight + 1 }, none)
  unfolding before_call
  before_call_free h = ground arith

  before_call_full :
      b.config.half_open_max_calls ≤ b.half_open_in_flight
      → (is_some (before_call t b).1 ≡ true)
        × ((before_call t b).0 ≡ record b { rejected = b.rejected + 1 })
  unfolding before_call
  before_call_full h = ground arith

-- In an enabled half-open breaker, of the calls that begin and have not ended exactly as many are
-- admitted as there are free trial slots.
pub admitted-half_open :
    (b : Breaker) (ts : List ℕ)
    → b.config.enabled ≡ true
    → b.state ≡ half_open
    → admitted b ts ≡ min (length ts) (b.config.half_open_max_calls - b.half_open_in_flight)
unfolding admitted
admitted-half_open b [] on half = omega arith
admitted-half_open b (t ∷ ts) on half =
    elim (Bool-cases (leb b.config.half_open_max_calls b.half_open_in_flight)) [
      | inl full ↦ ground (
        arith,
        before_call_full b t on half,
        admitted-half_open (record b { rejected = b.rejected + 1 }) ts on half,
      )
      | inr free ↦ ground (
        arith,
        before_call_free b t on half,
        admitted-half_open (record b { half_open_in_flight = b.half_open_in_flight + 1 }) ts on
            half,
      )
    ]

-- Calls that begin at the first time of a pair and are cancelled at the second.
abbrev pub cancelled_calls : List (ℕ × ℕ) → List Event
cancelled_calls [] = []
cancelled_calls ((t, u) ∷ ts) = begin t ∷ end cancelled u ∷ cancelled_calls ts

cancelled_leaks :
    (b : Breaker) (ts : List (ℕ × ℕ))
    → b.config.enabled ≡ true
    → b.state ≡ half_open
    → let b' = run b (cancelled_calls ts) in
      (b'.config ≡ b.config)
      × (b'.state ≡ half_open)
      × (min b.config.half_open_max_calls (b.half_open_in_flight + length ts)
          ≤ b'.half_open_in_flight)
unfolding run step after_call
cancelled_leaks b [] on half = ground arith
cancelled_leaks b ((t, u) ∷ ts) on half =
    elim (Bool-cases (leb b.config.half_open_max_calls b.half_open_in_flight)) [
      | inl full ↦ ground (
        arith,
        before_call_full b t on half,
        cancelled_leaks (record b { rejected = b.rejected + 1 }) ts on half,
      )
      | inr free ↦ ground (
        arith,
        before_call_free b t on half,
        cancelled_leaks (record b { half_open_in_flight = b.half_open_in_flight + 1 }) ts on half,
      )
    ]

-- A cancelled trial keeps its slot. Once an enabled half-open breaker has seen as many cancelled
-- calls as it has trial slots, it refuses every later call that begins, at whatever time.
pub cancelled_trials_block :
    (b : Breaker) (ts : List (ℕ × ℕ)) (us : List ℕ)
    → b.config.enabled ≡ true
    → b.state ≡ half_open
    → b.config.half_open_max_calls ≤ length ts
    → admitted (run b (cancelled_calls ts)) us ≡ 0
cancelled_trials_block b ts us on half h =
    let b' = run b (cancelled_calls ts) in
    ground (arith, cancelled_leaks b ts on half, admitted-half_open b' us)
