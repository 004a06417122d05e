-- ===== src/Breaker/Examples.antt =====
-- The theorems on the breaker at the default configuration of `CircuitBreakerConfig`.
use you_mi_agent.Prelude.{ℕ, ◌≡◌, refl, true, List, [], ◌∷◌, arith}
use you_mi_agent.Breaker.Registry.{Registry}
use you_mi_agent.Breaker.{
  Config, ConfigIsValid, Breaker, closed, open_, half_open, init, before_call, record_failure,
}
use you_mi_agent.Breaker.Calls.{
  returned, raised, cancelled, begin, end, clear, step, run, call, admitted, after_call,
}
use you_mi_agent.Breaker.Invariant.{IsSound, run-IsSound, init-IsSound}
use you_mi_agent.Breaker.Trips.{failures, trips_at_threshold}
use you_mi_agent.Breaker.Recovery.{
  trial_decides, admitted-half_open, cancelled_calls, cancelled_trials_block,
}

abbrev default_config : Config
default_config = record {
  enabled = true;
  failure_threshold = 5;
  recovery_timeout = 30;
  half_open_max_calls = 1;
}

default_config-IsValid : ConfigIsValid default_config
default_config-IsValid = omega arith

abbrev fresh : Breaker
fresh = init "llm" default_config

abbrev five_times : List ℕ
five_times = 1 ∷ 2 ∷ 3 ∷ 4 ∷ 5 ∷ []

abbrev tripped : Breaker
tripped = run fresh (failures five_times)

-- A trial has begun at time 40 and has not ended.
abbrev on_trial : Breaker
on_trial = run tripped (begin 40 ∷ [])

abbrev half_open_free : Breaker
half_open_free = record fresh { state = half_open }

tripped-opened_at : (tripped.state ≡ open_) × (tripped.opened_at ≡ 5)
unfolding run step after_call record_failure init
tripped-opened_at = (refl, refl)

run-IsSound_example :
    IsSound (run (init "llm" default_config) (begin 1 ∷ end raised 2 ∷ clear ∷ []))
run-IsSound_example =
    run-IsSound "llm" default_config (begin 1 ∷ end raised 2 ∷ clear ∷ []) default_config-IsValid

trips_at_threshold_example : (run fresh (failures five_times)).state ≡ open_
unfolding init
trips_at_threshold_example =
    trips_at_threshold fresh five_times refl refl
      (init-IsSound "llm" default_config default_config-IsValid)

trial_decides_example :
    ((call 35 36 returned tripped).1 ≡ true)
    × ((call 35 36 returned tripped).0.state ≡ closed)
    × ((call 35 36 returned tripped).0.failure_count ≡ 0)
    × ((call 35 36 raised tripped).1 ≡ true)
    × ((call 35 36 raised tripped).0.state ≡ open_)
    × ((call 35 36 raised tripped).0.opened_at ≡ 36)
unfolding run step after_call record_failure init
trial_decides_example = trial_decides tripped 35 36 default_config-IsValid refl refl (omega arith)

admitted-half_open_example : admitted half_open_free (7 ∷ 8 ∷ []) ≡ 1
unfolding init
admitted-half_open_example = admitted-half_open half_open_free (7 ∷ 8 ∷ []) refl refl

cancelled_trials_block_example :
    admitted (run half_open_free (cancelled_calls ((7, 8) ∷ []))) (100 ∷ 100000 ∷ []) ≡ 0
unfolding init
cancelled_trials_block_example =
    cancelled_trials_block half_open_free ((7, 8) ∷ []) (100 ∷ 100000 ∷ []) refl refl (omega arith)

abbrev one_breaker : Registry
one_breaker = record { default_config = default_config; breakers = ("llm", tripped) ∷ [] }

-- The same from an open breaker: a cancelled trial call leaves it refusing for ever.
cancelled_from_open : admitted (call 40 41 cancelled tripped).0 (1000 ∷ []) ≡ 0
unfolding call admitted run step after_call record_failure before_call init
cancelled_from_open = refl
