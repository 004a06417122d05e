-- ===== src/Breaker/Invariant.antt =====
-- What holds of a breaker after any history of calls.
use you_mi_agent.Prelude.{
  ℕ, ◌≤◌, String, ◌≡◌, sym, subst, List, [], ◌∷◌, arith, Bool, true, false, ◌&&◌, leb,
}
use you_mi_agent.Breaker.{
  Config, ConfigIsValid, CircuitState, open_, half_open, Breaker, closed, init, before_call,
  record_success, record_failure, reset,
}
use you_mi_agent.Breaker.Calls.{
  Outcome, returned, raised_open, raised, cancelled, Event, begin, end, clear, after_call, step,
  run,
}

abbrev pub is_closed : CircuitState → Bool
is_closed closed = true
is_closed open_ = false
is_closed half_open = false

pub record IsSound (b : Breaker) : Type 0 where
  pub below_threshold :
      (is_closed b.state && leb b.config.failure_threshold b.failure_count) ≡ false
  pub trials_bounded : b.half_open_in_flight ≤ b.config.half_open_max_calls

pub init-IsSound : (name : String) (c : Config) → ConfigIsValid c → IsSound (init name c)
unfolding init
init-IsSound name c v = ground arith

module _ (b : Breaker) (v : ConfigIsValid b.config) (h : IsSound b) where
  before_call-IsSound : (now : ℕ) → IsSound (before_call now b).0
  unfolding before_call
  before_call-IsSound now = ground arith

  record_success-IsSound : IsSound (record_success b)
  unfolding record_success
  record_success-IsSound = ground arith

  record_failure-IsSound : (now : ℕ) → IsSound (record_failure now b)
  unfolding record_failure
  record_failure-IsSound now = ground arith

  after_call-IsSound : (o : Outcome) (now : ℕ) → IsSound (after_call o now b)
  unfolding after_call
  after_call-IsSound returned now = record_success-IsSound
  after_call-IsSound raised_open now = ground arith
  after_call-IsSound raised now = record_failure-IsSound now
  after_call-IsSound cancelled now = h

  step-IsSound : (e : Event) → IsSound (step b e)
  unfolding step
  step-IsSound (begin now) = before_call-IsSound now
  step-IsSound (end o now) = after_call-IsSound o now
  step-IsSound clear = unfold reset in ground arith

pub config-step : (b : Breaker) (e : Event) → (step b e).config ≡ b.config
unfolding step before_call after_call record_success record_failure reset
config-step b (begin now) = ground arith
config-step b (end returned now) = ground arith
config-step b (end raised now) = ground arith
config-step b e = ground arith

run-IsSound_from :
    (b : Breaker) (es : List Event) → ConfigIsValid b.config → IsSound b → IsSound (run b es)
unfolding run
run-IsSound_from b [] v h = h
run-IsSound_from b (e ∷ es) v h =
    run-IsSound_from (step b e) es (subst ConfigIsValid (sym (config-step b e)) v)
      (step-IsSound b v h e)

-- For a valid configuration, after any history of calls, ends and resets a closed breaker has
-- counted fewer failures than its threshold, and it holds at most `half_open_max_calls` trial slots.
pub run-IsSound :
    (name : String) (c : Config) (es : List Event)
    → ConfigIsValid c
    → IsSound (run (init name c) es)
run-IsSound name c es v =
    run-IsSound_from (init name c) es (unfold init in v) (init-IsSound name c v)
