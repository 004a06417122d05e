-- ===== src/Breaker.antt =====
-- youmi/core/resilience.py, `CircuitBreakerConfig` and `CircuitBreaker`.
--
-- The clock is a number read by the caller (`time.monotonic()` in the unit of the configuration), and
-- each method takes its reading as an argument. Times never run backwards in that clock, so the
-- stopped subtraction of `elapsed` compares as the source's does (`recovery_timeout_s > 0`).
-- Log lines and `__repr__` are left out.
pub mod Calls
pub mod Invariant
pub mod Trips
pub mod Recovery
pub mod Registry
mod Examples
use you_mi_agent.Prelude.{ℕ, ◌+◌, ◌-◌, ◌≤◌, String, Bool, Option, none, some, leb, if◌then◌else◌}

pub data CircuitState : Type 0 where
  closed open_ half_open : CircuitState

pub record Config : Type 0 where
  pub enabled : Bool
  pub failure_threshold : ℕ
  pub recovery_timeout : ℕ
  pub half_open_max_calls : ℕ

-- The `Field(ge=1)` and `Field(gt=0.0)` that pydantic checks.
pub record ConfigIsValid (c : Config) : Type 0 where
  pub threshold_pos : 1 ≤ c.failure_threshold
  pub recovery_pos : 1 ≤ c.recovery_timeout
  pub calls_pos : 1 ≤ c.half_open_max_calls

pub record Breaker : Type 0 where
  pub name : String
  pub config : Config
  pub state : CircuitState
  pub failure_count : ℕ
  pub success_count : ℕ
  pub opened_at : ℕ
  pub half_open_in_flight : ℕ
  pub total_success : ℕ
  pub total_failure : ℕ
  pub rejected : ℕ

-- `CircuitOpenError(name, retry_after_s)`
pub record CircuitOpenError : Type 0 where
  pub breaker : String
  pub retry_after : ℕ

-- `__init__`
unfoldable pub init : String → Config → Breaker
init name config = record {
  name = name;
  config = config;
  state = closed;
  failure_count = 0;
  success_count = 0;
  opened_at = 0;
  half_open_in_flight = 0;
  total_success = 0;
  total_failure = 0;
  rejected = 0;
}

reject : Breaker → ℕ → Breaker × Option CircuitOpenError
reject b after = (
  record b { rejected = b.rejected + 1 },
  some (record { breaker = b.name; retry_after = after }),
)

-- The last block of `before_call`: a trial needs a free slot.
admit_trial : Breaker → Breaker × Option CircuitOpenError
unfolding reject
admit_trial b =
    if leb b.config.half_open_max_calls b.half_open_in_flight
    then reject b 0
    else (record b { half_open_in_flight = b.half_open_in_flight + 1 }, none)

before_call_at : CircuitState → ℕ → Breaker → Breaker × Option CircuitOpenError
unfolding admit_trial reject
before_call_at closed now b = (b, none)
before_call_at open_ now b =
    let elapsed = now - b.opened_at in
    if leb b.config.recovery_timeout elapsed
    then admit_trial (record b { state = half_open; half_open_in_flight = 0; success_count = 0 })
    else reject b (b.config.recovery_timeout - elapsed)
before_call_at half_open now b = admit_trial b

-- `before_call`: `none` admits the call, `some e` raises `e`.
unfoldable pub before_call : ℕ → Breaker → Breaker × Option CircuitOpenError
unfolding before_call_at
before_call now b = if b.config.enabled then before_call_at b.state now b else (b, none)

-- `max(0, self._half_open_in_flight - 1)`
release : Breaker → Breaker
release b = record b { half_open_in_flight = b.half_open_in_flight - 1 }

record_success_at : CircuitState → Breaker → Breaker
unfolding release
record_success_at half_open b = record (release b) {
  success_count = b.success_count + 1;
  state = closed;
  failure_count = 0;
}
record_success_at _ b = record b { failure_count = 0 }

unfoldable pub record_success : Breaker → Breaker
unfolding record_success_at
record_success b =
    let b' = record b { total_success = b.total_success + 1 } in
    if b.config.enabled then record_success_at b.state b' else b'

-- `_trip`
trip : ℕ → Breaker → Breaker
trip now b = record b { state = open_; opened_at = now }

record_failure_at : CircuitState → ℕ → Breaker → Breaker
unfolding release trip
record_failure_at half_open now b = trip now (release b)
record_failure_at _ now b =
    let b' = record b { failure_count = b.failure_count + 1 } in
    if leb b.config.failure_threshold b'.failure_count then trip now b' else b'

unfoldable pub record_failure : ℕ → Breaker → Breaker
unfolding record_failure_at
record_failure now b =
    let b' = record b { total_failure = b.total_failure + 1 } in
    if b.config.enabled then record_failure_at b.state now b' else b'

unfoldable pub reset : Breaker → Breaker
reset b = record b { state = closed; failure_count = 0; success_count = 0; half_open_in_flight = 0 }
