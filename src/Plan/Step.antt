-- ===== src/Plan/Step.antt =====
-- youmi/coordinator/plan.py, `WorkflowExecutor._execute_step` from "RUNNING" on: the attempts of one
-- step with their waits and the time limit.
--
-- What the sub-agent does, and the clock, are arguments. The callbacks only look at the result, and
-- an exception that they raise is logged and dropped, so they are places in the log here. Cancellation of the executor
-- itself is left out.
pub mod Attempts
use you_mi_agent.Prelude.{
  ℕ, zero, suc, ◌+◌, ◌-◌, ◌*◌, ◌^◌, String, Bool, true, false, Option, none, some, List, [], ◌∷◌,
  ◌++◌, ltb, if◌then◌else◌,
}
use you_mi_agent.Plan.{
  StepStatus, pending, running, completed, failed, WorkflowStep, TaskResult, StepError, no_error,
  task_error, timed_out_after, exception, StepResult,
}

-- How one attempt ends: `agent.run` answers, `asyncio.wait_for` gives up, or something raises,
-- before or after the sub-agent (given by its `agent_id`) is made.
pub data AttemptEnd : Type 0 where
  answered : String → TaskResult → AttemptEnd
  timed_out : String → AttemptEnd
  raised : Option String → String → AttemptEnd

-- What the executor calls: the attempts of a step by their number, from 0, and `time.time()` where
-- a step begins and where it ends.
pub record Workers : Type 0 where
  pub attempt : String → ℕ → AttemptEnd
  pub started : String → ℕ
  pub finished : String → ℕ

-- What can be seen from outside, in order.
pub data Event : Type 0 where
  step_started : String → Event
  slept : ℕ → Event
  attempted : String → ℕ → Event
  step_finished : String → StepStatus → Event

-- The local state of the loop over the attempts, with `self._agents[step_id]`.
pub record Progress : Type 0 where
  pub result : StepResult
  pub agent : Option String
  pub last_error : StepError
  pub log : List Event

error_of : Option String → StepError
error_of none = no_error
error_of (some text) = task_error text

status_of : Bool → StepStatus
status_of true = completed
status_of false = failed

-- `if attempt > 0: ... await asyncio.sleep(backoff)`
wait_before : WorkflowStep → ℕ → List Event
wait_before step zero = []
wait_before step (suc n) = slept (step.retry_backoff * 2 ^ n) ∷ []

-- `step.timeout_seconds if step.timeout_seconds > 0 else self._default_timeout`
effective_timeout : ℕ → WorkflowStep → ℕ
effective_timeout default_timeout step =
    if ltb 0 step.timeout then step.timeout else default_timeout

with_agent : String → Progress → Progress
with_agent id p = record p { agent = some id; result = record p.result { agent_id = id } }

-- The body of the `try`, and its handlers.
after_attempt : ℕ → AttemptEnd → Progress → Progress
unfolding error_of status_of with_agent
after_attempt limit (answered id t) p =
    let q = with_agent id p in
    record q {
      result = record q.result {
        task_result = some t;
        status = status_of t.success;
        error = error_of t.error;
      };
      last_error = if t.success then q.last_error else error_of t.error;
    }
after_attempt limit (timed_out id) p = record (with_agent id p) {
  last_error = timed_out_after limit;
}
after_attempt limit (raised none text) p = record p { last_error = exception text }
after_attempt limit (raised (some id) text) p = record (with_agent id p) {
  last_error = exception text;
}

-- Whether the loop is left by `break`.
unfoldable pub succeeded : AttemptEnd → Bool
succeeded (answered id t) = t.success
succeeded _ = false

-- The `else` of the loop: the attempts are used up.
exhausted : Progress → Progress
exhausted p = record p { result = record p.result { status = failed; error = p.last_error } }

module _ (default_timeout : ℕ) (w : Workers) (step : WorkflowStep) where
  before_attempt : ℕ → Progress → Progress
  unfolding wait_before
  before_attempt n p = record p {
    log = p.log ++ (wait_before step n ++ (attempted step.step_id n ∷ []));
  }

  -- `for attempt in range(step.retry_count + 1)`, with `left` attempts to go from number `n` on.
  unfoldable pub attempts : ℕ → ℕ → Progress → Progress
  unfolding before_attempt after_attempt exhausted succeeded effective_timeout
  attempts zero n p = exhausted p
  attempts (suc left) n p =
      let end = w.attempt step.step_id n in
      let p' = after_attempt (effective_timeout default_timeout step) end (before_attempt n p) in
      let rest = attempts left (suc n) p' in if succeeded end then p' else rest

  -- "开始执行": from RUNNING to the completion callback.
  unfoldable pub run_step : StepResult → Progress
  unfolding attempts
  run_step r =
      let begun = record r { status = running; started_at = w.started step.step_id } in
      let p = attempts (suc step.retry_count) 0 (record {
        result = begun;
        agent = none;
        last_error = no_error;
        log = step_started step.step_id ∷ [];
      }) in
      record p {
        result = record p.result { finished_at = w.finished step.step_id };
        log = p.log ++ (step_finished step.step_id p.result.status ∷ []);
      }
