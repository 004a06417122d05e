-- ===== src/Plan.antt =====
-- youmi/coordinator/plan.py: the model of a workflow, `StepStatus`, `WorkflowStep`, `StepResult` and
-- `WorkflowPlan`.
--
-- A step carries the fields that the scheduling reads; the texts that go to the agent unread
-- (system prompt, tools, environment, overrides) stay with the agent, which is a parameter of the
-- executor. Times are natural numbers of some small unit where the source has floats, and
-- `retry_count` is a natural number: a negative one runs no attempt in the source.
pub mod Order
pub mod Validate
pub mod Step
pub mod Executor
mod Examples
use you_mi_agent.Prelude.{
  ℕ, ◌-◌, String, Bool, true, false, Option, none, some, List, [], ◌∷◌, map, str_eq, if◌then◌else◌,
  any, ltb, ◌&&◌,
}

pub data StepStatus : Type 0 where
  pending running completed failed skipped : StepStatus

pub record WorkflowStep : Type 0 where
  pub step_id : String
  pub role : String
  pub task : String
  pub name : String
  pub depends_on : List String
  pub timeout : ℕ
  pub retry_count : ℕ
  pub retry_backoff : ℕ

-- `TaskResult` of youmi/core/models.py, as far as the executor reads it.
pub record TaskResult : Type 0 where
  pub success : Bool
  pub error : Option String

-- The texts that end up in `StepResult.error`, by how the executor makes them; `no_error` is `None`.
pub data StepError : Type 0 where
  no_error : StepError
  dependency_missing : String → StepError
  dependency_failed : String → StepError → StepError
  task_error : String → StepError
  timed_out_after : ℕ → StepError
  exception : String → StepError

pub record StepResult : Type 0 where
  pub step_id : String
  pub status : StepStatus
  pub agent_id : String
  pub task_result : Option TaskResult
  pub error : StepError
  pub started_at : ℕ
  pub finished_at : ℕ

-- `StepResult.success`
unfoldable pub is_completed : StepStatus → Bool
is_completed completed = true
is_completed _ = false

-- `StepResult.duration`; no step starts at 0 or ends before it starts.
unfoldable pub duration : StepResult → ℕ
duration r = if ltb 0 r.finished_at && ltb 0 r.started_at then r.finished_at - r.started_at else 0

pub record WorkflowPlan : Type 0 where
  pub name : String
  pub steps : List WorkflowStep

abbrev pub step_ids : List WorkflowStep → List String
step_ids [] = []
step_ids (s ∷ ss) = s.step_id ∷ step_ids ss

-- `x in xs`
abbrev pub is_in : String → List String → Bool
is_in x xs = any (λ y. str_eq y x) xs

-- `get_step`, and `_get_step` of the executor
unfoldable pub get_step : String → List WorkflowStep → Option WorkflowStep
get_step step_id [] = none
get_step step_id (s ∷ ss) = if str_eq s.step_id step_id then some s else get_step step_id ss
