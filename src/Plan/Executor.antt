-- ===== src/Plan/Executor.antt =====
-- youmi/coordinator/plan.py, `WorkflowExecutor`: `execute` and `_execute_step`, with the layers
-- executed serially (`parallel=False`, or layers of one step).
--
-- `none` stands for the `KeyError` of `self._results[step_id]`, and `invalid` for the `ValueError` of a
-- plan that `validate` rejects.
pub mod Flat
pub mod Start
pub mod Deps
pub mod Settled
pub mod Outcome
pub mod Whole
pub mod Parallel
use you_mi_agent.Prelude.{
  ℕ, String, Bool, true, false, ◌&&◌, Option, none, some, List, [], ◌∷◌, ◌++◌, if◌then◌else◌,
}
use you_mi_agent.Dict.{Dict, lookup, insert}
use you_mi_agent.Plan.{
  StepStatus, pending, running, completed, failed, skipped, WorkflowStep, StepResult, StepError,
  no_error, dependency_missing, dependency_failed, WorkflowPlan, get_step,
}
use you_mi_agent.Plan.Validate.{PlanError, validate}
use you_mi_agent.Plan.Order.{get_execution_order}
use you_mi_agent.Plan.Step.{Workers, Event, Progress, run_step}

-- The state of the executor, and what was seen from outside so far.
pub record Execution : Type 0 where
  pub results : Dict StepResult
  pub agents : Dict String
  pub log : List Event

-- `StepResult(step_id=step.step_id)`
abbrev pub initial : String → StepResult
initial id = record {
  step_id = id;
  status = pending;
  agent_id = "";
  task_result = none;
  error = no_error;
  started_at = 0;
  finished_at = 0;
}

unfoldable pub initial_results : List WorkflowStep → Dict StepResult → Dict StepResult
initial_results [] d = d
initial_results (s ∷ ss) d = initial_results ss (insert s.step_id (initial s.step_id) d)

-- `dep_result.status in (StepStatus.FAILED, StepStatus.SKIPPED)`
unfoldable pub is_broken : StepStatus → Bool
is_broken failed = true
is_broken skipped = true
is_broken _ = false

-- The loop over `step.depends_on`: why the step is skipped, or `none` where it runs.
unfoldable pub blocked : Bool → Dict StepResult → List String → Option StepError
unfolding is_broken
blocked fail_fast d [] = none
blocked fail_fast d (dep ∷ deps) =
    let rest = blocked fail_fast d deps in
    elim (lookup dep d) [
      | none ↦ some (dependency_missing dep)
      | some r ↦
          if is_broken r.status && fail_fast then some (dependency_failed dep r.error) else rest
    ]

with_agent : String → Option String → Dict String → Dict String
with_agent sid none agents = agents
with_agent sid (some id) agents = insert sid id agents

-- An exception ends what follows.
abbrev pub and_then : Option Execution → (Execution → Option Execution) → Option Execution
and_then none f = none
and_then (some x) f = f x

-- The arguments of the executor, beside the plan's steps.
pub record Settings : Type 0 where
  pub fail_fast : Bool
  pub default_timeout : ℕ
  pub workers : Workers

module _ (c : Settings) (steps : List WorkflowStep) where
  -- The step is skipped, or it runs.
  conclude : WorkflowStep → Option StepError → StepResult → Execution → Execution
  unfolding with_agent
  conclude step (some why) r x = record x {
    results = insert step.step_id (record r { status = skipped; error = why }) x.results;
  }
  conclude step none r x =
      let p = run_step c.default_timeout c.workers step r in
      record {
        results = insert step.step_id p.result x.results;
        agents = with_agent step.step_id p.agent x.agents;
        log = x.log ++ p.log;
      }

  execute_found : WorkflowStep → Option StepResult → Execution → Option Execution
  unfolding conclude
  execute_found step none x = none
  execute_found step (some r) x =
      some (conclude step (blocked c.fail_fast x.results step.depends_on) r x)

  execute_known : Option WorkflowStep → Execution → Option Execution
  unfolding execute_found
  execute_known none x = some x
  execute_known (some step) x = execute_found step (lookup step.step_id x.results) x

  unfoldable pub execute_step : String → Execution → Option Execution
  unfolding execute_known
  execute_step sid x = execute_known (get_step sid steps) x

  unfoldable pub execute_layer_serial : List String → Execution → Option Execution
  unfolding execute_step
  execute_layer_serial [] x = some x
  execute_layer_serial (sid ∷ layer) x =
      and_then (execute_step sid x) (λ y. execute_layer_serial layer y)

  unfoldable pub execute_layers : List (List String) → Execution → Option Execution
  unfolding execute_layer_serial
  execute_layers [] x = some x
  execute_layers (layer ∷ layers) x =
      and_then (execute_layer_serial layer x) (λ y. execute_layers layers y)

-- `execute`, after the validation: the final state of the executor.
unfoldable pub execute_accepted : Settings → WorkflowPlan → Option Execution
unfolding initial_results execute_layers
execute_accepted c plan = elim (get_execution_order plan) [
  | none ↦ none
  | some layers ↦
      execute_layers c plan.steps layers
        (record { results = initial_results plan.steps []; agents = []; log = [] })
]

pub data ExecuteResult : Type 0 where
  invalid : List PlanError → ExecuteResult
  ended : Execution → ExecuteResult

after_execution : Option Execution → Option ExecuteResult
after_execution none = none
after_execution (some x) = some (ended x)

-- `if errors: raise ValueError(...)`, and the rest
after_validation : Settings → WorkflowPlan → Option (List PlanError) → Option ExecuteResult
unfolding execute_accepted after_execution
after_validation c plan none = none
after_validation c plan (some []) = after_execution (execute_accepted c plan)
after_validation c plan (some (e ∷ errors)) = some (invalid (e ∷ errors))

unfoldable pub execute : Settings → WorkflowPlan → Option ExecuteResult
unfolding after_validation validate
execute c plan = after_validation c plan (validate plan)
