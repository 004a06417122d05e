-- ===== src/Plan/Executor/Parallel.antt =====
-- youmi/coordinator/plan.py, `_execute_layer_parallel`, and `execute` with `parallel=True`.
--
-- The coroutines of a layer take turns. A step begins with the check of its dependencies, up to
-- RUNNING, in one turn, and what comes after changes only its own result and its own agent, which
-- no other step of the layer reads: all of that is one more turn, in which the step ends. A list of
-- turns is a schedule; `none` stands for a list that is none, such as one that ends with steps
-- still running.
pub mod Simulated
pub mod Begins
pub mod Ends
pub mod Schedules
pub mod Whole
pub mod Examples
use you_mi_agent.Prelude.{
  ℕ, String, Bool, true, false, Option, none, some, List, [], ◌∷◌, ◌++◌, str_eq, ltb, length,
  if◌then◌else◌,
}
use you_mi_agent.Dict.{lookup, insert}
use you_mi_agent.Plan.{
  running, skipped, WorkflowStep, StepResult, StepError, WorkflowPlan, is_in, get_step,
}
use you_mi_agent.Plan.Order.{get_execution_order}
use you_mi_agent.Plan.Step.{run_step}
use you_mi_agent.Plan.Executor.{
  Settings, Execution, initial_results, blocked, with_agent, and_then, execute_layer_serial,
}

-- The steps of the layer that have not begun, those that run, and the executor.
pub record LayerState : Type 0 where
  pub waiting : List String
  pub busy : List String
  pub execution : Execution

pub data Turn : Type 0 where
  begins : String → Turn
  ends : String → Turn

unfoldable pub take_out : String → List String → List String
take_out sid [] = []
take_out sid (x ∷ xs) = let rest = take_out sid xs in if str_eq x sid then xs else x ∷ rest

unfoldable pub with_result : String → StepResult → Execution → Execution
with_result sid r x = record x { results = insert sid r x.results }

module _ (c : Settings) (steps : List WorkflowStep) where
  -- The result of a step at RUNNING.
  unfoldable pub begun : String → StepResult → StepResult
  begun sid r = record r { status = running; started_at = c.workers.started sid }

  -- Skipped for this reason, or running.
  unfoldable pub begin_checked : String → StepResult → Option StepError → LayerState → LayerState
  unfolding with_result begun
  begin_checked sid r (some why) l = record l {
    execution = with_result sid (record r { status = skipped; error = why }) l.execution;
  }
  begin_checked sid r none l = record l {
    busy = sid ∷ l.busy;
    execution = with_result sid (begun sid r) l.execution;
  }

  -- A `KeyError` is logged and dropped: `return_exceptions=True`.
  unfoldable pub begin_found : String → WorkflowStep → Option StepResult → LayerState → LayerState
  unfolding begin_checked
  begin_found sid step none l = l
  begin_found sid step (some r) l =
      begin_checked sid r (blocked c.fail_fast l.execution.results step.depends_on) l

  unfoldable pub begin_known : String → Option WorkflowStep → LayerState → LayerState
  unfolding begin_found
  begin_known sid none l = l
  begin_known sid (some step) l = begin_found sid step (lookup sid l.execution.results) l

  unfoldable pub end_with :
      String → Option WorkflowStep → Option StepResult → LayerState → LayerState
  unfolding with_agent
  end_with sid (some step) (some r) l =
      let x = l.execution in
      let p = run_step c.default_timeout c.workers step r in
      record l {
        execution = record {
          results = insert sid p.result x.results;
          agents = with_agent sid p.agent x.agents;
          log = x.log ++ p.log;
        };
      }
  end_with sid none r l = l
  end_with sid (some step) none l = l

  unfoldable pub turn : Turn → LayerState → Option LayerState
  unfolding begin_known end_with take_out
  turn (begins sid) l =
      if is_in sid l.waiting
      then some
          (begin_known sid (get_step sid steps) (record l { waiting = take_out sid l.waiting }))
      else none
  turn (ends sid) l =
      if is_in sid l.busy
      then some (
          end_with sid (get_step sid steps) (lookup sid l.execution.results)
            (record l { busy = take_out sid l.busy }))
      else none

  unfoldable pub turns : List Turn → LayerState → Option LayerState
  unfolding turn
  turns [] l = some l
  turns (t ∷ ts) l = elim (turn t l) [ none ↦ none | some l' ↦ turns ts l' ]

  -- `gather` waits for all.
  unfoldable pub gathered : LayerState → Option Execution
  gathered l = elim l.waiting [
    | [] ↦ elim l.busy [ [] ↦ some l.execution | x ∷ xs ↦ none ]
    | x ∷ xs ↦ none
  ]

  unfoldable pub execute_layer_parallel : List String → List Turn → Execution → Option Execution
  unfolding turns gathered
  execute_layer_parallel layer ts x =
      elim (turns ts (record { waiting = layer; busy = []; execution = x })) [
        | none ↦ none
        | some l ↦ gathered l
      ]

  unfoldable pub execute_layer : List String → List Turn → Execution → Option Execution
  unfolding execute_layer_parallel
  execute_layer layer ts x =
      if ltb 1 (length layer)
      then execute_layer_parallel layer ts x
      else execute_layer_serial c steps layer x

  -- With a schedule for each layer.
  unfoldable pub execute_layers_parallel :
      List (List String) → List (List Turn) → Execution → Option Execution
  unfolding execute_layer
  execute_layers_parallel [] ts x = some x
  execute_layers_parallel (layer ∷ layers) [] x = none
  execute_layers_parallel (layer ∷ layers) (t ∷ ts) x =
      and_then (execute_layer layer t x) (λ y. execute_layers_parallel layers ts y)

unfoldable pub execute_accepted_parallel :
    Settings → WorkflowPlan → List (List Turn) → Option Execution
unfolding initial_results execute_layers_parallel
execute_accepted_parallel c plan ts = elim (get_execution_order plan) [
  | none ↦ none
  | some layers ↦
      execute_layers_parallel c plan.steps layers ts
        (record { results = initial_results plan.steps []; agents = []; log = [] })
]
