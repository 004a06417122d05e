-- ===== src/Plan/Executor/Parallel/Examples.antt =====
-- The theorems on parallel layers at the diamond: the second layer has two steps.
use you_mi_agent.Prelude.{◌≡◌, refl, none, some, List, [], ◌∷◌, All}
use you_mi_agent.Dict.{lookup}
use you_mi_agent.Plan.Examples.{diamond, settings, diamond_accepted}
use you_mi_agent.Plan.{get_step}
use you_mi_agent.Plan.Order.{get_execution_order}
use you_mi_agent.Plan.Step.{run_step}
use you_mi_agent.Plan.Executor.{
  Execution, initial_results, execute_accepted, blocked, execute_layer_serial,
}
use you_mi_agent.Plan.Executor.Parallel.{Turn, begins, ends, execute_accepted_parallel}
use you_mi_agent.Plan.Executor.Parallel.Whole.{parallel_like_serial}

abbrev schedules : List (List Turn)
schedules = [] ∷ (begins "left" ∷ begins "right" ∷ ends "right" ∷ ends "left" ∷ []) ∷ [] ∷ []

abbrev start : Execution
start = record { results = initial_results diamond.steps []; agents = []; log = [] }

abbrev final : Execution
final = elim (execute_accepted_parallel settings diamond schedules) [ none ↦ start | some x ↦ x ]

ran : execute_accepted_parallel settings diamond schedules ≡ some final
unfolding execute_accepted_parallel get_execution_order get_step blocked run_step
    execute_layer_serial
ran = refl

parallel_like_serial_example :
    (x : Execution) × (execute_accepted settings diamond ≡ some x)
    × All (λ s. lookup s.step_id final.results ≡ lookup s.step_id x.results) diamond.steps
parallel_like_serial_example =
    parallel_like_serial settings diamond schedules final diamond_accepted ran
