-- ===== src/Plan/Examples.antt =====
-- The theorems on plans at a diamond of four steps.
use you_mi_agent.Prelude.{
  ℕ, String, ◌≡◌, refl, some, List, [], ◌∷◌, arith, concat, str_eq, if◌then◌else◌, true, none, All,
  ◌&&◌, not, ◌==◌,
}
use you_mi_agent.Plan.{WorkflowStep, WorkflowPlan, step_ids, is_in, get_step}
use you_mi_agent.Plan.Order.{get_execution_order}
use you_mi_agent.Plan.Validate.{cycle, validate}
use you_mi_agent.Plan.Validate.Ranked.{accepted-IsRanked}
use you_mi_agent.Plan.Validate.Exact.{ranked_accepted}
use you_mi_agent.Plan.Executor.Whole.{
  accepted_order, EndsSettled, execute_ends_settled, execute_ends_skipped,
}
use you_mi_agent.Plan.Order.Counting.{occurrences}
use you_mi_agent.Plan.Order.Edges.{IsUnique}
use you_mi_agent.Plan.Order.Sound.{Ordered}
use you_mi_agent.Plan.Order.Complete.{IsRanked}
use you_mi_agent.Plan.{completed, failed, skipped}
use you_mi_agent.Plan.Step.{AttemptEnd, answered, timed_out, raised, Workers, run_step}
use you_mi_agent.Plan.Step.Attempts.{EndsAt, run_step-EndsAt}
use you_mi_agent.Plan.Executor.{
  Settings, Execution, ended, execute_accepted, execute, initial, blocked,
}
use you_mi_agent.Plan.Executor.Outcome.{StatusFollows, status_in}

abbrev step_on : String → List String → WorkflowStep
step_on id deps = record {
  step_id = id;
  role = "worker";
  task = "t";
  name = "";
  depends_on = deps;
  timeout = 0;
  retry_count = 2;
  retry_backoff = 2;
}

abbrev pub diamond : WorkflowPlan
diamond = record {
  name = "diamond";
  steps =
      step_on "join" ("left" ∷ "right" ∷ [])
      ∷ step_on "left" ("root" ∷ [])
      ∷ step_on "right" ("root" ∷ [])
      ∷ step_on "root" []
      ∷ [];
}

abbrev rank : String → ℕ
rank x = if str_eq x "root" then 0 else if str_eq x "join" then 2 else 1

diamond_layers :
    get_execution_order diamond
    ≡ some (("root" ∷ []) ∷ ("left" ∷ "right" ∷ []) ∷ ("join" ∷ []) ∷ [])
unfolding get_execution_order
diamond_layers = refl

diamond-IsUnique : IsUnique diamond.steps
diamond-IsUnique = omega arith

diamond-IsRanked : IsRanked rank (step_ids diamond.steps) diamond.steps
diamond-IsRanked = (
  ((refl, omega arith), ((refl, omega arith), tt)),
  (((refl, omega arith), tt), (((refl, omega arith), tt), (tt, tt))),
)

-- "left" raises in every attempt, "right" answers in its third, the others at once.
abbrev attempt_of : String → ℕ → AttemptEnd
attempt_of sid n =
    if str_eq sid "left"
    then raised none "ValueError: no"
    else if str_eq sid "right" && not (n == 2)
    then timed_out "a"
    else answered "a" (record { success = true; error = none })

abbrev workers : Workers
workers = record { attempt = attempt_of; started = λ sid. 5; finished = λ sid. 9 }

abbrev pub settings : Settings
settings = record { fail_fast = true; default_timeout = 300; workers = workers }

diamond_statuses :
    elim (execute_accepted settings diamond) [
      | none ↦ []
      | some x ↦
          status_in x.results "root"
          ∷ status_in x.results "left"
          ∷ status_in x.results "right"
          ∷ status_in x.results "join"
          ∷ []
    ]
    ≡ some completed ∷ some failed ∷ some completed ∷ some skipped ∷ []
unfolding execute_accepted get_execution_order get_step blocked run_step
diamond_statuses = refl

run_step-EndsAt_example :
    let q = run_step 300 workers (step_on "right" []) (initial "right") in
    (k : ℕ) × EndsAt 300 workers (step_on "right" []) k q.result.status q.log
run_step-EndsAt_example = run_step-EndsAt 300 workers (step_on "right" []) (initial "right")

-- Two steps that wait for each other.
abbrev circle : WorkflowPlan
circle = record {
  name = "circle";
  steps = step_on "hen" ("egg" ∷ []) ∷ step_on "egg" ("hen" ∷ []) ∷ [];
}

circle_errors : validate circle ≡ some (cycle ("hen" ∷ "egg" ∷ "hen" ∷ []) ∷ [])
unfolding validate
circle_errors = refl

pub diamond_accepted : validate diamond ≡ some []
unfolding validate
diamond_accepted = refl

accepted_order_example :
    (layers : List (List String)) × (get_execution_order diamond ≡ some layers)
    × Ordered diamond.steps [] layers
    × ((x : String)
        → occurrences x (concat layers) ≡ (if is_in x (step_ids diamond.steps) then 1 else 0))
accepted_order_example = accepted_order diamond diamond_accepted

execute_ends_settled_example : EndsSettled settings diamond
execute_ends_settled_example = execute_ends_settled settings diamond

execute_ends_skipped_example :
    (x : Execution) × (execute settings diamond ≡ some (ended x))
    × All (λ s. StatusFollows s x.results) diamond.steps
execute_ends_skipped_example = execute_ends_skipped settings diamond refl diamond_accepted

accepted-IsRanked_example :
    (r : String → ℕ) × IsUnique diamond.steps × IsRanked r (step_ids diamond.steps) diamond.steps
accepted-IsRanked_example = accepted-IsRanked diamond diamond_accepted

ranked_accepted_example : validate diamond ≡ some []
ranked_accepted_example = ranked_accepted diamond rank diamond-IsUnique diamond-IsRanked
