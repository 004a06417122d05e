-- ===== src/Scheduler/Examples.antt =====
-- The theorems on the scheduler at one task before and one task after `start`.
use you_mi_agent.Prelude.{String, ◌≡◌, refl, some, true, false, List, [], ◌∷◌, count}
use you_mi_agent.Scheduler.{ScheduledTask, TaskState, add_task, init, get_task_state}
use you_mi_agent.Scheduler.Loops.{returned, busy}
use you_mi_agent.Scheduler.Calls.{
  Op, op_bind, op_add, op_start, op_run_once, op_resume, op_end, run, is_run_once, is_stop,
}
use you_mi_agent.Scheduler.Bounds.{IsBounded}
use you_mi_agent.Scheduler.Limits.{runs_within_limit}
use you_mi_agent.Scheduler.Additions.{is_created, added_late_never_runs}

abbrev twice : String → ScheduledTask
twice name = record {
  name = name;
  interval_seconds = 60;
  task_description = "check";
  enabled = true;
  max_runs = 2;
  delay_seconds = 0;
}

-- The task runs twice in its loop and once more by hand; the loop then ends.
abbrev calls : List Op
calls =
    op_add (twice "check")
    ∷ op_bind "ann"
    ∷ op_start
    ∷ op_resume 0 1
    ∷ op_end 0 (returned "fine")
    ∷ op_resume 0 61
    ∷ op_run_once "check" 62
    ∷ op_end 0 busy
    ∷ op_resume 0 121
    ∷ []

abbrev last_state : TaskState
last_state = record {
  task = twice "check";
  run_count = 3;
  last_run_at = 62;
  last_result = some "fine";
  last_error = some "Agent is busy";
  cancelled = false;
}

reached : get_task_state "check" (run calls init) ≡ some last_state
unfolding get_task_state run init
reached = refl

runs_within_limit_example : IsBounded (count is_run_once calls) last_state
runs_within_limit_example = runs_within_limit calls "check" last_state reached

abbrev past : List Op
past = op_bind "ann" ∷ op_start ∷ []

abbrev later : List Op
later = op_start ∷ op_resume 0 1 ∷ op_end 0 (returned "fine") ∷ op_resume 1 2 ∷ []

added_late_never_runs_example :
    ((run later (add_task (twice "late") (run past init)).0).states (run past init).next).run_count
    ≡ 0
unfolding run init add_task is_created is_run_once is_stop
added_late_never_runs_example =
    added_late_never_runs past later (twice "late") refl (λ i. refl) refl refl refl
