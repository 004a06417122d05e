-- ===== src/Scheduler/Loops.antt =====
-- youmi/scheduler/__init__.py: the turns of the coroutines, `_run_task_loop`, `_execute_task` and
-- `run_once`.
use you_mi_agent.Prelude.{ℕ, suc, String, ◌&&◌, not, Option, none, some, ltb, if◌then◌else◌}
use you_mi_agent.Dict.{lookup}
use you_mi_agent.Scheduler.{
  TaskState, is_complete, Place, created, sleeping, executing, executing_once, finished, Scheduler,
  set_at, set_state, spawn,
}

-- `_execute_task` up to its first wait.
unfoldable pub begun : ℕ → TaskState → TaskState
begun now st = record st { run_count = suc st.run_count; last_run_at = now; last_error = none }

unfoldable pub move : ℕ → Place → Scheduler → Scheduler
unfolding set_at
move i p s = record s { places = set_at i p s.places }

-- `while self._running and not state.is_complete`
unfoldable pub loop_head : ℕ → ℕ → ℕ → Scheduler → Scheduler
unfolding is_complete move set_state begun
loop_head i now r s =
    if s.running && not (is_complete (s.states r))
    then move i (executing r) (set_state r (begun now (s.states r)) s)
    else move i finished s

-- `run_once` up to the first wait; a missing name is a `KeyError`.
unfoldable pub run_once : String → ℕ → Scheduler → Scheduler
unfolding spawn set_state begun
run_once name now s = elim (lookup name s.tasks) [
  | none ↦ s
  | some r ↦ spawn (executing_once r) (set_state r (begun now (s.states r)) s)
]

-- The begin of `_run_task_loop`, for the state that the name stands for.
unfoldable pub begin_loop : ℕ → ℕ → Option ℕ → Scheduler → Scheduler
unfolding loop_head move
begin_loop i now none s = move i finished s
begin_loop i now (some r) s =
    if ltb 0 (s.states r).task.delay_seconds then move i (sleeping r) s else loop_head i now r s

-- A loop goes on, from its begin or from a sleep.
unfoldable pub resume : ℕ → ℕ → Scheduler → Scheduler
unfolding begin_loop loop_head
resume i now s = elim (s.places i) [
  | created name ↦ begin_loop i now (lookup name s.tasks) s
  | sleeping r ↦ loop_head i now r s
  | _ ↦ s
]

pub data ExecutionEnd : Type 0 where
  returned : String → ExecutionEnd
  busy : ExecutionEnd
  raised : String → ExecutionEnd

unfoldable pub recorded : ExecutionEnd → TaskState → TaskState
recorded (returned result) st = record st { last_result = some result }
recorded busy st = record st { last_error = some "Agent is busy" }
recorded (raised text) st = record st { last_error = some text }

-- What `run_once` leaves: an exception goes to its caller.
unfoldable pub recorded_once : ExecutionEnd → TaskState → TaskState
unfolding recorded
recorded_once (returned result) st = recorded (returned result) st
recorded_once busy st = recorded busy st
recorded_once (raised text) st = st

-- An execution ends: the loop sleeps or ends.
unfoldable pub end_execution : ℕ → ExecutionEnd → Scheduler → Scheduler
unfolding recorded recorded_once set_state move
end_execution i e s = elim (s.places i) [
  | executing r ↦
      let s' = set_state r (recorded e (s.states r)) s in
      if ltb 0 (s'.states r).task.interval_seconds && s'.running
      then move i (sleeping r) s'
      else move i finished s'
  | executing_once r ↦ move i finished (set_state r (recorded_once e (s.states r)) s)
  | _ ↦ s
]
