-- ===== src/Scheduler/Calls.antt =====
-- What may happen to the scheduler: the calls of its methods, and the turns of its coroutines.
use you_mi_agent.Prelude.{ℕ, String, Bool, true, false, List, [], ◌∷◌}
use you_mi_agent.Scheduler.{
  ScheduledTask, Scheduler, bind_agent, add_task, remove_task, enable_task, start, stop,
  cancel_loops,
}
use you_mi_agent.Scheduler.Loops.{ExecutionEnd, run_once, resume, end_execution}

pub data Op : Type 0 where
  op_bind : String → Op
  op_add : ScheduledTask → Op
  op_remove : String → Op
  op_enable : String → Bool → Op
  op_start op_stop : Op
  op_cancel : List ℕ → Op
  op_run_once : String → ℕ → Op
  op_resume : ℕ → ℕ → Op
  op_end : ℕ → ExecutionEnd → Op

unfoldable pub step : Op → Scheduler → Scheduler
unfolding bind_agent add_task remove_task enable_task start stop cancel_loops run_once resume
    end_execution
step (op_bind a) s = bind_agent a s
step (op_add t) s = (add_task t s).0
step (op_remove name) s = (remove_task name s).0
step (op_enable name b) s = enable_task name b s
step op_start s = (start s).0
step op_stop s = stop s
step (op_cancel is) s = cancel_loops is s
step (op_run_once name now) s = run_once name now s
step (op_resume i now) s = resume i now s
step (op_end i e) s = end_execution i e s

unfoldable pub run : List Op → Scheduler → Scheduler
unfolding step
run [] s = s
run (op ∷ ops) s = run ops (step op s)

unfoldable pub is_run_once : Op → Bool
is_run_once (op_run_once name now) = true
is_run_once _ = false

unfoldable pub is_stop : Op → Bool
is_stop op_stop = true
is_stop _ = false
