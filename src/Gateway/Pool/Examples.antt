-- ===== src/Gateway/Pool/Examples.antt =====
-- The theorem on the queue at two records and one worker.
use you_mi_agent.Prelude.{◌+◌, String, ◌≡◌, ◌++◌, refl, none, some, List, [], ◌∷◌, length}
use you_mi_agent.Gateway.{TaskRecord, queued}
use you_mi_agent.Gateway.Pool.{Pool, init}
use you_mi_agent.Gateway.Pool.Histories.{Op, op_put, op_start, op_get, op_end, run, submitted}
use you_mi_agent.Gateway.Pool.Conservation.{queue_conserves}

abbrev task_record : String → TaskRecord
task_record id = record {
  task_id = id;
  task = "t";
  tenant = "default";
  status = queued;
  result = "";
  error = "";
  iterations = 0;
  tool_calls = [];
  worker_id = "";
  created_at = 0;
  started_at = none;
  finished_at = none;
}

abbrev calls : List Op
calls =
    op_put (task_record "a")
    ∷ op_start (λ i. "worker-0") 1
    ∷ op_put (task_record "b")
    ∷ op_get "worker-0"
    ∷ op_end "worker-0"
    ∷ op_put (task_record "c")
    ∷ op_get "worker-0"
    ∷ []

abbrev after_calls : Pool
after_calls = record {
  maxsize = 2;
  queue = task_record "c" ∷ [];
  unfinished = 2;
  worker_ids = "worker-0" ∷ [];
  busy = ("worker-0", task_record "b") ∷ [];
  taken = task_record "a" ∷ task_record "b" ∷ [];
}

reached : run calls (init 2) ≡ some after_calls
unfolding run init
reached = refl

queue_conserves_example :
    (after_calls.taken ++ after_calls.queue ≡ submitted calls)
    × (after_calls.unfinished ≡ length after_calls.queue + length after_calls.busy)
queue_conserves_example = queue_conserves 2 calls after_calls reached
