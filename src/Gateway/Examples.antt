-- ===== src/Gateway/Examples.antt =====
-- The theorems on the gateway at a small registry.
use you_mi_agent.Prelude.{
  ◌≤◌, String, ◌≡◌, refl, some, none, [], ◌∷◌, arith, map, length, List, ◌++◌,
}
use you_mi_agent.Dict.{insert}
use you_mi_agent.Gateway.{TaskStatus, queued, running, failed, TaskRecord}
use you_mi_agent.Gateway.Registry.{Registry, new, put, get, list, total}
use you_mi_agent.Gateway.Registry.Eviction.{OldestGone, overflow, put-OldestGone}
use you_mi_agent.Gateway.Registry.Listing.{length-list}
use you_mi_agent.Gateway.Wiring.{registries}
use you_mi_agent.Gateway.Worker.{execute, publish_all, started, ended, returned, TaskOutcome}
use you_mi_agent.Gateway.Worker.Streams.{
  concerns, event_calls, seen_status, subscriber_of_execution,
}
use you_mi_agent.Gateway.Events.{init, is_in, subscribe}
use you_mi_agent.Gateway.Events.Histories.{
  Op, op_publish, op_close, op_subscribe, op_remove, run, removes,
}
use you_mi_agent.Gateway.Worker
use you_mi_agent.Gateway.Worker.Life.{get_cancelled}

abbrev task_at : String → TaskStatus → TaskRecord
task_at id status = record {
  task_id = id;
  task = "t";
  tenant = "acme";
  status = status;
  result = "";
  error = "";
  iterations = 0;
  tool_calls = [];
  worker_id = "";
  created_at = 1;
  started_at = none;
  finished_at = none;
}

-- Full, with one finished record, the second.
abbrev full : Registry
full = record {
  records = ("a", task_at "a" running) ∷ ("b", task_at "b" failed) ∷ [];
  max_records = 2;
}

abbrev next_task : TaskRecord
next_task = task_at "c" queued

put-OldestGone_example :
    OldestGone
      (overflow next_task full)
      (insert "c" next_task full.records)
      (put next_task full).records
put-OldestGone_example = put-OldestGone next_task full

length-list_example : length (list none none 1 full) ≤ 1
length-list_example = length-list none none 1 full (omega arith)

-- The service makes a registry of its own, and its pool a third one.
wiring_of_empty :
    let (service, pool) = registries 8 9 (some (record { object = 7; registry = new 5 })) in
    (service.object ≡ 8) × (service.registry ≡ new 1000) × (pool.object ≡ 9)
unfolding registries new total
wiring_of_empty = (refl, refl, refl)

get_cancelled_example :
    get "c" (publish_all (execute "w0" 6 7 Worker.cancelled next_task) full)
    ≡ some (record next_task { status = running; started_at = some 6; worker_id = "w0" })
get_cancelled_example = get_cancelled next_task "w0" 6 7 full

abbrev bad : TaskOutcome
bad = record { output = ""; error = "boom"; iterations = 1; tool_calls = [] }

-- A subscription before the worker takes the task, and calls for other tasks between the worker's.
abbrev calls_around : List (Op TaskRecord)
calls_around =
    op_subscribe "c"
    ∷ op_publish "c" (started "w0" 6 next_task)
    ∷ op_publish "d" (task_at "d" running)
    ∷ op_publish "c" (ended bad 7 (started "w0" 6 next_task))
    ∷ op_close "d"
    ∷ op_close "c"
    ∷ op_remove "d" 0
    ∷ []

subscriber_of_execution_example :
    let h = run (op_subscribe "d" ∷ []) init in
    let got = (run calls_around (subscribe "c" h).0).queues h.next in
    (got ≡ map some (execute "w0" 6 7 (returned bad) next_task) ++ none ∷ [])
    × (map seen_status got ≡ some running ∷ some failed ∷ none ∷ [])
unfolding run init is_in removes concerns event_calls execute
subscriber_of_execution_example =
    subscriber_of_execution (op_subscribe "d" ∷ []) calls_around "w0" 6 7 (returned bad) next_task
      refl refl refl
