-- ===== src/Gateway/Worker.antt =====
-- youmi/gateway/worker.py, `WorkerPool._execute`, and `submit` of youmi/gateway/service.py: the life
-- of one record. A record is shared by the registry, the queue and the worker; what each `_publish`
-- writes to the registry is a value of it, in order.
pub mod Life
pub mod Streams
use you_mi_agent.Prelude.{ℕ, String, Bool, none, some, List, [], ◌∷◌, str_eq, if◌then◌else◌}
use you_mi_agent.Gateway.{queued, running, completed, failed, TaskRecord}
use you_mi_agent.Gateway.Registry.{Registry, put}

-- `TaskOutcome` of youmi/gateway/executor.py
pub record TaskOutcome : Type 0 where
  pub output : String
  pub error : String
  pub iterations : ℕ
  pub tool_calls : List String

-- `TaskOutcome.success`
abbrev pub success : TaskOutcome → Bool
success o = str_eq o.error ""

-- How `await self._executor.execute(record)` ends; `raised` carries the text
-- `f"{type(exc).__name__}: {exc}"`, which is never empty.
pub data Execution : Type 0 where
  returned : TaskOutcome → Execution
  raised : String → Execution
  cancelled : Execution

pub started : String → ℕ → TaskRecord → TaskRecord
started worker_id now r = record r {
  status = running;
  started_at = some now;
  worker_id = worker_id;
}

pub ended : TaskOutcome → ℕ → TaskRecord → TaskRecord
ended o now r = record r {
  result = o.output;
  error = o.error;
  iterations = o.iterations;
  tool_calls = o.tool_calls;
  finished_at = some now;
  status = if success o then completed else failed;
}

-- The rest of `_execute` after the executor, for a record that is running.
after_execution : Execution → ℕ → TaskRecord → List TaskRecord
unfolding ended
after_execution (returned o) now r = ended o now r ∷ []
after_execution (raised text) now r =
    ended (record { output = ""; error = text; iterations = 0; tool_calls = [] }) now r ∷ []
after_execution cancelled now r = []

-- `_execute`: the values of the record that are published.
unfoldable pub execute : String → ℕ → ℕ → Execution → TaskRecord → List TaskRecord
unfolding started after_execution
execute worker_id t u e r = let r' = started worker_id t r in r' ∷ after_execution e u r'

-- The registry after them.
unfoldable pub publish_all : List TaskRecord → Registry → Registry
publish_all [] g = g
publish_all (r ∷ rs) g = publish_all rs (put r g)

-- `tenant or "default"`
or_default : String → String
or_default tenant = if str_eq tenant "" then "default" else tenant

-- `submit`: the record that is registered, published and queued. The identifier is the caller's,
-- or the one that `new_task_id` draws.
unfoldable pub submit : String → String → String → ℕ → Registry → Registry × TaskRecord
unfolding or_default
submit task_id task tenant now g =
    let r : TaskRecord = record {
      task_id = task_id;
      task = task;
      tenant = or_default tenant;
      status = queued;
      result = "";
      error = "";
      iterations = 0;
      tool_calls = [];
      worker_id = "";
      created_at = now;
      started_at = none;
      finished_at = none;
    } in
    (put r g, r)
