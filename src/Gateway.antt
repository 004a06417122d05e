-- ===== src/Gateway.antt =====
-- youmi/gateway/models.py: the records of the task gateway. Free-form metadata is left out (nothing
-- reads it), and times are numbers of a clock that the caller reads.
pub mod Events
pub mod Pool
pub mod Registry
pub mod Wiring
pub mod Worker
mod Examples
use you_mi_agent.Prelude.{ℕ, ◌-◌, ◌*◌, String, Bool, true, false, Option, none, some, List}

pub data TaskStatus : Type 0 where
  queued running completed failed cancelled : TaskStatus

-- `TaskStatus.finished`
abbrev pub finished : TaskStatus → Bool
finished completed = true
finished failed = true
finished cancelled = true
finished _ = false

pub record TaskRecord : Type 0 where
  pub task_id : String
  pub task : String
  pub tenant : String
  pub status : TaskStatus
  pub result : String
  pub error : String
  pub iterations : ℕ
  pub tool_calls : List String
  pub worker_id : String
  pub created_at : ℕ
  pub started_at : Option ℕ
  pub finished_at : Option ℕ
