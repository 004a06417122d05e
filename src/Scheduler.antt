-- ===== src/Scheduler.antt =====
-- youmi/scheduler/__init__.py: `HeartbeatScheduler`, which runs an agent's tasks at intervals.
--
-- A task's state is an object that a loop keeps when the task is taken out of the dict: its number
-- here. The coroutines (a loop for each task, and the calls of `run_once`) have numbers too, and
-- stand at one of the places where they wait; between two such places they are not interrupted. How
-- an execution ends, and the clock, are arguments.
pub mod Loops
pub mod Calls
pub mod Bounds
pub mod Limits
pub mod References
pub mod Unvisited
pub mod Additions
pub mod Examples
use you_mi_agent.Prelude.{
  ℕ, zero, suc, ◌+◌, String, Bool, true, false, ◌&&◌, ◌||◌, not, Option, none, some, List, [], ◌∷◌,
  leb, ltb, ◌==◌, is_some, if◌then◌else◌,
}
use you_mi_agent.Dict.{Dict, lookup, insert, remove, keys}

pub record ScheduledTask : Type 0 where
  pub name : String
  pub interval_seconds : ℕ
  pub task_description : String
  pub enabled : Bool
  pub max_runs : ℕ
  pub delay_seconds : ℕ

pub record TaskState : Type 0 where
  pub task : ScheduledTask
  pub run_count : ℕ
  pub last_run_at : ℕ
  pub last_result : Option String
  pub last_error : Option String
  pub cancelled : Bool

unfoldable pub new_state : ScheduledTask → TaskState
new_state t = record {
  task = t;
  run_count = 0;
  last_run_at = 0;
  last_result = none;
  last_error = none;
  cancelled = false;
}

unfoldable pub is_complete : TaskState → Bool
is_complete s =
    s.cancelled
    || (not s.task.enabled || (ltb 0 s.task.max_runs && leb s.task.max_runs s.run_count))

-- Where a coroutine stands: a loop that has not begun, a sleep, an execution (of a loop, or of
-- `run_once`), or its end.
pub data Place : Type 0 where
  created : String → Place
  sleeping : ℕ → Place
  executing : ℕ → Place
  executing_once : ℕ → Place
  finished : Place

pub record Scheduler : Type 0 where
  pub agent : Option String
  pub tasks : Dict ℕ
  pub states : ℕ → TaskState
  pub next : ℕ
  pub running : Bool
  pub places : ℕ → Place
  pub made : ℕ
  pub background : List ℕ

unfoldable pub set_at : {A : Type 0} → ℕ → A → (ℕ → A) → ℕ → A
set_at i a f j = if j == i then a else f j

-- What stands at a number that no object has yet.
abbrev nothing : TaskState
nothing = record {
  task = record {
    name = "";
    interval_seconds = 0;
    task_description = "";
    enabled = false;
    max_runs = 0;
    delay_seconds = 0;
  };
  run_count = 0;
  last_run_at = 0;
  last_result = none;
  last_error = none;
  cancelled = false;
}

unfoldable pub init : Scheduler
init = record {
  agent = none;
  tasks = [];
  states = λ i. nothing;
  next = 0;
  running = false;
  places = λ i. finished;
  made = 0;
  background = [];
}

unfoldable pub bind_agent : String → Scheduler → Scheduler
bind_agent a s = record s { agent = some a }

-- With whether it raised the `ValueError`.
unfoldable pub add_task : ScheduledTask → Scheduler → Scheduler × Bool
unfolding set_at new_state
add_task t s = if is_some (lookup t.name s.tasks) then (s, true) else (
  record s {
    tasks = insert t.name s.next s.tasks;
    states = set_at s.next (new_state t) s.states;
    next = suc s.next;
  },
  false,
)

unfoldable pub set_state : ℕ → TaskState → Scheduler → Scheduler
unfolding set_at
set_state r st s = record s { states = set_at r st s.states }

unfoldable pub remove_task : String → Scheduler → Scheduler × Bool
unfolding set_state
remove_task name s = elim (lookup name s.tasks) [
  | none ↦ (s, false)
  | some r ↦ (
    set_state r (record (s.states r) { cancelled = true })
        (record s { tasks = remove name s.tasks }),
    true,
  )
]

unfoldable pub with_enabled : Bool → TaskState → TaskState
with_enabled b st = record st { task = record st.task { enabled = b } }

unfoldable pub enable_task : String → Bool → Scheduler → Scheduler
unfolding set_state with_enabled
enable_task name b s = elim (lookup name s.tasks) [
  | none ↦ s
  | some r ↦ set_state r (with_enabled b (s.states r)) s
]

-- `asyncio.create_task(...)`
unfoldable pub spawn : Place → Scheduler → Scheduler
unfolding set_at
spawn p s = record s { places = set_at s.made p s.places; made = suc s.made }

-- The loop of `start` over the tasks.
unfoldable pub start_loops : Dict ℕ → Scheduler → Scheduler
unfolding is_complete spawn
start_loops [] s = s
start_loops ((name, r) ∷ d) s = start_loops d (
    if (s.states r).task.enabled && not (is_complete (s.states r))
    then record (spawn (created name) s) { background = s.made ∷ s.background }
    else s)

pub data StartEnd : Type 0 where
  started already_running no_agent : StartEnd

-- By whether it runs already.
unfoldable pub start_when : Bool → Scheduler → Scheduler × StartEnd
unfolding start_loops
start_when true s = (s, already_running)
start_when false s =
    if is_some s.agent
    then (start_loops s.tasks (record s { running = true }), started)
    else (s, no_agent)

unfoldable pub start : Scheduler → Scheduler × StartEnd
unfolding start_when
start s = start_when s.running s

-- `stop` up to its wait for the loops, which ends when all have ended or the time is over.
unfoldable pub stop : Scheduler → Scheduler
stop s = record s { running = false }

-- The rest of `stop`: the loops that it waited for and that have not ended are cancelled.
unfoldable pub cancel_loops : List ℕ → Scheduler → Scheduler
unfolding set_at
cancel_loops [] s = record s { background = [] }
cancel_loops (i ∷ is) s = cancel_loops is (record s { places = set_at i finished s.places })

unfoldable pub task_names : Scheduler → List String
task_names s = keys s.tasks

-- The state that `get_task_state` shows.
unfoldable pub get_task_state : String → Scheduler → Option TaskState
get_task_state name s = elim (lookup name s.tasks) [ none ↦ none | some r ↦ some (s.states r) ]
