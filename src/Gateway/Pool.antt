-- ===== src/Gateway/Pool.antt =====
-- youmi/gateway/queue.py, `InMemoryTaskQueue`, and the workers of youmi/gateway/worker.py that take
-- from it. What a worker publishes of a record is in Gateway/Worker.
--
-- The state keeps, beside the fields of the source, a log of the records that were taken.
pub mod Histories
pub mod Conservation
pub mod Examples
use you_mi_agent.Prelude.{
  ℕ, zero, suc, ◌+◌, ◌-◌, String, Bool, true, false, ◌&&◌, ◌||◌, not, Option, none, some, List, [],
  ◌∷◌, ◌++◌, str_eq, any, length, select, leb, ltb, ◌==◌, if◌then◌else◌,
}
use you_mi_agent.Gateway.{TaskRecord}

-- `maxsize` is 0 for a queue without a limit; `unfinished` is the counter of `join`.
pub record Pool : Type 0 where
  pub maxsize : ℕ
  pub queue : List TaskRecord
  pub unfinished : ℕ
  pub worker_ids : List String
  pub busy : List (String × TaskRecord)
  pub taken : List TaskRecord

unfoldable pub init : ℕ → Pool
init maxsize = record {
  maxsize = maxsize;
  queue = [];
  unfinished = 0;
  worker_ids = [];
  busy = [];
  taken = [];
}

unfoldable pub is_full : Pool → Bool
is_full p = ltb 0 p.maxsize && leb p.maxsize (length p.queue)

-- `put`: `none` where it waits.
unfoldable pub put : TaskRecord → Pool → Option Pool
unfolding is_full
put r p =
    if is_full p
    then none
    else some (record p { queue = p.queue ++ (r ∷ []); unfinished = suc p.unfinished })

unfoldable pub qsize : Pool → ℕ
qsize p = length p.queue

-- Whether `join` returns.
unfoldable pub joined : Pool → Bool
joined p = p.unfinished == 0

unfoldable pub is_in : String → List String → Bool
is_in x xs = any (λ y. str_eq y x) xs

unfoldable pub is_busy : String → List (String × TaskRecord) → Bool
is_busy w b = any (λ (e : String × TaskRecord). str_eq e.0 w) b

-- `self._worker_ids` after `start`, from worker `i` on
unfoldable pub named_workers : (ℕ → String) → ℕ → ℕ → List String
named_workers name i zero = []
named_workers name i (suc n) = name i ∷ named_workers name (suc i) n

unfoldable pub is_running : Pool → Bool
is_running p = elim p.worker_ids [ [] ↦ false | w ∷ ws ↦ true ]

unfoldable pub start : (ℕ → String) → ℕ → Pool → Pool
unfolding named_workers is_running
start name size p = if is_running p then p else record p { worker_ids = named_workers name 0 size }

-- `await self.queue.get()`, by an idle worker: `none` where it waits.
unfoldable pub take_first : String → List TaskRecord → Pool → Option Pool
take_first w [] p = none
take_first w (r ∷ rs) p =
    some (record p { queue = rs; busy = (w, r) ∷ p.busy; taken = p.taken ++ (r ∷ []) })

unfoldable pub get : String → Pool → Option Pool
unfolding is_in is_busy take_first
get w p = if is_in w p.worker_ids && not (is_busy w p.busy) then take_first w p.queue p else none

-- The worker's entry, taken out.
unfoldable pub without : String → List (String × TaskRecord) → List (String × TaskRecord)
without w [] = []
without w ((v, r) ∷ b) = let rest = without w b in if str_eq v w then b else (v, r) ∷ rest

-- `self.queue.task_done()`, which every end of `_execute` comes to: `none` for a worker that
-- executes nothing.
unfoldable pub end_task : String → Pool → Option Pool
unfolding is_busy without
end_task w p =
    if is_busy w p.busy
    then some (record p { busy = without w p.busy; unfinished = p.unfinished - 1 })
    else none

-- `stop` after its wait: every worker is cancelled, and one that executes calls `task_done`.
unfoldable pub stop : Pool → Pool
stop p = record p { worker_ids = []; busy = []; unfinished = p.unfinished - length p.busy }
