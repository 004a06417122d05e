-- ===== src/Gateway/Worker/Streams.antt =====
-- What the worker's execution of a task brings to the subscribers of its events.
use you_mi_agent.Prelude.{
  ℕ, String, ◌≡◌, refl, sym, ap, ◌∙◌, Bool, false, Option, none, some, List, [], ◌∷◌, ◌++◌, arith,
  str_eq, eq_refl, any, map, select, if◌then◌else◌,
}
use mathlib.Core.List.{append-nil}
use you_mi_agent.Gateway.{TaskStatus, running, completed, failed, TaskRecord}
use you_mi_agent.Gateway.Worker.{Execution, returned, raised, cancelled, execute}
use you_mi_agent.Gateway.Events.{init, is_in, subscribe}
use you_mi_agent.Gateway.Events.Histories.{
  Op, op_publish, op_close, op_subscribe, op_remove, run, removes, received,
}
use you_mi_agent.Gateway.Events.Streams.{subscriber-received}

-- `_publish` for each value of the record, with the record as the event that is made of it.
unfoldable pub publishing : String → List TaskRecord → List (Op TaskRecord)
publishing id [] = []
publishing id (r ∷ rs) = op_publish id r ∷ publishing id rs

-- The calls that `_execute` makes of the event hub: a cancelled execution does not reach `close`.
unfoldable pub event_calls : String → ℕ → ℕ → Execution → TaskRecord → List (Op TaskRecord)
unfolding publishing
event_calls worker_id t u cancelled r = publishing r.task_id (execute worker_id t u cancelled r)
event_calls worker_id t u e r =
    publishing r.task_id (execute worker_id t u e r) ++ (op_close r.task_id ∷ [])

-- The signal of the end, unless the execution was cancelled.
abbrev pub end_signal : Execution → List (Option TaskRecord)
end_signal cancelled = []
end_signal _ = none ∷ []

-- The call publishes an event of this task, or closes it.
unfoldable pub concerns : String → Op TaskRecord → Bool
concerns id (op_publish other r) = str_eq other id
concerns id (op_close other) = str_eq other id
concerns id _ = false

received-select :
    (id : String) (ops : List (Op TaskRecord))
    → received id (select (concerns id) ops) ≡ received id ops
unfolding received concerns
received-select id [] = refl
received-select id (op_publish other r ∷ ops) = ground (arith, received-select id ops)
received-select id (op_close other ∷ ops) = ground (arith, received-select id ops)
received-select id (op_subscribe other ∷ ops) = received-select id ops
received-select id (op_remove other q ∷ ops) = received-select id ops

received-publishing :
    (id : String) (rs : List TaskRecord) (ops : List (Op TaskRecord))
    → received id (publishing id rs ++ ops) ≡ map some rs ++ received id ops
unfolding received publishing
received-publishing id [] ops = refl
received-publishing id (r ∷ rs) ops = ground (arith, eq_refl id, received-publishing id rs ops)

received-event_calls :
    (worker_id : String) (t u : ℕ) (e : Execution) (r : TaskRecord)
    → received r.task_id (event_calls worker_id t u e r)
      ≡ map some (execute worker_id t u e r) ++ end_signal e
unfolding event_calls received
received-event_calls worker_id t u (returned o) r = ground (
  arith,
  eq_refl r.task_id,
  received-publishing r.task_id (execute worker_id t u (returned o) r) (op_close r.task_id ∷ []),
)
received-event_calls worker_id t u (raised text) r = ground (
  arith,
  eq_refl r.task_id,
  received-publishing r.task_id (execute worker_id t u (raised text) r) (op_close r.task_id ∷ []),
)
received-event_calls worker_id t u cancelled r =
    let calls = publishing r.task_id (execute worker_id t u cancelled r) in
    ap (received r.task_id) (sym (append-nil calls))
    ∙ received-publishing r.task_id (execute worker_id t u cancelled r) []

-- What a subscriber sees of a status: `none` is the end of its stream.
abbrev pub seen_status : Option TaskRecord → Option TaskStatus
seen_status none = none
seen_status (some r) = some r.status

abbrev pub seen_of : Execution → List (Option TaskStatus)
seen_of (returned o) =
    some running ∷ some (if str_eq o.error "" then completed else failed) ∷ none ∷ []
seen_of (raised text) =
    some running ∷ some (if str_eq text "" then completed else failed) ∷ none ∷ []
seen_of cancelled = some running ∷ []

seen-execute :
    (worker_id : String) (t u : ℕ) (e : Execution) (r : TaskRecord)
    → map seen_status (map some (execute worker_id t u e r) ++ end_signal e) ≡ seen_of e
unfolding execute
seen-execute worker_id t u (returned o) r = refl
seen-execute worker_id t u (raised text) r = refl
seen-execute worker_id t u cancelled r = refl

-- After any history, a subscriber of a task that is not closed, over later calls of which those that
-- publish or close this task are its worker's, and which do not end its own stream, gets what the
-- worker publishes and the end: it sees the task running, then completed if the outcome has no error
-- text and failed otherwise, then the end of its stream. Of an execution that is cancelled it sees
-- the task running, and no end.
pub subscriber_of_execution :
    (past ops : List (Op TaskRecord)) (worker_id : String) (t u : ℕ) (e : Execution)
    (r : TaskRecord)
    → is_in r.task_id (run past init).closed ≡ false
    → any (removes (run past init).next) ops ≡ false
    → select (concerns r.task_id) ops ≡ event_calls worker_id t u e r
    → let h = run past init in
      let got = (run ops (subscribe r.task_id h).0).queues h.next in
      (got ≡ map some (execute worker_id t u e r) ++ end_signal e)
      × (map seen_status got ≡ seen_of e)
subscriber_of_execution past ops worker_id t u e r on mine calls =
    let got =
      (subscriber-received past ops r.task_id on mine).1
      ∙ sym (received-select r.task_id ops)
      ∙ ap (received r.task_id) calls
      ∙ received-event_calls worker_id t u e r in
    (got, ap (map seen_status) got ∙ seen-execute worker_id t u e r)
