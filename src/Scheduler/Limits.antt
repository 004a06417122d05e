-- ===== src/Scheduler/Limits.antt =====
-- `max_runs` bounds the runs of a task.
use you_mi_agent.Prelude.{
  ℕ, suc, ◌+◌, String, ◌≡◌, refl, subst, Bool, true, false, some, List, [], ◌∷◌, arith, count,
  Bool-cases, Option-cases, inl, inr, ◌==◌, is_some,
}
use you_mi_agent.Dict.{lookup}
use you_mi_agent.Scheduler.{
  ScheduledTask, TaskState, new_state, Scheduler, bind_agent, add_task, remove_task, enable_task,
  with_enabled, start, start_when, stop, set_state, set_at, spawn, init, get_task_state,
}
use you_mi_agent.Scheduler.Loops.{run_once, begun}
use you_mi_agent.Scheduler.Calls.{
  Op, op_bind, op_add, op_remove, op_enable, op_start, op_stop, op_cancel, op_run_once, op_resume,
  op_end, step, run, is_run_once,
}
use you_mi_agent.Scheduler.Bounds.{
  IsBounded, AllBounded, more-IsBounded, once-IsBounded, set_at-IsBounded, states-start_loops,
  states-cancel_loops, resume_at, end_at,
}

add_zero : (k : ℕ) → k + 0 ≡ k
add_zero k = omega arith

add_one : (k : ℕ) → k + 1 ≡ suc k
add_one k = omega arith

zero_add : (k : ℕ) → 0 + k ≡ k
zero_add k = omega arith

regroup :
    (k : ℕ) (op : Op) (ops : List Op)
    → (k + count is_run_once (op ∷ [])) + count is_run_once ops ≡ k + count is_run_once (op ∷ ops)
regroup k op ops = ground arith

module _ (k : ℕ) where
  add_task-AllBounded :
      (t : ScheduledTask) (s : Scheduler) → AllBounded k s → AllBounded k (add_task t s).0
  unfolding add_task new_state
  add_task-AllBounded t s h = elim (Bool-cases (is_some (lookup t.name s.tasks))) [
    | inl there ↦ rw (add_task, there) h
    | inr new ↦
        rw (add_task, new) (set_at-IsBounded k s.next (new_state t) s.states (inl (omega arith)) h)
  ]

  remove_task-AllBounded :
      (name : String) (s : Scheduler) → AllBounded k s → AllBounded k (remove_task name s).0
  unfolding remove_task set_state
  remove_task-AllBounded name s h = elim (Option-cases (lookup name s.tasks)) [
    | inl missing ↦ rw (remove_task, missing) h
    | inr (r, there) ↦
        rw (remove_task, there)
          (set_at-IsBounded k r (record (s.states r) { cancelled = true }) s.states (h r) h)
  ]

  enable_task-AllBounded :
      (name : String) (b : Bool) (s : Scheduler)
      → AllBounded k s
      → AllBounded k (enable_task name b s)
  unfolding enable_task set_state with_enabled
  enable_task-AllBounded name b s h = elim (Option-cases (lookup name s.tasks)) [
    | inl missing ↦ rw (enable_task, missing) h
    | inr (r, there) ↦
        rw (enable_task, there)
          (set_at-IsBounded k r (with_enabled b (s.states r)) s.states (h r) h)
  ]

  start_when-AllBounded :
      (b : Bool) (s : Scheduler) → AllBounded k s → AllBounded k (start_when b s).0
  unfolding start_when
  start_when-AllBounded true s h = h
  start_when-AllBounded false s h = elim (Bool-cases (is_some s.agent)) [
    | inl bound ↦
        rw (start_when, bound) (states-start_loops k s.tasks (record s { running = true }) h)
    | inr unbound ↦ rw (start_when, unbound) h
  ]

  run_once-AllBounded :
      (name : String) (now : ℕ) (s : Scheduler)
      → AllBounded k s
      → AllBounded (suc k) (run_once name now s)
  unfolding run_once spawn set_state
  run_once-AllBounded name now s h = elim (Option-cases (lookup name s.tasks)) [
    | inl missing ↦ rw (run_once, missing) (λ u. more-IsBounded k (s.states u) (h u))
    | inr (r, there) ↦ rw (run_once, there) (once_at r)
  ]
    where
      once_at : (r u : ℕ) → IsBounded (suc k) (set_at r (begun now (s.states r)) s.states u)
      once_at r u = elim (Bool-cases (u == r)) [
        | inl here ↦ unfold set_at in rw here (once-IsBounded k now (s.states r) (h r))
        | inr other ↦ unfold set_at in rw other (more-IsBounded k (s.states u) (h u))
      ]

step-AllBounded :
    (k : ℕ) (op : Op) (s : Scheduler)
    → AllBounded k s
    → AllBounded (k + count is_run_once (op ∷ [])) (step op s)
unfolding step is_run_once bind_agent stop start
step-AllBounded k (op_bind a) s h = rw add_zero h
step-AllBounded k (op_add t) s h = rw add_zero (add_task-AllBounded k t s h)
step-AllBounded k (op_remove name) s h = rw add_zero (remove_task-AllBounded k name s h)
step-AllBounded k (op_enable name b) s h = rw add_zero (enable_task-AllBounded k name b s h)
step-AllBounded k op_start s h = rw add_zero (start_when-AllBounded k s.running s h)
step-AllBounded k op_stop s h = rw add_zero h
step-AllBounded k (op_cancel is) s h = rw add_zero (states-cancel_loops k is s h)
step-AllBounded k (op_run_once name now) s h = rw add_one (run_once-AllBounded k name now s h)
step-AllBounded k (op_resume i now) s h = rw add_zero (resume_at k (s.places i) i now s refl h)
step-AllBounded k (op_end i e) s h = rw add_zero (end_at k (s.places i) i e s refl h)

run-AllBounded :
    (k : ℕ) (ops : List Op) (s : Scheduler)
    → AllBounded k s
    → AllBounded (k + count is_run_once ops) (run ops s)
unfolding run
run-AllBounded k [] s h = rw add_zero h
run-AllBounded k (op ∷ ops) s h =
    subst (λ n. AllBounded n (run ops (step op s))) (regroup k op ops)
      (run-AllBounded (k + count is_run_once (op ∷ [])) ops (step op s) (step-AllBounded k op s h))

-- After any history, a task with `max_runs` above zero has run at most that often, and as often again
-- as there were calls of `run_once`, which ask for no limit.
pub runs_within_limit :
    (ops : List Op) (name : String) (st : TaskState)
    → get_task_state name (run ops init) ≡ some st
    → IsBounded (count is_run_once ops) st
unfolding get_task_state init
runs_within_limit ops name st e =
    let all = run-AllBounded 0 ops init (λ r. inr refl) in
    elim (Option-cases (lookup name (run ops init).tasks)) [
      | inl missing ↦ absurd (ground (arith, e, missing))
      | inr (r, there) ↦
          let same : (run ops init).states r ≡ st = ground (arith, e, there) in
          subst (IsBounded (count is_run_once ops)) same (rw zero_add at (all r))
    ]
