-- ===== src/Scheduler/References.antt =====
-- The dict and the coroutines refer only to states that there are.
use you_mi_agent.Prelude.{
  ℕ, suc, ◌<◌, String, ◌≡◌, refl, Bool, true, false, ◌&&◌, not, Option, none, some, List, [], ◌∷◌,
  arith, ltb, Bool-cases, Option-cases, inl, inr, is_some, ◌==◌,
}
use you_mi_agent.Dict.{Dict, lookup, lookup-insert, lookup-remove}
use you_mi_agent.Scheduler.{
  ScheduledTask, TaskState, is_complete, Place, created, sleeping, executing, executing_once,
  finished, Scheduler, bind_agent, add_task, remove_task, enable_task, start, start_when,
  start_loops, stop, cancel_loops, set_state, set_at, spawn, init,
}
use you_mi_agent.Scheduler.Loops.{
  ExecutionEnd, run_once, resume, end_execution, recorded, loop_head, begin_loop, move,
}
use you_mi_agent.Scheduler.Calls.{
  Op, op_bind, op_add, op_remove, op_enable, op_start, op_stop, op_cancel, op_run_once, op_resume,
  op_end, step, run,
}

unfoldable pub place_below : ℕ → Place → Bool
place_below n (created name) = true
place_below n (sleeping q) = ltb q n
place_below n (executing q) = ltb q n
place_below n (executing_once q) = ltb q n
place_below n finished = true

pub record Below (s : Scheduler) : Type 0 where
  pub named : (name : String) (q : ℕ) → lookup name s.tasks ≡ some q → q < s.next
  pub placed : (i : ℕ) → place_below s.next (s.places i) ≡ true

set_at-below :
    (n i : ℕ) (p : Place) (f : ℕ → Place)
    → place_below n p ≡ true
    → ((j : ℕ) → place_below n (f j) ≡ true)
    → (j : ℕ) → place_below n (set_at i p f j) ≡ true
unfolding set_at
set_at-below n i p f b h j = elim (Bool-cases (j == i)) [
  | inl here ↦ rw (set_at, here) b
  | inr other ↦ rw (set_at, other) (h j)
]

-- A coroutine moves, and states change.
moved-Below :
    (i : ℕ) (p : Place) (f : ℕ → TaskState) (s : Scheduler)
    → place_below s.next p ≡ true
    → Below s
    → Below (record s { places = set_at i p s.places; states = f })
moved-Below i p f s b h = record {
  named = h.named;
  placed = set_at-below s.next i p s.places b h.placed;
}

place_below-more : (n : ℕ) (p : Place) → place_below n p ≡ true → place_below (suc n) p ≡ true
unfolding place_below
place_below-more n (created name) h = refl
place_below-more n (sleeping q) h = ground (arith, h)
place_below-more n (executing q) h = ground (arith, h)
place_below-more n (executing_once q) h = ground (arith, h)
place_below-more n finished h = refl

add_task-Below : (t : ScheduledTask) (s : Scheduler) → Below s → Below (add_task t s).0
unfolding add_task
add_task-Below t s h = elim (Bool-cases (is_some (lookup t.name s.tasks))) [
  | inl there ↦ rw (add_task, there) h
  | inr new ↦
      rw (add_task, new)
        (record {
          named = λ name q e.
              ground (arith, e, h.named name q, lookup-insert t.name name s.next s.tasks);
          placed = λ i. place_below-more s.next (s.places i) (h.placed i);
        })
]

remove_task-Below : (name : String) (s : Scheduler) → Below s → Below (remove_task name s).0
unfolding remove_task set_state
remove_task-Below name s h = elim (Option-cases (lookup name s.tasks)) [
  | inl missing ↦ rw (remove_task, missing) h
  | inr (r, there) ↦
      rw (remove_task, there)
        (record {
          named = λ n q e. ground (arith, e, h.named n q, lookup-remove name n s.tasks);
          placed = h.placed;
        })
]

enable_task-Below :
    (name : String) (b : Bool) (s : Scheduler) → Below s → Below (enable_task name b s)
unfolding enable_task set_state
enable_task-Below name b s h = elim (Option-cases (lookup name s.tasks)) [
  | inl missing ↦ rw (enable_task, missing) h
  | inr (r, there) ↦ rw (enable_task, there) (record { named = h.named; placed = h.placed })
]

start_loops-Below : (d : Dict ℕ) (s : Scheduler) → Below s → Below (start_loops d s)
unfolding start_loops spawn place_below
start_loops-Below [] s h = h
start_loops-Below ((name, r) ∷ d) s h =
    elim (Bool-cases ((s.states r).task.enabled && not (is_complete (s.states r)))) [
      | inl on ↦
          rw (start_loops, on)
            (start_loops-Below d
              (record (spawn (created name) s) { background = s.made ∷ s.background })
              (record {
                named = h.named;
                placed = set_at-below s.next s.made (created name) s.places refl h.placed;
              }))
      | inr off ↦ rw (start_loops, off) (start_loops-Below d s h)
    ]

start_when-Below : (b : Bool) (s : Scheduler) → Below s → Below (start_when b s).0
unfolding start_when
start_when-Below true s h = h
start_when-Below false s h = elim (Bool-cases (is_some s.agent)) [
  | inl bound ↦
      rw (start_when, bound)
        (start_loops-Below s.tasks (record s { running = true })
          (record { named = h.named; placed = h.placed }))
  | inr unbound ↦ rw (start_when, unbound) h
]

cancel_loops-Below : (is : List ℕ) (s : Scheduler) → Below s → Below (cancel_loops is s)
unfolding cancel_loops place_below
cancel_loops-Below [] s h = record { named = h.named; placed = h.placed }
cancel_loops-Below (i ∷ is) s h =
    cancel_loops-Below is (record s { places = set_at i finished s.places })
      (record { named = h.named; placed = set_at-below s.next i finished s.places refl h.placed })

run_once-Below : (name : String) (now : ℕ) (s : Scheduler) → Below s → Below (run_once name now s)
unfolding run_once spawn set_state place_below
run_once-Below name now s h = elim (Option-cases (lookup name s.tasks)) [
  | inl missing ↦ rw (run_once, missing) h
  | inr (r, there) ↦
      rw (run_once, there)
        (record {
          named = h.named;
          placed =
              set_at-below s.next s.made (executing_once r) s.places
                (ground (arith, h.named name r there)) h.placed;
        })
]

loop_head-Below : (i now r : ℕ) (s : Scheduler) → r < s.next → Below s → Below (loop_head i now r s)
unfolding loop_head move set_state place_below
loop_head-Below i now r s b h = elim (Bool-cases (s.running && not (is_complete (s.states r)))) [
  | inl on ↦ rw (loop_head, on) (moved-Below i (executing r) _ s (ground (arith, b)) h)
  | inr off ↦ rw (loop_head, off) (moved-Below i finished s.states s refl h)
]

begin_loop-Below :
    (i now : ℕ) (o : Option ℕ) (s : Scheduler)
    → ((q : ℕ) → o ≡ some q → q < s.next)
    → Below s
    → Below (begin_loop i now o s)
unfolding begin_loop move place_below
begin_loop-Below i now none s b h = moved-Below i finished s.states s refl h
begin_loop-Below i now (some r) s b h = elim (Bool-cases (ltb 0 (s.states r).task.delay_seconds)) [
  | inl on ↦
      rw (begin_loop, on) (moved-Below i (sleeping r) s.states s (ground (arith, b r refl)) h)
  | inr off ↦ rw (begin_loop, off) (loop_head-Below i now r s (b r refl) h)
]

resume_at :
    (p : Place) (i now : ℕ) (s : Scheduler)
    → s.places i ≡ p
    → place_below s.next p ≡ true
    → Below s
    → Below (resume i now s)
unfolding resume place_below
resume_at (created name) i now s e b h =
    rw (resume, e) (begin_loop-Below i now (lookup name s.tasks) s (h.named name) h)
resume_at (sleeping r) i now s e b h =
    rw (resume, e) (loop_head-Below i now r s (ground (arith, b)) h)
resume_at (executing r) i now s e b h = rw (resume, e) h
resume_at (executing_once r) i now s e b h = rw (resume, e) h
resume_at finished i now s e b h = rw (resume, e) h

end_at :
    (p : Place) (i : ℕ) (x : ExecutionEnd) (s : Scheduler)
    → s.places i ≡ p
    → place_below s.next p ≡ true
    → Below s
    → Below (end_execution i x s)
unfolding end_execution place_below
end_at (executing r) i x s e b h =
    let s' : Scheduler = set_state r (recorded x (s.states r)) s in
    elim (Bool-cases (ltb 0 (s'.states r).task.interval_seconds && s'.running)) [
      | inl on ↦
          rw (end_execution, e, on) (unfold move set_state in moved-Below i (sleeping r) _ s b h)
      | inr off ↦
          rw (end_execution, e, off) (unfold move set_state in moved-Below i finished _ s refl h)
    ]
end_at (executing_once r) i x s e b h =
    rw (end_execution, e) (unfold move set_state in moved-Below i finished _ s refl h)
end_at (created name) i x s e b h = rw (end_execution, e) h
end_at (sleeping r) i x s e b h = rw (end_execution, e) h
end_at finished i x s e b h = rw (end_execution, e) h

step-Below : (op : Op) (s : Scheduler) → Below s → Below (step op s)
unfolding step bind_agent stop start
step-Below (op_bind a) s h = record { named = h.named; placed = h.placed }
step-Below (op_add t) s h = add_task-Below t s h
step-Below (op_remove name) s h = remove_task-Below name s h
step-Below (op_enable name b) s h = enable_task-Below name b s h
step-Below op_start s h = start_when-Below s.running s h
step-Below op_stop s h = record { named = h.named; placed = h.placed }
step-Below (op_cancel is) s h = cancel_loops-Below is s h
step-Below (op_run_once name now) s h = run_once-Below name now s h
step-Below (op_resume i now) s h = resume_at (s.places i) i now s refl (h.placed i) h
step-Below (op_end i e) s h = end_at (s.places i) i e s refl (h.placed i) h

pub run-Below : (ops : List Op) (s : Scheduler) → Below s → Below (run ops s)
unfolding run
run-Below [] s h = h
run-Below (op ∷ ops) s h = run-Below ops (step op s) (step-Below op s h)

pub init-Below : Below init
unfolding init place_below
init-Below = record { named = λ name q e. absurd (ground (arith, e)); placed = λ i. refl }
