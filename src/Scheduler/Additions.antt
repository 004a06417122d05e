-- ===== src/Scheduler/Additions.antt =====
-- A task that is added while the scheduler runs.
use you_mi_agent.Prelude.{
  ℕ, String, ◌≡◌, refl, sym, subst, Bool, true, false, List, [], ◌∷◌, arith, any, Bool-cases,
  Option-cases, inl, inr, ==_iff, is_some,
}
use you_mi_agent.Dict.{lookup}
use you_mi_agent.Scheduler.{
  ScheduledTask, new_state, Place, created, sleeping, executing, executing_once, finished,
  Scheduler, bind_agent, add_task, remove_task, enable_task, with_enabled, start, start_when,
  set_state, set_at, init,
}
use you_mi_agent.Scheduler.References.{place_below, run-Below, init-Below}
use you_mi_agent.Scheduler.Calls.{
  Op, op_bind, op_add, op_remove, op_enable, op_start, op_stop, op_cancel, op_run_once, op_resume,
  op_end, step, run, is_run_once, is_stop,
}
use you_mi_agent.Scheduler.Unvisited.{
  apart, Unvisited, set_at-other, set_at-same, cancel_loops-Unvisited, resume_at, end_at,
}

module _ (r : ℕ) where
  add_task-Unvisited :
      (t : ScheduledTask) (s : Scheduler) → Unvisited r s → Unvisited r (add_task t s).0
  unfolding add_task
  add_task-Unvisited t s h = elim (Bool-cases (is_some (lookup t.name s.tasks))) [
    | inl there ↦ rw (add_task, there) h
    | inr new ↦
        rw (add_task, new)
          (record {
            on = h.on;
            below = omega (arith, h.below);
            places = h.places;
            unrun = set_at-other r s.next (new_state t) s.states (ground (arith, h.below)) h.unrun;
          })
  ]

  remove_task-Unvisited :
      (name : String) (s : Scheduler) → Unvisited r s → Unvisited r (remove_task name s).0
  unfolding remove_task set_state
  remove_task-Unvisited name s h = elim (Option-cases (lookup name s.tasks)) [
    | inl missing ↦ rw (remove_task, missing) h
    | inr (q, there) ↦
        rw (remove_task, there)
          (record {
            on = h.on;
            below = h.below;
            places = h.places;
            unrun =
                set_at-same r q (record (s.states q) { cancelled = true }) s.states refl h.unrun;
          })
  ]

  enable_task-Unvisited :
      (name : String) (b : Bool) (s : Scheduler)
      → Unvisited r s
      → Unvisited r (enable_task name b s)
  unfolding enable_task set_state with_enabled
  enable_task-Unvisited name b s h = elim (Option-cases (lookup name s.tasks)) [
    | inl missing ↦ rw (enable_task, missing) h
    | inr (q, there) ↦
        rw (enable_task, there)
          (record {
            on = h.on;
            below = h.below;
            places = h.places;
            unrun = set_at-same r q (with_enabled b (s.states q)) s.states refl h.unrun;
          })
  ]

  step-Unvisited :
      (op : Op) (s : Scheduler)
      → is_run_once op ≡ false
      → is_stop op ≡ false
      → Unvisited r s
      → Unvisited r (step op s)
  unfolding step is_run_once is_stop bind_agent start
  step-Unvisited (op_bind a) s o p h = record {
    on = h.on;
    below = h.below;
    places = h.places;
    unrun = h.unrun;
  }
  step-Unvisited (op_add t) s o p h = add_task-Unvisited t s h
  step-Unvisited (op_remove name) s o p h = remove_task-Unvisited name s h
  step-Unvisited (op_enable name b) s o p h = enable_task-Unvisited name b s h
  step-Unvisited op_start s o p h =
      subst (λ b. Unvisited r (start_when b s).0) (sym h.on) (unfold start_when in h)
  step-Unvisited op_stop s o p h = absurd (ground (arith, p))
  step-Unvisited (op_cancel is) s o p h = cancel_loops-Unvisited r is s h
  step-Unvisited (op_run_once name now) s o p h = absurd (ground (arith, o))
  step-Unvisited (op_resume i now) s o p h = resume_at r (s.places i) i now s refl (h.places i) h
  step-Unvisited (op_end i e) s o p h = end_at r (s.places i) i e s refl (h.places i) h

  run-Unvisited :
      (ops : List Op) (s : Scheduler)
      → any is_run_once ops ≡ false
      → any is_stop ops ≡ false
      → Unvisited r s
      → Unvisited r (run ops s)
  unfolding run
  run-Unvisited [] s o p h = h
  run-Unvisited (op ∷ ops) s o p h =
      run-Unvisited ops (step op s) (ground (arith, o)) (ground (arith, p))
        (step-Unvisited op s (ground (arith, o)) (ground (arith, p)) h)

unfoldable pub is_created : Place → Bool
is_created (created name) = true
is_created _ = false

below-apart : (n : ℕ) (p : Place) → place_below n p ≡ true → is_created p ≡ false → apart n p ≡ true
unfolding place_below is_created apart
below-apart n (created name) b c = absurd (ground (arith, c))
below-apart n (sleeping q) b c = ground (arith, b)
below-apart n (executing q) b c = ground (arith, b)
below-apart n (executing_once q) b c = ground (arith, b)
below-apart n finished b c = refl

-- A task that is added after any history, while the scheduler runs and each of its loops has begun,
-- does not run, whatever follows, short of a call of `stop` or of `run_once`: no loop is made for it.
pub added_late_never_runs :
    (past ops : List Op) (t : ScheduledTask)
    → (run past init).running ≡ true
    → ((i : ℕ) → is_created ((run past init).places i) ≡ false)
    → (add_task t (run past init)).1 ≡ false
    → any is_run_once ops ≡ false
    → any is_stop ops ≡ false
    → ((run ops (add_task t (run past init)).0).states (run past init).next).run_count ≡ 0
unfolding add_task
added_late_never_runs past ops t on begun_all accepted o p =
    let s = run past init in
    let below = run-Below past init init-Below in
    elim (Bool-cases (is_some (lookup t.name s.tasks))) [
      | inl there ↦ absurd (ground (arith, accepted, there))
      | inr new ↦
          rw (add_task, new)
            ((run-Unvisited s.next ops _ o p (record {
              on = on;
              below = omega arith;
              places = λ i. below-apart s.next (s.places i) (below.placed i) (begun_all i);
              unrun = unfold set_at new_state in ground (arith, ==_iff s.next s.next);
            })).unrun)
    ]
