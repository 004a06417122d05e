-- ===== src/Scheduler/Bounds.antt =====
-- The runs of the tasks over the turns of the coroutines.
use you_mi_agent.Prelude.{
  ℕ, suc, ◌+◌, ◌≤◌, ◌≡◌, ◌⊎◌, false, ◌&&◌, not, Option, none, some, List, [], ◌∷◌, arith,
  Bool-cases, inl, inr, ◌==◌, ltb,
}
use you_mi_agent.Dict.{Dict, lookup}
use you_mi_agent.Scheduler.{
  TaskState, is_complete, Place, created, sleeping, executing, executing_once, finished, Scheduler,
  start_loops, cancel_loops, set_state, set_at, spawn,
}
use you_mi_agent.Scheduler.Loops.{
  ExecutionEnd, returned, busy, raised, resume, end_execution, recorded, recorded_once, loop_head,
  begin_loop, begun, move,
}

-- At most `k` runs more than the limit, if there is one.
abbrev pub IsBounded : ℕ → TaskState → Type 0
IsBounded k st = (st.run_count ≤ st.task.max_runs + k) ⊎ (st.task.max_runs ≡ 0)

abbrev pub AllBounded : ℕ → Scheduler → Type 0
AllBounded k s = (r : ℕ) → IsBounded k (s.states r)

pub more-IsBounded : (k : ℕ) (st : TaskState) → IsBounded k st → IsBounded (suc k) st
more-IsBounded k st (inl h) = inl (omega (arith, h))
more-IsBounded k st (inr h) = inr h

begun-IsBounded :
    (k now : ℕ) (st : TaskState)
    → is_complete st ≡ false
    → IsBounded k st
    → IsBounded k (begun now st)
unfolding is_complete begun
begun-IsBounded k now st c h = ground (arith, c, h)

pub once-IsBounded :
    (k now : ℕ) (st : TaskState) → IsBounded k st → IsBounded (suc k) (begun now st)
unfolding begun
once-IsBounded k now st (inl h) = inl (omega (arith, h))
once-IsBounded k now st (inr h) = inr h

recorded-IsBounded :
    (k : ℕ) (e : ExecutionEnd) (st : TaskState) → IsBounded k st → IsBounded k (recorded e st)
unfolding recorded
recorded-IsBounded k (returned x) st h = h
recorded-IsBounded k busy st h = h
recorded-IsBounded k (raised x) st h = h

recorded_once-IsBounded :
    (k : ℕ) (e : ExecutionEnd) (st : TaskState) → IsBounded k st → IsBounded k (recorded_once e st)
unfolding recorded_once recorded
recorded_once-IsBounded k (returned x) st h = h
recorded_once-IsBounded k busy st h = h
recorded_once-IsBounded k (raised x) st h = h

module _ (k : ℕ) where
  pub set_at-IsBounded :
      (r : ℕ) (st : TaskState) (f : ℕ → TaskState)
      → IsBounded k st
      → ((u : ℕ) → IsBounded k (f u))
      → (u : ℕ) → IsBounded k (set_at r st f u)
  unfolding set_at
  set_at-IsBounded r st f b h u = elim (Bool-cases (u == r)) [
    | inl here ↦ rw (set_at, here) b
    | inr other ↦ rw (set_at, other) (h u)
  ]

  pub states-start_loops :
      (d : Dict ℕ) (s : Scheduler) → AllBounded k s → AllBounded k (start_loops d s)
  unfolding start_loops spawn
  states-start_loops [] s h = h
  states-start_loops ((name, r) ∷ d) s h =
      elim (Bool-cases ((s.states r).task.enabled && not (is_complete (s.states r)))) [
        | inl on ↦
            rw (start_loops, on)
              (states-start_loops d
                (record (spawn (created name) s) { background = s.made ∷ s.background }) h)
        | inr off ↦ rw (start_loops, off) (states-start_loops d s h)
      ]

  pub states-cancel_loops :
      (is : List ℕ) (s : Scheduler) → AllBounded k s → AllBounded k (cancel_loops is s)
  unfolding cancel_loops
  states-cancel_loops [] s h = h
  states-cancel_loops (i ∷ is) s h =
      states-cancel_loops is (record s { places = set_at i finished s.places }) h

  loop_head-AllBounded :
      (i now r : ℕ) (s : Scheduler) → AllBounded k s → AllBounded k (loop_head i now r s)
  unfolding loop_head move set_state
  loop_head-AllBounded i now r s h =
      elim (Bool-cases (s.running && not (is_complete (s.states r)))) [
        | inl on ↦
            rw (loop_head, on)
              (set_at-IsBounded r (begun now (s.states r)) s.states
                (begun-IsBounded k now (s.states r) (ground (arith, on)) (h r)) h)
        | inr off ↦ rw (loop_head, off) h
      ]

  begin_loop-AllBounded :
      (i now : ℕ) (o : Option ℕ) (s : Scheduler)
      → AllBounded k s
      → AllBounded k (begin_loop i now o s)
  unfolding begin_loop move
  begin_loop-AllBounded i now none s h = h
  begin_loop-AllBounded i now (some r) s h =
      elim (Bool-cases (ltb 0 (s.states r).task.delay_seconds)) [
        | inl on ↦ rw (begin_loop, on) h
        | inr off ↦ rw (begin_loop, off) (loop_head-AllBounded i now r s h)
      ]

  pub resume_at :
      (p : Place) (i now : ℕ) (s : Scheduler)
      → s.places i ≡ p
      → AllBounded k s
      → AllBounded k (resume i now s)
  unfolding resume
  resume_at (created name) i now s e h =
      rw (resume, e) (begin_loop-AllBounded i now (lookup name s.tasks) s h)
  resume_at (sleeping r) i now s e h = rw (resume, e) (loop_head-AllBounded i now r s h)
  resume_at (executing r) i now s e h = rw (resume, e) h
  resume_at (executing_once r) i now s e h = rw (resume, e) h
  resume_at finished i now s e h = rw (resume, e) h

  pub end_at :
      (p : Place) (i : ℕ) (x : ExecutionEnd) (s : Scheduler)
      → s.places i ≡ p
      → AllBounded k s
      → AllBounded k (end_execution i x s)
  unfolding end_execution
  end_at (executing r) i x s e h =
      let b =
        set_at-IsBounded r (recorded x (s.states r)) s.states
          (recorded-IsBounded k x (s.states r) (h r)) h in
      let s' : Scheduler = set_state r (recorded x (s.states r)) s in
      elim (Bool-cases (ltb 0 (s'.states r).task.interval_seconds && s'.running)) [
        | inl on ↦ rw (end_execution, e, on) (unfold move set_state in b)
        | inr off ↦ rw (end_execution, e, off) (unfold move set_state in b)
      ]
  end_at (executing_once r) i x s e h =
      rw (end_execution, e)
        (unfold move set_state in
          set_at-IsBounded r (recorded_once x (s.states r)) s.states
            (recorded_once-IsBounded k x (s.states r) (h r)) h)
  end_at (created name) i x s e h = rw (end_execution, e) h
  end_at (sleeping r) i x s e h = rw (end_execution, e) h
  end_at finished i x s e h = rw (end_execution, e) h
