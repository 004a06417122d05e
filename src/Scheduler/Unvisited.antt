-- ===== src/Scheduler/Unvisited.antt =====
-- A state that no coroutine is on the way to, over the turns of the coroutines.
use you_mi_agent.Prelude.{
  ℕ, ◌<◌, ◌≡◌, refl, ◌∙◌, sym, ap, Bool, true, false, ◌&&◌, not, List, [], ◌∷◌, arith, ltb,
  Bool-cases, inl, inr, ==_iff, ◌==◌,
}
use you_mi_agent.Scheduler.{
  TaskState, is_complete, Place, created, sleeping, executing, executing_once, finished, Scheduler,
  cancel_loops, set_state, set_at,
}
use you_mi_agent.Scheduler.Loops.{
  ExecutionEnd, resume, end_execution, recorded, recorded_once, loop_head, begun, move,
}

-- The coroutine is neither at its begin nor busy with this state.
unfoldable pub apart : ℕ → Place → Bool
apart r (created name) = false
apart r (sleeping q) = not (q == r)
apart r (executing q) = not (q == r)
apart r (executing_once q) = not (q == r)
apart r finished = true

-- A scheduler that runs, of which no coroutine is on the way to this state.
pub record Unvisited (r : ℕ) (s : Scheduler) : Type 0 where
  pub on : s.running ≡ true
  pub below : r < s.next
  pub places : (i : ℕ) → apart r (s.places i) ≡ true
  pub unrun : (s.states r).run_count ≡ 0

module _ (r : ℕ) where
  pub set_at-apart :
      (i : ℕ) (p : Place) (f : ℕ → Place)
      → apart r p ≡ true
      → ((j : ℕ) → apart r (f j) ≡ true)
      → (j : ℕ) → apart r (set_at i p f j) ≡ true
  unfolding set_at
  set_at-apart i p f b h j = elim (Bool-cases (j == i)) [
    | inl here ↦ rw (set_at, here) b
    | inr other ↦ rw (set_at, other) (h j)
  ]

  -- A change to another state.
  pub set_at-other :
      (q : ℕ) (st : TaskState) (f : ℕ → TaskState)
      → (r == q) ≡ false
      → (f r).run_count ≡ 0
      → (set_at q st f r).run_count ≡ 0
  unfolding set_at
  set_at-other q st f o h = rw (set_at, o) h

  -- A change that keeps the count.
  pub set_at-same :
      (q : ℕ) (st : TaskState) (f : ℕ → TaskState)
      → st.run_count ≡ (f q).run_count
      → (f r).run_count ≡ 0
      → (set_at q st f r).run_count ≡ 0
  unfolding set_at
  set_at-same q st f e h = elim (Bool-cases (r == q)) [
    | inl here ↦ rw (set_at, here) (e ∙ ap (λ n. (f n).run_count) (sym ((==_iff r q).0 here)) ∙ h)
    | inr other ↦ rw (set_at, other) h
  ]

  pub cancel_loops-Unvisited :
      (is : List ℕ) (s : Scheduler) → Unvisited r s → Unvisited r (cancel_loops is s)
  unfolding cancel_loops
  cancel_loops-Unvisited [] s h = record {
    on = h.on;
    below = h.below;
    places = h.places;
    unrun = h.unrun;
  }
  cancel_loops-Unvisited (i ∷ is) s h =
      cancel_loops-Unvisited is (record s { places = set_at i finished s.places })
        (record {
          on = h.on;
          below = h.below;
          places = set_at-apart i finished s.places (unfold apart in refl) h.places;
          unrun = h.unrun;
        })

  loop_head-Unvisited :
      (i now q : ℕ) (s : Scheduler)
      → (r == q) ≡ false
      → Unvisited r s
      → Unvisited r (loop_head i now q s)
  unfolding loop_head move set_state apart
  loop_head-Unvisited i now q s o h =
      elim (Bool-cases (s.running && not (is_complete (s.states q)))) [
        | inl go ↦
            rw (loop_head, go)
              (record {
                on = h.on;
                below = h.below;
                places =
                    set_at-apart i (executing q) s.places
                      (ground (arith, o, ==_iff r q, ==_iff q r)) h.places;
                unrun = set_at-other q (begun now (s.states q)) s.states o h.unrun;
              })
        | inr end ↦
            rw (loop_head, end)
              (record {
                on = h.on;
                below = h.below;
                places = set_at-apart i finished s.places refl h.places;
                unrun = h.unrun;
              })
      ]

  pub resume_at :
      (p : Place) (i now : ℕ) (s : Scheduler)
      → s.places i ≡ p
      → apart r p ≡ true
      → Unvisited r s
      → Unvisited r (resume i now s)
  unfolding resume apart
  resume_at (created name) i now s e a h = absurd (ground (arith, a))
  resume_at (sleeping q) i now s e a h =
      rw (resume, e) (loop_head-Unvisited i now q s (ground (arith, a, ==_iff r q, ==_iff q r)) h)
  resume_at (executing q) i now s e a h = rw (resume, e) h
  resume_at (executing_once q) i now s e a h = rw (resume, e) h
  resume_at finished i now s e a h = rw (resume, e) h

  run_count-recorded :
      (x : ExecutionEnd) (st : TaskState)
      → ((recorded x st).run_count ≡ st.run_count) × ((recorded_once x st).run_count ≡ st.run_count)
  unfolding recorded recorded_once
  run_count-recorded x st = ground (arith, x)

  pub end_at :
      (p : Place) (i : ℕ) (x : ExecutionEnd) (s : Scheduler)
      → s.places i ≡ p
      → apart r p ≡ true
      → Unvisited r s
      → Unvisited r (end_execution i x s)
  unfolding end_execution apart
  end_at (executing q) i x s e a h =
      let st = recorded x (s.states q) in
      let s' : Scheduler = set_state q st s in
      let k = set_at-same q st s.states (run_count-recorded x (s.states q)).0 h.unrun in
      elim (Bool-cases (ltb 0 (s'.states q).task.interval_seconds && s'.running)) [
        | inl go ↦
            rw (end_execution, e, go)
              (unfold move set_state in
                record {
                  on = h.on;
                  below = h.below;
                  places = set_at-apart i (sleeping q) s.places a h.places;
                  unrun = k;
                })
        | inr end ↦
            rw (end_execution, e, end)
              (unfold move set_state in
                record {
                  on = h.on;
                  below = h.below;
                  places = set_at-apart i finished s.places refl h.places;
                  unrun = k;
                })
      ]
  end_at (executing_once q) i x s e a h =
      rw (end_execution, e)
        (unfold move set_state in
          record {
            on = h.on;
            below = h.below;
            places = set_at-apart i finished s.places refl h.places;
            unrun =
                set_at-same q (recorded_once x (s.states q)) s.states
                  (run_count-recorded x (s.states q)).1 h.unrun;
          })
  end_at (created name) i x s e a h = rw (end_execution, e) h
  end_at (sleeping q) i x s e a h = rw (end_execution, e) h
  end_at finished i x s e a h = rw (end_execution, e) h
