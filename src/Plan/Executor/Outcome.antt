-- ===== src/Plan/Executor/Outcome.antt =====
-- What the results are when the executor ends.
use you_mi_agent.Prelude.{
  String, ◌≡◌, refl, ◌∙◌, sym, ap, subst, Bool, true, false, not, ◌&&◌, Option, none, some, List,
  [], ◌∷◌, arith, concat, All, All-map, inl, inr, is_some, if◌then◌else◌, ℕ, Option-cases,
  false≢true, ◌⊎◌,
}
use mathlib.Core.Option.{some-injective}
use you_mi_agent.Dict.{Dict, lookup}
use you_mi_agent.Plan.{
  WorkflowStep, StepResult, StepError, StepStatus, skipped, completed, failed, is_in, get_step,
  WorkflowPlan, step_ids, is_completed,
}
use you_mi_agent.Plan.Order.{get_execution_order}
use you_mi_agent.Plan.Order.Counting.{occurrences, is_in-occurrences}
use you_mi_agent.Plan.Order.Edges.{IsUnique}
use you_mi_agent.Plan.Order.Sound.{Ordered, order_respects_dependencies}
use you_mi_agent.Plan.Order.Complete.{IsRanked, order_is_complete}
use you_mi_agent.Plan.Step.Attempts.{run_step-EndsAt}
use you_mi_agent.Plan.Executor.{
  Settings, Execution, initial, initial_results, is_broken, blocked, execute_layers,
  execute_accepted,
}
use you_mi_agent.Plan.Executor.Start.{
  lookup-initial_results, found-is_in, every_step_found, All-both,
}
use you_mi_agent.Plan.Executor.Deps.{get_step-id}
use you_mi_agent.Plan.Executor.Flat.{Ordered-Ready, execute_layers-concat}
use you_mi_agent.Plan.Executor.Settled.{settled_by, settle, Progressed, execute_layer-Progressed}

abbrev status_at : Option StepResult → Option StepStatus
status_at none = none
status_at (some r) = some r.status

-- The status that the results give a step.
abbrev pub status_in : Dict StepResult → String → Option StepStatus
status_in d sid = status_at (lookup sid d)

abbrev pub all_completed : Dict StepResult → List String → Bool
all_completed d [] = true
all_completed d (dep ∷ deps) =
    elim (lookup dep d) [ none ↦ false | some r ↦ is_completed r.status ] && all_completed d deps

abbrev Ended : StepStatus → Type 0
Ended st = (st ≡ completed) ⊎ ((st ≡ failed) ⊎ (st ≡ skipped))

blocked-all_completed :
    (d : Dict StepResult) (deps : List String)
    → All (λ dep. (r : StepResult) × (lookup dep d ≡ some r) × Ended r.status) deps
    → is_some (blocked true d deps) ≡ not (all_completed d deps)
unfolding blocked is_broken is_completed
blocked-all_completed d [] h = refl
blocked-all_completed d (dep ∷ deps) h =
    let (r, e, st) = h.0 in
    let rest = blocked-all_completed d deps h.1 in
    elim st [
      | inl a ↦ ground (arith, e, a, rest)
      | inr (inl a) ↦ ground (arith, e, a, rest)
      | inr (inr a) ↦ ground (arith, e, a, rest)
    ]

-- The status of a step, by those of its dependencies.
abbrev pub StatusFollows : WorkflowStep → Dict StepResult → Type 0
StatusFollows s d =
    ((all_completed d s.depends_on ≡ true)
      × ((status_in d s.step_id ≡ some completed) ⊎ (status_in d s.step_id ≡ some failed)))
    ⊎ ((all_completed d s.depends_on ≡ false) × (status_in d s.step_id ≡ some skipped))

module _ (c : Settings) where
  run-Ended :
      (s : WorkflowStep) → let st = (settled_by c s none).status in (st ≡ completed) ⊎ (st ≡ failed)
  run-Ended s =
      let (k, h) = run_step-EndsAt c.default_timeout c.workers s (initial s.step_id) in
      elim h.result [ inl a ↦ inl a.0 | inr b ↦ inr b.0 ]

  settled_by-Ended : (s : WorkflowStep) (why : Option StepError) → Ended (settled_by c s why).status
  settled_by-Ended s (some why) = inr (inr refl)
  settled_by-Ended s none = elim (run-Ended s) [ inl a ↦ inl a | inr b ↦ inr (inl b) ]

  abbrev start : WorkflowPlan → Execution
  start p = record { results = initial_results p.steps []; agents = []; log = [] }

  execute_in_order :
      (p : WorkflowPlan) (layers : List (List String))
      → get_execution_order p ≡ some layers
      → execute_accepted c p ≡ execute_layers c p.steps layers (start p)
  unfolding execute_accepted
  execute_in_order p layers h = rw (h, execute_accepted) refl

  execute-Progressed :
      (p : WorkflowPlan) (rank : String → ℕ)
      → IsUnique p.steps
      → IsRanked rank (step_ids p.steps) p.steps
      → (x : Execution) × (execute_accepted c p ≡ some x)
        × (done : List String) × Progressed c p.steps done x.results
        × ((sid : String) → occurrences sid done ≡ (if is_in sid (step_ids p.steps) then 1 else 0))
  execute-Progressed p rank u ranked =
      let (layers, e, occurs) = order_is_complete p rank u ranked in
      let (layers', e', ordered, once) = order_respects_dependencies p u in
      let same = some-injective _ _ (sym e' ∙ e) in
      let (x, f, h) =
        execute_layer-Progressed c p.steps (concat layers) [] (start p)
          (Ordered-Ready p.steps [] layers (subst (Ordered p.steps []) same ordered))
          (λ y. ground (arith, occurs y))
          (record {
            settled = λ s k. ground (
              arith,
              lookup-initial_results s.step_id p.steps [],
              found-is_in s.step_id p.steps,
              k,
            );
            closed = λ s k m. absurd (false≢true m);
          }) in
      (
        x,
        execute_in_order p layers e ∙ execute_layers-concat c p.steps layers (start p) ∙ f,
        concat layers,
        h,
        occurs,
      )

  pub execute-settled :
      (p : WorkflowPlan) (rank : String → ℕ)
      → IsUnique p.steps
      → IsRanked rank (step_ids p.steps) p.steps
      → (x : Execution) × (execute_accepted c p ≡ some x)
        × ((s : WorkflowStep)
            → get_step s.step_id p.steps ≡ some s
            → lookup s.step_id x.results ≡ some (settle c s x.results))
  execute-settled p rank u ranked =
      let (x, e, done, h, occurs) = execute-Progressed p rank u ranked in
      (
        x,
        e,
        λ s k. ground (
          arith,
          h.settled s k,
          occurs s.step_id,
          is_in-occurrences s.step_id done,
          found-is_in s.step_id p.steps,
          k,
        ),
      )

  -- The plan has distinct identifiers and no cycle. Then `execute` ends without a `KeyError`, and
  -- the result of each step is the one that the final results of its dependencies call for:
  -- skipped, with the reason, or what its attempts made of it.
  pub execute_settles :
      (p : WorkflowPlan) (rank : String → ℕ)
      → IsUnique p.steps
      → IsRanked rank (step_ids p.steps) p.steps
      → (x : Execution) × (execute_accepted c p ≡ some x)
        × All (λ s. lookup s.step_id x.results ≡ some (settle c s x.results)) p.steps
  execute_settles p rank u ranked =
      let (x, e, settled) = execute-settled p rank u ranked in
      (x, e, All-map _ _ p.steps settled (every_step_found p.steps u))

  dep-Ended :
      (p : WorkflowPlan) (d : Dict StepResult) (dep : String)
      → ((s : WorkflowStep)
          → get_step s.step_id p.steps ≡ some s
          → lookup s.step_id d ≡ some (settle c s d))
      → is_in dep (step_ids p.steps) ≡ true
      → (r : StepResult) × (lookup dep d ≡ some r) × Ended r.status
  dep-Ended p d dep h step = elim (Option-cases (get_step dep p.steps)) [
    | inl unknown ↦ absurd (ground (arith, found-is_in dep p.steps, unknown, step))
    | inr (t, k) ↦
        let same = get_step-id dep p.steps {s = t} k in
        subst (λ n. (r : StepResult) × (lookup n d ≡ some r) × Ended r.status) same
          (
            settle c t d,
            h t (subst (λ n. get_step n p.steps ≡ some t) (sym same) k),
            settled_by-Ended t (blocked c.fail_fast d t.depends_on),
          )
  ]

  status_after :
      (s : WorkflowStep) (d : Dict StepResult)
      → c.fail_fast ≡ true
      → lookup s.step_id d ≡ some (settle c s d)
      → All (λ dep. (r : StepResult) × (lookup dep d ≡ some r) × Ended r.status) s.depends_on
      → StatusFollows s d
  status_after s d ff h deps =
      let same = blocked-all_completed d s.depends_on deps in
      let by = λ (why : Option StepError) (e : blocked true d s.depends_on ≡ why).
        ap status_at
          (h ∙ ap (λ o. some (settled_by c s o)) (ap (λ b. blocked b d s.depends_on) ff ∙ e)) in
      elim (Option-cases (blocked true d s.depends_on)) [
        | inl ran ↦ inl (
          ground (arith, same, ran),
          elim (run-Ended s) [
            | inl a ↦ inl (by none ran ∙ ap some a)
            | inr b ↦ inr (by none ran ∙ ap some b)
          ],
        )
        | inr (why, off) ↦ inr (ground (arith, same, off), by (some why) off)
      ]

  -- With `fail_fast`, for a plan with distinct identifiers and no cycle: `execute` ends without a
  -- `KeyError`, a step whose dependencies all completed has completed or failed, and a step with a
  -- dependency that did not complete is skipped.
  pub skipped_by_dependencies :
      (p : WorkflowPlan) (rank : String → ℕ)
      → c.fail_fast ≡ true
      → IsUnique p.steps
      → IsRanked rank (step_ids p.steps) p.steps
      → (x : Execution) × (execute_accepted c p ≡ some x)
        × All (λ s. StatusFollows s x.results) p.steps
  skipped_by_dependencies p rank ff u ranked =
      let (x, e, settled) = execute-settled p rank u ranked in
      (
        x,
        e,
        All-map _ _ p.steps
            (λ s both.
              status_after s x.results ff (settled s both.0)
                (All-map _ _ s.depends_on (λ dep h. dep-Ended p x.results dep settled h.0) both.1))
            (All-both _ _ p.steps (every_step_found p.steps u) ranked),
      )
