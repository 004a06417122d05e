-- ===== src/Plan/Executor/Parallel/Whole.antt =====
-- `execute` with parallel layers on a plan that `validate` accepts.
use you_mi_agent.Prelude.{
  ℕ, zero, suc, ◌<◌, String, ◌≡◌, refl, ◌∙◌, sym, ap, subst, Bool, true, some, List, [], ◌∷◌, arith,
  inl, inr, Bool-cases, Option-cases, All, All-map, concat, str_eq, false≢true,
}
use mathlib.Core.Option.{some-injective}
use you_mi_agent.Dict.{Dict, lookup}
use you_mi_agent.Plan.{WorkflowStep, StepResult, WorkflowPlan, step_ids, is_in, get_step}
use you_mi_agent.Plan.Order.Counting.{is_in-occurrences}
use you_mi_agent.Plan.Order.Complete.{IsRanked}
use you_mi_agent.Plan.Validate.{validate}
use you_mi_agent.Plan.Validate.Ranked.{accepted-IsRanked}
use you_mi_agent.Plan.Executor.{Settings, Execution, initial_results, blocked, execute_accepted}
use you_mi_agent.Plan.Executor.Deps.{get_step-id}
use you_mi_agent.Plan.Executor.Start.{lookup-initial_results, found-is_in, every_step_found}
use you_mi_agent.Plan.Executor.Settled.{settle, settled_by}
use you_mi_agent.Plan.Executor.Outcome.{execute-settled}
use you_mi_agent.Plan.Executor.Whole.{accepted_order}
use you_mi_agent.Plan.Executor.Parallel.{Turn, execute_accepted_parallel}
use you_mi_agent.Plan.Executor.Parallel.Schedules.{execute_layers_parallel-Progressed}

blocked-deps :
    (ff : Bool) (d e : Dict StepResult) (deps : List String)
    → All (λ dep. lookup dep d ≡ lookup dep e) deps
    → blocked ff d deps ≡ blocked ff e deps
unfolding blocked
blocked-deps ff d e [] h = refl
blocked-deps ff d e (dep ∷ deps) h = ground (arith, h.0, blocked-deps ff d e deps h.1)

get_step-All :
    (P : WorkflowStep → Type 0) (sid : String) (ss : List WorkflowStep) (s : WorkflowStep)
    → get_step sid ss ≡ some s
    → All P ss
    → P s
unfolding get_step
get_step-All P sid [] s h k = absurd (ground arith)
get_step-All P sid (t ∷ ss) s h k = elim (Bool-cases (str_eq t.step_id sid)) [
  | inl this ↦ subst P (some-injective t s (rw this at h)) k.0
  | inr other ↦ get_step-All P sid ss s (rw other at h) k.1
]

module _ (c : Settings) (ss : List WorkflowStep) where
  -- Each step has the result that those of its dependencies call for.
  abbrev AllSettled : Dict StepResult → Type 0
  AllSettled d =
      (s : WorkflowStep) → get_step s.step_id ss ≡ some s → lookup s.step_id d ≡ some (settle c s d)

  -- In a plan without a cycle that determines the results.
  settled_below :
      (rank : String → ℕ) (d e : Dict StepResult) (k : ℕ) (s : WorkflowStep)
      → IsRanked rank (step_ids ss) ss
      → AllSettled d
      → AllSettled e
      → get_step s.step_id ss ≡ some s
      → rank s.step_id < k
      → lookup s.step_id d ≡ lookup s.step_id e
  settled_below rank d e zero s ranked hd he known below = absurd (omega arith)
  settled_below rank d e (suc k) s ranked hd he known below =
      let deps = get_step-All _ s.step_id ss s known ranked in
      let one : (dep : String)
          → (is_in dep (step_ids ss) ≡ true) × (rank dep < rank s.step_id)
          → lookup dep d ≡ lookup dep e =
        λ dep h. elim (Option-cases (get_step dep ss)) [
          | inl unknown ↦ absurd (ground (arith, found-is_in dep ss, unknown, h.0))
          | inr (t, found) ↦
              let same = get_step-id dep ss {s = t} found in
              subst
                (λ n. get_step n ss ≡ some t → rank n < rank s.step_id → lookup n d ≡ lookup n e)
                same (λ g r. settled_below rank d e k t ranked hd he g (omega (arith, r, below)))
                found h.1
        ] in
      hd s known
      ∙ ap (λ o. some (settled_by c s o))
          (blocked-deps c.fail_fast d e s.depends_on (All-map _ _ s.depends_on one deps))
      ∙ sym (he s known)

module _ (c : Settings) (p : WorkflowPlan) (ts : List (List Turn)) where
  execute_parallel-settled :
      (y : Execution)
      → validate p ≡ some []
      → execute_accepted_parallel c p ts ≡ some y
      → AllSettled c p.steps y.results
  unfolding execute_accepted_parallel
  execute_parallel-settled y v e s known =
      let (layers, order, ordered, occurs) = accepted_order p v in
      let start : Execution = record {
        results = initial_results p.steps [];
        agents = [];
        log = [];
      } in
      let h =
        execute_layers_parallel-Progressed c p.steps layers [] ts start y ordered
          (λ z. ground (arith, occurs z))
          (record {
            settled = λ t k. ground (
              arith,
              lookup-initial_results t.step_id p.steps [],
              found-is_in t.step_id p.steps,
              k,
            );
            closed = λ t k m. absurd (false≢true m);
          })
          (rw (execute_accepted_parallel, order) at e) in
      ground (
        arith,
        h.settled s known,
        occurs s.step_id,
        is_in-occurrences s.step_id (concat layers),
        found-is_in s.step_id p.steps,
        known,
      )

  -- For a plan that `validate` accepts: whatever the turns in which the steps of its layers begin and
  -- end, `execute` with parallel layers leaves the same result for every step as with serial layers,
  -- which ends.
  pub parallel_like_serial :
      (y : Execution)
      → validate p ≡ some []
      → execute_accepted_parallel c p ts ≡ some y
      → (x : Execution) × (execute_accepted c p ≡ some x)
        × All (λ s. lookup s.step_id y.results ≡ lookup s.step_id x.results) p.steps
  parallel_like_serial y v e =
      let (rank, unique, ranked) = accepted-IsRanked p v in
      let (x, f, settled) = execute-settled c p rank unique ranked in
      let parallel = execute_parallel-settled y v e in
      (
        x,
        f,
        All-map (λ s. get_step s.step_id p.steps ≡ some s) _ p.steps
            (λ s known.
              settled_below c p.steps rank y.results x.results (suc (rank s.step_id)) s ranked
                parallel settled known (omega arith))
            (every_step_found p.steps unique),
      )
