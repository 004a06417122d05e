-- ===== src/Plan/Executor/Whole.antt =====
-- `execute` on every plan, with its validation.
use you_mi_agent.Prelude.{
  String, ◌≡◌, ◌⊎◌, ◌≤◌, ◌∙◌, sym, ap, subst, true, some, List, [], ◌∷◌, arith, All, inl, inr,
  length, concat, if◌then◌else◌,
}
use mathlib.Core.Option.{some-injective}
use you_mi_agent.Dict.{lookup}
use you_mi_agent.Plan.{WorkflowPlan, step_ids, is_in}
use you_mi_agent.Plan.Order.{get_execution_order}
use you_mi_agent.Plan.Order.Counting.{occurrences}
use you_mi_agent.Plan.Order.Sound.{Ordered, order_respects_dependencies}
use you_mi_agent.Plan.Order.Complete.{order_is_complete}
use you_mi_agent.Plan.Validate.{PlanError, validate}
use you_mi_agent.Plan.Validate.Ends.{validate-ends}
use you_mi_agent.Plan.Validate.Ranked.{accepted-IsRanked}
use you_mi_agent.Plan.Executor.{
  Settings, Execution, invalid, ended, after_execution, after_validation, execute_accepted, execute,
}
use you_mi_agent.Plan.Executor.Settled.{settle}
use you_mi_agent.Plan.Executor.Outcome.{execute_settles, skipped_by_dependencies, StatusFollows}

-- For a plan that `validate` accepts, the order is found: every step stands in the layers exactly
-- once, nothing else does, and all dependencies of a step stand in layers before its own.
pub accepted_order :
    (p : WorkflowPlan)
    → validate p ≡ some []
    → (layers : List (List String)) × (get_execution_order p ≡ some layers)
      × Ordered p.steps [] layers
      × ((x : String)
          → occurrences x (concat layers) ≡ (if is_in x (step_ids p.steps) then 1 else 0))
accepted_order p h =
    let (rank, unique, ranked) = accepted-IsRanked p h in
    let (layers, e, occurs) = order_is_complete p rank unique ranked in
    let (layers', e', ordered, once) = order_respects_dependencies p unique in
    (
      layers,
      e,
      subst (Ordered p.steps []) (some-injective layers' layers (sym e' ∙ e)) ordered,
      occurs,
    )

module _ (c : Settings) (p : WorkflowPlan) where
  execute-accepted :
      (x : Execution)
      → validate p ≡ some []
      → execute_accepted c p ≡ some x
      → execute c p ≡ some (ended x)
  unfolding execute after_validation after_execution
  execute-accepted x h e = ap (after_validation c p) h ∙ ap after_execution e

  execute-rejected :
      (e : PlanError) (errors : List PlanError)
      → validate p ≡ some (e ∷ errors)
      → execute c p ≡ some (invalid (e ∷ errors))
  unfolding execute after_validation
  execute-rejected e errors h = ap (after_validation c p) h

  -- The two ways in which `execute` ends.
  abbrev pub EndsSettled : Type 0
  EndsSettled =
      ((errors : List PlanError) × (execute c p ≡ some (invalid errors))
        × (validate p ≡ some errors)
        × (1 ≤ length errors))
      ⊎ ((x : Execution) × (execute c p ≡ some (ended x))
          × All (λ s. lookup s.step_id x.results ≡ some (settle c s x.results)) p.steps)

  ends_settled_at : (errors : List PlanError) → validate p ≡ some errors → EndsSettled
  ends_settled_at [] h =
      let (rank, unique, ranked) = accepted-IsRanked p h in
      let (x, e, settled) = execute_settles c p rank unique ranked in
      inr (x, execute-accepted x h e, settled)
  ends_settled_at (e ∷ errors) h = inl (e ∷ errors, execute-rejected e errors h, h, omega arith)

  -- `execute` ends on every plan, without a `KeyError`. Either it raises the errors of `validate`,
  -- and there are some, or the result of each step is the one that the final results of its
  -- dependencies call for: skipped, with the reason, or what its attempts made of it.
  pub execute_ends_settled : EndsSettled
  execute_ends_settled = let (errors, h) = validate-ends p in ends_settled_at errors h

  -- With `fail_fast`, for a plan that `validate` accepts: `execute` ends, a step whose dependencies
  -- all completed has completed or failed, and a step with a dependency that did not complete is
  -- skipped.
  pub execute_ends_skipped :
      c.fail_fast ≡ true
      → validate p ≡ some []
      → (x : Execution) × (execute c p ≡ some (ended x))
        × All (λ s. StatusFollows s x.results) p.steps
  execute_ends_skipped ff h =
      let (rank, unique, ranked) = accepted-IsRanked p h in
      let (x, e, follows) = skipped_by_dependencies c p rank ff unique ranked in
      (x, execute-accepted x h e, follows)
