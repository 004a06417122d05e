-- ===== src/Plan/Executor/Start.antt =====
-- The steps of a plan at the start: each identifier finds its step and an initial result.
use you_mi_agent.Prelude.{
  String, ◌≡◌, refl, ◌∙◌, ap, some, List, [], ◌∷◌, arith, All, inl, inr, str_eq, eq_iff, is_some,
  if◌then◌else◌, Bool-cases,
}
use you_mi_agent.Dict.{Dict, lookup, insert, lookup-insert}
use you_mi_agent.Plan.{WorkflowStep, StepResult, is_in, get_step, step_ids}
use you_mi_agent.Plan.Order.Counting.{occurrences}
use you_mi_agent.Plan.Order.Edges.{IsUnique}
use you_mi_agent.Plan.Executor.{initial, initial_results}

pub lookup-initial_results :
    (x : String) (ss : List WorkflowStep) (d : Dict StepResult)
    → lookup x (initial_results ss d)
      ≡ (if is_in x (step_ids ss) then some (initial x) else lookup x d)
unfolding initial_results
lookup-initial_results x [] d = refl
lookup-initial_results x (s ∷ ss) d = elim (Bool-cases (str_eq s.step_id x)) [
  | inl this ↦ rw this (
      lookup-initial_results x ss (insert s.step_id (initial s.step_id) d)
      ∙ ground (
        arith,
        lookup-insert s.step_id x (initial s.step_id) d,
        this,
        ap initial ((eq_iff s.step_id x).0 this),
      ))
  | inr other ↦ ground (
    arith,
    lookup-initial_results x ss (insert s.step_id (initial s.step_id) d),
    lookup-insert s.step_id x (initial s.step_id) d,
    other,
  )
]

pub found-is_in :
    (x : String) (ss : List WorkflowStep) → is_some (get_step x ss) ≡ is_in x (step_ids ss)
unfolding get_step
found-is_in x [] = refl
found-is_in x (s ∷ ss) = ground (arith, found-is_in x ss)

pub All-both :
    (P Q : WorkflowStep → Type 0) (ss : List WorkflowStep)
    → All P ss
    → All Q ss
    → All (λ s. P s × Q s) ss
All-both P Q [] h k = tt
All-both P Q (s ∷ ss) h k = ((h.0, k.0), All-both P Q ss h.1 k.1)

skip_first :
    (s : WorkflowStep) (ts ss : List WorkflowStep)
    → occurrences s.step_id (step_ids ts) ≡ 0
    → All (λ t. get_step t.step_id ss ≡ some t) ts
    → All (λ t. get_step t.step_id (s ∷ ss) ≡ some t) ts
unfolding get_step
skip_first s [] ss h k = tt
skip_first s (t ∷ ts) ss h k = (
  ground (arith, k.0, eq_iff s.step_id t.step_id, eq_iff t.step_id s.step_id),
  skip_first s ts ss (ground arith) k.1,
)

pub every_step_found :
    (ss : List WorkflowStep) → IsUnique ss → All (λ s. get_step s.step_id ss ≡ some s) ss
unfolding get_step
every_step_found [] u = tt
every_step_found (s ∷ ss) u =
    (ground (arith, eq_iff s.step_id s.step_id), skip_first s ss ss u.0 (every_step_found ss u.1))
