-- ===== src/Plan/Validate/Accepted.antt =====
-- What holds of a plan that `validate` accepts.
use you_mi_agent.Prelude.{
  String, ◌≡◌, ◌≤◌, refl, true, false, some, List, [], ◌∷◌, ◌++◌, arith, str_eq, All, length, ◌==◌,
  Bool-cases, inl, inr,
}
use you_mi_agent.Plan.{WorkflowStep, WorkflowPlan, step_ids, is_in}
use you_mi_agent.Plan.Order.Counting.{is_in-occurrences}
use you_mi_agent.Plan.Order.Edges.{IsUnique}
use you_mi_agent.Plan.Validate.{
  PlanError, as_set, duplicates, unknown, own, references, with_cycle, validate,
}

as_set-length : (xs : List String) → length (as_set xs) ≤ length xs
unfolding as_set
as_set-length [] = omega arith
as_set-length (x ∷ xs) = ground (arith, as_set-length xs)

distinct-IsUnique :
    (ss : List WorkflowStep)
    → (length (as_set (step_ids ss)) == length (step_ids ss)) ≡ true
    → IsUnique ss
unfolding as_set
distinct-IsUnique [] h = tt
distinct-IsUnique (s ∷ ss) h = (
  ground (arith, as_set-length (step_ids ss), is_in-occurrences s.step_id (step_ids ss)),
  distinct-IsUnique ss (ground (arith, as_set-length (step_ids ss))),
)

-- A dependency of a step is a step of the plan, and another one.
abbrev pub IsReference : List String → String → String → Type 0
IsReference ids sid dep = (is_in dep ids ≡ true) × (str_eq dep sid ≡ false)

unknown-References :
    (ids : List String) (sid : String) (deps : List String)
    → unknown ids sid deps ≡ []
    → is_in sid deps ≡ false
    → All (IsReference ids sid) deps
unfolding unknown
unknown-References ids sid [] h k = tt
unknown-References ids sid (dep ∷ deps) h k = elim (Bool-cases (is_in dep ids)) [
  | inl this ↦ (
    (this, ground (arith, k)),
    unknown-References ids sid deps (rw this at h) (ground (arith, k)),
  )
  | inr other ↦ absurd (ground (arith, other, h))
]

pub append-nil_left : (xs ys : List PlanError) → xs ++ ys ≡ [] → (xs ≡ []) × (ys ≡ [])
append-nil_left [] ys h = (refl, h)
append-nil_left (x ∷ xs) ys h = absurd (ground arith)

no_own : (sid : String) (deps : List String) → own sid deps ≡ [] → is_in sid deps ≡ false
unfolding own
no_own sid deps h = ground (arith, h)

pub references-References :
    (ids : List String) (ss : List WorkflowStep)
    → references ids ss ≡ []
    → All (λ s. All (IsReference ids s.step_id) s.depends_on) ss
unfolding references
references-References ids [] h = tt
references-References ids (s ∷ ss) h =
    let first = append-nil_left (unknown ids s.step_id s.depends_on) _ h in
    let rest = append-nil_left (own s.step_id s.depends_on) _ first.1 in
    (
      unknown-References ids s.step_id s.depends_on first.0 (no_own s.step_id s.depends_on rest.0),
      references-References ids ss rest.1,
    )

pub with_cycle-nil :
    (p : WorkflowPlan) (errors : List PlanError) → with_cycle p errors ≡ some [] → errors ≡ []
unfolding with_cycle
with_cycle-nil p [] h = refl
with_cycle-nil p (e ∷ errors) h = absurd (ground (arith, h))

no_duplicates :
    (ids : List String) → duplicates ids ≡ [] → (length (as_set ids) == length ids) ≡ true
unfolding duplicates
no_duplicates ids h = ground (arith, h)

-- In a plan that `validate` accepts no identifier stands for two steps, and every dependency of a
-- step is a step of the plan other than itself.
pub accepted-IsUnique :
    (p : WorkflowPlan)
    → validate p ≡ some []
    → IsUnique p.steps
      × All (λ s. All (IsReference (step_ids p.steps) s.step_id) s.depends_on) p.steps
unfolding validate
accepted-IsUnique p h =
    let ids = step_ids p.steps in
    let both = append-nil_left (duplicates ids) (references ids p.steps) (with_cycle-nil p _ h) in
    (distinct-IsUnique p.steps (no_duplicates ids both.0), references-References ids p.steps both.1)
