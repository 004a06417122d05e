-- ===== src/Plan/Validate/Ends.antt =====
-- `validate` ends.
use you_mi_agent.Prelude.{
  ◌+◌, String, ◌≡◌, ◌⊎◌, ◌≤◌, refl, ◌∙◌, true, not, none, some, List, [], ◌∷◌, ◌++◌, arith, str_eq,
  eq_refl, All, All-map, length, count, Bool-cases, inl, inr, ap, Option-cases,
}
use you_mi_agent.Dict.{Dict, lookup, insert, lookup-insert}
use you_mi_agent.Plan.{WorkflowStep, WorkflowPlan, step_ids, is_in}
use you_mi_agent.Plan.Validate.{
  PlanError, cycle, Search, list_or_nil, dependencies, detect_cycle, validate, with_cycle,
  duplicates, references, cycle_error,
}
use you_mi_agent.Plan.Validate.Visits.{search_all-GoesOn}
use you_mi_agent.Plan.Validate.Accepted.{
  IsReference, references-References, append-nil_left, accepted-IsUnique,
}
use you_mi_agent.Plan.Order.Edges.{IsUnique}

known-dependencies :
    (ids : List String) (ss : List WorkflowStep) (adj : Dict (List String))
    → All (λ s. All (λ dep. is_in dep ids ≡ true) s.depends_on) ss
    → ((node : String) → All (λ dep. is_in dep ids ≡ true) (list_or_nil (lookup node adj)))
    → (node : String)
    → All (λ dep. is_in dep ids ≡ true) (list_or_nil (lookup node (dependencies ss adj)))
unfolding dependencies list_or_nil
known-dependencies ids [] adj h k node = k node
known-dependencies ids (s ∷ ss) adj h k node =
    known-dependencies ids ss (insert s.step_id s.depends_on adj) h.1
      (λ n. rw lookup-insert (elim (Bool-cases (str_eq s.step_id n)) [
        | inl this ↦ rw this h.0
        | inr other ↦ rw other (k n)
      ]))
      node

own_ids :
    (ids more : List String)
    → ((x : String) → is_in x more ≡ true → is_in x ids ≡ true)
    → All (λ x. is_in x ids ≡ true) more
own_ids ids [] h = tt
own_ids ids (x ∷ more) h =
    (h x (ground (arith, eq_refl x)), own_ids ids more (λ y k. h y (ground (arith, k))))

unvisited_bound : (ids : List String) → count (λ x. not (is_in x [])) ids ≤ length ids
unvisited_bound [] = omega arith
unvisited_bound (x ∷ ids) = omega (arith, unvisited_bound ids)

length-step_ids : (ss : List WorkflowStep) → length (step_ids ss) ≡ length ss
length-step_ids [] = refl
length-step_ids (s ∷ ss) = omega (arith, length-step_ids ss)

pub detect_cycle-ends :
    (p : WorkflowPlan)
    → All (λ s. All (IsReference (step_ids p.steps) s.step_id) s.depends_on) p.steps
    → (s : Search) × (detect_cycle p ≡ some s)
unfolding detect_cycle list_or_nil
detect_cycle-ends p h =
    let ids = step_ids p.steps in
    let deps_known =
      All-map _ (λ s. All (λ dep. is_in dep ids ≡ true) s.depends_on) p.steps
        (λ s k.
          All-map _ (λ dep. is_in dep ids ≡ true) s.depends_on
            (λ dep (r : IsReference ids s.step_id dep). r.0) k)
        h in
    let (s, e, le) =
      search_all-GoesOn ids (dependencies p.steps [])
        (known-dependencies ids p.steps [] deps_known (λ node. tt)) (length p.steps + 1) p.steps
        (record { visited = []; in_stack = []; path = []; found = none })
        (own_ids ids ids (λ x k. k))
        (omega (arith, unvisited_bound ids, length-step_ids p.steps)) in
    (s, e)

cycle_error-ends : (s : Search) → (errors : List PlanError) × (cycle_error (some s) ≡ some errors)
unfolding cycle_error
cycle_error-ends s = elim (Option-cases s.found) [
  | inl free ↦ ([], ap (λ o. elim o [ none ↦ some [] | some c ↦ some (cycle c ∷ []) ]) free)
  | inr (c, found) ↦
      (cycle c ∷ [], ap (λ o. elim o [ none ↦ some [] | some c ↦ some (cycle c ∷ []) ]) found)
]

with_cycle-ends :
    (p : WorkflowPlan) (errors : List PlanError)
    → (errors ≡ [] → All (λ s. All (IsReference (step_ids p.steps) s.step_id) s.depends_on) p.steps)
    → (all : List PlanError) × (with_cycle p errors ≡ some all)
unfolding with_cycle
with_cycle-ends p [] h =
    let (s, e) = detect_cycle-ends p (h refl) in
    let (errors, f) = cycle_error-ends s in (errors, ap cycle_error e ∙ f)
with_cycle-ends p (e ∷ errors) h = (e ∷ errors, refl)

nil_or_more : (errors : List PlanError) → (errors ≡ []) ⊎ (1 ≤ length errors)
nil_or_more [] = inl refl
nil_or_more (e ∷ errors) = inr (omega arith)

pub validate-ends : (p : WorkflowPlan) → (errors : List PlanError) × (validate p ≡ some errors)
unfolding validate
validate-ends p =
    let ids = step_ids p.steps in
    with_cycle-ends p (duplicates ids ++ references ids p.steps)
      (λ e. references-References ids p.steps (append-nil_left (duplicates ids) _ e).1)

-- `validate` ends on every plan. Either it reports an error, or no identifier stands for two
-- steps and every dependency of a step is a step of the plan other than itself.
pub validate_checks :
    (p : WorkflowPlan)
    → (errors : List PlanError) × (validate p ≡ some errors)
      × ((1 ≤ length errors)
          ⊎ (IsUnique p.steps
              × All (λ s. All (IsReference (step_ids p.steps) s.step_id) s.depends_on) p.steps))
validate_checks p =
    let (errors, e) = validate-ends p in
    (
      errors,
      e,
      elim (nil_or_more errors) [
        | inl nil ↦ inr (accepted-IsUnique p (e ∙ ap some nil))
        | inr more ↦ inl more
      ],
    )
