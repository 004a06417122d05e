-- ===== src/Plan/Validate/Exact.antt =====
-- `validate` accepts every plan that has no cycle, no identifier twice and no unknown dependency.
use you_mi_agent.Prelude.{
  ℕ, ◌+◌, ◌<◌, String, ◌≡◌, refl, ◌∙◌, ap, subst, true, false, none, some, List, [], ◌∷◌, ◌++◌,
  arith, str_eq, eq_iff, All, All-map, length, Bool-cases, inl, inr,
}
use you_mi_agent.Dict.{Dict, insert, lookup-insert}
use you_mi_agent.Plan.{WorkflowStep, WorkflowPlan, step_ids, is_in}
use you_mi_agent.Plan.Order.Counting.{is_in-occurrences}
use you_mi_agent.Plan.Order.Edges.{IsUnique}
use you_mi_agent.Plan.Order.Complete.{IsRanked}
use you_mi_agent.Plan.Validate.{
  cycle, Search, dependencies, detect_cycle, cycle_error, with_cycle, validate, as_set, duplicates,
  unknown, own, references, list_or_nil,
}
use you_mi_agent.Plan.Validate.Accepted.{references-References}
use you_mi_agent.Plan.Validate.Ends.{detect_cycle-ends}
use you_mi_agent.Plan.Validate.Acyclic.{deps_of}
use you_mi_agent.Plan.Validate.Quiet.{search_all-Quiet}

distinct :
    (ss : List WorkflowStep) → IsUnique ss → length (as_set (step_ids ss)) ≡ length (step_ids ss)
unfolding as_set
distinct [] u = refl
distinct (s ∷ ss) u =
    ground (arith, distinct ss u.1, u.0, is_in-occurrences s.step_id (step_ids ss))

duplicates-nil : (ss : List WorkflowStep) → IsUnique ss → duplicates (step_ids ss) ≡ []
unfolding duplicates
duplicates-nil ss u = ground (arith, distinct ss u)

module _ (ids : List String) (rank : String → ℕ) where
  unknown-nil :
      (sid : String) (deps : List String)
      → All (λ dep. (is_in dep ids ≡ true) × (rank dep < rank sid)) deps
      → unknown ids sid deps ≡ []
  unfolding unknown
  unknown-nil sid [] h = refl
  unknown-nil sid (dep ∷ deps) h = ground (arith, h.0.0, unknown-nil sid deps h.1)

  not_own :
      (sid : String) (deps : List String)
      → All (λ dep. (is_in dep ids ≡ true) × (rank dep < rank sid)) deps
      → is_in sid deps ≡ false
  not_own sid [] h = refl
  not_own sid (dep ∷ deps) h = elim (Bool-cases (str_eq dep sid)) [
    | inl this ↦ absurd (omega (arith, h.0.1, ap rank ((eq_iff dep sid).0 this)))
    | inr other ↦ ground (arith, other, not_own sid deps h.1)
  ]

  references-nil : (ss : List WorkflowStep) → IsRanked rank ids ss → references ids ss ≡ []
  unfolding references own
  references-nil [] h = refl
  references-nil (s ∷ ss) h = ground (
    arith,
    unknown-nil s.step_id s.depends_on h.0,
    not_own s.step_id s.depends_on h.0,
    references-nil ss h.1,
  )

  ranked_adj :
      (ss : List WorkflowStep) (adj : Dict (List String))
      → IsRanked rank ids ss
      → ((x : String) → All (λ dep. rank dep < rank x) (deps_of adj x))
      → (x : String) → All (λ dep. rank dep < rank x) (deps_of (dependencies ss adj) x)
  unfolding dependencies list_or_nil
  ranked_adj [] adj h k x = k x
  ranked_adj (s ∷ ss) adj h k x =
      ranked_adj ss (insert s.step_id s.depends_on adj) h.1
        (λ y. rw lookup-insert (elim (Bool-cases (str_eq s.step_id y)) [
          | inl this ↦ rw this (
              subst (λ z. All (λ dep. rank dep < rank z) s.depends_on) ((eq_iff s.step_id y).0 this)
                (All-map _ _ s.depends_on
                  (λ dep (r : (is_in dep ids ≡ true) × (rank dep < rank s.step_id)). r.1) h.0))
          | inr other ↦ rw other (k y)
        ]))
        x

cycle_error-free : (s : Search) → s.found ≡ none → cycle_error (some s) ≡ some []
unfolding cycle_error
cycle_error-free s h = ap (λ o. elim o [ none ↦ some [] | some c ↦ some (cycle c ∷ []) ]) h

detect_cycle-Quiet :
    (p : WorkflowPlan) (rank : String → ℕ) (s : Search)
    → IsRanked rank (step_ids p.steps) p.steps
    → detect_cycle p ≡ some s
    → s.found ≡ none
unfolding detect_cycle list_or_nil
detect_cycle-Quiet p rank s h e =
    search_all-Quiet (dependencies p.steps []) rank
      (ranked_adj (step_ids p.steps) rank p.steps [] h (λ x. tt)) (length p.steps + 1) p.steps
      (record { visited = []; in_stack = []; path = []; found = none }) s refl (λ y. refl) e

-- `validate` accepts every plan in which no identifier stands for two steps, every dependency is a
-- step, and some rank is lowered by every dependency.
pub ranked_accepted :
    (p : WorkflowPlan) (rank : String → ℕ)
    → IsUnique p.steps
    → IsRanked rank (step_ids p.steps) p.steps
    → validate p ≡ some []
unfolding validate with_cycle
ranked_accepted p rank u h =
    let ids = step_ids p.steps in
    let refs = references-nil ids rank p.steps h in
    let (s, e) = detect_cycle-ends p (references-References ids p.steps refs) in
    let no_errors = ap (λ xs. xs ++ references ids p.steps) (duplicates-nil p.steps u) ∙ refs in
    ap (with_cycle p) no_errors
    ∙ ap cycle_error e
    ∙ cycle_error-free s (detect_cycle-Quiet p rank s h e)
