-- ===== src/Plan/Validate/Ranked.antt =====
-- A plan that `validate` accepts has no cycle.
use you_mi_agent.Prelude.{
  ℕ, suc, ◌+◌, ◌≤◌, ◌<◌, String, ◌≡◌, refl, ◌∙◌, sym, ap, subst, ◌++◌, true, none, some, Option,
  List, [], ◌∷◌, arith, str_eq, eq_iff, eq_refl, All, All-map, length, Bool-cases, inl, inr,
  Option-cases, if◌then◌else◌,
}
use you_mi_agent.Dict.{Dict, lookup, insert, lookup-insert}
use you_mi_agent.Plan.{WorkflowStep, WorkflowPlan, step_ids, is_in}
use you_mi_agent.Plan.Order.Counting.{occurrences}
use you_mi_agent.Plan.Order.Edges.{IsUnique}
use you_mi_agent.Plan.Order.Complete.{IsRanked}
use you_mi_agent.Plan.Validate.{
  Search, dependencies, detect_cycle, cycle_error, with_cycle, validate, list_or_nil, duplicates,
  references,
}
use you_mi_agent.Plan.Validate.Accepted.{IsReference, accepted-IsUnique, with_cycle-nil}
use you_mi_agent.Plan.Validate.Acyclic.{deps_of, Closed, Split, search_all-Further}

-- How many nodes stand after the last occurrence of this one, and one more.
abbrev pub rank_in : List String → String → ℕ
rank_in [] x = 0
rank_in (y ∷ done) x =
    let rest = rank_in done x in
    if is_in x done then rest else if str_eq y x then suc (length done) else 0

rank_in-le : (done : List String) (x : String) → rank_in done x ≤ length done
rank_in-le [] x = omega arith
rank_in-le (y ∷ done) x = ground (arith, rank_in-le done x)

module _ (adj : Dict (List String)) where
  deps_below :
      (done : List String) (x : String)
      → Closed adj done
      → is_in x done ≡ true
      → All (λ dep. (is_in dep done ≡ true) × (rank_in done dep < rank_in done x)) (deps_of adj x)
  deps_below [] x h k = absurd (ground (arith, k))
  deps_below (y ∷ done) x h k = elim (Bool-cases (is_in x done)) [
    | inl before ↦
        All-map _ _ (deps_of adj x)
          (λ dep (r : (is_in dep done ≡ true) × (rank_in done dep < rank_in done x)).
            (ground (arith, r.0), ground (arith, r.0, r.1, before)))
          (deps_below done x h.1 before)
    | inr now ↦
        subst
          (λ z.
            All
              (λ dep.
                (is_in dep (y ∷ done) ≡ true) × (rank_in (y ∷ done) dep < rank_in (y ∷ done) x))
              (deps_of adj z))
          ((eq_iff y x).0 (ground (arith, k, now)))
          (All-map _ _ (deps_of adj y)
            (λ dep (r : is_in dep done ≡ true).
              (ground (arith, r), ground (arith, r, rank_in-le done dep, now, k)))
            h.0)
  ]

lookup-dependencies :
    (x : String) (ss : List WorkflowStep) (adj : Dict (List String))
    → occurrences x (step_ids ss) ≡ 0
    → lookup x (dependencies ss adj) ≡ lookup x adj
unfolding dependencies
lookup-dependencies x [] adj h = refl
lookup-dependencies x (s ∷ ss) adj h = ground (
  arith,
  lookup-dependencies x ss (insert s.step_id s.depends_on adj),
  lookup-insert s.step_id x s.depends_on adj,
)

own_dependencies :
    (ss : List WorkflowStep) (adj : Dict (List String))
    → IsUnique ss
    → All (λ s. lookup s.step_id (dependencies ss adj) ≡ some s.depends_on) ss
unfolding dependencies
own_dependencies [] adj u = tt
own_dependencies (s ∷ ss) adj u =
    let adj' = insert s.step_id s.depends_on adj in
    (
      ground (
        arith,
        lookup-dependencies s.step_id ss adj' u.0,
        lookup-insert s.step_id s.step_id s.depends_on adj,
        eq_refl s.step_id,
      ),
      own_dependencies ss adj' u.1,
    )

no_cycle_error :
    (o : Option Search) → cycle_error o ≡ some [] → (s : Search) × (o ≡ some s) × (s.found ≡ none)
unfolding cycle_error
no_cycle_error none h = absurd (ground (arith, h))
no_cycle_error (some s) h = elim (Option-cases s.found) [
  | inl free ↦ (s, refl, free)
  | inr (c, found) ↦ absurd (ground (arith, h, found))
]

detect_cycle-free :
    (p : WorkflowPlan)
    → validate p ≡ some []
    → (s : Search) × (detect_cycle p ≡ some s) × (s.found ≡ none)
unfolding validate with_cycle
detect_cycle-free p h =
    let errors = duplicates (step_ids p.steps) ++ references (step_ids p.steps) p.steps in
    let none_before = with_cycle-nil p errors h in
    no_cycle_error (detect_cycle p) (sym (ap (with_cycle p) none_before) ∙ h)

module _ (p : WorkflowPlan) where
  abbrev start : Search
  start = record { visited = []; in_stack = []; path = []; found = none }

  start-Split : Split (dependencies p.steps []) start []
  start-Split = record { closed = tt; parts = λ y. refl }

  -- The order in which the search left the nodes.
  left_nodes :
      validate p ≡ some []
      → (done : List String) × Closed (dependencies p.steps []) done
        × All (λ x. is_in x done ≡ true) (step_ids p.steps)
  unfolding detect_cycle
  left_nodes h =
      let (s, e, free) = detect_cycle-free p h in
      let (done, go, all) =
        search_all-Further (dependencies p.steps []) (length p.steps + 1) p.steps start s []
          start-Split (λ y. refl) e free in
      (done, go.split.closed, all)

below_both :
    (ids done : List String) (sid : String) (deps : List String)
    → All (IsReference ids sid) deps
    → All (λ dep. (is_in dep done ≡ true) × (rank_in done dep < rank_in done sid)) deps
    → All (λ dep. (is_in dep ids ≡ true) × (rank_in done dep < rank_in done sid)) deps
below_both ids done sid [] h k = tt
below_both ids done sid (dep ∷ deps) h k = ((h.0.0, k.0.1), below_both ids done sid deps h.1 k.1)

rank_steps :
    (ids done : List String) (adj : Dict (List String)) (ss : List WorkflowStep)
    → Closed adj done
    → All (λ s. All (IsReference ids s.step_id) s.depends_on) ss
    → All (λ s. lookup s.step_id adj ≡ some s.depends_on) ss
    → All (λ x. is_in x done ≡ true) (step_ids ss)
    → IsRanked (rank_in done) ids ss
unfolding list_or_nil
rank_steps ids done adj [] h refs own all = tt
rank_steps ids done adj (s ∷ ss) h refs own all = (
  below_both ids done s.step_id s.depends_on refs.0 (
      subst
        (λ o.
          All (λ dep. (is_in dep done ≡ true) × (rank_in done dep < rank_in done s.step_id))
            (list_or_nil o))
        own.0 (deps_below adj done s.step_id h all.0)),
  rank_steps ids done adj ss h refs.1 own.1 all.1,
)

-- In a plan that `validate` accepts no identifier stands for two steps, and there is a rank that
-- every dependency lowers: the plan has no cycle. Every dependency is a step.
pub accepted-IsRanked :
    (p : WorkflowPlan)
    → validate p ≡ some []
    → (rank : String → ℕ) × IsUnique p.steps × IsRanked rank (step_ids p.steps) p.steps
accepted-IsRanked p h =
    let (unique, refs) = accepted-IsUnique p h in
    let (done, closed, all) = left_nodes p h in
    (
      rank_in done,
      unique,
      rank_steps (step_ids p.steps) done (dependencies p.steps []) p.steps closed refs
          (own_dependencies p.steps [] unique) all,
    )
