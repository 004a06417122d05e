-- ===== src/Plan/Order/Complete.antt =====
-- `get_execution_order` loses no step of a plan without a cycle.
use you_mi_agent.Prelude.{
  All-append, All-map, ℕ, zero, suc, ◌<◌, String, ◌≡◌, refl, subst, ap, ◌∙◌, true, some, List, [],
  ◌∷◌, arith, str_eq, eq_iff, if◌then◌else◌, length, concat, All, Bool-cases, inl, inr, is_some,
}
use you_mi_agent.Dict.{Dict, lookup}
use you_mi_agent.Plan.{WorkflowStep, WorkflowPlan, step_ids, is_in}
use you_mi_agent.Plan.Order.{get_execution_order}
use you_mi_agent.Plan.Order.Counting.{occurrences, is_in-occurrences, among}
use you_mi_agent.Plan.Order.Edges.{all_deps, IsUnique, known-in_degrees}
use you_mi_agent.Plan.Order.Sound.{order-Layered}
use you_mi_agent.Plan.Order.Rounds.{Counted, ready-le}

-- A rank for the steps that every dependency lowers, and every dependency is a step: the plan has
-- no cycle.
abbrev pub IsRanked : (String → ℕ) → List String → List WorkflowStep → Type 0
IsRanked rank ids ss =
    All (λ s. All (λ dep. (is_in dep ids ≡ true) × (rank dep < rank s.step_id)) s.depends_on) ss

ranked_deps :
    (rank : String → ℕ) (ids : List String) (x : String) (ss : List WorkflowStep)
    → IsRanked rank ids ss
    → All (λ dep. (is_in dep ids ≡ true) × (rank dep < rank x)) (all_deps x ss)
ranked_deps rank ids x [] h = tt
ranked_deps rank ids x (s ∷ ss) h = elim (Bool-cases (str_eq s.step_id x)) [
  | inl this ↦ rw this (
      All-append _ s.depends_on (all_deps x ss)
        (subst (λ y. All (λ dep. (is_in dep ids ≡ true) × (rank dep < rank y)) s.depends_on)
          ((eq_iff s.step_id x).0 this) h.0)
        (ranked_deps rank ids x ss h.1))
  | inr other ↦ rw other (ranked_deps rank ids x ss h.1)
]

among-All : (done xs : List String) → All (λ y. is_in y done ≡ true) xs → among done xs ≡ length xs
among-All done [] h = refl
among-All done (x ∷ xs) h = rw h.0 (ap suc (among-All done xs h.1))

visited_below :
    (k : ℕ) (rank : String → ℕ) (ss : List WorkflowStep) (done : List String) (d : Dict ℕ)
    → IsRanked rank (step_ids ss) ss
    → Counted ss done [] [] d
    → ((x : String) → is_some (lookup x d) ≡ is_in x (step_ids ss))
    → (x : String) → rank x < k
    → is_in x (step_ids ss) ≡ true
    → is_in x done ≡ true
visited_below zero rank ss done d ranked h known x below step = elim below [ ]
visited_below (suc k) rank ss done d ranked h known x below step =
    let deps_done =
      All-map _ (λ y. is_in y done ≡ true) (all_deps x ss)
        (λ y (p : (is_in y (step_ids ss) ≡ true) × (rank y < rank x)).
          visited_below k rank ss done d ranked h known y (omega arith) p.0)
        (ranked_deps rank (step_ids ss) x ss ranked) in
    ground (
      arith,
      among-All done (all_deps x ss) deps_done,
      h.open_deps x,
      h.emitted x,
      known x,
      is_in-occurrences x done,
    )

-- For a plan with distinct identifiers and no cycle, every step stands in the layers exactly once,
-- and nothing else does.
pub order_is_complete :
    (p : WorkflowPlan) (rank : String → ℕ)
    → IsUnique p.steps
    → IsRanked rank (step_ids p.steps) p.steps
    → (layers : List (List String)) × (get_execution_order p ≡ some layers)
      × ((x : String)
          → occurrences x (concat layers) ≡ (if is_in x (step_ids p.steps) then 1 else 0))
order_is_complete p rank u ranked =
    let (layers, e, h) = order-Layered p u in
    let known : (x : String) → is_some (lookup x h.last) ≡ is_in x (step_ids p.steps) =
      λ x. h.known x ∙ known-in_degrees x p.steps u in
    (
      layers,
      e,
      λ x. elim (Bool-cases (is_in x (step_ids p.steps))) [
        | inl step ↦ rw step (
            ground (
              arith,
              visited_below (suc (rank x)) rank p.steps (concat layers) h.last ranked h.counted
                  known x (omega arith) step,
              is_in-occurrences x (concat layers),
              h.counted.emitted x,
              ready-le x h.last,
            ))
        | inr other ↦ rw other (ground (arith, known x, h.counted.emitted x))
      ],
    )
