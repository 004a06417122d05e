-- ===== src/Plan/Validate/Visits.antt =====
-- The search for a cycle enters each step at most once, so that its fuel is enough.
use you_mi_agent.Prelude.{
  ℕ, zero, suc, ◌+◌, String, ◌≡◌, ◌≤◌, refl, ◌∙◌, true, false, not, none, some, Option, List, [],
  ◌∷◌, arith, str_eq, eq_iff, All, count, Bool-cases, inl, inr, ap, Option-cases,
}
use you_mi_agent.Dict.{Dict, lookup}
use you_mi_agent.Plan.{WorkflowStep, step_ids, is_in}
use you_mi_agent.Plan.Validate.{
  Search, enter, exit, closes, unless_found, visit, list_or_nil, dfs, search_all,
}

pub continues :
    (t : Search) (rest : Search → Option Search)
    → t.found ≡ none
    → unless_found (some t) rest ≡ rest t
unfolding unless_found
continues t rest h = ap (λ o. elim o [ none ↦ rest t | some c ↦ some t ]) h

pub stops :
    (t : Search) (rest : Search → Option Search) {c : List String}
    → t.found ≡ some c
    → unless_found (some t) rest ≡ some t
unfolding unless_found
stops t rest h = ap (λ o. elim o [ none ↦ rest t | some c ↦ some t ]) h

module _ (ids : List String) where
  -- How many steps were not visited.
  abbrev pub unvisited : List String → ℕ
  unvisited v = count (λ x. not (is_in x v)) ids

  -- The search went on from `s` to some state, in which no more steps are unvisited.
  abbrev pub GoesOn : Search → Option Search → Type 0
  GoesOn s o = (s' : Search) × (o ≡ some s') × (unvisited s'.visited ≤ unvisited s.visited)

  unless_found-GoesOn :
      (s : Search) (o : Option Search) (rest : Search → Option Search)
      → GoesOn s o
      → ((t : Search) → unvisited t.visited ≤ unvisited s.visited → GoesOn t (rest t))
      → GoesOn s (unless_found o rest)
  unfolding unless_found
  unless_found-GoesOn s o rest (t, e, le) next = elim (Option-cases t.found) [
    | inl going ↦
        let (u, f, more) = next t le in
        (u, ap (λ o. unless_found o rest) e ∙ continues t rest going ∙ f, omega arith)
    | inr (c, stop) ↦ (t, ap (λ o. unless_found o rest) e ∙ stops t rest stop, le)
  ]

  closes-GoesOn : (dep : String) (s : Search) → GoesOn s (some (closes dep s))
  unfolding closes
  closes-GoesOn dep s = (closes dep s, refl, ground arith)

  visit-GoesOn :
      (fuel : ℕ) (call : String → Search → Option Search)
      → ((dep : String) (s : Search)
          → is_in dep ids ≡ true
          → is_in dep s.visited ≡ false
          → unvisited s.visited ≤ fuel
          → GoesOn s (call dep s))
      → (deps : List String) (s : Search) → All (λ dep. is_in dep ids ≡ true) deps
      → unvisited s.visited ≤ fuel
      → GoesOn s (visit call deps s)
  unfolding visit
  visit-GoesOn fuel call h [] s known le = (s, refl, omega arith)
  visit-GoesOn fuel call h (dep ∷ deps) s known le =
      unless_found-GoesOn s
        (elim (is_in dep s.visited) [ true ↦ some (closes dep s) | false ↦ call dep s ])
        (λ s'. visit call deps s')
        (elim (Bool-cases (is_in dep s.visited)) [
          | inl seen ↦ rw seen (closes-GoesOn dep s)
          | inr new ↦ rw new (h dep s known.0 new le)
        ])
        (λ t more. visit-GoesOn fuel call h deps t known.1 (omega arith))

count_less :
    (node : String) (v ids : List String)
    → count (λ x. not (is_in x (node ∷ v))) ids ≤ count (λ x. not (is_in x v)) ids
count_less node v [] = omega arith
count_less node v (x ∷ ids) = ground (arith, count_less node v ids)

enter_less :
    (node : String) (v ids : List String)
    → is_in node ids ≡ true
    → is_in node v ≡ false
    → count (λ x. not (is_in x (node ∷ v))) ids + 1 ≤ count (λ x. not (is_in x v)) ids
enter_less node v [] h k = absurd (ground (arith, h))
enter_less node v (x ∷ ids) h k = elim (Bool-cases (str_eq x node)) [
  | inl this ↦ ground (arith, count_less node v ids, this, eq_iff x node, eq_iff node x, k)
  | inr other ↦ ground (arith, enter_less node v ids (ground (arith, h, other)) k)
]

module _ (ids : List String) (adj : Dict (List String))
    (known : (node : String)
      → All (λ dep. is_in dep ids ≡ true) (list_or_nil (lookup node adj))) where
  dfs-GoesOn :
      (fuel : ℕ) (node : String) (s : Search)
      → is_in node ids ≡ true
      → is_in node s.visited ≡ false
      → unvisited ids s.visited ≤ fuel
      → GoesOn ids s (dfs fuel adj node s)
  unfolding dfs enter exit
  dfs-GoesOn zero node s h k le = absurd (omega (arith, enter_less node s.visited ids h k))
  dfs-GoesOn (suc fuel) node s h k le =
      let less = enter_less node s.visited ids h k in
      let (t, e, more) =
        unless_found-GoesOn ids (enter node s)
          (visit (λ dep t. dfs fuel adj dep t) (list_or_nil (lookup node adj)) (enter node s))
          (λ s'. some (exit node s'))
          (visit-GoesOn ids fuel (λ dep t. dfs fuel adj dep t) (λ dep t. dfs-GoesOn fuel dep t)
            (list_or_nil (lookup node adj)) (enter node s) (known node) (omega (arith, less)))
          (λ t le. (exit node t, refl, omega arith)) in
      (t, e, omega (arith, less, more))

  pub search_all-GoesOn :
      (fuel : ℕ) (steps : List WorkflowStep) (s : Search)
      → All (λ x. is_in x ids ≡ true) (step_ids steps)
      → unvisited ids s.visited ≤ fuel
      → GoesOn ids s (search_all fuel adj steps s)
  unfolding search_all
  search_all-GoesOn fuel [] s h le = (s, refl, omega arith)
  search_all-GoesOn fuel (step ∷ steps) s h le =
      unless_found-GoesOn ids s
        (elim (is_in step.step_id s.visited) [
          | true ↦ some s
          | false ↦ dfs fuel adj step.step_id s
        ])
        (λ s'. search_all fuel adj steps s')
        (elim (Bool-cases (is_in step.step_id s.visited)) [
          | inl seen ↦ rw seen (s, refl, omega arith)
          | inr new ↦ rw new (dfs-GoesOn fuel step.step_id s h.0 new le)
        ])
        (λ t more. search_all-GoesOn fuel steps t h.1 (omega arith))
