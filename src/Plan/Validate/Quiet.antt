-- ===== src/Plan/Validate/Quiet.antt =====
-- Where some rank is lowered by every dependency, the search finds no cycle.
use you_mi_agent.Prelude.{
  ℕ, zero, suc, ◌≤◌, ◌<◌, String, ◌≡◌, refl, ◌∙◌, sym, ap, subst, true, false, none, some, Option,
  List, [], ◌∷◌, arith, str_eq, eq_iff, All, Bool-cases, inl, inr,
}
use mathlib.Core.Option.{some-injective}
use you_mi_agent.Dict.{Dict}
use you_mi_agent.Plan.{WorkflowStep, is_in}
use you_mi_agent.Plan.Validate.{Search, enter, exit, closes, unless_found, visit, dfs, search_all}
use you_mi_agent.Plan.Validate.Visits.{continues}
use you_mi_agent.Plan.Validate.Acyclic.{deps_of, is_in-select}

unless_quiet :
    (o : Option Search) (rest : Search → Option Search) (s' : Search)
    → unless_found o rest ≡ some s'
    → ((t : Search) → o ≡ some t → t.found ≡ none)
    → (t : Search) × (o ≡ some t) × (rest t ≡ some s')
unfolding unless_found
unless_quiet none rest s' e h = absurd (ground (arith, e))
unless_quiet (some t) rest s' e h = (t, refl, sym (continues t rest (h t refl)) ∙ e)

module _ (adj : Dict (List String)) (rank : String → ℕ)
    (ranked : (x : String) → All (λ dep. rank dep < rank x) (deps_of adj x)) where
  -- Every node of the stack has at least this rank.
  abbrev StackAbove : ℕ → Search → Type 0
  StackAbove k s = (y : String) → is_in y s.in_stack ≡ true → k ≤ rank y

  -- No cycle was found on the way from `s` to `s'`, and the stack is as it was.
  record Quiet (s s' : Search) : Type 0 where
    pub free : s'.found ≡ none
    pub stack : (y : String) → is_in y s'.in_stack ≡ is_in y s.in_stack

  abbrev Calls : (String → Search → Option Search) → Type 0
  Calls call =
      (node : String) (s s' : Search)
      → s.found ≡ none
      → StackAbove (suc (rank node)) s
      → call node s ≡ some s'
      → Quiet s s'

  Quiet-then : {s t u : Search} → Quiet s t → Quiet t u → Quiet s u
  Quiet-then f g = record { free = g.free; stack = λ y. g.stack y ∙ f.stack y }

  Quiet-above : {s t : Search} (k : ℕ) → Quiet s t → StackAbove k s → StackAbove k t
  Quiet-above k q h y m = h y (sym (q.stack y) ∙ m)

  visit_one-Quiet :
      (call : String → Search → Option Search)
      → Calls call
      → (dep : String) (s t : Search) → s.found ≡ none
      → StackAbove (suc (rank dep)) s
      → (elim (is_in dep s.visited) as (λ b. Option Search) [
        | true ↦ some (closes dep s)
        | false ↦ call dep s
      ])
        ≡ some t
      → Quiet s t
  unfolding closes
  visit_one-Quiet call calls dep s t free above e = elim (Bool-cases (is_in dep s.visited)) [
    | inl seen ↦
        subst (λ u. Quiet s u) (some-injective (closes dep s) t (rw seen at e))
          (elim (Bool-cases (is_in dep s.in_stack)) [
            | inl on ↦ absurd (omega (arith, above dep on))
            | inr off ↦ record {
              free = ground (arith, off, free);
              stack = λ y. ground (arith, off);
            }
          ])
    | inr new ↦ calls dep s t free above (rw new at e)
  ]

  visit-Quiet :
      (k : ℕ) (call : String → Search → Option Search)
      → Calls call
      → (deps : List String) (s s' : Search) → s.found ≡ none
      → StackAbove k s
      → All (λ dep. rank dep < k) deps
      → visit call deps s ≡ some s'
      → Quiet s s'
  unfolding visit
  visit-Quiet k call calls [] s s' free above low e =
      subst (λ t. Quiet s t) (some-injective s s' e) (record { free = free; stack = λ y. refl })
  visit-Quiet k call calls (dep ∷ deps) s s' free above low e =
      let one = λ (t : Search).
        visit_one-Quiet call calls dep s t free (λ y m. omega (arith, above y m, low.0)) in
      let (t, first, rest) =
        unless_quiet
          (elim (is_in dep s.visited) [ true ↦ some (closes dep s) | false ↦ call dep s ])
          (λ t. visit call deps t) s' e (λ t f. (one t f).free) in
      let q = one t first in
      Quiet-then q (visit-Quiet k call calls deps t s' q.free (Quiet-above k q above) low.1 rest)

  enter-above :
      (node : String) (s : Search)
      → StackAbove (suc (rank node)) s
      → StackAbove (rank node) (enter node s)
  unfolding enter
  enter-above node s above y m = elim (Bool-cases (str_eq node y)) [
    | inl this ↦ omega (arith, ap rank ((eq_iff node y).0 this))
    | inr other ↦ omega (arith, above y (ground (arith, m, other)))
  ]

  not_on :
      (node : String) (s : Search) → StackAbove (suc (rank node)) s → is_in node s.in_stack ≡ false
  not_on node s above = elim (Bool-cases (is_in node s.in_stack)) [
    | inl on ↦ absurd (omega (arith, above node on))
    | inr off ↦ off
  ]

  exit-Quiet :
      (node : String) (s t : Search)
      → is_in node s.in_stack ≡ false
      → Quiet (enter node s) t
      → Quiet s (exit node t)
  unfolding enter exit
  exit-Quiet node s t off q = record {
    free = q.free;
    stack = λ y. ground (arith, q.stack y, is_in-select node y t.in_stack, off, eq_iff node y);
  }

  dfs-Calls : (fuel : ℕ) → Calls (λ node s. dfs fuel adj node s)
  unfolding dfs enter exit
  dfs-Calls zero node s s' free above e = absurd (ground (arith, e))
  dfs-Calls (suc fuel) node s s' free above e =
      let inner =
        λ (t : Search)
            (f : visit (λ dep t. dfs fuel adj dep t) (deps_of adj node) (enter node s) ≡ some t).
          visit-Quiet (rank node) (λ dep t. dfs fuel adj dep t) (dfs-Calls fuel) (deps_of adj node)
            (enter node s) t free (enter-above node s above) (ranked node) f in
      let (t, first, rest) =
        unless_quiet (visit (λ dep t. dfs fuel adj dep t) (deps_of adj node) (enter node s))
          (λ t. some (exit node t)) s' e (λ t f. (inner t f).free) in
      let q = inner t first in
      subst (λ u. Quiet s u) (some-injective (exit node t) s' rest)
        (exit-Quiet node s t (not_on node s above) q)

  search_one-Quiet :
      (fuel : ℕ) (x : String) (s : Search)
      → s.found ≡ none
      → ((y : String) → is_in y s.in_stack ≡ false)
      → (t : Search)
      → (elim (is_in x s.visited) as (λ b. Option Search) [
        | true ↦ some s
        | false ↦ dfs fuel adj x s
      ])
        ≡ some t
      → Quiet s t
  search_one-Quiet fuel x s free empty t e = elim (Bool-cases (is_in x s.visited)) [
    | inl seen ↦
        subst (λ u. Quiet s u) (some-injective s t (rw seen at e))
          (record { free = free; stack = λ y. refl })
    | inr new ↦ dfs-Calls fuel x s t free (λ y m. absurd (ground (arith, empty y, m))) (rw new at e)
  ]

  pub search_all-Quiet :
      (fuel : ℕ) (ss : List WorkflowStep) (s s' : Search)
      → s.found ≡ none
      → ((y : String) → is_in y s.in_stack ≡ false)
      → search_all fuel adj ss s ≡ some s'
      → s'.found ≡ none
  unfolding search_all
  search_all-Quiet fuel [] s s' free empty e =
      subst (λ t. t.found ≡ none) (some-injective s s' e) free
  search_all-Quiet fuel (x ∷ ss) s s' free empty e =
      let one = search_one-Quiet fuel x.step_id s free empty in
      let (t, first, rest) =
        unless_quiet
          (elim (is_in x.step_id s.visited) [ true ↦ some s | false ↦ dfs fuel adj x.step_id s ])
          (λ t. search_all fuel adj ss t) s' e (λ t f. (one t f).free) in
      let q = one t first in search_all-Quiet fuel ss t s' q.free (λ y. q.stack y ∙ empty y) rest
