-- ===== src/Plan/Validate/Acyclic.antt =====
-- A search that finds no cycle leaves its nodes in an order in which every node comes after its
-- dependencies.
use you_mi_agent.Prelude.{
  ℕ, zero, suc, String, ◌≡◌, refl, ◌∙◌, sym, ap, subst, true, false, not, ◌||◌, ◌&&◌, none, some,
  Option, List, [], ◌∷◌, arith, str_eq, eq_iff, eq_refl, All, Bool-cases, inl, inr, Option-cases,
  select,
}
use mathlib.Core.Option.{some-injective}
use you_mi_agent.Dict.{Dict, lookup}
use you_mi_agent.Plan.{WorkflowStep, is_in, step_ids}
use you_mi_agent.Plan.Validate.{
  Search, enter, exit, closes, unless_found, visit, list_or_nil, dfs, search_all,
}
use you_mi_agent.Plan.Validate.Visits.{continues, stops}

unless_found-inv :
    (o : Option Search) (rest : Search → Option Search) (s' : Search)
    → unless_found o rest ≡ some s'
    → s'.found ≡ none
    → (t : Search) × (o ≡ some t) × (t.found ≡ none) × (rest t ≡ some s')
unfolding unless_found
unless_found-inv none rest s' e f = absurd (ground (arith, e))
unless_found-inv (some t) rest s' e f = elim (Option-cases t.found) [
  | inl going ↦ (t, refl, going, sym (continues t rest going) ∙ e)
  | inr (c, stop) ↦ absurd (ground (arith, stops t rest stop, e, stop, f))
]

pub is_in-select :
    (x y : String) (xs : List String)
    → is_in y (select (λ z. not (str_eq z x)) xs) ≡ (is_in y xs && not (str_eq x y))
is_in-select x y [] = refl
is_in-select x y (z ∷ xs) = ground (arith, is_in-select x y xs, eq_iff z x, eq_iff z y, eq_iff x y)

module _ (adj : Dict (List String)) where
  abbrev pub deps_of : String → List String
  unfolding list_or_nil
  deps_of x = list_or_nil (lookup x adj)

  -- Each node of the list, latest first, has its dependencies after it.
  abbrev pub Closed : List String → Type 0
  Closed [] = Unit
  Closed (x ∷ done) = All (λ dep. is_in dep done ≡ true) (deps_of x) × Closed done

  -- `done` are the nodes that the search has left.
  pub record Split (s : Search) (done : List String) : Type 0 where
    pub closed : Closed done
    pub parts : (y : String) → is_in y s.visited ≡ (is_in y done || is_in y s.in_stack)

  -- The search went from `s` to `s'`, and left more nodes.
  pub record Further (s s' : Search) (done done' : List String) : Type 0 where
    pub split : Split s' done'
    pub stack : (y : String) → is_in y s'.in_stack ≡ is_in y s.in_stack
    pub grows : (y : String) → is_in y done ≡ true → is_in y done' ≡ true

  abbrev Leaves : (call : String → Search → Option Search) → Type 0
  Leaves call =
      (node : String) (s s' : Search) (done : List String)
      → Split s done
      → is_in node s.visited ≡ false
      → call node s ≡ some s'
      → s'.found ≡ none
      → (done' : List String) × Further s s' done done' × (is_in node done' ≡ true)

  closes-Further :
      (dep : String) (s : Search) (done : List String)
      → Split s done
      → is_in dep s.visited ≡ true
      → (closes dep s).found ≡ none
      → Further s (closes dep s) done done × (is_in dep done ≡ true)
  unfolding closes
  closes-Further dep s done h seen free = elim (Bool-cases (is_in dep s.in_stack)) [
    | inl on ↦ absurd (ground (arith, on, free))
    | inr off ↦ (
      record {
        split = record { closed = h.closed; parts = λ y. ground (arith, off, h.parts y) };
        stack = λ y. ground (arith, off);
        grows = λ y k. k;
      },
      ground (arith, h.parts dep, off, seen),
    )
  ]

  Further-then :
      {s t u : Search} {a b c : List String} → Further s t a b → Further t u b c → Further s u a c
  Further-then f g = record {
    split = g.split;
    stack = λ y. g.stack y ∙ f.stack y;
    grows = λ y k. g.grows y (f.grows y k);
  }

  visit_one :
      (call : String → Search → Option Search)
      → Leaves call
      → (dep : String) (s t : Search) (done : List String) → Split s done
      → (elim (is_in dep s.visited) as (λ b. Option Search) [
        | true ↦ some (closes dep s)
        | false ↦ call dep s
      ])
        ≡ some t
      → t.found ≡ none
      → (done' : List String) × Further s t done done' × (is_in dep done' ≡ true)
  visit_one call leaves dep s t done h e f = elim (Bool-cases (is_in dep s.visited)) [
    | inl seen ↦
        let same = some-injective (closes dep s) t (rw seen at e) in
        let (go, now) = closes-Further dep s done h seen (ap (λ u. u.found) same ∙ f) in
        (done, subst (λ u. Further s u done done) same go, now)
    | inr new ↦ leaves dep s t done h new (rw new at e) f
  ]

  visit-Further :
      (call : String → Search → Option Search)
      → Leaves call
      → (deps : List String) (s s' : Search) (done : List String) → Split s done
      → visit call deps s ≡ some s'
      → s'.found ≡ none
      → (done' : List String) × Further s s' done done' × All (λ dep. is_in dep done' ≡ true) deps
  unfolding visit
  visit-Further call leaves [] s s' done h e f = (
    done,
    subst (λ t. Further s t done done) (some-injective s s' e)
        (record { split = h; stack = λ y. refl; grows = λ y k. k }),
    tt,
  )
  visit-Further call leaves (dep ∷ deps) s s' done h e f =
      let (t, first, free, rest) =
        unless_found-inv
          (elim (is_in dep s.visited) [ true ↦ some (closes dep s) | false ↦ call dep s ])
          (λ t. visit call deps t) s' e f in
      let (a, go, in_a) = visit_one call leaves dep s t done h first free in
      let (b, on, in_b) = visit-Further call leaves deps t s' a go.split rest f in
      (b, Further-then go on, (on.grows dep in_a, in_b))

  enter-Split :
      (node : String) (s : Search) (done : List String) → Split s done → Split (enter node s) done
  unfolding enter
  enter-Split node s done h = record { closed = h.closed; parts = λ y. ground (arith, h.parts y) }

  exit-Further :
      (node : String) (s t : Search) (done done' : List String)
      → Split s done
      → is_in node s.visited ≡ false
      → Further (enter node s) t done done'
      → All (λ dep. is_in dep done' ≡ true) (deps_of node)
      → Further s (exit node t) done (node ∷ done')
  unfolding enter exit
  exit-Further node s t done done' h new go deps = record {
    split = record {
      closed = (deps, go.split.closed);
      parts = λ y.
          ground
            (arith, go.split.parts y, is_in-select node y t.in_stack, go.stack y, eq_iff node y);
    };
    stack = λ y.
        ground (arith, is_in-select node y t.in_stack, go.stack y, h.parts y, eq_iff node y, new);
    grows = λ y k. ground (arith, go.grows y k);
  }

  dfs-Leaves : (fuel : ℕ) → Leaves (λ node s. dfs fuel adj node s)
  unfolding dfs
  dfs-Leaves zero node s s' done h new e f = absurd (ground (arith, e))
  dfs-Leaves (suc fuel) node s s' done h new e f =
      let (t, first, free, rest) =
        unless_found-inv (visit (λ dep t. dfs fuel adj dep t) (deps_of node) (enter node s))
          (λ t. some (exit node t)) s' e f in
      let (done', go, deps) =
        visit-Further (λ dep t. dfs fuel adj dep t) (dfs-Leaves fuel) (deps_of node) (enter node s)
          t done (enter-Split node s done h) first free in
      (
        node ∷ done',
        subst (λ u. Further s u done (node ∷ done')) (some-injective (exit node t) s' rest)
            (exit-Further node s t done done' h new go deps),
        ground (arith, eq_refl node),
      )

  search_one :
      (fuel : ℕ) (x : String) (s t : Search) (done : List String)
      → Split s done
      → ((y : String) → is_in y s.in_stack ≡ false)
      → (elim (is_in x s.visited) as (λ b. Option Search) [
        | true ↦ some s
        | false ↦ dfs fuel adj x s
      ])
        ≡ some t
      → t.found ≡ none
      → (done' : List String) × Further s t done done' × (is_in x done' ≡ true)
  search_one fuel x s t done h empty e f = elim (Bool-cases (is_in x s.visited)) [
    | inl seen ↦ (
      done,
      subst (λ u. Further s u done done) (some-injective s t (rw seen at e))
          (record { split = h; stack = λ y. refl; grows = λ y k. k }),
      ground (arith, h.parts x, empty x, seen),
    )
    | inr new ↦ dfs-Leaves fuel x s t done h new (rw new at e) f
  ]

  pub search_all-Further :
      (fuel : ℕ) (ss : List WorkflowStep) (s s' : Search) (done : List String)
      → Split s done
      → ((y : String) → is_in y s.in_stack ≡ false)
      → search_all fuel adj ss s ≡ some s'
      → s'.found ≡ none
      → (done' : List String) × Further s s' done done'
        × All (λ x. is_in x done' ≡ true) (step_ids ss)
  unfolding search_all
  search_all-Further fuel [] s s' done h empty e f = (
    done,
    subst (λ t. Further s t done done) (some-injective s s' e)
        (record { split = h; stack = λ y. refl; grows = λ y k. k }),
    tt,
  )
  search_all-Further fuel (x ∷ ss) s s' done h empty e f =
      let (t, first, free, rest) =
        unless_found-inv
          (elim (is_in x.step_id s.visited) [ true ↦ some s | false ↦ dfs fuel adj x.step_id s ])
          (λ t. search_all fuel adj ss t) s' e f in
      let (a, go, in_a) = search_one fuel x.step_id s t done h empty first free in
      let (b, on, in_b) =
        search_all-Further fuel ss t s' a go.split (λ y. go.stack y ∙ empty y) rest f in
      (b, Further-then go on, (on.grows x.step_id in_a, in_b))
