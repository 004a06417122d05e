-- ===== src/Plan/Order/Sound.antt =====
-- `get_execution_order` ends and keeps the dependencies.
use you_mi_agent.Prelude.{
  ℕ, zero, suc, ◌+◌, ◌≤◌, min, String, ◌≡◌, refl, ◌∙◌, true, some, List, [], ◌∷◌, ◌++◌, arith,
  length, concat, All, is_some,
}
use mathlib.Core.List.{append_assoc, append-nil}
use you_mi_agent.Dict.{Dict, lookup}
use you_mi_agent.Plan.{WorkflowStep, WorkflowPlan, is_in}
use you_mi_agent.Plan.Order.{
  adjacency, in_degrees, roots, visit_layer, onto_layers, layers_from, get_execution_order,
}
use you_mi_agent.Plan.Order.Counting.{occurrences, among, All-among, All-occurring}
use you_mi_agent.Plan.Order.Edges.{
  all_deps, IsUnique, waiting, degree-in_degrees, occurrences-roots, in_degrees-KeysDiffer,
  waiting-in_degrees,
}
use you_mi_agent.Plan.Order.Rounds.{Counted, ready-le, visit_layer-LayerVisited}

-- All dependencies of each step of a layer stand in the layers before it.
abbrev pub Ordered : List WorkflowStep → List String → List (List String) → Type 0
Ordered ss done [] = Unit
Ordered ss done (layer ∷ layers) =
    All (λ x. All (λ dep. is_in dep done ≡ true) (all_deps x ss)) layer
    × Ordered ss (done ++ layer) layers

-- Where the loop ends.
pub record Layered (ss : List WorkflowStep) (done : List String) (d : Dict ℕ)
    (layers : List (List String)) : Type 0 where
  pub ordered : Ordered ss done layers
  pub last : Dict ℕ
  pub counted : Counted ss (done ++ concat layers) [] [] last
  pub known : (x : String) → is_some (lookup x last) ≡ is_some (lookup x d)

layer-ordered :
    (ss : List WorkflowStep) (done layer : List String) (d : Dict ℕ)
    → Counted ss done layer [] d
    → All (λ x. All (λ dep. is_in dep done ≡ true) (all_deps x ss)) layer
layer-ordered ss done layer d h =
    All-occurring _ layer
      (λ x k. All-among done (all_deps x ss) (ground (arith, h.emitted x, h.open_deps x)))

next_layer :
    {ss : List WorkflowStep} {done next : List String} {d : Dict ℕ}
    → Counted ss done [] next d
    → Counted ss done next [] d
next_layer h = record { open_deps = h.open_deps; emitted = λ x. omega (arith, h.emitted x) }

layers_from-Layered :
    (fuel : ℕ) (ss : List WorkflowStep) (done queue : List String) (d : Dict ℕ)
    → Counted ss done queue [] d
    → waiting d + min 1 (length queue) ≤ fuel
    → (layers : List (List String)) × (layers_from fuel (adjacency ss []) d queue ≡ some layers)
      × Layered ss done d layers
unfolding layers_from onto_layers
layers_from-Layered fuel ss done [] d h f =
    ([], refl, record { ordered = tt; last = d; counted = rw append-nil h; known = λ x. refl })
layers_from-Layered zero ss done (sid ∷ queue) d h f = absurd (omega arith)
layers_from-Layered (suc fuel) ss done (sid ∷ queue) d h f =
    let r = visit_layer (adjacency ss []) (sid ∷ queue) (record { degrees = d; next = [] }) in
    let v = visit_layer-LayerVisited ss (sid ∷ queue) done (record { degrees = d; next = [] }) h in
    let (layers, e, rest) =
      layers_from-Layered fuel ss (done ++ (sid ∷ queue)) r.next r.degrees (next_layer v.counted)
        (omega (arith, v.fuelled)) in
    (
      (sid ∷ queue) ∷ layers,
      rw e,
      record {
        ordered = (layer-ordered ss done (sid ∷ queue) d h, rest.ordered);
        last = rest.last;
        counted = rw append_assoc at rest.counted;
        known = λ x. rest.known x ∙ v.known x;
      },
    )

among-none : (xs : List String) → among [] xs ≡ 0
among-none [] = refl
among-none (x ∷ xs) = among-none xs

start-Counted :
    (ss : List WorkflowStep)
    → IsUnique ss
    → let d = in_degrees ss [] in Counted ss [] (roots d) [] d
start-Counted ss u =
    let d = in_degrees ss [] in
    record {
      open_deps = λ x. ground (arith, degree-in_degrees x ss u, among-none (all_deps x ss));
      emitted = λ x. omega (arith, occurrences-roots x d (in_degrees-KeysDiffer ss [] tt));
    }

pub order-Layered :
    (p : WorkflowPlan)
    → IsUnique p.steps
    → (layers : List (List String)) × (get_execution_order p ≡ some layers)
      × Layered p.steps [] (in_degrees p.steps []) layers
unfolding get_execution_order
order-Layered p u =
    let d = in_degrees p.steps [] in
    layers_from-Layered (length p.steps + 1) p.steps [] (roots d) d (start-Counted p.steps u)
      (omega (arith, waiting-in_degrees p.steps))

-- For a plan whose identifiers are distinct, the order is found: all dependencies of a step stand
-- in layers before its own, and no name stands in the layers twice.
pub order_respects_dependencies :
    (p : WorkflowPlan)
    → IsUnique p.steps
    → (layers : List (List String)) × (get_execution_order p ≡ some layers)
      × Ordered p.steps [] layers
      × ((x : String) → occurrences x (concat layers) ≤ 1)
order_respects_dependencies p u =
    let (layers, e, h) = order-Layered p u in
    (layers, e, h.ordered, λ x. omega (arith, h.counted.emitted x, ready-le x h.last))
