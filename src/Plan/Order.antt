-- ===== src/Plan/Order.antt =====
-- youmi/coordinator/plan.py, `WorkflowPlan.get_execution_order`: Kahn's algorithm by layers.
--
-- An in-degree falls to 0 exactly when it was 1, so the test `in_degree[child] == 0` after the
-- decrement is the test for 1 before it; one that would go below 0 is never 0 again, and stays at 0
-- here without being 1. The `while` loop takes fuel, `none` where it runs out.
pub mod Counting
pub mod Edges
pub mod Rounds
pub mod Sound
pub mod Complete
use you_mi_agent.Prelude.{
  ℕ, zero, suc, ◌+◌, ◌-◌, String, Bool, true, false, Option, none, some, List, [], ◌∷◌, ◌++◌, ◌==◌,
  if◌then◌else◌, length,
}
use you_mi_agent.Dict.{Dict, lookup, insert, modify}
use you_mi_agent.Plan.{WorkflowStep, WorkflowPlan}

-- `{s.step_id: len(s.depends_on) for s in self.steps}`, from the entries so far
pub in_degrees : List WorkflowStep → Dict ℕ → Dict ℕ
in_degrees [] d = d
in_degrees (s ∷ ss) d = in_degrees ss (insert s.step_id (length s.depends_on) d)

pub list_or_nil : Option (List String) → List String
list_or_nil none = []
list_or_nil (some l) = l

-- `adj[sid]` of the `defaultdict(list)`
pub children : String → Dict (List String) → List String
unfolding list_or_nil
children sid adj = list_or_nil (lookup sid adj)

-- `for dep in s.depends_on: adj[dep].append(s.step_id)`
pub add_edges : String → List String → Dict (List String) → Dict (List String)
unfolding children
add_edges sid [] adj = adj
add_edges sid (dep ∷ deps) adj =
    add_edges sid deps (insert dep (children dep adj ++ (sid ∷ [])) adj)

pub adjacency : List WorkflowStep → Dict (List String) → Dict (List String)
unfolding add_edges
adjacency [] adj = adj
adjacency (s ∷ ss) adj = adjacency ss (add_edges s.step_id s.depends_on adj)

-- `deque(sid for sid, deg in in_degree.items() if deg == 0)`
pub roots : Dict ℕ → List String
roots [] = []
roots ((sid, deg) ∷ d) = let rest = roots d in if deg == 0 then sid ∷ rest else rest

-- The in-degrees and the next layer.
pub record Round : Type 0 where
  pub degrees : Dict ℕ
  pub next : List String

pub is_one : Option ℕ → Bool
is_one none = false
is_one (some n) = n == 1

pub visit_child : String → Round → Round
unfolding is_one
visit_child child r = record {
  degrees = modify child (λ n. n - 1) r.degrees;
  next = if is_one (lookup child r.degrees) then r.next ++ (child ∷ []) else r.next;
}

pub visit_children : List String → Round → Round
unfolding visit_child
visit_children [] r = r
visit_children (c ∷ cs) r = visit_children cs (visit_child c r)

pub visit_layer : Dict (List String) → List String → Round → Round
unfolding visit_children children
visit_layer adj [] r = r
visit_layer adj (sid ∷ layer) r = visit_layer adj layer (visit_children (children sid adj) r)

pub onto_layers : List String → Option (List (List String)) → Option (List (List String))
onto_layers layer none = none
onto_layers layer (some layers) = some (layer ∷ layers)

-- `while queue`
pub layers_from : ℕ → Dict (List String) → Dict ℕ → List String → Option (List (List String))
unfolding visit_layer onto_layers
layers_from fuel adj degrees [] = some []
layers_from zero adj degrees (sid ∷ queue) = none
layers_from (suc fuel) adj degrees (sid ∷ queue) =
    let r = visit_layer adj (sid ∷ queue) (record { degrees = degrees; next = [] }) in
    onto_layers (sid ∷ queue) (layers_from fuel adj r.degrees r.next)

unfoldable pub get_execution_order : WorkflowPlan → Option (List (List String))
unfolding in_degrees adjacency roots layers_from
get_execution_order p =
    let degrees = in_degrees p.steps [] in
    layers_from (length p.steps + 1) (adjacency p.steps []) degrees (roots degrees)
