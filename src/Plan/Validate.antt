-- ===== src/Plan/Validate.antt =====
-- youmi/coordinator/plan.py, `WorkflowPlan.validate` and `_detect_cycle`.
--
-- The recursion of `dfs` takes fuel, `none` where it runs out: each call enters one more node of the
-- path.
pub mod Accepted
pub mod Visits
pub mod Acyclic
pub mod Ranked
pub mod Quiet
pub mod Exact
pub mod Ends
use you_mi_agent.Prelude.{
  ℕ, zero, suc, ◌+◌, String, Bool, true, false, not, Option, none, some, List, [], ◌∷◌, ◌++◌, ◌==◌,
  str_eq, if◌then◌else◌, length, select,
}
use you_mi_agent.Dict.{Dict, lookup, insert}
use you_mi_agent.Plan.{WorkflowStep, WorkflowPlan, step_ids, is_in}

-- The error messages, by what they report.
pub data PlanError : Type 0 where
  duplicate_ids : PlanError
  unknown_dependency : String → String → PlanError
  depends_on_itself : String → PlanError
  cycle : List String → PlanError

-- `{s.step_id for s in self.steps}`
unfoldable pub as_set : List String → List String
as_set [] = []
as_set (x ∷ xs) = let rest = as_set xs in if is_in x xs then rest else x ∷ rest

unfoldable pub duplicates : List String → List PlanError
unfolding as_set
duplicates ids = if length (as_set ids) == length ids then [] else duplicate_ids ∷ []

-- The loop over `step.depends_on`.
unfoldable pub unknown : List String → String → List String → List PlanError
unknown ids sid [] = []
unknown ids sid (dep ∷ deps) =
    let rest = unknown ids sid deps in
    if is_in dep ids then rest else unknown_dependency sid dep ∷ rest

unfoldable pub own : String → List String → List PlanError
own sid deps = if is_in sid deps then depends_on_itself sid ∷ [] else []

-- The loop over the steps.
unfoldable pub references : List String → List WorkflowStep → List PlanError
unfolding unknown own
references ids [] = []
references ids (s ∷ ss) =
    unknown ids s.step_id s.depends_on ++ (own s.step_id s.depends_on ++ references ids ss)

-- The variables that `dfs` shares, and the cycle where one is found.
pub record Search : Type 0 where
  pub visited : List String
  pub in_stack : List String
  pub path : List String
  pub found : Option (List String)

-- `{s.step_id: list(s.depends_on) for s in self.steps}`
unfoldable pub dependencies : List WorkflowStep → Dict (List String) → Dict (List String)
dependencies [] adj = adj
dependencies (s ∷ ss) adj = dependencies ss (insert s.step_id s.depends_on adj)

-- `path[path.index(dep):]`
from_dep : String → List String → List String
from_dep dep [] = []
from_dep dep (x ∷ path) = let rest = from_dep dep path in if str_eq x dep then x ∷ path else rest

without_last : List String → List String
without_last [] = []
without_last (x ∷ []) = []
without_last (x ∷ (y ∷ ys)) = x ∷ without_last (y ∷ ys)

enter : String → Search → Search
enter node s = record s {
  visited = node ∷ s.visited;
  in_stack = node ∷ s.in_stack;
  path = s.path ++ (node ∷ []);
}

exit : String → Search → Search
unfolding without_last
exit node s = record s {
  path = without_last s.path;
  in_stack = select (λ x. not (str_eq x node)) s.in_stack;
}

-- `elif dep in in_stack`, for a dependency that was visited.
closes : String → Search → Search
unfolding from_dep
closes dep s =
    if is_in dep s.in_stack
    then record s { found = some (from_dep dep s.path ++ (dep ∷ [])) }
    else s

-- What follows in a loop, unless a cycle was found.
pub unless_found : Option Search → (Search → Option Search) → Option Search
unless_found none rest = none
unless_found (some s) rest = elim s.found [ none ↦ rest s | some c ↦ some s ]

-- The loop of `dfs` over the dependencies, given the recursive call.
visit : (String → Search → Option Search) → List String → Search → Option Search
unfolding closes unless_found
visit call [] s = some s
visit call (dep ∷ deps) s =
    unless_found (elim (is_in dep s.visited) [ true ↦ some (closes dep s) | false ↦ call dep s ])
      (λ s'. visit call deps s')

pub list_or_nil : Option (List String) → List String
list_or_nil none = []
list_or_nil (some l) = l

unfoldable pub dfs : ℕ → Dict (List String) → String → Search → Option Search
unfolding enter exit visit list_or_nil unless_found
dfs zero adj node s = none
dfs (suc fuel) adj node s =
    unless_found
      (visit (λ dep t. dfs fuel adj dep t) (list_or_nil (lookup node adj)) (enter node s))
      (λ s'. some (exit node s'))

-- The loop of `_detect_cycle` over the steps.
unfoldable pub search_all : ℕ → Dict (List String) → List WorkflowStep → Search → Option Search
unfolding dfs unless_found
search_all fuel adj [] s = some s
search_all fuel adj (step ∷ steps) s =
    unless_found
      (elim (is_in step.step_id s.visited) [ true ↦ some s | false ↦ dfs fuel adj step.step_id s ])
      (λ s'. search_all fuel adj steps s')

unfoldable pub detect_cycle : WorkflowPlan → Option Search
unfolding dependencies search_all
detect_cycle p =
    search_all (length p.steps + 1) (dependencies p.steps []) p.steps
      (record { visited = []; in_stack = []; path = []; found = none })

pub cycle_error : Option Search → Option (List PlanError)
cycle_error none = none
cycle_error (some s) = elim s.found [ none ↦ some [] | some c ↦ some (cycle c ∷ []) ]

-- `if not errors: ...`, and the result
pub with_cycle : WorkflowPlan → List PlanError → Option (List PlanError)
unfolding cycle_error detect_cycle
with_cycle p [] = cycle_error (detect_cycle p)
with_cycle p (e ∷ errors) = some (e ∷ errors)

unfoldable pub validate : WorkflowPlan → Option (List PlanError)
unfolding duplicates references with_cycle
validate p = let ids = step_ids p.steps in with_cycle p (duplicates ids ++ references ids p.steps)
