-- ===== src/Plan/Order/Edges.antt =====
-- What the in-degrees and the adjacency lists of a plan hold.
use you_mi_agent.Prelude.{
  ℕ, ◌+◌, ◌≤◌, String, ◌≡◌, refl, none, some, List, [], ◌∷◌, ◌++◌, arith, str_eq, eq_iff,
  if◌then◌else◌, length, Bool-cases, inl, inr, ◌==◌, is_some, length-append,
}
use you_mi_agent.Dict.{Dict, lookup, insert, lookup-insert}
use you_mi_agent.Plan.{WorkflowStep, step_ids, is_in}
use you_mi_agent.Plan.Order.{in_degrees, list_or_nil, children, add_edges, adjacency, roots}
use you_mi_agent.Plan.Order.Counting.{occurrences, occurrences-append, is_in-occurrences}

-- The dependencies of the steps with this identifier.
abbrev pub all_deps : String → List WorkflowStep → List String
all_deps x [] = []
all_deps x (s ∷ ss) =
    let rest = all_deps x ss in if str_eq s.step_id x then s.depends_on ++ rest else rest

-- No identifier stands for two steps.
abbrev pub IsUnique : List WorkflowStep → Type 0
IsUnique [] = Unit
IsUnique (s ∷ ss) = (occurrences s.step_id (step_ids ss) ≡ 0) × IsUnique ss

children-add_edges :
    (x sid child : String) (deps : List String) (adj : Dict (List String))
    → occurrences x (children sid (add_edges child deps adj))
      ≡ occurrences x (children sid adj) + (if str_eq child x then occurrences sid deps else 0)
unfolding add_edges children list_or_nil
children-add_edges x sid child [] adj = ground arith
children-add_edges x sid child (dep ∷ deps) adj =
    let adj' = insert dep (children dep adj ++ (child ∷ [])) adj in
    ground (
      arith,
      children-add_edges x sid child deps adj',
      lookup-insert dep sid (children dep adj ++ (child ∷ [])) adj,
      occurrences-append x (children dep adj) (child ∷ []),
      eq_iff dep sid,
    )

children-adjacency_from :
    (x sid : String) (ss : List WorkflowStep) (adj : Dict (List String))
    → occurrences x (children sid (adjacency ss adj))
      ≡ occurrences x (children sid adj) + occurrences sid (all_deps x ss)
unfolding adjacency
children-adjacency_from x sid [] adj = omega arith
children-adjacency_from x sid (s ∷ ss) adj = ground (
  arith,
  children-adjacency_from x sid ss (add_edges s.step_id s.depends_on adj),
  children-add_edges x sid s.step_id s.depends_on adj,
  occurrences-append sid s.depends_on (all_deps x ss),
)

-- A step stands among the children of `sid` as often as `sid` among its dependencies.
pub children-adjacency :
    (x sid : String) (ss : List WorkflowStep)
    → occurrences x (children sid (adjacency ss [])) ≡ occurrences sid (all_deps x ss)
unfolding children
children-adjacency x sid ss = ground (arith, children-adjacency_from x sid ss [])

-- The in-degree of a name, 0 for one that is no step.
abbrev pub degree : String → Dict ℕ → ℕ
degree x d = elim (lookup x d) [ none ↦ 0 | some n ↦ n ]

-- A step without an open dependency counts 1.
abbrev pub ready : String → Dict ℕ → ℕ
ready x d = elim (lookup x d) [ none ↦ 0 | some n ↦ if n == 0 then 1 else 0 ]

all_deps-nil :
    (x : String) (ss : List WorkflowStep) → occurrences x (step_ids ss) ≡ 0 → all_deps x ss ≡ []
all_deps-nil x [] h = refl
all_deps-nil x (s ∷ ss) h = ground (arith, all_deps-nil x ss)

lookup-in_degrees :
    (x : String) (ss : List WorkflowStep) (d : Dict ℕ)
    → IsUnique ss
    → lookup x (in_degrees ss d)
      ≡ (if is_in x (step_ids ss) then some (length (all_deps x ss)) else lookup x d)
unfolding in_degrees
lookup-in_degrees x [] d u = refl
lookup-in_degrees x (s ∷ ss) d u = ground (
  arith,
  lookup-in_degrees x ss (insert s.step_id (length s.depends_on) d) u.1,
  lookup-insert s.step_id x (length s.depends_on) d,
  is_in-occurrences x (step_ids ss),
  all_deps-nil x ss,
  length-append s.depends_on (all_deps x ss),
  eq_iff s.step_id x,
)

-- At the start the in-degree of a name is the number of its dependencies.
pub degree-in_degrees :
    (x : String) (ss : List WorkflowStep)
    → IsUnique ss
    → degree x (in_degrees ss []) ≡ length (all_deps x ss)
degree-in_degrees x ss u =
    ground
      (arith, lookup-in_degrees x ss [] u, is_in-occurrences x (step_ids ss), all_deps-nil x ss)

-- A name is known to the in-degrees exactly if it is a step.
pub known-in_degrees :
    (x : String) (ss : List WorkflowStep)
    → IsUnique ss
    → is_some (lookup x (in_degrees ss [])) ≡ is_in x (step_ids ss)
known-in_degrees x ss u = ground (arith, lookup-in_degrees x ss [] u)

-- The keys of a dict are distinct.
abbrev pub KeysDiffer : Dict ℕ → Type 0
KeysDiffer [] = Unit
KeysDiffer ((k, n) ∷ d) = (lookup k d ≡ none) × KeysDiffer d

insert-KeysDiffer : (k : String) (n : ℕ) (d : Dict ℕ) → KeysDiffer d → KeysDiffer (insert k n d)
insert-KeysDiffer k n [] h = (refl, tt)
insert-KeysDiffer k n ((j, m) ∷ d) h = elim (Bool-cases (str_eq j k)) [
  | inl this ↦ rw this (ground (arith, eq_iff j k), h.1)
  | inr other ↦
      rw other
        (ground (arith, lookup-insert k j n d, eq_iff k j, eq_iff j k), insert-KeysDiffer k n d h.1)
]

pub in_degrees-KeysDiffer :
    (ss : List WorkflowStep) (d : Dict ℕ) → KeysDiffer d → KeysDiffer (in_degrees ss d)
unfolding in_degrees
in_degrees-KeysDiffer [] d h = h
in_degrees-KeysDiffer (s ∷ ss) d h =
    in_degrees-KeysDiffer ss _ (insert-KeysDiffer s.step_id (length s.depends_on) d h)

absent_root : (x : String) (d : Dict ℕ) → lookup x d ≡ none → occurrences x (roots d) ≡ 0
unfolding roots
absent_root x [] h = refl
absent_root x ((k, n) ∷ d) h = ground (arith, absent_root x d)

-- The first layer holds each step without dependencies once.
pub occurrences-roots :
    (x : String) (d : Dict ℕ) → KeysDiffer d → occurrences x (roots d) ≡ ready x d
unfolding roots
occurrences-roots x [] h = refl
occurrences-roots x ((k, n) ∷ d) h =
    ground (arith, occurrences-roots x d h.1, absent_root k d h.0, eq_iff k x)

-- The steps that wait for a dependency.
abbrev pub waiting : Dict ℕ → ℕ
waiting [] = 0
waiting ((k, n) ∷ d) = (if n == 0 then 0 else 1) + waiting d

waiting-le-length : (d : Dict ℕ) → waiting d ≤ length d
waiting-le-length [] = omega arith
waiting-le-length ((k, n) ∷ d) = ground (arith, waiting-le-length d)

length-insert : (k : String) (n : ℕ) (d : Dict ℕ) → length (insert k n d) ≤ length d + 1
length-insert k n [] = omega arith
length-insert k n ((j, m) ∷ d) = ground (arith, length-insert k n d)

length-in_degrees :
    (ss : List WorkflowStep) (d : Dict ℕ) → length (in_degrees ss d) ≤ length ss + length d
unfolding in_degrees
length-in_degrees [] d = omega arith
length-in_degrees (s ∷ ss) d = omega (
  arith,
  length-in_degrees ss (insert s.step_id (length s.depends_on) d),
  length-insert s.step_id (length s.depends_on) d,
)

pub waiting-in_degrees : (ss : List WorkflowStep) → waiting (in_degrees ss []) ≤ length ss
waiting-in_degrees ss = omega (arith, waiting-le-length (in_degrees ss []), length-in_degrees ss [])
