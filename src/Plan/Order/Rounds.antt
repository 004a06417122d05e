-- ===== src/Plan/Order/Rounds.antt =====
-- What visiting a layer does to the counts.
use you_mi_agent.Prelude.{
  ℕ, ◌+◌, ◌-◌, ◌≤◌, String, ◌≡◌, refl, ◌∙◌, List, [], ◌∷◌, ◌++◌, arith, str_eq, eq_iff, eq_refl,
  if◌then◌else◌, length, is_some, length-append,
}
use mathlib.Core.List.{append_assoc, append-nil}
use you_mi_agent.Dict.{Dict, lookup, modify, lookup-modify}
use you_mi_agent.Plan.{WorkflowStep}
use you_mi_agent.Plan.Order.{
  Round, is_one, children, adjacency, visit_child, visit_children, visit_layer,
}
use you_mi_agent.Plan.Order.Counting.{occurrences, occurrences-append, among, among-le, among-more}
use you_mi_agent.Plan.Order.Edges.{all_deps, children-adjacency, degree, ready, waiting}

module _ (x c : String) (r : Round) where
  degree-visit_child :
      degree x (visit_child c r).degrees ≡ degree x r.degrees - (if str_eq c x then 1 else 0)
  unfolding visit_child
  degree-visit_child = ground (arith, lookup-modify c x (λ n. n - 1) r.degrees)

  next-visit_child :
      occurrences x (visit_child c r).next + ready x r.degrees
      ≡ occurrences x r.next + ready x (visit_child c r).degrees
  unfolding visit_child is_one
  next-visit_child = ground (
    arith,
    lookup-modify c x (λ n. n - 1) r.degrees,
    occurrences-append x r.next (c ∷ []),
    eq_iff c x,
  )

known-visit_child :
    (x c : String) (r : Round)
    → is_some (lookup x (visit_child c r).degrees) ≡ is_some (lookup x r.degrees)
unfolding visit_child
known-visit_child x c r = ground (arith, lookup-modify c x (λ n. n - 1) r.degrees)

waiting-modify :
    (c : String) (d : Dict ℕ)
    → waiting (modify c (λ n. n - 1) d) + (if is_one (lookup c d) then 1 else 0) ≡ waiting d
unfolding is_one
waiting-modify c [] = omega arith
waiting-modify c ((k, n) ∷ d) = ground (arith, waiting-modify c d)

waiting-visit_child :
    (c : String) (r : Round)
    → waiting (visit_child c r).degrees + length (visit_child c r).next
      ≡ waiting r.degrees + length r.next
unfolding visit_child
waiting-visit_child c r = ground (arith, waiting-modify c r.degrees, length-append r.next (c ∷ []))

-- The counts after some children.
record Visited (x : String) (cs : List String) (r r' : Round) : Type 0 where
  fewer : degree x r'.degrees ≡ degree x r.degrees - occurrences x cs
  onto_next : occurrences x r'.next + ready x r.degrees ≡ occurrences x r.next + ready x r'.degrees
  fuelled : waiting r'.degrees + length r'.next ≡ waiting r.degrees + length r.next
  known : is_some (lookup x r'.degrees) ≡ is_some (lookup x r.degrees)

visit_children-Visited :
    (x : String) (cs : List String) (r : Round) → Visited x cs r (visit_children cs r)
unfolding visit_children
visit_children-Visited x [] r = ground arith
visit_children-Visited x (c ∷ cs) r =
    let h = visit_children-Visited x cs (visit_child c r) in
    record {
      fewer = ground (arith, h.fewer, degree-visit_child x c r);
      onto_next = omega (arith, h.onto_next, next-visit_child x c r);
      fuelled = omega (arith, h.fuelled, waiting-visit_child c r);
      known = h.known ∙ known-visit_child x c r;
    }

-- Between two visits: `done` is visited, `layer` is to be visited, `next` is collected.
pub record Counted (ss : List WorkflowStep) (done layer next : List String) (d : Dict ℕ)
    : Type 0 where
  pub open_deps : (x : String) → degree x d + among done (all_deps x ss) ≡ length (all_deps x ss)
  pub emitted :
      (x : String) → occurrences x done + occurrences x layer + occurrences x next ≡ ready x d

pub ready-le : (x : String) (d : Dict ℕ) → ready x d ≤ 1
ready-le x d = ground arith

module _ (ss : List WorkflowStep) where
  visit_one-Counted :
      (done : List String) (sid : String) (layer : List String) (r : Round)
      → Counted ss done (sid ∷ layer) r.next r.degrees
      → let r' = visit_children (children sid (adjacency ss [])) r in
        Counted ss (done ++ (sid ∷ [])) layer r'.next r'.degrees
  visit_one-Counted done sid layer r h =
      let cs = children sid (adjacency ss []) in
      let fresh : occurrences sid done ≡ 0 =
        ground (arith, h.emitted sid, ready-le sid r.degrees, eq_refl sid) in
      record {
        open_deps = λ x. omega (
          arith,
          h.open_deps x,
          (visit_children-Visited x cs r).fewer,
          children-adjacency x sid ss,
          among-more done sid (all_deps x ss) fresh,
          among-le (done ++ (sid ∷ [])) (all_deps x ss),
        );
        emitted = λ x. ground (
          arith,
          h.emitted x,
          (visit_children-Visited x cs r).onto_next,
          occurrences-append x done (sid ∷ []),
        );
      }

  -- Visiting a layer moves it to what is done; the waiting steps that it frees are the next layer.
  pub record LayerVisited (done layer : List String) (r r' : Round) : Type 0 where
    pub counted : Counted ss (done ++ layer) [] r'.next r'.degrees
    pub fuelled : waiting r'.degrees + length r'.next ≡ waiting r.degrees + length r.next
    pub known : (x : String) → is_some (lookup x r'.degrees) ≡ is_some (lookup x r.degrees)

  pub visit_layer-LayerVisited :
      (layer done : List String) (r : Round)
      → Counted ss done layer r.next r.degrees
      → LayerVisited done layer r (visit_layer (adjacency ss []) layer r)
  unfolding visit_layer
  visit_layer-LayerVisited [] done r h = record {
    counted = rw append-nil h;
    fuelled = refl;
    known = λ x. refl;
  }
  visit_layer-LayerVisited (sid ∷ layer) done r h =
      let cs = children sid (adjacency ss []) in
      let r' = visit_children cs r in
      let later =
        visit_layer-LayerVisited layer (done ++ (sid ∷ [])) r'
          (visit_one-Counted done sid layer r h) in
      record {
        counted = rw append_assoc at later.counted;
        fuelled = later.fuelled ∙ (visit_children-Visited sid cs r).fuelled;
        known = λ x. later.known x ∙ (visit_children-Visited x cs r).known;
      }
