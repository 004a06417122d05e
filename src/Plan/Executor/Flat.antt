-- ===== src/Plan/Executor/Flat.antt =====
-- The layers one after the other, as one list of steps.
use you_mi_agent.Prelude.{
  All-map, String, ◌≡◌, refl, ◌∙◌, sym, true, Option, none, some, List, [], ◌∷◌, ◌++◌, arith,
  concat, All,
}
use mathlib.Core.List.{append_assoc, append-nil}
use you_mi_agent.Plan.{WorkflowStep, is_in}
use you_mi_agent.Plan.Order.Counting.{is_in-append}
use you_mi_agent.Plan.Order.Edges.{all_deps}
use you_mi_agent.Plan.Order.Sound.{Ordered}
use you_mi_agent.Plan.Executor.{
  Settings, Execution, execute_step, execute_layer_serial, execute_layers, and_then,
}

abbrev pub AllIn : List String → List String → Type 0
AllIn done deps = All (λ dep. is_in dep done ≡ true) deps

-- Each step comes after its dependencies.
abbrev pub Ready : List WorkflowStep → List String → List String → Type 0
Ready ss done [] = Unit
Ready ss done (sid ∷ sids) = AllIn done (all_deps sid ss) × Ready ss (done ++ (sid ∷ [])) sids

pub AllIn-more : (done more deps : List String) → AllIn done deps → AllIn (done ++ more) deps
AllIn-more done more deps h =
    All-map (λ dep. is_in dep done ≡ true) (λ dep. is_in dep (done ++ more) ≡ true) deps
      (λ dep k. ground (arith, is_in-append dep done more, k)) h

layer-Ready :
    (ss : List WorkflowStep) (done layer rest : List String)
    → All (λ x. AllIn done (all_deps x ss)) layer
    → Ready ss (done ++ layer) rest
    → Ready ss done (layer ++ rest)
layer-Ready ss done [] rest h k = rw append-nil at k
layer-Ready ss done (sid ∷ layer) rest h k = (
  h.0,
  layer-Ready ss (done ++ (sid ∷ [])) layer rest
      (All-map (λ x. AllIn done (all_deps x ss)) (λ x. AllIn (done ++ (sid ∷ [])) (all_deps x ss))
        layer (λ x m. AllIn-more done (sid ∷ []) (all_deps x ss) m) h.1)
      (rw append_assoc k),
)

pub Ordered-Ready :
    (ss : List WorkflowStep) (done : List String) (layers : List (List String))
    → Ordered ss done layers
    → Ready ss done (concat layers)
Ordered-Ready ss done [] h = tt
Ordered-Ready ss done (layer ∷ layers) h =
    layer-Ready ss done layer (concat layers) h.0 (Ordered-Ready ss (done ++ layer) layers h.1)

and_then-split :
    (o : Option Execution) (f g h : Execution → Option Execution)
    → ((y : Execution) → f y ≡ and_then (g y) h)
    → and_then o f ≡ and_then (and_then o g) h
and_then-split none f g h e = refl
and_then-split (some y) f g h e = e y

module _ (c : Settings) (ss : List WorkflowStep) where
  execute_layer_serial-append :
      (k l : List String) (x : Execution)
      → execute_layer_serial c ss (k ++ l) x
        ≡ and_then (execute_layer_serial c ss k x) (execute_layer_serial c ss l)
  unfolding execute_layer_serial
  execute_layer_serial-append [] l x = refl
  execute_layer_serial-append (sid ∷ k) l x =
      and_then-split (execute_step c ss sid x) _ _ _ (λ y. execute_layer_serial-append k l y)

  and_then-same :
      (o : Option Execution) (f g : Execution → Option Execution)
      → ((y : Execution) → f y ≡ g y)
      → and_then o f ≡ and_then o g
  and_then-same none f g e = refl
  and_then-same (some y) f g e = e y

  pub execute_layers-concat :
      (layers : List (List String)) (x : Execution)
      → execute_layers c ss layers x ≡ execute_layer_serial c ss (concat layers) x
  unfolding execute_layers execute_layer_serial
  execute_layers-concat [] x = refl
  execute_layers-concat (layer ∷ layers) x =
      and_then-same (execute_layer_serial c ss layer x) _ _ (λ y. execute_layers-concat layers y)
      ∙ sym (execute_layer_serial-append layer (concat layers) x)
