-- ===== src/Plan/Executor/Parallel/Schedules.antt =====
-- Whole schedules: what the parallel execution of the layers leaves.
use you_mi_agent.Prelude.{
  ℕ, ◌≤◌, String, ◌≡◌, refl, ◌∙◌, sym, ap, subst, Bool, some, List, [], ◌∷◌, ◌++◌, arith, inl, inr,
  Bool-cases, Option-cases, All, concat, length, ltb,
}
use mathlib.Core.Option.{some-injective}
use mathlib.Core.List.{append_assoc, append-nil}
use you_mi_agent.Dict.{Dict, lookup}
use you_mi_agent.Plan.{WorkflowStep, StepResult, is_in}
use you_mi_agent.Plan.Order.Counting.{occurrences, occurrences-append, is_in-occurrences}
use you_mi_agent.Plan.Order.Edges.{all_deps}
use you_mi_agent.Plan.Order.Sound.{Ordered}
use you_mi_agent.Plan.Executor.{Settings, Execution, blocked}
use you_mi_agent.Plan.Executor.Flat.{AllIn, Ordered-Ready}
use you_mi_agent.Plan.Executor.Settled.{settled_by, Progressed, execute_layer-Progressed}
use you_mi_agent.Plan.Executor.Parallel.{
  LayerState, Turn, begins, ends, turn, turns, gathered, execute_layer_parallel, execute_layer,
  execute_layers_parallel,
}
use you_mi_agent.Plan.Executor.Parallel.Simulated.{Simulated}
use you_mi_agent.Plan.Executor.Parallel.Begins.{begins-Simulated}
use you_mi_agent.Plan.Executor.Parallel.Ends.{ends-Simulated}

-- The check of the dependencies sees only their results.
pub blocked-lookup :
    (ff : Bool) (d e : Dict StepResult) (deps : List String)
    → ((x : String) → lookup x d ≡ lookup x e)
    → blocked ff d deps ≡ blocked ff e deps
unfolding blocked
blocked-lookup ff d e [] h = refl
blocked-lookup ff d e (dep ∷ deps) h = ground (arith, h dep, blocked-lookup ff d e deps h)

AllIn-same :
    (a b deps : List String) → ((x : String) → is_in x a ≡ is_in x b) → AllIn a deps → AllIn b deps
AllIn-same a b [] h k = tt
AllIn-same a b (dep ∷ deps) h k = (sym (h dep) ∙ k.0, AllIn-same a b deps h k.1)

module _ (c : Settings) (ss : List WorkflowStep) where
  Progressed-same :
      (a b : List String) (d e : Dict StepResult)
      → ((x : String) → is_in x a ≡ is_in x b)
      → ((x : String) → lookup x d ≡ lookup x e)
      → Progressed c ss a d
      → Progressed c ss b e
  Progressed-same a b d e h k p = record {
    settled = λ s known. ground (
      arith,
      p.settled s known,
      h s.step_id,
      k s.step_id,
      ap (settled_by c s) (blocked-lookup c.fail_fast d e s.depends_on k),
    );
    closed = λ s known m. AllIn-same a b s.depends_on h (p.closed s known (h s.step_id ∙ m));
  }

  module _ (total : String → ℕ) (once : (y : String) → total y ≤ 1) where
    turn-Simulated :
        (t : Turn) (done : List String) (d : Dict StepResult) (l l' : LayerState)
        → Simulated c ss total done d l
        → turn c ss t l ≡ some l'
        → (done' : List String) × (d' : Dict StepResult) × Simulated c ss total done' d' l'
    unfolding turn
    turn-Simulated (begins sid) done d l l' h e = elim (Bool-cases (is_in sid l.waiting)) [
      | inl w ↦
          let (done', d', h') = begins-Simulated c ss total once done d l sid h w in
          (done', d', subst (Simulated c ss total done' d') (some-injective _ _ (rw w at e)) h')
      | inr w ↦ absurd (ground (arith, e, w))
    ]
    turn-Simulated (ends sid) done d l l' h e = elim (Bool-cases (is_in sid l.busy)) [
      | inl w ↦
          let (done', d', h') = ends-Simulated c ss total once done d l sid h w in
          (done', d', subst (Simulated c ss total done' d') (some-injective _ _ (rw w at e)) h')
      | inr w ↦ absurd (ground (arith, e, w))
    ]

    turns-Simulated :
        (ts : List Turn) (done : List String) (d : Dict StepResult) (l l' : LayerState)
        → Simulated c ss total done d l
        → turns c ss ts l ≡ some l'
        → (done' : List String) × (d' : Dict StepResult) × Simulated c ss total done' d' l'
    unfolding turns
    turns-Simulated [] done d l l' h e =
        (done, d, subst (Simulated c ss total done d) (some-injective l l' e) h)
    turns-Simulated (t ∷ ts) done d l l' h e = elim (Option-cases (turn c ss t l)) [
      | inl off ↦ absurd (ground (arith, e, off))
      | inr (m, on) ↦
          let (done', d', h') = turn-Simulated t done d l m h on in
          turns-Simulated ts done' d' m l' h' (rw (turns, on) at e)
    ]

  gathered-empty :
      (w b : List String) (x y : Execution)
      → gathered c ss (record { waiting = w; busy = b; execution = x }) ≡ some y
      → (w ≡ []) × (b ≡ []) × (x ≡ y)
  unfolding gathered
  gathered-empty [] [] x y h = (refl, refl, some-injective x y h)
  gathered-empty [] (z ∷ b) x y h = absurd (ground arith)
  gathered-empty (z ∷ w) b x y h = absurd (ground arith)

  execute_layer_parallel-Progressed :
      (layer done : List String) (ts : List Turn) (x y : Execution)
      → All (λ z. AllIn done (all_deps z ss)) layer
      → ((z : String) → occurrences z (done ++ layer) ≤ 1)
      → Progressed c ss done x.results
      → execute_layer_parallel c ss layer ts x ≡ some y
      → Progressed c ss (done ++ layer) y.results
  unfolding execute_layer_parallel
  execute_layer_parallel-Progressed layer done ts x y ready once p e =
      let start : LayerState = record { waiting = layer; busy = []; execution = x } in
      let total : String → ℕ = λ z. occurrences z (done ++ layer) in
      elim (Option-cases (turns c ss ts start)) [
        | inl off ↦ absurd (ground (arith, e, off))
        | inr (l, on) ↦
            let (done', d', h) =
              turns-Simulated total once ts done x.results start l
                (record {
                  progressed = p;
                  seen = λ z. refl;
                  started = tt;
                  queued = ready;
                  counted = λ z. ground (arith, occurrences-append z done layer);
                })
                on in
            let (w, b, same) =
              gathered-empty l.waiting l.busy l.execution y
                (rw (execute_layer_parallel, on) at e) in
            Progressed-same done' (done ++ layer) d' y.results
              (λ z. ground (
                arith,
                h.counted z,
                w,
                b,
                is_in-occurrences z done',
                is_in-occurrences z (done ++ layer),
              ))
              (λ z. ground (arith, h.seen z, b, ap (λ (u : Execution). lookup z u.results) same))
              h.progressed
      ]

  execute_layer-Schedule :
      (layer done : List String) (ts : List Turn) (x y : Execution)
      → All (λ z. AllIn done (all_deps z ss)) layer
      → ((z : String) → occurrences z (done ++ layer) ≤ 1)
      → Progressed c ss done x.results
      → execute_layer c ss layer ts x ≡ some y
      → Progressed c ss (done ++ layer) y.results
  unfolding execute_layer
  execute_layer-Schedule layer done ts x y ready once p e =
      elim (Bool-cases (ltb 1 (length layer))) [
        | inl many ↦
            execute_layer_parallel-Progressed layer done ts x y ready once p
              (rw (execute_layer, many) at e)
        | inr few ↦
            let in_order = Ordered-Ready ss done (layer ∷ []) (ready, tt) in
            let (z, f, h) =
              execute_layer-Progressed c ss layer done x (rw append-nil at in_order) once p in
            subst (λ (u : Execution). Progressed c ss (done ++ layer) u.results)
              (some-injective z y (sym f ∙ rw (execute_layer, few) at e)) h
      ]

  -- After the layers, whatever the schedules, the steps are where the serial execution leaves them.
  pub execute_layers_parallel-Progressed :
      (layers : List (List String)) (done : List String) (ts : List (List Turn)) (x y : Execution)
      → Ordered ss done layers
      → ((z : String) → occurrences z (done ++ concat layers) ≤ 1)
      → Progressed c ss done x.results
      → execute_layers_parallel c ss layers ts x ≡ some y
      → Progressed c ss (done ++ concat layers) y.results
  unfolding execute_layers_parallel
  execute_layers_parallel-Progressed [] done ts x y o once p e =
      rw (append-nil, some-injective y x (sym e)) p
  execute_layers_parallel-Progressed (layer ∷ layers) done [] x y o once p e =
      absurd (ground (arith, e))
  execute_layers_parallel-Progressed (layer ∷ layers) done (t ∷ ts) x y o once p e =
      elim (Option-cases (execute_layer c ss layer t x)) [
        | inl off ↦ absurd (ground (arith, e, off))
        | inr (z, on) ↦
            let once' : (u : String) → occurrences u ((done ++ layer) ++ concat layers) ≤ 1 =
              λ u. rw append_assoc (once u) in
            let h =
              execute_layer-Schedule layer done t x z o.0
                (λ u. ground (arith, once' u, occurrences-append u (done ++ layer) (concat layers)))
                p on in
            rw append_assoc at (
              execute_layers_parallel-Progressed layers (done ++ layer) ts z y o.1 once' h
                (rw (execute_layers_parallel, on) at e))
      ]
