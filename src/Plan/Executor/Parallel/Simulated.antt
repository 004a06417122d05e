-- ===== src/Plan/Executor/Parallel/Simulated.antt =====
-- The state of a layer against the serial execution of its steps: a step that runs counts there as
-- one that is still to come.
use you_mi_agent.Prelude.{
  ℕ, ◌+◌, String, ◌≡◌, refl, ◌∙◌, sym, subst, Bool, true, false, none, some, List, [], ◌∷◌, ◌++◌,
  arith, inl, inr, Bool-cases, str_eq, eq_iff, All, All-map, if◌then◌else◌,
}
use you_mi_agent.Dict.{Dict, lookup, insert}
use you_mi_agent.Plan.{WorkflowStep, StepResult, is_in, get_step}
use you_mi_agent.Plan.Order.Counting.{occurrences}
use you_mi_agent.Plan.Order.Edges.{all_deps}
use you_mi_agent.Plan.Step.{run_step}
use you_mi_agent.Plan.Executor.{Settings, initial, blocked}
use you_mi_agent.Plan.Executor.Deps.{get_step-id, blocked-insert, not_among}
use you_mi_agent.Plan.Executor.Flat.{AllIn, AllIn-more}
use you_mi_agent.Plan.Executor.Settled.{settle, settled_by, Progressed, insert-Progressed}
use you_mi_agent.Plan.Executor.Parallel.{LayerState, take_out, begun}

pub occurrences-take_out :
    (sid y : String) (xs : List String)
    → is_in sid xs ≡ true
    → occurrences y xs ≡ occurrences y (sid ∷ take_out sid xs)
unfolding take_out
occurrences-take_out sid y [] h = absurd (ground arith)
occurrences-take_out sid y (x ∷ xs) h =
    ground (arith, occurrences-take_out sid y xs, eq_iff x sid, eq_iff sid y, eq_iff x y)

pub All-take_out :
    (P : String → Type 0) (sid : String) (xs : List String) → All P xs → All P (take_out sid xs)
unfolding take_out
All-take_out P sid [] h = tt
All-take_out P sid (x ∷ xs) h = elim (Bool-cases (str_eq x sid)) [
  | inl this ↦ rw this h.1
  | inr other ↦ rw other (h.0, All-take_out P sid xs h.1)
]

pub All-is_in :
    (P : String → Type 0) (sid : String) (xs : List String) → is_in sid xs ≡ true → All P xs → P sid
All-is_in P sid [] k h = absurd (ground arith)
All-is_in P sid (x ∷ xs) k h = elim (Bool-cases (str_eq x sid)) [
  | inl this ↦ subst P ((eq_iff x sid).0 this) h.0
  | inr other ↦ All-is_in P sid xs (ground arith) h.1
]

pub blocked-same :
    (ff : Bool) (done : List String) (d e : Dict StepResult) (deps : List String)
    → ((x : String) → is_in x done ≡ true → lookup x d ≡ lookup x e)
    → AllIn done deps
    → blocked ff d deps ≡ blocked ff e deps
unfolding blocked
blocked-same ff done d e [] h k = refl
blocked-same ff done d e (dep ∷ deps) h k =
    ground (arith, h dep k.0, blocked-same ff done d e deps h k.1)

module _ (c : Settings) (ss : List WorkflowStep) where
  abbrev pub running_result : String → StepResult
  running_result sid = begun c ss sid (initial sid)

  -- The step was not to be skipped, which its dependencies have settled.
  abbrev pub IsRunning : List String → Dict StepResult → String → Type 0
  IsRunning done d x =
      (s : WorkflowStep) × (get_step x ss ≡ some s)
      × (blocked c.fail_fast d s.depends_on ≡ none)
      × AllIn done s.depends_on

  -- `d` is where the serial execution of the steps of `done` is.
  pub record Simulated (total : String → ℕ) (done : List String) (d : Dict StepResult)
      (l : LayerState) : Type 0 where
    pub progressed : Progressed c ss done d
    pub seen :
        (x : String)
        → lookup x l.execution.results
          ≡ (if is_in x l.busy then some (running_result x) else lookup x d)
    pub started : All (IsRunning done d) l.busy
    pub queued : All (λ x. AllIn done (all_deps x ss)) l.waiting
    pub counted :
        (y : String) → occurrences y done + occurrences y l.busy + occurrences y l.waiting ≡ total y

  pub IsRunning-insert :
      (sid : String) (v : StepResult) (done : List String) (d : Dict StepResult) (x : String)
      → is_in sid done ≡ false
      → IsRunning done d x
      → IsRunning (done ++ (sid ∷ [])) (insert sid v d) x
  IsRunning-insert sid v done d x new (s, known, runs, deps) = (
    s,
    known,
    blocked-insert c.fail_fast d sid v s.depends_on (not_among sid done s.depends_on new deps)
        ∙ runs,
    AllIn-more done (sid ∷ []) s.depends_on deps,
  )

  pub IsRunning-more :
      (sid : String) (done : List String) (d : Dict StepResult) (x : String)
      → IsRunning done d x
      → IsRunning (done ++ (sid ∷ [])) d x
  IsRunning-more sid done d x (s, known, runs, deps) =
      (s, known, runs, AllIn-more done (sid ∷ []) s.depends_on deps)

  -- The value that a step has where it ends.
  pub ended_value :
      (s : WorkflowStep) (sid : String)
      → s.step_id ≡ sid
      → (run_step c.default_timeout c.workers s (running_result sid)).result ≡ settled_by c s none
  unfolding run_step begun
  ended_value s sid e = rw (sym e) refl

  -- One more step is done, with this result, whichever it is.
  pub insert-done :
      (s : WorkflowStep) (sid : String) (done : List String) (d : Dict StepResult)
      → get_step sid ss ≡ some s
      → is_in sid done ≡ false
      → AllIn done s.depends_on
      → Progressed c ss done d
      → Progressed c ss (done ++ (sid ∷ [])) (insert sid (settle c s d) d)
  insert-done s sid done d known new deps h =
      let e = get_step-id sid ss {s = s} known in
      subst
        (λ n.
          get_step n ss ≡ some s
          → is_in n done ≡ false
          → Progressed c ss (done ++ (n ∷ [])) (insert n (settle c s d) d))
        e (λ k m. insert-Progressed c ss s done d k m deps h) known new

  pub queued-more :
      (sid : String) (done waiting : List String)
      → All (λ x. AllIn done (all_deps x ss)) waiting
      → All (λ x. AllIn (done ++ (sid ∷ [])) (all_deps x ss)) waiting
  queued-more sid done waiting h =
      All-map (λ x. AllIn done (all_deps x ss)) (λ x. AllIn (done ++ (sid ∷ [])) (all_deps x ss))
        waiting (λ x k. AllIn-more done (sid ∷ []) (all_deps x ss) k) h
