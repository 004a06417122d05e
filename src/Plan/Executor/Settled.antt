-- ===== src/Plan/Executor/Settled.antt =====
-- The results while the executor runs: those of the steps done are settled.
use you_mi_agent.Prelude.{
  String, ◌≡◌, ◌≤◌, refl, ◌∙◌, sym, ap, subst, true, false, Option, none, some, List, [], ◌∷◌, ◌++◌,
  arith, inl, inr, false≢true, Option-cases, str_eq, eq_iff, eq_refl, Bool-cases, if◌then◌else◌,
}
use mathlib.Core.List.{append_assoc, append-nil}
use you_mi_agent.Dict.{Dict, lookup, insert, lookup-insert}
use you_mi_agent.Plan.{WorkflowStep, StepResult, skipped, StepError, is_in, get_step}
use you_mi_agent.Plan.Order.Counting.{
  occurrences, occurrences-append, is_in-append, is_in-occurrences,
}
use you_mi_agent.Plan.Order.Edges.{all_deps}
use you_mi_agent.Plan.Step.{run_step}
use you_mi_agent.Plan.Executor.{
  Settings, Execution, initial, blocked, execute_step, execute_layer_serial, execute_known,
  execute_found, conclude,
}
use you_mi_agent.Plan.Executor.Deps.{
  never_both, get_step-id, blocked-insert, not_among, own_deps, same_step,
}
use you_mi_agent.Plan.Executor.Flat.{AllIn, AllIn-more, Ready}

module _ (c : Settings) where
  -- The result of a step that is skipped for this reason, or that runs.
  abbrev pub settled_by : WorkflowStep → Option StepError → StepResult
  settled_by s (some why) = record (initial s.step_id) { status = skipped; error = why }
  settled_by s none = (run_step c.default_timeout c.workers s (initial s.step_id)).result

  -- What the result of a step must be, given the results of the others.
  abbrev pub settle : WorkflowStep → Dict StepResult → StepResult
  settle s d = settled_by s (blocked c.fail_fast d s.depends_on)

module _ (c : Settings) (ss : List WorkflowStep) where
  -- The steps of `done` have their results, and the others have theirs still to come.
  pub record Progressed (done : List String) (d : Dict StepResult) : Type 0 where
    pub settled :
        (s : WorkflowStep)
        → get_step s.step_id ss ≡ some s
        → lookup s.step_id d
          ≡ some (if is_in s.step_id done then settle c s d else initial s.step_id)
    pub closed :
        (s : WorkflowStep)
        → get_step s.step_id ss ≡ some s
        → is_in s.step_id done ≡ true
        → AllIn done s.depends_on

  results-conclude :
      (s : WorkflowStep) (why : Option StepError) (x : Execution)
      → (conclude c ss s why (initial s.step_id) x).results
        ≡ insert s.step_id (settled_by c s why) x.results
  unfolding conclude
  results-conclude s none x = refl
  results-conclude s (some why) x = refl

  settle-insert :
      (s : WorkflowStep) (sid : String) (v : StepResult) (done : List String) (d : Dict StepResult)
      → is_in sid done ≡ false
      → AllIn done s.depends_on
      → settle c s (insert sid v d) ≡ settle c s d
  settle-insert s sid v done d new h =
      ap (settled_by c s)
        (blocked-insert c.fail_fast d sid v s.depends_on (not_among sid done s.depends_on new h))

  pub insert-Progressed :
      (s : WorkflowStep) (done : List String) (d : Dict StepResult)
      → get_step s.step_id ss ≡ some s
      → is_in s.step_id done ≡ false
      → AllIn done s.depends_on
      → Progressed done d
      → Progressed (done ++ (s.step_id ∷ [])) (insert s.step_id (settle c s d) d)
  insert-Progressed s done d known new deps h =
      let sid = s.step_id in
      let v = settle c s d in
      record {
        settled = λ t k. elim (Bool-cases (str_eq sid t.step_id)) [
          | inl this ↦
              subst
                (λ u.
                  lookup u.step_id (insert sid v d)
                  ≡ some (
                      if is_in u.step_id (done ++ (sid ∷ []))
                      then settle c u (insert sid v d)
                      else initial u.step_id))
                (same_step ss s t known k this)
                (ground (
                  arith,
                  lookup-insert sid sid v d,
                  is_in-append sid done (sid ∷ []),
                  eq_refl sid,
                  settle-insert s sid v done d new deps,
                ))
          | inr other ↦ elim (Bool-cases (is_in t.step_id done)) [
            | inl before ↦ ground (
              arith,
              lookup-insert sid t.step_id v d,
              is_in-append t.step_id done (sid ∷ []),
              settle-insert t sid v done d new (h.closed t k before),
              h.settled t k,
            )
            | inr after ↦ ground (
              arith,
              lookup-insert sid t.step_id v d,
              is_in-append t.step_id done (sid ∷ []),
              h.settled t k,
            )
          ]
        ];
        closed = λ t k m. elim (Bool-cases (is_in t.step_id done)) [
          | inl before ↦ AllIn-more done (sid ∷ []) t.depends_on (h.closed t k before)
          | inr after ↦ AllIn-more done (sid ∷ []) t.depends_on (
              subst (λ u. AllIn done u.depends_on)
                (same_step ss s t known k
                  (ground (arith, is_in-append t.step_id done (sid ∷ []), m, after)))
                deps)
        ];
      }

  -- A name that is no step changes nothing.
  pub unknown-Progressed :
      (sid : String) (done : List String) (d : Dict StepResult)
      → get_step sid ss ≡ none
      → Progressed done d
      → Progressed (done ++ (sid ∷ [])) d
  unknown-Progressed sid done d unknown h =
      let other : (t : WorkflowStep)
          → get_step t.step_id ss ≡ some t
          → is_in t.step_id (done ++ (sid ∷ [])) ≡ is_in t.step_id done =
        λ t k. elim (Bool-cases (str_eq sid t.step_id)) [
          | inl this ↦ absurd (
              false≢true (
                never_both
                  (sym unknown ∙ ap (λ n. get_step n ss) ((eq_iff sid t.step_id).0 this) ∙ k)))
          | inr different ↦ ground (arith, is_in-append t.step_id done (sid ∷ []), different)
        ] in
      record {
        settled = λ t k.
            h.settled t k
            ∙ ap (λ b. some (if b then settle c t d else initial t.step_id)) (sym (other t k));
        closed =
            λ t k m. AllIn-more done (sid ∷ []) t.depends_on (h.closed t k (sym (other t k) ∙ m));
      }

  execute_found-Progressed :
      (s : WorkflowStep) (done : List String) (x : Execution)
      → get_step s.step_id ss ≡ some s
      → is_in s.step_id done ≡ false
      → AllIn done s.depends_on
      → Progressed done x.results
      → (y : Execution) × (execute_known c ss (some s) x ≡ some y)
        × Progressed (done ++ (s.step_id ∷ [])) y.results
  unfolding execute_known execute_found
  execute_found-Progressed s done x known new deps h =
      let why = blocked c.fail_fast x.results s.depends_on in
      let waiting : lookup s.step_id x.results ≡ some (initial s.step_id) =
        ground (arith, h.settled s known, new) in
      (
        conclude c ss s why (initial s.step_id) x,
        rw waiting refl,
        rw results-conclude (insert-Progressed s done x.results known new deps h),
      )

  execute_step-Progressed :
      (sid : String) (done : List String) (x : Execution)
      → is_in sid done ≡ false
      → AllIn done (all_deps sid ss)
      → Progressed done x.results
      → (y : Execution) × (execute_step c ss sid x ≡ some y)
        × Progressed (done ++ (sid ∷ [])) y.results
  unfolding execute_step execute_known execute_found
  execute_step-Progressed sid done x new deps h = elim (Option-cases (get_step sid ss)) [
    | inl unknown ↦ (x, rw unknown refl, unknown-Progressed sid done x.results unknown h)
    | inr (s, known) ↦
        subst
          (λ n.
            get_step n ss ≡ some s
            → is_in n done ≡ false
            → AllIn done (all_deps n ss)
            → (y : Execution) × (execute_known c ss (get_step n ss) x ≡ some y)
              × Progressed (done ++ (n ∷ [])) y.results)
          (get_step-id sid ss {s = s} known)
          (λ k m a. rw k (execute_found-Progressed s done x k m (own_deps _ s.step_id ss k a) h))
          known new deps
  ]

  head_new :
      (sid : String) (sids done : List String)
      → occurrences sid (done ++ (sid ∷ sids)) ≤ 1
      → is_in sid done ≡ false
  head_new sid sids done h =
      ground
        (arith, occurrences-append sid done (sid ∷ sids), is_in-occurrences sid done, eq_refl sid)

  pub execute_layer-Progressed :
      (sids done : List String) (x : Execution)
      → Ready ss done sids
      → ((y : String) → occurrences y (done ++ sids) ≤ 1)
      → Progressed done x.results
      → (y : Execution) × (execute_layer_serial c ss sids x ≡ some y)
        × Progressed (done ++ sids) y.results
  unfolding execute_layer_serial
  execute_layer-Progressed [] done x r once h = (x, refl, rw append-nil h)
  execute_layer-Progressed (sid ∷ sids) done x r once h =
      let (y, e, k) =
        execute_step-Progressed sid done x (head_new sid sids done (once sid)) r.0 h in
      let (z, f, l) =
        execute_layer-Progressed sids (done ++ (sid ∷ [])) y r.1 (rw append_assoc once) k in
      (z, rw e f, rw append_assoc at l)
