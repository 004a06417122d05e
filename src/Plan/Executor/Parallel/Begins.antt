-- ===== src/Plan/Executor/Parallel/Begins.antt =====
-- A turn in which a step begins.
use you_mi_agent.Prelude.{
  ℕ, ◌≤◌, String, ◌≡◌, ◌∙◌, ap, subst, true, false, none, some, List, [], ◌∷◌, ◌++◌, arith, inl,
  inr, Bool-cases, Option-cases, str_eq, eq_iff, All-map,
}
use you_mi_agent.Dict.{Dict, lookup, insert, lookup-insert}
use you_mi_agent.Plan.{WorkflowStep, StepResult, StepError, skipped, is_in, get_step}
use you_mi_agent.Plan.Order.Counting.{occurrences-append, is_in-occurrences}
use you_mi_agent.Plan.Order.Edges.{all_deps}
use you_mi_agent.Plan.Executor.{Settings, initial, blocked}
use you_mi_agent.Plan.Executor.Deps.{get_step-id, own_deps}
use you_mi_agent.Plan.Executor.Flat.{AllIn}
use you_mi_agent.Plan.Executor.Settled.{settle, settled_by, Progressed, unknown-Progressed}
use you_mi_agent.Plan.Executor.Parallel.{
  LayerState, take_out, with_result, begin_checked, begin_found, begin_known,
}
use you_mi_agent.Plan.Executor.Parallel.Simulated.{
  occurrences-take_out, All-take_out, All-is_in, blocked-same, running_result, IsRunning, Simulated,
  IsRunning-insert, IsRunning-more, insert-done, queued-more,
}

module _ (c : Settings) (ss : List WorkflowStep) where
  module _ (total : String → ℕ) (once : (y : String) → total y ≤ 1) (done : List String)
      (d : Dict StepResult) (l : LayerState) (sid : String)
      (h : Simulated c ss total done d l) where
    -- A step that waits is neither done nor running.
    waits-new : is_in sid l.waiting ≡ true → (is_in sid done ≡ false) × (is_in sid l.busy ≡ false)
    waits-new w = ground (
      arith,
      h.counted sid,
      once sid,
      is_in-occurrences sid done,
      is_in-occurrences sid l.busy,
      is_in-occurrences sid l.waiting,
    )

    abbrev rest : LayerState
    rest = record l { waiting = take_out sid l.waiting }

    unknown-Simulated :
        is_in sid l.waiting ≡ true
        → get_step sid ss ≡ none
        → Simulated c ss total (done ++ (sid ∷ [])) d rest
    unknown-Simulated w unknown = record {
      progressed = unknown-Progressed c ss sid done d unknown h.progressed;
      seen = h.seen;
      started =
          All-map (IsRunning c ss done d) (IsRunning c ss (done ++ (sid ∷ [])) d) l.busy
            (IsRunning-more c ss sid done d) h.started;
      queued =
          queued-more c ss sid done (take_out sid l.waiting)
            (All-take_out (λ x. AllIn done (all_deps x ss)) sid l.waiting h.queued);
      counted = λ y. ground (
        arith,
        h.counted y,
        occurrences-append y done (sid ∷ []),
        occurrences-take_out sid y l.waiting w,
      );
    }

    skips-Simulated :
        (s : WorkflowStep) (v : StepResult)
        → is_in sid l.waiting ≡ true
        → get_step sid ss ≡ some s
        → AllIn done s.depends_on
        → settle c s d ≡ v
        → Simulated c ss total
            (done ++ (sid ∷ []))
            (insert sid v d)
            (record rest { execution = with_result sid v l.execution })
    unfolding with_result
    skips-Simulated s v w known deps e =
        let new = waits-new w in
        record {
          progressed =
              subst (λ u. Progressed c ss (done ++ (sid ∷ [])) (insert sid u d)) e
                (insert-done c ss s sid done d known new.0 deps h.progressed);
          seen = λ x. ground (
            arith,
            h.seen x,
            lookup-insert sid x v d,
            lookup-insert sid x v l.execution.results,
            eq_iff sid x,
            new.1,
          );
          started =
              All-map (IsRunning c ss done d) (IsRunning c ss (done ++ (sid ∷ [])) (insert sid v d))
                l.busy (λ x. IsRunning-insert c ss sid v done d x new.0) h.started;
          queued =
              queued-more c ss sid done (take_out sid l.waiting)
                (All-take_out (λ x. AllIn done (all_deps x ss)) sid l.waiting h.queued);
          counted = λ y. ground (
            arith,
            h.counted y,
            occurrences-append y done (sid ∷ []),
            occurrences-take_out sid y l.waiting w,
          );
        }

    runs-Simulated :
        (s : WorkflowStep)
        → is_in sid l.waiting ≡ true
        → get_step sid ss ≡ some s
        → AllIn done s.depends_on
        → blocked c.fail_fast d s.depends_on ≡ none
        → Simulated c ss total done d (record rest {
          busy = sid ∷ l.busy;
          execution = with_result sid (running_result c ss sid) l.execution;
        })
    unfolding with_result
    runs-Simulated s w known deps runs = record {
      progressed = h.progressed;
      seen = λ x. elim (Bool-cases (str_eq sid x)) [
        | inl this ↦ ground (
          arith,
          lookup-insert sid x (running_result c ss sid) l.execution.results,
          this,
          ap (running_result c ss) ((eq_iff sid x).0 this),
        )
        | inr other ↦ ground (
          arith,
          h.seen x,
          lookup-insert sid x (running_result c ss sid) l.execution.results,
          other,
        )
      ];
      started = ((s, known, runs, deps), h.started);
      queued = All-take_out (λ x. AllIn done (all_deps x ss)) sid l.waiting h.queued;
      counted = λ y. ground (arith, h.counted y, occurrences-take_out sid y l.waiting w);
    }

    -- Where the serial execution still is, for a step that is not done.
    to_come :
        (s : WorkflowStep)
        → get_step sid ss ≡ some s
        → is_in sid done ≡ false
        → lookup sid d ≡ some (initial sid)
    to_come s known new =
        subst (λ n. get_step n ss ≡ some s → is_in n done ≡ false → lookup n d ≡ some (initial n))
          (get_step-id sid ss {s = s} known) (λ k m. ground (arith, h.progressed.settled s k, m))
          known new

    done_seen : (x : String) → is_in x done ≡ true → lookup x l.execution.results ≡ lookup x d
    done_seen x m =
        ground (
          arith,
          h.seen x,
          h.counted x,
          once x,
          is_in-occurrences x done,
          is_in-occurrences x l.busy,
        )

    skipped_result : StepError → StepResult
    skipped_result why = record (initial sid) { status = skipped; error = why }

    -- A turn in which a step begins is one of the serial execution if it skips the step, and none if
    -- it does not.
    pub begins-Simulated :
        is_in sid l.waiting ≡ true
        → (done' : List String) × (d' : Dict StepResult) × Simulated c ss total done' d'
            (begin_known c ss sid (get_step sid ss) rest)
    unfolding begin_known begin_found begin_checked skipped_result
    begins-Simulated w = elim (Option-cases (get_step sid ss)) [
      | inl unknown ↦ rw unknown (done ++ (sid ∷ []), d, unknown-Simulated w unknown)
      | inr (s, known) ↦
          let new = waits-new w in
          let deps : AllIn done s.depends_on =
            own_deps (λ dep. is_in dep done ≡ true) sid ss {s = s} known
              (All-is_in (λ x. AllIn done (all_deps x ss)) sid l.waiting w h.queued) in
          let e = get_step-id sid ss {s = s} known in
          let at_start : lookup sid l.execution.results ≡ some (initial sid) =
            ground (arith, h.seen sid, new.1, to_come s known new.0) in
          let same : blocked c.fail_fast l.execution.results s.depends_on
              ≡ blocked c.fail_fast d s.depends_on =
            blocked-same c.fail_fast done l.execution.results d s.depends_on done_seen deps in
          elim (Option-cases (blocked c.fail_fast d s.depends_on)) [
            | inl runs ↦
                rw (known, begin_known, begin_found, at_start, same, runs)
                  (done, d, runs-Simulated s w known deps runs)
            | inr (why, skip) ↦
                rw (known, begin_known, begin_found, at_start, same, skip)
                  (
                    done ++ (sid ∷ []),
                    insert sid (skipped_result why) d,
                    skips-Simulated s (skipped_result why) w known deps (
                        ap (settled_by c s) skip
                        ∙ ap (λ n. record (initial n) { status = skipped; error = why }) e),
                  )
          ]
    ]
