-- ===== src/Plan/Executor/Parallel/Ends.antt =====
-- A turn in which a step ends.
use you_mi_agent.Prelude.{
  ℕ, ◌≤◌, String, ◌≡◌, ◌∙◌, sym, ap, true, false, some, List, [], ◌∷◌, ◌++◌, arith, inl, inr,
  Bool-cases, str_eq, eq_iff, eq_refl, All-map,
}
use you_mi_agent.Dict.{Dict, lookup, insert, lookup-insert}
use you_mi_agent.Plan.{WorkflowStep, StepResult, is_in, get_step}
use you_mi_agent.Plan.Order.Counting.{occurrences-append, is_in-occurrences}
use you_mi_agent.Plan.Executor.{Settings, Execution}
use you_mi_agent.Plan.Executor.Deps.{get_step-id}
use you_mi_agent.Plan.Executor.Flat.{AllIn}
use you_mi_agent.Plan.Executor.Settled.{settle, settled_by}
use you_mi_agent.Plan.Executor.Parallel.{LayerState, take_out, end_with}
use you_mi_agent.Plan.Executor.Parallel.Simulated.{
  occurrences-take_out, All-take_out, All-is_in, running_result, IsRunning, Simulated,
  IsRunning-insert, ended_value, insert-done, queued-more,
}

module _ (c : Settings) (ss : List WorkflowStep) where
  module _ (total : String → ℕ) (once : (y : String) → total y ≤ 1) (done : List String)
      (d : Dict StepResult) (l : LayerState) (sid : String)
      (h : Simulated c ss total done d l) where
    -- A step that runs is not done, and runs once.
    busy-new :
        is_in sid l.busy ≡ true
        → (is_in sid done ≡ false) × (is_in sid (take_out sid l.busy) ≡ false)
    busy-new w = ground (
      arith,
      h.counted sid,
      once sid,
      is_in-occurrences sid done,
      is_in-occurrences sid l.busy,
      is_in-occurrences sid (take_out sid l.busy),
      occurrences-take_out sid sid l.busy w,
      eq_refl sid,
    )

    others_busy :
        (x : String)
        → is_in sid l.busy ≡ true
        → str_eq sid x ≡ false
        → is_in x (take_out sid l.busy) ≡ is_in x l.busy
    others_busy x w other = ground (
      arith,
      is_in-occurrences x l.busy,
      is_in-occurrences x (take_out sid l.busy),
      occurrences-take_out sid x l.busy w,
    )

    finishes-Simulated :
        (s : WorkflowStep) (x : Execution)
        → is_in sid l.busy ≡ true
        → get_step sid ss ≡ some s
        → AllIn done s.depends_on
        → x.results ≡ insert sid (settle c s d) l.execution.results
        → Simulated c ss total
            (done ++ (sid ∷ []))
            (insert sid (settle c s d) d)
            (record l { busy = take_out sid l.busy; execution = x })
    finishes-Simulated s x w known deps e =
        let new = busy-new w in
        let v = settle c s d in
        record {
          progressed = insert-done c ss s sid done d known new.0 deps h.progressed;
          seen = λ y. elim (Bool-cases (str_eq sid y)) [
            | inl this ↦ ground (
              arith,
              ap (lookup y) e,
              lookup-insert sid y v d,
              lookup-insert sid y v l.execution.results,
              new.1,
              ap (λ n. is_in n (take_out sid l.busy)) ((eq_iff sid y).0 this),
            )
            | inr other ↦ ground (
              arith,
              ap (lookup y) e,
              h.seen y,
              lookup-insert sid y v d,
              lookup-insert sid y v l.execution.results,
              others_busy y w other,
            )
          ];
          started =
              All-map (IsRunning c ss done d) (IsRunning c ss (done ++ (sid ∷ [])) (insert sid v d))
                (take_out sid l.busy) (λ y. IsRunning-insert c ss sid v done d y new.0)
                (All-take_out (IsRunning c ss done d) sid l.busy h.started);
          queued = queued-more c ss sid done l.waiting h.queued;
          counted = λ y. ground (
            arith,
            h.counted y,
            occurrences-append y done (sid ∷ []),
            occurrences-take_out sid y l.busy w,
          );
        }

    -- A turn in which a step ends is the turn of the serial execution that runs it.
    pub ends-Simulated :
        is_in sid l.busy ≡ true
        → (done' : List String) × (d' : Dict StepResult) × Simulated c ss total done' d' (
            end_with c ss sid
              (get_step sid ss)
              (lookup sid l.execution.results)
              (record l { busy = take_out sid l.busy }))
    unfolding end_with
    ends-Simulated w =
        let (s, known, runs, deps) = All-is_in (IsRunning c ss done d) sid l.busy w h.started in
        let now : lookup sid l.execution.results ≡ some (running_result c ss sid) =
          ground (arith, h.seen sid, w) in
        let value =
          ended_value c ss s sid (get_step-id sid ss {s = s} known)
          ∙ sym (ap (settled_by c s) runs) in
        (
          done ++ (sid ∷ []),
          insert sid (settle c s d) d,
          rw (known, now, end_with)
              (finishes-Simulated s _ w known deps
                (ap (λ r. insert sid r l.execution.results) value)),
        )
