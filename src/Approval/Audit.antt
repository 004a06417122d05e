-- ===== src/Approval/Audit.antt =====
-- The audit log against the records.
use you_mi_agent.Prelude.{
  ℕ, String, ◌≡◌, refl, subst, Option, none, some, List, [], ◌∷◌, ◌++◌, arith, str_eq, eq_iff,
  if◌then◌else◌, Bool-cases, inl, inr,
}
use you_mi_agent.Dict.{Dict, lookup, remove, lookup-insert, lookup-remove}
use you_mi_agent.Approval.{
  ApprovalRecord, ApprovalManager, ApprovalLevel, ApprovalDecision, approved, denied, auto, manual,
  master, init, set_auto_approve_list, set_sensitive_tools, add_auto_approve, add_sensitive_tool,
  submit_request, approve, deny, clear_resolved, reset, get_record, get_audit_log, requested,
  evaluate, store, is_pending, decided, decide_found, remove_each, resolved_ids,
}
use you_mi_agent.Approval.Histories.{
  Op, op_set_auto, op_set_sensitive, op_add_auto, op_add_sensitive, op_submit, op_approve, op_deny,
  op_clear, op_reset, step, run,
}

abbrev latest_or : String → ApprovalRecord → Option ApprovalRecord → Option ApprovalRecord
latest_or id r none = if str_eq r.record_id id then some r else none
latest_or id r (some l) = some l

-- The last entry of the log for this request.
abbrev pub latest : String → List ApprovalRecord → Option ApprovalRecord
latest id [] = none
latest id (r ∷ log) = latest_or id r (latest id log)

latest-append :
    (id : String) (r : ApprovalRecord) (log : List ApprovalRecord)
    → latest id (log ++ (r ∷ [])) ≡ (if str_eq r.record_id id then some r else latest id log)
latest-append id r [] = ground arith
latest-append id r (l ∷ log) = ground (arith, latest-append id r log)

latest-record_id :
    (id : String) (log : List ApprovalRecord) (r : ApprovalRecord)
    → latest id log ≡ some r
    → r.record_id ≡ id
latest-record_id id [] r h = absurd (ground arith)
latest-record_id id (l ∷ log) r h = ground (arith, latest-record_id id log r, eq_iff l.record_id id)

-- Each record is in the state that the last entry of the log for it tells.
IsAudited : ApprovalManager → Type 0
IsAudited m =
    (id : String) (r : ApprovalRecord)
    → lookup id m.records ≡ some r
    → latest id m.audit_log ≡ some r

store-IsAudited :
    (r : ApprovalRecord) (m : ApprovalManager) → IsAudited m → IsAudited (store r.record_id r m)
unfolding store IsAudited
store-IsAudited r m h id r' e =
    ground
      (arith, h id r', lookup-insert r.record_id id r m.records, latest-append id r m.audit_log)

requested-record_id :
    (id : String) (time : ℕ) (agent tool : String) (level : ApprovalLevel)
    → (requested id time agent tool level).record_id ≡ id
unfolding requested
requested-record_id id time agent tool auto = refl
requested-record_id id time agent tool manual = refl
requested-record_id id time agent tool master = refl

submit-IsAudited :
    (id : String) (r : ApprovalRecord) (m : ApprovalManager)
    → r.record_id ≡ id
    → IsAudited m
    → IsAudited (store id r m)
submit-IsAudited id r m e h = subst (λ k. IsAudited (store k r m)) e (store-IsAudited r m h)

decide_found-IsAudited :
    (d : ApprovalDecision) (id by why : String) (m : ApprovalManager) (o : Option ApprovalRecord)
    → lookup id m.records ≡ o
    → IsAudited m
    → IsAudited (decide_found d id by why m o).0
unfolding decide_found decided IsAudited
decide_found-IsAudited d id by why m none e h = h
decide_found-IsAudited d id by why m (some r) e h =
    let same = latest-record_id id m.audit_log r (h id r e) in
    elim (Bool-cases (is_pending r)) [
      | inl p ↦ rw p (submit-IsAudited id (decided d by why r) m (unfold decided in same) h)
      | inr p ↦ rw p h
    ]

pub lookup-remove_each :
    (ids : List String) (id : String) (d : Dict ApprovalRecord) (r : ApprovalRecord)
    → lookup id (remove_each ids d) ≡ some r
    → lookup id d ≡ some r
unfolding remove_each
lookup-remove_each [] id d r h = h
lookup-remove_each (k ∷ ids) id d r h =
    let e = lookup-remove_each ids id (remove k d) r h in ground (arith, e, lookup-remove k id d)

step-IsAudited : (op : Op) (m : ApprovalManager) → IsAudited m → IsAudited (step op m)
unfolding step
step-IsAudited (op_set_auto tools) m h = unfold IsAudited set_auto_approve_list in h
step-IsAudited (op_set_sensitive tools) m h = unfold IsAudited set_sensitive_tools in h
step-IsAudited (op_add_auto tool) m h = unfold IsAudited add_auto_approve in h
step-IsAudited (op_add_sensitive tool) m h = unfold IsAudited add_sensitive_tool in h
step-IsAudited (op_submit id time agent tool risk) m h =
    let level = evaluate tool risk m in
    unfold submit_request in
    submit-IsAudited id (requested id time agent tool level) m
      (requested-record_id id time agent tool level) h
step-IsAudited (op_approve id by why) m h =
    unfold approve in decide_found-IsAudited approved id by why m (lookup id m.records) refl h
step-IsAudited (op_deny id by why) m h =
    unfold deny in decide_found-IsAudited denied id by why m (lookup id m.records) refl h
step-IsAudited op_clear m h =
    unfold IsAudited clear_resolved in
    λ id r e. h id r (lookup-remove_each (resolved_ids m.records) id m.records r e)
step-IsAudited op_reset m h = unfold IsAudited reset in λ id r e. absurd (ground arith)

run-IsAudited : (ops : List Op) (m : ApprovalManager) → IsAudited m → IsAudited (run ops m)
unfolding run
run-IsAudited [] m h = h
run-IsAudited (op ∷ ops) m h = run-IsAudited ops (step op m) (step-IsAudited op m h)

-- After any history, each record that the manager holds is in the state that the last entry of the
-- audit log for this request tells, which carries its identifier: no decision is missing from the
-- log.
pub records_are_logged :
    (auto_list sensitive : Option (List String)) (ops : List Op) (id : String) (r : ApprovalRecord)
    → get_record id (run ops (init auto_list sensitive)) ≡ some r
    → (latest id (get_audit_log (run ops (init auto_list sensitive))) ≡ some r) × (r.record_id ≡ id)
unfolding get_record get_audit_log IsAudited
records_are_logged auto_list sensitive ops id r e =
    let m = run ops (init auto_list sensitive) in
    let start : IsAudited (init auto_list sensitive) =
      unfold IsAudited init in λ id r e. absurd (ground arith) in
    let last = run-IsAudited ops (init auto_list sensitive) start id r e in
    (last, latest-record_id id m.audit_log r last)
