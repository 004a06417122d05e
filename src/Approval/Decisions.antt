-- ===== src/Approval/Decisions.antt =====
-- What can become of a request.
use you_mi_agent.Prelude.{
  String, ◌≡◌, refl, false, Option, none, some, List, [], ◌∷◌, ◌⊎◌, arith, eq_iff, Bool-cases,
  Option-cases, inl, inr, any,
}
use you_mi_agent.Dict.{Dict, lookup, remove, lookup-insert, lookup-remove}
use you_mi_agent.Approval.{
  ApprovalRecord, ApprovalManager, ApprovalDecision, approved, denied, set_auto_approve_list,
  set_sensitive_tools, add_auto_approve, add_sensitive_tool, submit_request, approve, deny,
  clear_resolved, reset, get_record, requested, evaluate, store, is_pending, decided, decide_found,
  remove_each, resolved_ids,
}
use you_mi_agent.Approval.Histories.{
  Op, op_set_auto, op_set_sensitive, op_add_auto, op_add_sensitive, op_submit, op_approve, op_deny,
  op_clear, op_reset, step, run, draws,
}

-- The record is as it was, or gone.
abbrev pub StaysOrGoes : ApprovalRecord → Option ApprovalRecord → Type 0
StaysOrGoes r o = (o ≡ some r) ⊎ (o ≡ none)

lookup-remove_each :
    (ids : List String) (id : String) (d : Dict ApprovalRecord)
    → (lookup id (remove_each ids d) ≡ lookup id d) ⊎ (lookup id (remove_each ids d) ≡ none)
unfolding remove_each
lookup-remove_each [] id d = inl refl
lookup-remove_each (k ∷ ids) id d =
    ground (arith, lookup-remove_each ids id (remove k d), lookup-remove k id d)

decide_found-StaysOrGoes :
    (d : ApprovalDecision) (id by why : String) (m : ApprovalManager) (k : String)
    (r : ApprovalRecord)
    → is_pending r ≡ false
    → StaysOrGoes r (lookup k m.records)
    → StaysOrGoes r (lookup k (decide_found d id by why m (lookup id m.records)).0.records)
unfolding decide_found store decided
decide_found-StaysOrGoes d id by why m k r p h = elim (Option-cases (lookup id m.records)) [
  | inl e ↦ rw e h
  | inr (r', e) ↦ rw e (elim (Bool-cases (is_pending r')) [
    | inl q ↦ rw q (ground (arith, eq_iff id k, lookup-insert id k (decided d by why r') m.records))
    | inr q ↦ rw q h
  ])
]

step-StaysOrGoes :
    (op : Op) (m : ApprovalManager) (id : String) (r : ApprovalRecord)
    → is_pending r ≡ false
    → draws id op ≡ false
    → StaysOrGoes r (lookup id m.records)
    → StaysOrGoes r (lookup id (step op m).records)
unfolding step draws
step-StaysOrGoes (op_set_auto tools) m id r p q h = unfold set_auto_approve_list in h
step-StaysOrGoes (op_set_sensitive tools) m id r p q h = unfold set_sensitive_tools in h
step-StaysOrGoes (op_add_auto tool) m id r p q h = unfold add_auto_approve in h
step-StaysOrGoes (op_add_sensitive tool) m id r p q h = unfold add_sensitive_tool in h
step-StaysOrGoes (op_submit new time agent tool risk) m id r p q h =
    unfold submit_request store in
    ground
      (arith, lookup-insert new id (requested new time agent tool (evaluate tool risk m)) m.records)
step-StaysOrGoes (op_approve k by why) m id r p q h =
    unfold approve in decide_found-StaysOrGoes approved k by why m id r p h
step-StaysOrGoes (op_deny k by why) m id r p q h =
    unfold deny in decide_found-StaysOrGoes denied k by why m id r p h
step-StaysOrGoes op_clear m id r p q h =
    unfold clear_resolved in
    ground (arith, lookup-remove_each (resolved_ids m.records) id m.records)
step-StaysOrGoes op_reset m id r p q h = unfold reset in ground arith

run-StaysOrGoes :
    (ops : List Op) (m : ApprovalManager) (id : String) (r : ApprovalRecord)
    → is_pending r ≡ false
    → any (draws id) ops ≡ false
    → StaysOrGoes r (lookup id m.records)
    → StaysOrGoes r (lookup id (run ops m).records)
unfolding run
run-StaysOrGoes [] m id r p q h = h
run-StaysOrGoes (op ∷ ops) m id r p q h =
    run-StaysOrGoes ops (step op m) id r p (ground arith)
      (step-StaysOrGoes op m id r p (ground arith) h)

-- A decision is final: a record that is decided is the same, or was cleared away, after any history
-- in which no new request draws its identifier.
pub decision_is_final :
    (ops : List Op) (m : ApprovalManager) (id : String) (r : ApprovalRecord)
    → get_record id m ≡ some r
    → is_pending r ≡ false
    → any (draws id) ops ≡ false
    → StaysOrGoes r (get_record id (run ops m))
unfolding get_record
decision_is_final ops m id r e p q = run-StaysOrGoes ops m id r p q (inl e)
