-- ===== src/Approval/Examples.antt =====
-- The theorems on approvals after three requests, one approval and one denial.
use you_mi_agent.Prelude.{◌+◌, String, ◌≡◌, refl, none, Option, some, List, [], ◌∷◌}
use you_mi_agent.Approval.{
  ApprovalRecord, manual, approved, given, init, get_record, get_audit_log, is_pending, is_approved,
  clear_resolved, get_pending_requests, total_requests, pending_count, approved_count, denied_count,
}
use you_mi_agent.Approval.Histories.{Op, op_submit, op_approve, op_deny, op_clear, run, draws}
use you_mi_agent.Approval.Audit.{latest, records_are_logged}
use you_mi_agent.Approval.Decisions.{StaysOrGoes, decision_is_final}
use you_mi_agent.Approval.Approved.{IsCovered, approval_has_author}
use you_mi_agent.Approval.Clearing.{clear_resolved-keeps_pending}

abbrev auto_list : Option (List String)
auto_list = some ("search" ∷ [])

abbrev sensitive : Option (List String)
sensitive = some ("shell" ∷ [])

abbrev calls : List Op
calls =
    op_submit "r1" 1 "ann" "search" none
    ∷ op_submit "r2" 2 "ann" "shell" none
    ∷ op_submit "r3" 3 "bob" "edit" (some "critical")
    ∷ op_approve "r2" "user" "fine"
    ∷ []

abbrev approved_record : ApprovalRecord
approved_record = record {
  record_id = "r2";
  agent_id = "ann";
  tool_name = "shell";
  level = manual;
  decision = approved;
  reason = given "fine";
  decided_by = "user";
  timestamp = 2;
}

found : get_record "r2" (run calls (init auto_list sensitive)) ≡ some approved_record
unfolding get_record run init
found = refl

records_are_logged_example :
    (latest "r2" (get_audit_log (run calls (init auto_list sensitive))) ≡ some approved_record)
    × (approved_record.record_id ≡ "r2")
records_are_logged_example = records_are_logged auto_list sensitive calls "r2" approved_record found

decision_is_final_example : StaysOrGoes approved_record (
    get_record "r2"
      (run (op_deny "r2" "master" "late" ∷ op_clear ∷ []) (run calls (init auto_list sensitive))))
unfolding is_pending draws
decision_is_final_example =
    decision_is_final (op_deny "r2" "master" "late" ∷ op_clear ∷ [])
      (run calls (init auto_list sensitive)) "r2" approved_record found refl refl

approval_has_author_example : IsCovered (init auto_list sensitive) calls "r2" approved_record
unfolding is_approved
approval_has_author_example =
    approval_has_author auto_list sensitive calls "r2" approved_record found refl

clear_resolved-keeps_pending_example :
    let m = run calls (init auto_list sensitive) in
    let (m', n) = clear_resolved m in
    (get_pending_requests m' ≡ get_pending_requests m)
    × (total_requests m' ≡ pending_count m)
    × (n ≡ approved_count m + denied_count m)
clear_resolved-keeps_pending_example = clear_resolved-keeps_pending auto_list sensitive calls
