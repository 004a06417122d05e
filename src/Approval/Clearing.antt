-- ===== src/Approval/Clearing.antt =====
-- The counts, and what `clear_resolved` takes away.
use you_mi_agent.Prelude.{
  ◌+◌, String, ◌≡◌, refl, ◌∙◌, ap, false, Option, none, some, List, [], ◌∷◌, arith, str_eq, eq_iff,
  eq_refl, if◌then◌else◌, Bool-cases, inl, inr, length, count, select,
}
use you_mi_agent.Dict.{Dict, lookup, remove, values}
use you_mi_agent.Dict.Distinct.{IsDistinct, insert-IsDistinct, remove-IsDistinct, remove-absent}
use you_mi_agent.Approval.{
  ApprovalRecord, ApprovalManager, ApprovalDecision, approved, denied, init, set_auto_approve_list,
  set_sensitive_tools, add_auto_approve, add_sensitive_tool, submit_request, approve, deny,
  clear_resolved, reset, store, is_pending, is_approved, is_denied, decided, decide_found,
  remove_each, resolved_ids, get_pending_requests, total_requests, pending_count, approved_count,
  denied_count,
}
use you_mi_agent.Approval.Histories.{
  Op, op_set_auto, op_set_sensitive, op_add_auto, op_add_sensitive, op_submit, op_approve, op_deny,
  op_clear, op_reset, step, run,
}

decide_found-IsDistinct :
    (d : ApprovalDecision) (id by why : String) (m : ApprovalManager) (o : Option ApprovalRecord)
    → IsDistinct m.records
    → IsDistinct (decide_found d id by why m o).0.records
unfolding decide_found store
decide_found-IsDistinct d id by why m none h = h
decide_found-IsDistinct d id by why m (some r) h = elim (Bool-cases (is_pending r)) [
  | inl p ↦ rw p (insert-IsDistinct id (decided d by why r) m.records h)
  | inr p ↦ rw p h
]

remove_each-IsDistinct :
    (ids : List String) (d : Dict ApprovalRecord) → IsDistinct d → IsDistinct (remove_each ids d)
unfolding remove_each
remove_each-IsDistinct [] d h = h
remove_each-IsDistinct (id ∷ ids) d h =
    remove_each-IsDistinct ids (remove id d) (remove-IsDistinct id d h)

step-IsDistinct :
    (op : Op) (m : ApprovalManager) → IsDistinct m.records → IsDistinct (step op m).records
unfolding step
step-IsDistinct (op_set_auto tools) m h = unfold set_auto_approve_list in h
step-IsDistinct (op_set_sensitive tools) m h = unfold set_sensitive_tools in h
step-IsDistinct (op_add_auto tool) m h = unfold add_auto_approve in h
step-IsDistinct (op_add_sensitive tool) m h = unfold add_sensitive_tool in h
step-IsDistinct (op_submit id time agent tool risk) m h =
    unfold submit_request store in insert-IsDistinct id _ m.records h
step-IsDistinct (op_approve id by why) m h =
    unfold approve in decide_found-IsDistinct approved id by why m (lookup id m.records) h
step-IsDistinct (op_deny id by why) m h =
    unfold deny in decide_found-IsDistinct denied id by why m (lookup id m.records) h
step-IsDistinct op_clear m h =
    unfold clear_resolved in remove_each-IsDistinct (resolved_ids m.records) m.records h
step-IsDistinct op_reset m h = unfold reset in tt

run-IsDistinct :
    (ops : List Op) (m : ApprovalManager) → IsDistinct m.records → IsDistinct (run ops m).records
unfolding run
run-IsDistinct [] m h = h
run-IsDistinct (op ∷ ops) m h = run-IsDistinct ops (step op m) (step-IsDistinct op m h)

-- The records that are left.
pending_part : Dict ApprovalRecord → Dict ApprovalRecord
pending_part [] = []
pending_part ((id, r) ∷ d) =
    let rest = pending_part d in if is_pending r then (id, r) ∷ rest else rest

remove-head :
    (k : String) (r : ApprovalRecord) (d : Dict ApprovalRecord)
    → lookup k d ≡ none
    → remove k ((k, r) ∷ d) ≡ d
remove-head k r d h = rw (eq_refl k) (remove-absent k d h)

remove-other :
    (j k : String) (r : ApprovalRecord) (d : Dict ApprovalRecord)
    → str_eq k j ≡ false
    → remove j ((k, r) ∷ d) ≡ (k, r) ∷ remove j d
remove-other j k r d e = ground arith

remove_each-absent :
    (k : String) (r : ApprovalRecord) (ids d : Dict ApprovalRecord)
    → lookup k ids ≡ none
    → remove_each (resolved_ids ids) ((k, r) ∷ d) ≡ (k, r) ∷ remove_each (resolved_ids ids) d
unfolding remove_each resolved_ids
remove_each-absent k r [] d h = refl
remove_each-absent k r ((j, s) ∷ ids) d h = elim (Bool-cases (is_pending s)) [
  | inl p ↦ rw p (remove_each-absent k r ids d (ground arith))
  | inr p ↦ rw p (
      let e : str_eq k j ≡ false = ground (arith, eq_iff k j, eq_iff j k) in
      ap (remove_each (resolved_ids ids)) (remove-other j k r d e)
      ∙ remove_each-absent k r ids (remove j d) (ground arith))
]

remove_each-pending_part :
    (d : Dict ApprovalRecord) → IsDistinct d → remove_each (resolved_ids d) d ≡ pending_part d
unfolding remove_each resolved_ids pending_part
remove_each-pending_part [] h = refl
remove_each-pending_part ((k, r) ∷ d) h = elim (Bool-cases (is_pending r)) [
  | inl p ↦
      rw p (remove_each-absent k r d d h.0 ∙ ap (λ t. (k, r) ∷ t) (remove_each-pending_part d h.1))
  | inr p ↦
      rw p
        (ap (remove_each (resolved_ids d)) (remove-head k r d h.0) ∙ remove_each-pending_part d h.1)
]

pending_part-counts :
    (d : Dict ApprovalRecord)
    → (select is_pending (values (pending_part d)) ≡ select is_pending (values d))
      × (length (pending_part d) ≡ count is_pending (values d))
      × (length (resolved_ids d) ≡ count is_approved (values d) + count is_denied (values d))
unfolding pending_part resolved_ids is_pending is_approved is_denied
pending_part-counts [] = ground arith
pending_part-counts ((k, r) ∷ d) = ground (arith, pending_part-counts d)

-- After any history of a new manager, `clear_resolved` keeps just the pending requests, in their
-- order, and returns how many records were approved or denied.
pub clear_resolved-keeps_pending :
    (auto_list sensitive : Option (List String)) (ops : List Op)
    → let m = run ops (init auto_list sensitive) in
      let (m', n) = clear_resolved m in
      (get_pending_requests m' ≡ get_pending_requests m)
      × (total_requests m' ≡ pending_count m)
      × (n ≡ approved_count m + denied_count m)
unfolding clear_resolved get_pending_requests total_requests pending_count approved_count
    denied_count
clear_resolved-keeps_pending auto_list sensitive ops =
    let m = run ops (init auto_list sensitive) in
    let h = run-IsDistinct ops (init auto_list sensitive) (unfold init in tt) in
    let (a, b, c) = pending_part-counts m.records in
    rw (remove_each-pending_part m.records h) (a, b, c)
