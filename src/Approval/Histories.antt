-- ===== src/Approval/Histories.antt =====
-- Histories of the approval manager: the calls of its methods, one after the other.
use you_mi_agent.Prelude.{ℕ, String, Option, List, [], ◌∷◌, Bool, false, str_eq, ◌&&◌, ◌||◌, any}
use you_mi_agent.Approval.{
  ApprovalManager, set_auto_approve_list, set_sensitive_tools, add_auto_approve, add_sensitive_tool,
  submit_request, approve, deny, clear_resolved, reset,
}

pub data Op : Type 0 where
  op_set_auto op_set_sensitive : List String → Op
  op_add_auto op_add_sensitive : String → Op
  op_submit : String → ℕ → String → String → Option String → Op
  op_approve op_deny : String → String → String → Op
  op_clear op_reset : Op

unfoldable pub step : Op → ApprovalManager → ApprovalManager
unfolding set_auto_approve_list set_sensitive_tools add_auto_approve add_sensitive_tool
    submit_request approve deny clear_resolved reset
step (op_set_auto tools) m = set_auto_approve_list tools m
step (op_set_sensitive tools) m = set_sensitive_tools tools m
step (op_add_auto tool) m = add_auto_approve tool m
step (op_add_sensitive tool) m = add_sensitive_tool tool m
step (op_submit id time agent tool risk) m = (submit_request id time agent tool risk m).0
step (op_approve id by why) m = (approve id by why m).0
step (op_deny id by why) m = (deny id by why m).0
step op_clear m = (clear_resolved m).0
step op_reset m = reset m

unfoldable pub run : List Op → ApprovalManager → ApprovalManager
unfolding step
run [] m = m
run (op ∷ ops) m = run ops (step op m)

-- A new request with this identifier.
unfoldable pub draws : String → Op → Bool
draws id (op_submit new time agent tool risk) = str_eq new id
draws id _ = false

-- A call that approves this request in this name.
unfoldable pub approves : String → String → Op → Bool
approves id who (op_approve asked by why) = str_eq asked id && str_eq by who
approves id who _ = false

-- A request for this tool under this identifier, in a state whose list of automatic approvals has
-- the tool.
unfoldable pub submits_listed : String → String → ApprovalManager → Op → Bool
submits_listed id tool m (op_submit new time agent asked risk) =
    str_eq new id && str_eq asked tool && any (λ listed. str_eq listed tool) m.auto_approve_list
submits_listed id tool m _ = false

-- Some call of a history that starts at this state is one.
unfoldable pub was_listed : String → String → ApprovalManager → List Op → Bool
unfolding submits_listed
was_listed id tool m [] = false
was_listed id tool m (op ∷ ops) = submits_listed id tool m op || was_listed id tool (step op m) ops
