-- ===== src/Approval.antt =====
-- youmi/mcp/approval.py: who decides on an agent's request for a tool, the records of the requests
-- and the audit log.
--
-- A record is shared between the dict and the caller; only the manager's methods change it, so the
-- dict holds its state. The log holds copies. The random `record_id` and the time are arguments of
-- `submit_request`.
pub mod Histories
pub mod Audit
pub mod Decisions
pub mod Approved
pub mod Clearing
pub mod Examples
use you_mi_agent.Prelude.{
  ℕ, String, ◌≡◌, Bool, true, false, not, ◌&&◌, ◌||◌, Option, none, some, List, [], ◌∷◌, ◌++◌,
  str_eq, if◌then◌else◌, length, count, select, any, map,
}
use you_mi_agent.Dict.{Dict, lookup, insert, remove, values}

pub data ApprovalLevel : Type 0 where
  auto manual master : ApprovalLevel

pub data ApprovalDecision : Type 0 where
  approved denied pending : ApprovalDecision

-- The reason of an automatic approval is the tool's name in a fixed text.
pub data Reason : Type 0 where
  on_auto_list : String → Reason
  given : String → Reason

pub record ApprovalRecord : Type 0 where
  pub record_id : String
  pub agent_id : String
  pub tool_name : String
  pub level : ApprovalLevel
  pub decision : ApprovalDecision
  pub reason : Reason
  pub decided_by : String
  pub timestamp : ℕ

pub record ApprovalManager : Type 0 where
  pub auto_approve_list : List String
  pub sensitive_tools : List String
  pub records : Dict ApprovalRecord
  pub audit_log : List ApprovalRecord

unfoldable pub is_in : String → List String → Bool
is_in x xs = any (λ y. str_eq y x) xs

unfoldable pub or_empty : Option (List String) → List String
or_empty none = []
or_empty (some xs) = xs

unfoldable pub init : Option (List String) → Option (List String) → ApprovalManager
unfolding or_empty
init auto_list sensitive = record {
  auto_approve_list = or_empty auto_list;
  sensitive_tools = or_empty sensitive;
  records = [];
  audit_log = [];
}

unfoldable pub set_auto_approve_list : List String → ApprovalManager → ApprovalManager
set_auto_approve_list tools m = record m { auto_approve_list = tools }

unfoldable pub set_sensitive_tools : List String → ApprovalManager → ApprovalManager
set_sensitive_tools tools m = record m { sensitive_tools = tools }

-- `set.add`
add : String → List String → List String
unfolding is_in
add x xs = if is_in x xs then xs else xs ++ (x ∷ [])

unfoldable pub add_auto_approve : String → ApprovalManager → ApprovalManager
unfolding add
add_auto_approve tool m = record m { auto_approve_list = add tool m.auto_approve_list }

unfoldable pub add_sensitive_tool : String → ApprovalManager → ApprovalManager
unfolding add
add_sensitive_tool tool m = record m { sensitive_tools = add tool m.sensitive_tools }

-- `risk_level == RiskLevel.CRITICAL`
unfoldable pub is_critical : Option String → Bool
is_critical none = false
is_critical (some risk) = str_eq risk "critical"

unfoldable pub evaluate : String → Option String → ApprovalManager → ApprovalLevel
unfolding is_in is_critical
evaluate tool risk m =
    if is_in tool m.auto_approve_list
    then auto
    else if is_in tool m.sensitive_tools || is_critical risk
    then manual
    else master

-- The record of a request, decided where the level is AUTO.
unfoldable pub requested : String → ℕ → String → String → ApprovalLevel → ApprovalRecord
requested id time agent tool auto = record {
  record_id = id;
  agent_id = agent;
  tool_name = tool;
  level = auto;
  decision = approved;
  reason = on_auto_list tool;
  decided_by = "system";
  timestamp = time;
}
requested id time agent tool level = record {
  record_id = id;
  agent_id = agent;
  tool_name = tool;
  level = level;
  decision = pending;
  reason = given "";
  decided_by = "";
  timestamp = time;
}

-- The new state of the record under this identifier, and its copy in the log.
unfoldable pub store : String → ApprovalRecord → ApprovalManager → ApprovalManager
store id r m = record m { records = insert id r m.records; audit_log = m.audit_log ++ (r ∷ []) }

unfoldable pub submit_request :
    String
    → ℕ
    → String
    → String
    → Option String
    → ApprovalManager
    → ApprovalManager × ApprovalRecord
unfolding evaluate requested store
submit_request id time agent tool risk m =
    let r = requested id time agent tool (evaluate tool risk m) in (store id r m, r)

unfoldable pub is_pending : ApprovalRecord → Bool
is_pending r = elim r.decision [ pending ↦ true | _ ↦ false ]

unfoldable pub is_approved : ApprovalRecord → Bool
is_approved r = elim r.decision [ approved ↦ true | _ ↦ false ]

unfoldable pub is_denied : ApprovalRecord → Bool
is_denied r = elim r.decision [ denied ↦ true | _ ↦ false ]

unfoldable pub decided : ApprovalDecision → String → String → ApprovalRecord → ApprovalRecord
decided d by why r = record r { decision = d; decided_by = by; reason = given why }

-- The body that `approve` and `deny` share, for the record that was found.
unfoldable pub decide_found :
    ApprovalDecision
    → String
    → String
    → String
    → ApprovalManager
    → Option ApprovalRecord
    → ApprovalManager × Option ApprovalRecord
unfolding is_pending decided store
decide_found d id by why m none = (m, none)
decide_found d id by why m (some r) =
    if is_pending r
    then (store id (decided d by why r) m, some (decided d by why r))
    else (m, some r)

unfoldable pub approve :
    String → String → String → ApprovalManager → ApprovalManager × Option ApprovalRecord
unfolding decide_found
approve id by why m = decide_found approved id by why m (lookup id m.records)

unfoldable pub deny :
    String → String → String → ApprovalManager → ApprovalManager × Option ApprovalRecord
unfolding decide_found
deny id by why m = decide_found denied id by why m (lookup id m.records)

unfoldable pub get_record : String → ApprovalManager → Option ApprovalRecord
get_record id m = lookup id m.records

unfoldable pub get_pending_requests : ApprovalManager → List ApprovalRecord
unfolding is_pending
get_pending_requests m = select is_pending (values m.records)

unfoldable pub get_pending_for_agent : String → ApprovalManager → List ApprovalRecord
unfolding is_pending
get_pending_for_agent agent m =
    select (λ r. str_eq r.agent_id agent && is_pending r) (values m.records)

unfoldable pub get_audit_log : ApprovalManager → List ApprovalRecord
get_audit_log m = m.audit_log

unfoldable pub get_approved_tools : String → ApprovalManager → List String
unfolding is_approved
get_approved_tools agent m =
    map (λ r. r.tool_name)
      (select (λ r. str_eq r.agent_id agent && is_approved r) (values m.records))

-- `to_remove`
unfoldable pub resolved_ids : Dict ApprovalRecord → List String
unfolding is_pending
resolved_ids [] = []
resolved_ids ((id, r) ∷ d) = let rest = resolved_ids d in if is_pending r then rest else id ∷ rest

-- `for rid in to_remove: del self._records[rid]`
unfoldable pub remove_each : List String → Dict ApprovalRecord → Dict ApprovalRecord
remove_each [] d = d
remove_each (id ∷ ids) d = remove_each ids (remove id d)

unfoldable pub clear_resolved : ApprovalManager → ApprovalManager × ℕ
unfolding resolved_ids remove_each
clear_resolved m =
    let to_remove = resolved_ids m.records in
    (record m { records = remove_each to_remove m.records }, length to_remove)

unfoldable pub reset : ApprovalManager → ApprovalManager
reset m = record m { records = []; audit_log = [] }

unfoldable pub total_requests : ApprovalManager → ℕ
total_requests m = length m.records

unfoldable pub pending_count : ApprovalManager → ℕ
unfolding is_pending
pending_count m = count is_pending (values m.records)

unfoldable pub approved_count : ApprovalManager → ℕ
unfolding is_approved
approved_count m = count is_approved (values m.records)

unfoldable pub denied_count : ApprovalManager → ℕ
unfolding is_denied
denied_count m = count is_denied (values m.records)
