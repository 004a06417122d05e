-- ===== src/Bus.antt =====
-- youmi/bus/message.py: `WorkflowMessageType` and `WorkflowMessage`, without the fields that the
-- broker passes on unread (role, metadata, timestamp).
pub mod Broker
mod Examples
use you_mi_agent.Prelude.{String, Bool, true, false, Option, none, some, not, str_eq}

pub data WorkflowMessageType : Type 0 where
  task feedback status query tool_request tool_response : WorkflowMessageType

pub record WorkflowMessage : Type 0 where
  pub message_id : String
  pub workflow_id : String
  pub from_agent_id : String
  pub to_agent_id : Option String
  pub msg_type : WorkflowMessageType
  pub content : String
  pub tenant : String
  pub ack_id : String

unfoldable pub writes_to_memory : WorkflowMessageType → Bool
writes_to_memory task = true
writes_to_memory feedback = true
writes_to_memory _ = false

to_all : Option String → Bool
to_all none = true
to_all (some id) = str_eq id "*"

unfoldable pub is_broadcast : WorkflowMessage → Bool
unfolding to_all
is_broadcast m = to_all m.to_agent_id

unfoldable pub needs_ack : WorkflowMessage → Bool
needs_ack m = not (str_eq m.ack_id "")
