-- ===== src/Agents/State.antt =====
-- backend/app/agents/state.py: the state that the graph's nodes share.
-- A key that is missing from the dictionary is read with a default everywhere; here it is a field
-- that holds this default.
use ai_agent_hub.Common.{ℕ, String, Bool, List, Option}
use ai_agent_hub.Common.Int.{ℤ}
use ai_agent_hub.Common.Dict.{Dict}
use ai_agent_hub.Common.Text.{Text}

pub data AgentStatus : Type 0 where
  pending running waiting_approval completed failed cancelled : AgentStatus

-- `ToolCallStateStatus`, with the status that the tool node writes besides
pub data ToolCallStatus : Type 0 where
  pending running waiting_approval completed failed cancelled : ToolCallStatus

pub data ApprovalStatus : Type 0 where
  pending approved rejected expired : ApprovalStatus

-- `JSONValue`; a float is its bit pattern.
mutual
  pub data Json : Type 0 where
    null : Json
    bool : Bool → Json
    int : ℤ → Json
    float : ℕ → Json
    str : String → Json
    arr : Items → Json
    obj : Fields → Json

  pub data Items : Type 0 where
    nil : Items
    cons : Json → Items → Items

  pub data Fields : Type 0 where
    end : Fields
    field : String → Json → Fields → Fields

pub record AgentMessage : Type 0 where
  pub role : String
  pub content : Text

pub record ToolCallState : Type 0 where
  pub call_id : Option String
  pub name : Option String
  pub arguments : Json
  pub status : ToolCallStatus
  pub result : Option Json
  pub error : Option String

-- The dictionary under `approval_request`; the service adds the last two keys.
pub record ApprovalRequest : Type 0 where
  pub tool_call_id : Option String
  pub tool_name : Option String
  pub arguments : Json
  pub message : String
  pub status : ApprovalStatus
  pub approval_id : Option ℕ
  pub expires_at : Option ℕ

pub record AgentState : Type 0 where
  pub messages : List AgentMessage
  pub user_id : ℕ
  pub conversation_id : Option ℕ
  pub agent_id : ℕ
  pub agent_run_id : Option ℕ
  pub knowledge_base_id : Option ℕ
  pub tool_calls : List ToolCallState
  pub tool_results : List Json
  pub metadata : Dict Json
  pub status : AgentStatus
  pub step_count : ℕ
  pub max_steps : Option ℕ
  pub error_code : Option String
  pub error_message : Option String
  pub pending_tool_call : Option ToolCallState
  pub approval_request : Option ApprovalRequest
  pub approved_tool_call_id : Option String
  pub resume_approval : Bool
