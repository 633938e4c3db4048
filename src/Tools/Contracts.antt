-- ===== src/Tools/Contracts.antt =====
-- backend/app/tools/registry.py: what a tool is, and the world that the registry works in.
use ai_agent_hub.Common.{ℕ, String, Bool, List, Option}
use ai_agent_hub.Common.Exec.{Exec}
use ai_agent_hub.Common.Dict.{Dict}
use ai_agent_hub.Agents.State.{ToolCallStatus, Json, Fields, AgentState}

pub record ToolRegistryError : Type 0 where
  pub message : String

pub record ToolError : Type 0 where
  pub code : String
  pub message : String

-- What the registry's `try` block may raise: a `ToolError`, a `TimeoutError`, another exception,
-- or the `CancelledError` by which the deadline of the run stops the tool, which no clause catches.
pub data ToolFailure : Type 0 where
  tool_error : ToolError → ToolFailure
  timed_out : ToolFailure
  unexpected : ToolFailure
  interrupted : ToolFailure

pub record ToolContext : Type 0 where
  pub user_id : ℕ
  pub conversation_id : Option ℕ
  pub agent_id : ℕ
  pub knowledge_base_id : Option ℕ
  pub metadata : Dict Json

unfoldable pub from_state : AgentState → ToolContext
from_state s = record {
  user_id = s.user_id;
  conversation_id = s.conversation_id;
  agent_id = s.agent_id;
  knowledge_base_id = s.knowledge_base_id;
  metadata = s.metadata;
}

pub record ToolDescriptor : Type 0 where
  pub name : String
  pub description : String
  pub input_schema : Fields
  pub requires_approval : Bool

-- `BaseTool`, over an outside world that its `execute` changes; the first argument of `execute` is
-- the time limit that `asyncio.timeout` runs it under.
pub record Tool (V : Type 0) : Type 0 where
  pub name : String
  pub description : String
  pub input_schema : Json
  pub requires_approval : Bool
  pub execute : ℕ → Fields → ToolContext → Exec V ToolFailure Json

-- backend/app/models/agent.py, the row of one tool call.
pub record ToolCallRecord : Type 0 where
  pub id : ℕ
  pub agent_run_id : ℕ
  pub call_id : String
  pub tool_name : String
  pub status : ToolCallStatus
  pub arguments : Fields
  pub result : Option Json
  pub error_code : Option String
  pub error_message : Option String
  pub started_at : Option ℕ
  pub finished_at : Option ℕ
  pub duration_ms : Option ℕ

-- The event that a tool call emits, without its times; a trace or an observation without an id of
-- its own gets a fresh one.
pub record ObservationEvent : Type 0 where
  pub name : String
  pub trace_id : Option String
  pub observation_id : Option String
  pub status : ToolCallStatus
  pub error_code : Option String
  pub has_agent_run : Bool

-- The rows of `tool_call_records`, the events emitted, and everything that the tools change.
pub record World (V : Type 0) : Type 0 where
  pub records : List ToolCallRecord
  pub next_id : ℕ
  pub events : List ObservationEvent
  pub outside : V

-- The parts of the outside that the registry looks at: the clock, the milliseconds since a call
-- has started, and whether the database refuses the next statement.
pub record Outside (V : Type 0) : Type 0 where
  pub now : V → ℕ
  pub duration_ms : V → ℕ
  pub is_down : V → Bool
