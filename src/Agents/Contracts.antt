-- ===== src/Agents/Contracts.antt =====
-- backend/app/agents/contracts.py: the contracts between the graph, the decision handler and the
-- tool executor.
use ai_agent_hub.Common.{ℕ, String, Bool, Option}
use ai_agent_hub.Common.Int.{ℤ, nonpositive, magnitude}
use ai_agent_hub.Common.Result.{Result, ok, err}
use ai_agent_hub.Common.Exec.{Exec}
use ai_agent_hub.Common.{if◌then◌else◌}
use ai_agent_hub.Common.Dict.{Dict}
use ai_agent_hub.Agents.State.{Json, AgentMessage, ToolCallState, AgentState}

pub record AgentRuntimeError : Type 0 where
  pub code : String
  pub message : String

-- Timeouts are whole numbers of some unit.
pub record AgentRuntimeConfig : Type 0 where
  pub max_steps : ℕ
  pub timeout_seconds : ℕ

-- `__post_init__`
unfoldable pub config : ℤ → ℤ → Result AgentRuntimeError AgentRuntimeConfig
config max_steps timeout_seconds =
    if nonpositive max_steps
    then err
        (record { code = "INVALID_MAX_STEPS"; message = "max_steps must be greater than zero" })
    else if nonpositive timeout_seconds
    then err
        (record { code = "INVALID_TIMEOUT"; message = "timeout_seconds must be greater than zero" })
    else ok
        (record { max_steps = magnitude max_steps; timeout_seconds = magnitude timeout_seconds })

pub record AgentDecision : Type 0 where
  pub assistant_message : Option AgentMessage
  pub tool_call : Option ToolCallState
  pub done : Bool
  pub metadata : Dict Json

pub record ToolExecutionResult : Type 0 where
  pub result : Json
  pub error_code : Option String
  pub error_message : Option String
  pub approval_required : Bool
  pub approval_message : Option String

-- What a node may raise: an `AgentRuntimeError`, a `TimeoutError` or any other exception.
pub data NodeError : Type 0 where
  runtime_error : AgentRuntimeError → NodeError
  timed_out : NodeError
  unexpected : NodeError

-- What the graph calls, over a world that it does not see: the decision handler, which may return
-- a value that is no decision, the tool executor, the cancel event, and the deadline.
pub record Environment (W : Type 0) : Type 0 where
  pub decide : AgentState → Exec W NodeError (Option AgentDecision)
  pub execute : ToolCallState → AgentState → Exec W NodeError ToolExecutionResult
  pub is_cancelled : W → Bool
  pub is_expired : W → Bool
