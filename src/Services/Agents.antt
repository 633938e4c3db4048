-- ===== src/Services/Agents.antt =====
-- backend/app/services/agents.py: the runs of agents and the approvals of their tool calls.
-- `env` is the decision handler and the tool registry that `_execute_runtime` builds for an agent,
-- `limit` the recursion limit of the graph. A snapshot is read back as it was stored.
pub mod Lifecycle
pub mod Configuration
use ai_agent_hub.Common.{
  ℕ, ◌+◌, String, Bool, true, false, not, ◌&&◌, Option, none, some, List, [], ◌∷◌, ◌++◌, reverse,
  map, ◌==◌, leb, nat_eq, string_eq, if◌then◌else◌, find, filter, is_empty,
}
use ai_agent_hub.Common.Int.{ℤ}
use ai_agent_hub.Common.Exec.{Exec, pure, raise, ◌>>=◌, ◌>>◌}
use ai_agent_hub.Common.Result.{Result, ok, err}
use ai_agent_hub.Common.Text.{Text, strip}
use ai_agent_hub.Agents.State.{
  AgentStatus, ToolCallStatus, ApprovalStatus, Json, Fields, AgentMessage, ApprovalRequest,
  AgentState,
}
use ai_agent_hub.Agents.Contracts.{AgentRuntimeConfig, Environment}
use ai_agent_hub.Agents.Runtime.{run as run_runtime}
use ai_agent_hub.Tools.Contracts.{ToolFailure, World, Outside}
use ai_agent_hub.Tools.Records.{StatusUpdate, update_status, get_for_run_call}
use ai_agent_hub.Tools.Registry.{string_or_empty}
use ai_agent_hub.Services.Store.{
  Agent, AgentRun, AgentApproval, Conversation, Store, AppError, ServiceError, app_error,
  unexpected, app, RunUpdate, owned_agent, owned_run, approval_for_run, owned_conversation,
  update_state, update_approval, create_approval, create_message, touch,
}

-- The settings that the service reads, and whether it was given a model, an embedder and a vector
-- store.
pub record Settings : Type 0 where
  pub is_configured : Bool
  pub agent_approval_timeout_seconds : ℕ
  pub agent_history_max_messages : ℤ
  pub agent_context_token_budget : ℤ

abbrev pub is_waiting : AgentStatus → Bool
is_waiting AgentStatus.waiting_approval = true
is_waiting _ = false

abbrev pub is_completed : AgentStatus → Bool
is_completed AgentStatus.completed = true
is_completed _ = false

-- `_is_expired`
unfoldable pub is_expired : AgentApproval → ℕ → Bool
is_expired approval now = leb approval.expires_at now

-- The content of the last message of the assistant.
unfoldable pub answer_of : AgentState → Option Text
unfolding find
answer_of state =
    elim (find (λ (m : AgentMessage). m.role == "assistant") (reverse state.messages)) [
      | none ↦ none
      | some m ↦ some m.content
    ]

-- `dict(state.get("approval_request") or {})` with a new status
abbrev pub with_status : Option ApprovalRequest → ApprovalStatus → ApprovalRequest
with_status none status = record {
  tool_call_id = none;
  tool_name = none;
  arguments = Json.null;
  message = "";
  status = status;
  approval_id = none;
  expires_at = none;
}
with_status (some request) status = record request { status = status }

-- `arguments if isinstance(arguments, dict) else {}`
abbrev pub object_or_empty : Json → Fields
object_or_empty (Json.obj arguments) = arguments
object_or_empty _ = Fields.end

-- The state that `resume` hands to the runtime.
unfoldable pub resumed : AgentState → AgentApproval → AgentState
resumed state approval = record state {
  approved_tool_call_id = some approval.call_id;
  resume_approval = true;
  approval_request = some (with_status state.approval_request ApprovalStatus.approved);
}

-- The state that `_finish_rejected_run` stores.
unfoldable pub rejected_state : AgentState → ApprovalStatus → String → String → AgentState
rejected_state state status error_code error_message = record state {
  approval_request = some (with_status state.approval_request status);
  resume_approval = false;
  status = AgentStatus.failed;
  error_code = some error_code;
  error_message = some error_message;
}

-- `_runtime_config`
abbrev pub runtime_config : Agent → AgentRuntimeConfig
runtime_config agent = record {
  max_steps = agent.max_steps;
  timeout_seconds = agent.timeout_seconds;
}

-- The update that stores a final state.
abbrev pub final_update : AgentState → RunUpdate
final_update state = record {
  status = state.status;
  state = state;
  step_count = state.step_count;
  error_code = state.error_code;
  error_message = state.error_message;
}

abbrev pub failed_call : String → String → StatusUpdate
failed_call error_code error_message = record {
  status = ToolCallStatus.failed;
  result = none;
  error_code = some error_code;
  error_message = some error_message;
  duration_ms = none;
}

module _ {V : Type 0} where
  abbrev pub required_agent : Option Agent → Exec (Store V) ServiceError Agent
  required_agent none = raise (app "AGENT_NOT_FOUND" "Agent was not found" 404)
  required_agent (some agent) = pure agent

  -- `get`
  unfoldable pub get : ℕ → ℕ → Exec (Store V) ServiceError Agent
  unfolding owned_agent
  get user_id agent_id s = required_agent (owned_agent agent_id user_id s) s

  abbrev pub run_of : ℕ → Agent → Option AgentRun → Exec (Store V) ServiceError (AgentRun × Agent)
  run_of agent_id agent none = raise (app "AGENT_RUN_NOT_FOUND" "Agent run was not found" 404)
  run_of agent_id agent (some run) =
      if not (run.agent_id == agent_id)
      then raise (app "AGENT_RUN_NOT_FOUND" "Agent run was not found" 404)
      else pure (run, agent)

  -- `_get_owned_run`
  unfoldable pub get_owned_run : ℕ → ℕ → ℕ → Exec (Store V) ServiceError (AgentRun × Agent)
  unfolding get owned_run
  get_owned_run user_id agent_id run_id = do
    agent ← get user_id agent_id
    (λ s. run_of agent_id agent (owned_run run_id user_id s) s)

  abbrev pub required : Option AgentApproval → Exec (Store V) ServiceError AgentApproval
  required none = raise (app "APPROVAL_NOT_FOUND" "Approval request was not found" 404)
  required (some approval) = pure approval

  -- The newest approval of a run, which must be there.
  unfoldable pub get_approval : AgentRun → Exec (Store V) ServiceError AgentApproval
  unfolding approval_for_run
  get_approval run s = required (approval_for_run run.id s) s

  -- A step that returns a value and does not raise.
  abbrev pub step : {A : Type 0} → (Store V → A × Store V) → Exec (Store V) ServiceError A
  step f s = let (a, s') = f s in (ok a, s')

  -- A statement on the tool-call records, by `ToolCallRepository`.
  abbrev pub on_world : {A : Type 0} → Exec (World V) ToolFailure A → Exec (Store V) ServiceError A
  on_world m s =
      let (r, w) = m s.world in
      (elim r [ ok a ↦ ok a | err e ↦ err unexpected ], record s { world = w })
