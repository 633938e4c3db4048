-- ===== src/Tools/Execution.antt =====
-- backend/app/tools/registry.py: `ToolRegistry.execute` and its private methods.
-- The variable `record` of the source is what the `except` clauses find in it: nothing when the
-- opening of the record raised, else the record.
pub mod Framing
pub mod Gate
pub mod Recording
pub mod Logged
pub mod Audit
use ai_agent_hub.Common.{
  ℕ, String, Bool, true, false, not, ◌&&◌, ◌||◌, Option, none, some, ◌∷◌, ◌==◌, string_eq,
  option_eq, if◌then◌else◌,
}
use ai_agent_hub.Common.Result.{Result, ok, err}
use ai_agent_hub.Common.Exec.{Exec, pure, raise, ◌>>=◌, ◌>>◌}
use ai_agent_hub.Common.Dict.{get}
use ai_agent_hub.Agents.State.{ToolCallStatus, Json, Fields, ToolCallState, AgentState}
use ai_agent_hub.Agents.Contracts.{ToolExecutionResult, NodeError}
use ai_agent_hub.Tools.Contracts.{
  ToolError, ToolFailure, tool_error, unexpected, ToolContext, from_state, Tool, World, Outside,
}
use ai_agent_hub.Tools.Records.{StatusUpdate, create, update_status, get_for_run_call}
use ai_agent_hub.Tools.Schema.{validate_arguments}
use ai_agent_hub.Tools.Registry.{
  ToolRegistry, not_found, string_or_empty, failure_result, reported, as_node_error, failed_status,
  running_status, completed_status, waiting_status, approval_message,
}
use ai_agent_hub.Tools.Execution.Recording.{
  within_outside, lift, emit_observation, emit, object_arguments, schema_of, find_tool,
  needs_approval, as_graph_result,
}

module _ {V : Type 0} (o : Outside V) (registry : ToolRegistry V) where
  abbrev pub resume_of : AgentState → String → Option ℕ → Exec (World V) ToolFailure (Option ℕ)
  resume_of s call_id none = pure none
  resume_of s call_id (some run) =
      if not registry.has_recorder || not s.resume_approval
      then pure none
      else get_for_run_call o run call_id

  -- `_resume_record`
  unfoldable pub resume_record : AgentState → String → Exec (World V) ToolFailure (Option ℕ)
  unfolding get_for_run_call
  resume_record s call_id = resume_of s call_id s.agent_run_id

  abbrev pub start_of : String → String → Fields → Option ℕ → Exec (World V) ToolFailure (Option ℕ)
  start_of call_id name arguments none = pure none
  start_of call_id name arguments (some run) =
      if not registry.has_recorder
      then pure none
      else (do id ← create o run call_id name arguments; pure (some id))

  -- `_start_record`
  unfoldable pub start_record :
      AgentState → String → String → Fields → Exec (World V) ToolFailure (Option ℕ)
  unfolding create
  start_record s call_id name arguments = start_of call_id name arguments s.agent_run_id

  -- `_finish_record` and `_mark_record_running`, which update the record if there is one
  unfoldable pub update_record : Option ℕ → StatusUpdate → Exec (World V) ToolFailure (Unit {0})
  unfolding update_status
  update_record none u = pure tt
  update_record (some id) u = if not registry.has_recorder then pure tt else update_status o id u

  abbrev pub or_start :
      AgentState → String → String → Fields → Option ℕ → Exec (World V) ToolFailure (Option ℕ)
  or_start s call_id name arguments none = start_record s call_id name arguments
  or_start s call_id name arguments (some id) = pure (some id)

  -- What follows the check of the arguments.
  abbrev pub open_with :
      ToolCallState → AgentState → Fields → Exec (World V) ToolFailure (Fields × Option ℕ)
  open_with call s arguments = do
    found ← resume_record s (string_or_empty call.call_id)
    id ← or_start s (string_or_empty call.call_id) (string_or_empty call.name) arguments found
    pure (arguments, id)

  -- The `try` block as far as `record` is assigned.
  unfoldable pub open_record :
      ToolCallState → AgentState → Exec (World V) ToolFailure (Fields × Option ℕ)
  unfolding resume_record start_record
  open_record call s = do arguments ← object_arguments call.arguments; open_with call s arguments

  -- The branch that asks for an approval.
  unfoldable pub ask_approval :
      AgentState → String → String → Option ℕ → Exec (World V) ToolFailure ToolExecutionResult
  unfolding update_record emit_observation
  ask_approval s call_id name id = do
    update_record id (waiting_status (approval_message name))
    emit registry s call_id name ToolCallStatus.waiting_approval (some "TOOL_APPROVAL_REQUIRED")
    pure (record {
      result = Json.null;
      error_code = none;
      error_message = none;
      approval_required = true;
      approval_message = some (approval_message name);
    })

  abbrev pub finish_now : Option ℕ → (ℕ → StatusUpdate) → Exec (World V) ToolFailure (Unit {0})
  finish_now id u w = update_record id (u (o.duration_ms w.outside)) w

  -- The branch that runs the tool.
  unfoldable pub run_tool :
      Tool V
      → Fields
      → AgentState
      → String
      → String
      → Option ℕ
      → Exec (World V) ToolFailure ToolExecutionResult
  unfolding update_record emit_observation from_state
  run_tool tool arguments s call_id name id = do
    result ← within_outside (tool.execute registry.timeout_seconds arguments (from_state s))
    finish_now id (completed_status result)
    emit registry s call_id name ToolCallStatus.completed none
    pure (record {
      result = result;
      error_code = none;
      error_message = none;
      approval_required = false;
      approval_message = none;
    })

  -- The branches of the gate.
  abbrev pub gate :
      Bool
      → Tool V
      → Fields
      → Option ℕ
      → AgentState
      → String
      → String
      → Exec (World V) ToolFailure ToolExecutionResult
  gate true tool arguments id s call_id name = ask_approval s call_id name id
  gate false tool arguments id s call_id name = run_tool tool arguments s call_id name id

  -- What follows the validation of the arguments.
  unfoldable pub admit :
      Result ToolError (Unit {0})
      → Tool V
      → Fields
      → Option ℕ
      → AgentState
      → String
      → String
      → Exec (World V) ToolFailure ToolExecutionResult
  unfolding ask_approval run_tool
  admit checked tool arguments id s call_id name = do
    lift checked
    gate (needs_approval tool s call_id) tool arguments id s call_id name

  -- What follows the look-up of the tool.
  unfoldable pub perform_with :
      Tool V
      → Fields
      → Option ℕ
      → AgentState
      → String
      → String
      → Exec (World V) ToolFailure ToolExecutionResult
  unfolding validate_arguments admit
  perform_with tool arguments id s call_id name = do
    schema ← schema_of tool.input_schema
    admit (validate_arguments schema arguments) tool arguments id s call_id name

  -- The rest of the `try` block.
  unfoldable pub perform :
      Fields
      → Option ℕ
      → AgentState
      → String
      → String
      → Exec (World V) ToolFailure ToolExecutionResult
  unfolding update_record get perform_with
  perform arguments id s call_id name = do
    update_record id running_status
    tool ← find_tool registry name
    perform_with tool arguments id s call_id name

  -- What an `except` clause does with the error that it reports.
  abbrev pub report :
      AgentState
      → String
      → String
      → Option ℕ
      → ToolFailure
      → Option ToolError
      → Exec (World V) ToolFailure ToolExecutionResult
  report s call_id name id e none = raise e
  report s call_id name id e (some error) = do
    finish_now id (failed_status error)
    emit registry s call_id name ToolCallStatus.failed (some error.code)
    pure (failure_result error)

  -- The `except` clauses.
  unfoldable pub handle :
      AgentState
      → String
      → String
      → Option ℕ
      → ToolFailure
      → Exec (World V) ToolFailure ToolExecutionResult
  unfolding update_record emit_observation
  handle s call_id name id e = report s call_id name id e (reported e)

  -- The value of a step, or of the `except` clauses if it has raised.
  abbrev pub caught :
      AgentState
      → String
      → String
      → Option ℕ
      → Result ToolFailure ToolExecutionResult × World V
      → Result ToolFailure ToolExecutionResult × World V
  caught s call_id name id (ok r, w) = (ok r, w)
  caught s call_id name id (err e, w) = handle s call_id name id e w

  abbrev pub proceed :
      AgentState
      → String
      → String
      → Result ToolFailure (Fields × Option ℕ) × World V
      → Result ToolFailure ToolExecutionResult × World V
  proceed s call_id name (ok (arguments, id), w) =
      caught s call_id name id (perform arguments id s call_id name w)
  proceed s call_id name (err e, w) = handle s call_id name none e w

  -- `execute`
  unfoldable pub execute : ToolCallState → AgentState → Exec (World V) NodeError ToolExecutionResult
  unfolding open_record perform handle
  execute call s w =
      as_graph_result (
        proceed s (string_or_empty call.call_id) (string_or_empty call.name) (open_record call s w))
