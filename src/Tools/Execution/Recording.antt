-- ===== src/Tools/Execution/Recording.antt =====
-- backend/app/tools/registry.py: the events of a call, and what it looks at before it starts.
use ai_agent_hub.Common.{
  String, Bool, true, false, not, ◌&&◌, Option, none, some, ◌∷◌, ◌==◌, string_eq, option_eq,
  if◌then◌else◌,
}
use ai_agent_hub.Common.Result.{Result, ok, err}
use ai_agent_hub.Common.Exec.{Exec, pure, raise}
use ai_agent_hub.Common.Dict.{get}
use ai_agent_hub.Agents.State.{ToolCallStatus, Json, Fields, AgentState}
use ai_agent_hub.Agents.Contracts.{ToolExecutionResult, NodeError}
use ai_agent_hub.Tools.Contracts.{ToolError, ToolFailure, tool_error, unexpected, Tool, World}
use ai_agent_hub.Tools.Registry.{ToolRegistry, not_found, as_node_error}

-- `metadata.get("trace_id")`, if it is a string
abbrev pub string_value : Option Json → Option String
string_value (some (Json.str s)) = some s
string_value _ = none

module _ {V : Type 0} where
  -- A tool changes the outside only.
  abbrev pub within_outside : {A : Type 0} → Exec V ToolFailure A → Exec (World V) ToolFailure A
  within_outside m w = let (r, v) = m w.outside in (r, record w { outside = v })

  -- Raises the error of a result.
  abbrev pub lift : {A : Type 0} → Result ToolError A → Exec (World V) ToolFailure A
  lift (ok a) = pure a
  lift (err e) = raise (tool_error e)

  -- `_emit_observation`
  unfoldable pub emit_observation :
      ToolRegistry V
      → AgentState
      → String
      → String
      → ToolCallStatus
      → Option String
      → World V
      → World V
  unfolding get
  emit_observation registry s call_id name status error_code w =
      if registry.has_observability
      then record w {
        events =
            record {
              name = name;
              trace_id = string_value (get s.metadata "trace_id");
              observation_id = if call_id == "" then none else some call_id;
              status = status;
              error_code = error_code;
              has_agent_run = elim s.agent_run_id [ none ↦ false | some r ↦ true ];
            }
            ∷ w.events;
      }
      else w

  -- An update of the audit trail that cannot raise, as a step.
  abbrev pub emit :
      ToolRegistry V
      → AgentState
      → String
      → String
      → ToolCallStatus
      → Option String
      → Exec (World V) ToolFailure (Unit {0})
  emit registry s call_id name status error_code w =
      pure tt (emit_observation registry s call_id name status error_code w)

  -- `tool_call.get("arguments", {})`, which must be an object
  abbrev pub object_arguments : Json → Exec (World V) ToolFailure Fields
  object_arguments (Json.obj arguments) = pure arguments
  object_arguments _ = raise (
      tool_error
        (record { code = "TOOL_INVALID_INPUT"; message = "Tool arguments must be an object" }))

  -- `tool.input_schema`, which registration has found to be an object
  abbrev pub schema_of : Json → Exec (World V) ToolFailure Fields
  schema_of (Json.obj schema) = pure schema
  schema_of _ = raise unexpected

  abbrev pub found_tool : String → Option (Tool V) → Exec (World V) ToolFailure (Tool V)
  found_tool name none = raise (tool_error (not_found name))
  found_tool name (some tool) = pure tool

  abbrev pub find_tool : ToolRegistry V → String → Exec (World V) ToolFailure (Tool V)
  find_tool registry name = found_tool name (get registry.tools name)

  -- The condition under which a tool waits for an approval.
  abbrev pub needs_approval : Tool V → AgentState → String → Bool
  needs_approval tool s call_id =
      tool.requires_approval && not (s.approved_tool_call_id == some call_id)

  abbrev pub as_graph_result :
      Result ToolFailure ToolExecutionResult × World V
      → Result NodeError ToolExecutionResult × World V
  as_graph_result (ok r, w) = (ok r, w)
  as_graph_result (err e, w) = (err (as_node_error e), w)
