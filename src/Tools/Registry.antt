-- ===== src/Tools/Registry.antt =====
-- backend/app/tools/registry.py: `ToolRegistry`. Logging is left out; `safe_emit` never raises, so
-- an event is only recorded.
pub mod Names
pub mod Registration
use Prim.Native.String.{◌++◌}
use ai_agent_hub.Common.{
  ℕ, String, Bool, true, false, not, ◌&&◌, Option, none, some, List, [], ◌∷◌, ◌++◌ as append, map,
  ◌==◌, string_eq, option_eq, if◌then◌else◌,
}
use ai_agent_hub.Common.Int.{ℤ, nonpositive, magnitude}
use ai_agent_hub.Common.Result.{Result, ok, err, raise_if, ◌>>=◌ as bind, ◌>>◌ as then}
use ai_agent_hub.Common.Exec.{Exec, pure, raise, ◌>>=◌, ◌>>◌}
use ai_agent_hub.Common.Dict.{Dict, get, has, put}
use ai_agent_hub.Common.Strings.{trim, string_empty, string_leb}
use ai_agent_hub.Agents.State.{ToolCallStatus, Json, Fields, ToolCallState, AgentState}
use ai_agent_hub.Agents.Contracts.{ToolExecutionResult, NodeError}
use ai_agent_hub.Agents.Contracts as Contracts
use ai_agent_hub.Tools.Contracts.{
  ToolRegistryError, ToolError, ToolFailure, tool_error, timed_out, unexpected, interrupted,
  ToolContext, from_state, ToolDescriptor, Tool, ObservationEvent, World, Outside,
}
use ai_agent_hub.Tools.Records.{StatusUpdate, create, update_status, get_for_run_call}
use ai_agent_hub.Tools.Schema.{lookup, validate_arguments}

abbrev pub registry_error : String → ToolRegistryError
registry_error message = record { message = message }

-- `isinstance(schema, dict) and schema.get("type") == "object"`
abbrev pub object_schema : Json → Option Fields
object_schema (Json.obj schema) = elim (lookup schema "type") [
  | some (Json.str t) ↦ if t == "object" then some schema else none
  | _ ↦ none
]
object_schema _ = none

abbrev pub describe :
    String → String → Option Fields → Bool → Result ToolRegistryError ToolDescriptor
describe name description none approval =
    err (registry_error ("Tool input_schema must describe an object: " ++ name))
describe name description (some schema) approval = ok (record {
  name = name;
  description = description;
  input_schema = schema;
  requires_approval = approval;
})

-- `sorted` of the names
unfoldable pub insert_name : String → List String → List String
insert_name x [] = x ∷ []
insert_name x (y ∷ ys) = if string_leb x y then x ∷ y ∷ ys else y ∷ insert_name x ys

abbrev pub not_found : String → ToolError
not_found name = record { code = "TOOL_NOT_FOUND"; message = "Tool is not registered: " ++ name }

-- What `get_descriptor` raises.
pub data DescriptorError : Type 0 where
  missing_tool : ToolError → DescriptorError
  bad_tool : ToolRegistryError → DescriptorError

abbrev pub described :
    Result ToolRegistryError ToolDescriptor → Result DescriptorError ToolDescriptor
described (ok d) = ok d
described (err e) = err (bad_tool e)

module _ {V : Type 0} where
  -- `_descriptor_for`
  unfoldable pub descriptor_for : Tool V → Result ToolRegistryError ToolDescriptor
  unfolding trim lookup
  descriptor_for tool =
      let name = trim tool.name in
      let description = trim tool.description in
      if string_empty name
      then err (registry_error "Tool name must not be empty")
      else if string_empty description
      then err (registry_error ("Tool description must not be empty: " ++ name))
      else describe name description (object_schema tool.input_schema) tool.requires_approval

  abbrev pub register_as :
      Dict (Tool V)
      → Tool V
      → Result ToolRegistryError ToolDescriptor
      → Result ToolRegistryError (Dict (Tool V))
  register_as tools tool (err e) = err e
  register_as tools tool (ok d) =
      if has tools d.name
      then err (registry_error ("Tool is already registered: " ++ d.name))
      else ok (put tools d.name tool)

  -- `register`, from the registered tools to the registered tools
  unfoldable pub register : Dict (Tool V) → Tool V → Result ToolRegistryError (Dict (Tool V))
  unfolding descriptor_for has put
  register tools tool = register_as tools tool (descriptor_for tool)

  abbrev pub descriptor_of : String → Option (Tool V) → Result DescriptorError ToolDescriptor
  descriptor_of name none = err (missing_tool (not_found name))
  descriptor_of name (some tool) = described (descriptor_for tool)

  unfoldable pub get_descriptor : Dict (Tool V) → String → Result DescriptorError ToolDescriptor
  unfolding get descriptor_for
  get_descriptor tools name = descriptor_of name (get tools name)

  unfoldable pub sorted_names : Dict (Tool V) → List String
  unfolding insert_name
  sorted_names [] = []
  sorted_names ((name, tool) ∷ tools) = insert_name name (sorted_names tools)

  abbrev pub describe_found :
      Option (Tool V)
      → Result ToolRegistryError (List ToolDescriptor)
      → Result ToolRegistryError (List ToolDescriptor)
  describe_found none others = others
  describe_found (some tool) others =
      bind (descriptor_for tool) (λ d. bind others (λ ds. ok (d ∷ ds)))

  unfoldable pub descriptors_of :
      Dict (Tool V) → List String → Result ToolRegistryError (List ToolDescriptor)
  unfolding get descriptor_for
  descriptors_of tools [] = ok []
  descriptors_of tools (name ∷ names) = describe_found (get tools name) (descriptors_of tools names)

  -- `list_descriptors`
  unfoldable pub list_descriptors : Dict (Tool V) → Result ToolRegistryError (List ToolDescriptor)
  unfolding descriptors_of sorted_names
  list_descriptors tools = descriptors_of tools (sorted_names tools)

-- The registry, with or without a recorder and an observability adapter.
pub record ToolRegistry (V : Type 0) : Type 0 where
  pub timeout_seconds : ℕ
  pub has_recorder : Bool
  pub has_observability : Bool
  pub tools : Dict (Tool V)

-- `__init__`
unfoldable pub init : {V : Type 0} → ℤ → Bool → Bool → Result ToolRegistryError (ToolRegistry V)
init timeout_seconds has_recorder has_observability =
    if nonpositive timeout_seconds
    then err (registry_error "timeout_seconds must be greater than zero")
    else ok (record {
      timeout_seconds = magnitude timeout_seconds;
      has_recorder = has_recorder;
      has_observability = has_observability;
      tools = [];
    })

-- `str(tool_call.get(key, ""))`
abbrev pub string_or_empty : Option String → String
string_or_empty none = ""
string_or_empty (some s) = s

abbrev pub failure_result : ToolError → ToolExecutionResult
failure_result e = record {
  result = Json.null;
  error_code = some e.code;
  error_message = some e.message;
  approval_required = false;
  approval_message = none;
}

-- The error that the `except` clauses report for what was raised, if one of them catches it.
abbrev pub reported : ToolFailure → Option ToolError
reported (tool_error e) = some e
reported timed_out = some (record { code = "TOOL_TIMEOUT"; message = "Tool execution timed out" })
reported unexpected =
    some (record { code = "TOOL_EXECUTION_FAILED"; message = "Tool execution failed" })
reported interrupted = none

-- What the graph sees of an exception that the registry lets through.
abbrev pub as_node_error : ToolFailure → NodeError
as_node_error (tool_error e) = Contracts.unexpected
as_node_error timed_out = Contracts.timed_out
as_node_error unexpected = Contracts.unexpected
as_node_error interrupted = Contracts.timed_out

abbrev pub failed_status : ToolError → ℕ → StatusUpdate
failed_status e duration = record {
  status = ToolCallStatus.failed;
  result = none;
  error_code = some e.code;
  error_message = some e.message;
  duration_ms = some duration;
}

abbrev pub running_status : StatusUpdate
running_status = record {
  status = ToolCallStatus.running;
  result = none;
  error_code = none;
  error_message = none;
  duration_ms = none;
}

abbrev pub completed_status : Json → ℕ → StatusUpdate
completed_status result duration = record {
  status = ToolCallStatus.completed;
  result = some result;
  error_code = none;
  error_message = none;
  duration_ms = some duration;
}

abbrev pub waiting_status : String → StatusUpdate
waiting_status message = record {
  status = ToolCallStatus.waiting_approval;
  result = none;
  error_code = some "TOOL_APPROVAL_REQUIRED";
  error_message = some message;
  duration_ms = none;
}

abbrev pub approval_message : String → String
approval_message name = "Approval required before executing tool: " ++ name
