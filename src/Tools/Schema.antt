-- ===== src/Tools/Schema.antt =====
-- backend/app/tools/registry.py: `_validate_arguments` and `_matches_type`, over the subset of
-- JSON Schema that the registry reads.
pub mod Conforms
use Prim.Native.String.{◌++◌}
use ai_agent_hub.Common.{
  ℕ, String, Bool, true, false, not, ◌&&◌, Option, none, some, List, [], ◌∷◌, ◌==◌, string_eq,
  if◌then◌else◌,
}
use ai_agent_hub.Common.Result.{Result, ok, err, ◌>>=◌, ◌>>◌}
use ai_agent_hub.Common.Strings.{join_strings}
use ai_agent_hub.Agents.State.{Json, Items, Fields}
use ai_agent_hub.Tools.Contracts.{ToolError}

-- `d.get(key)` of a JSON object
unfoldable pub lookup : Fields → String → Option Json
lookup Fields.end key = none
lookup (Fields.field k v rest) key = if k == key then some v else lookup rest key

-- `key in d`
unfoldable pub has_key : Fields → String → Bool
has_key Fields.end key = false
has_key (Fields.field k v rest) key = if k == key then true else has_key rest key

-- `d.get("properties", {})` and `d.get("required", [])`
abbrev pub value_or : Option Json → Json → Json
value_or none d = d
value_or (some v) d = v

unfoldable pub matches_type : Json → String → Bool
matches_type value expected =
    if expected == "string"
    then (elim value [ Json.str s ↦ true | _ ↦ false ])
    else if expected == "integer"
    then (elim value [ Json.int i ↦ true | _ ↦ false ])
    else if expected == "number"
    then (elim value [ Json.int i ↦ true | Json.float f ↦ true | _ ↦ false ])
    else if expected == "boolean"
    then (elim value [ Json.bool b ↦ true | _ ↦ false ])
    else if expected == "object"
    then (elim value [ Json.obj o ↦ true | _ ↦ false ])
    else if expected == "array"
    then (elim value [ Json.arr a ↦ true | _ ↦ false ])
    else false

-- `_matches_type(value, definition.get("type"))`: only a string can name a type.
unfoldable pub matches_json_type : Json → Option Json → Bool
unfolding matches_type
matches_json_type value (some (Json.str expected)) = matches_type value expected
matches_json_type value _ = false

abbrev pub malformed : String → ToolError
malformed message = record { code = "TOOL_INVALID_SCHEMA"; message = message }

abbrev pub invalid : String → ToolError
invalid message = record { code = "TOOL_INVALID_INPUT"; message = message }

-- The required names that the arguments do not have.
unfoldable pub missing : Items → Fields → List String
unfolding has_key
missing Items.nil arguments = []
missing (Items.cons (Json.str name) rest) arguments =
    let others = missing rest arguments in
    if not (has_key arguments name) then name ∷ others else others
missing (Items.cons _ rest) arguments = missing rest arguments

-- One round of the loop over the arguments, by the definition that the properties give.
abbrev pub check_definition : String → Json → Option Json → Result ToolError (Unit {0})
check_definition name value none = err (invalid ("Unknown tool argument: " ++ name))
check_definition name value (some Json.null) = err (invalid ("Unknown tool argument: " ++ name))
check_definition name value (some (Json.obj definition)) =
    if matches_json_type value (lookup definition "type")
    then ok tt
    else err (invalid ("Invalid type for tool argument: " ++ name))
check_definition name value (some _) =
    err (malformed ("Tool argument schema is malformed: " ++ name))

unfoldable pub check_arguments : Fields → Fields → Result ToolError (Unit {0})
unfolding lookup matches_json_type
check_arguments properties Fields.end = ok tt
check_arguments properties (Fields.field name value rest) = do
  check_definition name value (lookup properties name)
  check_arguments properties rest

-- `if missing: raise`
abbrev pub refuse_missing : List String → Result ToolError (Unit {0})
refuse_missing [] = ok tt
refuse_missing (name ∷ names) =
    err (invalid ("Missing required tool arguments: " ++ join_strings ", " (name ∷ names)))

-- What follows the look at the schema.
abbrev pub validate_against : Fields → Json → Json → Result ToolError (Unit {0})
validate_against arguments (Json.obj properties) (Json.arr required) = do
  refuse_missing (missing required arguments)
  check_arguments properties arguments
validate_against arguments _ _ = err (malformed "Tool input_schema is malformed")

unfoldable pub validate_arguments : Fields → Fields → Result ToolError (Unit {0})
unfolding lookup missing check_arguments join_strings
validate_arguments schema arguments =
    validate_against arguments (value_or (lookup schema "properties") (Json.obj Fields.end))
      (value_or (lookup schema "required") (Json.arr Items.nil))
