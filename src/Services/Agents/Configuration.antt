-- ===== src/Services/Agents/Configuration.antt =====
-- backend/app/services/agents.py over repositories/agents.py: create, list_agents, update and delete of
-- agents, and the registry of an agent. The times of a row, its place in a list, and
-- what the database does with the runs of a deleted agent are not modelled. A new id is an argument.
pub mod Supported
mod Tests
use Prim.Native.String.{◌++◌}
use ai_agent_hub.Common.{
  ℕ, String, Bool, true, false, not, ◌||◌, ◌&&◌, Option, none, some, List, [], ◌∷◌, map, ◌==◌,
  nat_eq, string_eq, if◌then◌else◌, filter, contains,
}
use ai_agent_hub.Common.Dict.{Dict}
use ai_agent_hub.Common.Result.{Result, ok, err, ◌>>=◌}
use ai_agent_hub.Common.Strings.{trim, join_strings}
use ai_agent_hub.Services.KnowledgeBases.{KnowledgeBase}
use ai_agent_hub.Services.KnowledgeBases as KnowledgeBases
use ai_agent_hub.Services.Owned
use ai_agent_hub.Services.Owned.{Table, store_row, delete_row}
use ai_agent_hub.Services.Store.{AppError, app, Agent}
use ai_agent_hub.Tools.Contracts.{Tool, ToolRegistryError}
use ai_agent_hub.Tools.Registry.{insert_name, register}

pub record AgentCreate : Type 0 where
  pub knowledge_base_id : Option ℕ
  pub name : String
  pub description : Option String
  pub system_prompt : Option String
  pub model_name : String
  pub max_steps : ℕ
  pub timeout_seconds : ℕ
  pub tool_names : List String

-- The fields that the request sets; each of them may be set to null.
pub record AgentUpdate : Type 0 where
  pub knowledge_base_id : Option (Option ℕ)
  pub name : Option (Option String)
  pub description : Option (Option String)
  pub system_prompt : Option (Option String)
  pub model_name : Option (Option String)
  pub max_steps : Option (Option ℕ)
  pub timeout_seconds : Option (Option ℕ)
  pub tool_names : Option (Option (List String))

-- An `AppError`, the IntegrityError of a column that is null, or the TypeError of `set(None)`.
pub data ConfigurationError : Type 0 where
  rejected : AppError → ConfigurationError
  integrity_error : ConfigurationError
  type_error : ConfigurationError

abbrev pub table : Table Agent
table = record { id_of = λ row. row.id; user_of = λ row. row.user_id }

-- `SUPPORTED_TOOLS`
abbrev pub is_supported : String → Bool
is_supported name =
    (name == "knowledge_search")
    || (name == "calculator")
    || (name == "sql_query")
    || (name == "web_search")

-- `sorted(set(tool_names) - SUPPORTED_TOOLS)`
unfoldable pub unsupported : List String → List String
unfolding insert_name
unsupported [] = []
unsupported (name ∷ names) =
    let rest = unsupported names in
    if is_supported name || contains name rest then rest else insert_name name rest

abbrev pub knowledge_base_missing : ConfigurationError
knowledge_base_missing = rejected (record {
  code = "KNOWLEDGE_BASE_NOT_FOUND";
  message = "Knowledge base was not found";
  status_code = 404;
})

abbrev pub agent_missing : ConfigurationError
agent_missing =
    rejected
      (record { code = "AGENT_NOT_FOUND"; message = "Agent was not found"; status_code = 404 })

abbrev pub refuse_tools : List String → Result ConfigurationError (Unit {0})
refuse_tools [] = ok tt
refuse_tools (name ∷ names) = err (
    rejected (record {
      code = "UNSUPPORTED_AGENT_TOOL";
      message = "Unsupported Agent tools: " ++ join_strings ", " (name ∷ names);
      status_code = 422;
    }))

abbrev pub validate_tools : Option (List String) → Result ConfigurationError (Unit {0})
validate_tools none = err type_error
validate_tools (some names) = refuse_tools (unsupported names)

abbrev pub validate_base :
    Option KnowledgeBase → Option (List String) → Result ConfigurationError (Unit {0})
validate_base none tool_names = err knowledge_base_missing
validate_base (some base) tool_names = validate_tools tool_names

-- `_validate_configuration`
unfoldable pub validate_configuration :
    List KnowledgeBase → ℕ → Option ℕ → Option (List String) → Result ConfigurationError (Unit {0})
unfolding unsupported KnowledgeBases.get_owned join_strings
validate_configuration bases user none tool_names = validate_tools tool_names
validate_configuration bases user (some id) tool_names =
    validate_base (KnowledgeBases.get_owned id user bases) tool_names

abbrev pub create_valid :
    ℕ
    → ℕ
    → AgentCreate
    → Result ConfigurationError (Unit {0})
    → List Agent
    → Result ConfigurationError Agent × List Agent
create_valid new_id user payload (err e) rows = (err e, rows)
create_valid new_id user payload (ok _) rows =
    let row : Agent = record {
      id = new_id;
      user_id = user;
      knowledge_base_id = payload.knowledge_base_id;
      name = trim payload.name;
      description = payload.description;
      system_prompt = payload.system_prompt;
      model_name = payload.model_name;
      max_steps = payload.max_steps;
      timeout_seconds = payload.timeout_seconds;
      tool_names = payload.tool_names;
    } in
    (ok row, row ∷ rows)

-- `create`
unfoldable pub create_agent :
    List KnowledgeBase
    → ℕ
    → ℕ
    → AgentCreate
    → List Agent
    → Result ConfigurationError Agent × List Agent
unfolding validate_configuration trim
create_agent bases new_id user payload rows =
    create_valid new_id user payload
      (validate_configuration bases user payload.knowledge_base_id (some payload.tool_names)) rows

-- `list_agents`
unfoldable pub list_agents : ℕ → List Agent → List Agent
unfolding Owned.list_owned
list_agents user rows = Owned.list_owned table user rows

-- `values.get(field, old)`
abbrev pub value_or {ℓ} : {A : Type ℓ} → Option (Option A) → Option A → Option A
value_or none old = old
value_or (some value) old = value

-- The new value of a column that is not nullable, and of the text of one that is.
abbrev pub assigned {ℓ} : {A : Type ℓ} → Option (Option A) → A → Result ConfigurationError A
assigned none old = ok old
assigned (some none) old = err integrity_error
assigned (some (some value)) old = ok value

abbrev pub trimmed : Option (Option String) → Option (Option String)
trimmed (some (some value)) = some (some (trim value))
trimmed value = value

-- The row after the assignments, when the database takes the columns that are not nullable.
abbrev pub assigned_row :
    AgentUpdate
    → Agent
    → Result ConfigurationError String
    → Result ConfigurationError String
    → Result ConfigurationError ℕ
    → Result ConfigurationError ℕ
    → Result ConfigurationError (List String)
    → Result ConfigurationError Agent
assigned_row payload agent (ok name) (ok model_name) (ok steps) (ok timeout) (ok tools) =
    ok (record agent {
      name = name;
      model_name = model_name;
      max_steps = steps;
      timeout_seconds = timeout;
      tool_names = tools;
      knowledge_base_id = value_or payload.knowledge_base_id agent.knowledge_base_id;
      description = value_or (trimmed payload.description) agent.description;
      system_prompt = value_or (trimmed payload.system_prompt) agent.system_prompt;
    })
assigned_row payload agent _ _ _ _ _ = err integrity_error

unfoldable pub updated : AgentUpdate → Agent → Result ConfigurationError Agent
unfolding trim
updated payload agent =
    assigned_row payload agent (assigned (trimmed payload.name) agent.name)
      (assigned (trimmed payload.model_name) agent.model_name)
      (assigned payload.max_steps agent.max_steps)
      (assigned payload.timeout_seconds agent.timeout_seconds)
      (assigned payload.tool_names agent.tool_names)

abbrev pub store_update :
    Result ConfigurationError Agent → List Agent → Result ConfigurationError Agent × List Agent
store_update (err e) rows = (err e, rows)
store_update (ok row) rows = (ok row, store_row table row rows)

abbrev pub update_valid :
    AgentUpdate
    → Agent
    → Result ConfigurationError (Unit {0})
    → List Agent
    → Result ConfigurationError Agent × List Agent
update_valid payload agent (err e) rows = (err e, rows)
update_valid payload agent (ok _) rows = store_update (updated payload agent) rows

abbrev pub update_found :
    List KnowledgeBase
    → ℕ
    → AgentUpdate
    → Option Agent
    → List Agent
    → Result ConfigurationError Agent × List Agent
update_found bases user payload none rows = (err agent_missing, rows)
update_found bases user payload (some agent) rows =
    update_valid payload agent
      (validate_configuration bases user
        (value_or payload.knowledge_base_id agent.knowledge_base_id)
        (value_or payload.tool_names (some agent.tool_names)))
      rows

-- `update`
unfoldable pub update_agent :
    List KnowledgeBase
    → ℕ
    → ℕ
    → AgentUpdate
    → List Agent
    → Result ConfigurationError Agent × List Agent
unfolding Owned.get_owned validate_configuration updated store_row
update_agent bases user id payload rows =
    update_found bases user payload (Owned.get_owned table id user rows) rows

abbrev pub delete_found :
    Option Agent → List Agent → Result ConfigurationError (Unit {0}) × List Agent
delete_found none rows = (err agent_missing, rows)
delete_found (some agent) rows = (ok tt, delete_row table agent.id rows)

-- `delete`
unfoldable pub delete_agent : ℕ → ℕ → List Agent → Result ConfigurationError (Unit {0}) × List Agent
unfolding Owned.get_owned delete_row
delete_agent user id rows = delete_found (Owned.get_owned table id user rows) rows

module _ {ℓ} {E : Type ℓ} {V : Type 0} (wrap : ToolRegistryError → E)
    (tool_of : String → Result E (Tool V)) where
  abbrev pub registered : Result ToolRegistryError (Dict (Tool V)) → Result E (Dict (Tool V))
  registered (ok tools) = ok tools
  registered (err e) = err (wrap e)

  -- The loop of `_build_registry`, over the tools by their names; to make the provider of the web
  -- search may raise.
  unfoldable pub register_all : List String → Dict (Tool V) → Result E (Dict (Tool V))
  unfolding register
  register_all [] tools = ok tools
  register_all (name ∷ names) tools =
      if is_supported name
      then (tool_of name >>= λ tool.
          registered (register tools tool) >>= λ more. register_all names more)
      else register_all names tools
