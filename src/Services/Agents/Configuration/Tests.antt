-- ===== src/Services/Agents/Configuration/Tests.antt =====
-- Agents of two users.
use ai_agent_hub.Common.{ℕ, ◌≡◌, refl, none, some, List, [], ◌∷◌, map, false, All}
use ai_agent_hub.Common.Result.{ok, err}
use ai_agent_hub.Agents.State.{Json, Fields}
use ai_agent_hub.Services.Owned.{OwnedStep}
use ai_agent_hub.Services.Store.{Agent}
use ai_agent_hub.Tools.Contracts.{Tool}
use ai_agent_hub.Services.Agents.Configuration.{
  AgentCreate, AgentUpdate, rejected, integrity_error, type_error, agent_missing,
  knowledge_base_missing, table, create_agent, list_agents, update_agent, delete_agent,
  register_all,
}
use ai_agent_hub.Services.Agents.Configuration.Supported.{
  IsSupported, changes, AgentStep-Configured,
}

abbrev agent : ℕ → ℕ → Agent
agent id user = record {
  id = id;
  user_id = user;
  knowledge_base_id = none;
  name = "a";
  description = none;
  system_prompt = none;
  model_name = "m";
  max_steps = 5;
  timeout_seconds = 60;
  tool_names = "calculator" ∷ [];
}

abbrev rows : List Agent
rows = agent 1 7 ∷ agent 2 8 ∷ []

abbrev creation : AgentCreate
creation = record {
  knowledge_base_id = none;
  name = " new ";
  description = none;
  system_prompt = none;
  model_name = "m";
  max_steps = 5;
  timeout_seconds = 60;
  tool_names = "sql_query" ∷ "calculator" ∷ [];
}

abbrev nothing_set : AgentUpdate
nothing_set = record {
  knowledge_base_id = none;
  name = none;
  description = none;
  system_prompt = none;
  model_name = none;
  max_steps = none;
  timeout_seconds = none;
  tool_names = none;
}

program : Unit {0}
unfolding create_agent list_agents update_agent delete_agent register_all
program = tt

creates_trimmed : map (λ a. a.name) (create_agent [] 3 7 creation rows).1 ≡ "new" ∷ "a" ∷ "a" ∷ []
unfolding program
creates_trimmed = refl

blank_name_is_stored :
    map (λ a. a.name) (create_agent [] 3 7 (record creation { name = "  " }) []).1 ≡ "" ∷ []
unfolding program
blank_name_is_stored = refl

base_of_other_user :
    (create_agent [] 3 7 (record creation { knowledge_base_id = some 4 }) rows).0
    ≡ err knowledge_base_missing
unfolding program
base_of_other_user = refl

unsupported_are_sorted :
    (create_agent [] 3 7 (record creation { tool_names = "z" ∷ "b" ∷ "z" ∷ [] }) rows).0
    ≡ err (
        rejected (record {
          code = "UNSUPPORTED_AGENT_TOOL";
          message = "Unsupported Agent tools: b, z";
          status_code = 422;
        }))
unfolding program
unsupported_are_sorted = refl

-- `set(None)`
null_tools_raise :
    (update_agent [] 7 1 (record nothing_set { tool_names = some none }) rows).0 ≡ err type_error
unfolding program
null_tools_raise = refl

null_steps_raise :
    (update_agent [] 7 1 (record nothing_set { max_steps = some none }) rows).0
    ≡ err integrity_error
unfolding program
null_steps_raise = refl

other_user_finds_none : update_agent [] 8 1 nothing_set rows ≡ (err agent_missing, rows)
unfolding program
other_user_finds_none = refl

deletes_own : list_agents 8 (delete_agent 7 1 rows).1 ≡ agent 2 8 ∷ []
unfolding program
deletes_own = refl

abbrev sum : Tool ℕ
sum = record {
  name = "calculator";
  description = "adds";
  input_schema = Json.obj (Fields.field "type" (Json.str "object") Fields.end);
  requires_approval = false;
  execute = λ limit a c v. (ok Json.null, v);
}

-- The validation takes a tool that is named twice, and the registry does not.
named_twice :
    register_all (λ e. e.message) (λ name. ok sum) ("calculator" ∷ "calculator" ∷ []) []
    ≡ err "Tool is already registered: calculator"
unfolding program
named_twice = refl

twice_is_valid :
    map
      (λ a. a.tool_names)
      (create_agent [] 3 7 (record creation { tool_names = "calculator" ∷ "calculator" ∷ [] }) []).1
    ≡ ("calculator" ∷ "calculator" ∷ []) ∷ []
unfolding program
twice_is_valid = refl

AgentStep-Configured_example :
    OwnedStep table 7 rows (update_agent [] 7 1 nothing_set rows).1
    × All IsSupported (update_agent [] 7 1 nothing_set rows).1
AgentStep-Configured_example =
    AgentStep-Configured [] 7 rows ((refl, tt), ((refl, tt), tt))
      (update_agent [] 7 1 nothing_set rows).1 (changes 1 nothing_set)
