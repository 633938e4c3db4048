-- ===== src/Agents/Decisions/Tests.antt =====
-- A model that gives one text, and ids that count.
use ai_agent_hub.Common.{
  ℕ, suc, ◌≡◌, refl, false, Option, none, some, [], ◌∷◌, ◌==◌, text_eq, if◌then◌else◌, map,
}
use ai_agent_hub.Common.Int.{pos, negsuc}
use ai_agent_hub.Common.Result.{Result, ok, err}
use ai_agent_hub.Common.Text.{Text, codes}
use ai_agent_hub.Agents.State.{Json, Items, Fields}
use ai_agent_hub.Agents.Contracts.{
  AgentRuntimeConfig, AgentDecision, Environment, NodeError, unexpected,
}
use ai_agent_hub.Agents.Graph.{agent_error, agent_node}
use ai_agent_hub.Agents.Samples.{first}
use ai_agent_hub.Services.Chat.{llm_error}
use ai_agent_hub.Agents.Decisions.{
  LlmDecisionHandler, Loaded, loaded, decode_error, loads_broke, DecisionBackends, decision_handler,
  strip_code_fence, messages_of, ask, decide, invalid_decision,
}
use ai_agent_hub.Agents.Decisions.Decided.{Decided, answering, calling, decide-Decided}
use ai_agent_hub.Agents.Decisions.Taken.{HasIds, Taken, deciding, agent_node-Taken}

abbrev reads : Text → Loaded
reads text =
    if text == codes "A"
    then loaded (
        Json.obj (
          Fields.field "action" (Json.str "answer")
            (Fields.field "content" (Json.str " hi ") Fields.end)))
    else if text == codes "T"
    then loaded (
        Json.obj (
          Fields.field "action" (Json.str "tool")
            (Fields.field "name" (Json.str "sum") Fields.end)))
    else if text == codes "L"
    then loaded (Json.obj (Fields.field "action" (Json.arr Items.nil) Fields.end))
    else if text == codes "9"
    then loads_broke
    else decode_error

abbrev backends : Text → DecisionBackends ℕ
backends text = record {
  router_llm = λ messages n. (ok text, n);
  final_llm = λ messages n. (err (llm_error "busy"), n);
  new_call_id = λ n. ("id", suc n);
  loads = reads;
  dumps = λ j. codes "[]";
}

abbrev self : LlmDecisionHandler
self = record {
  tools = [];
  system_prompt = none;
  memory = record { max_messages = 8; token_budget = 2000; chars_per_token = 4 };
  tool_results_limit = 4;
}

abbrev decided : Text → Result NodeError (Option AgentDecision) × ℕ
decided text = decide (backends text) self first 0

program : Unit {0}
unfolding decide strip_code_fence decision_handler messages_of
program = tt

fenced : strip_code_fence (codes " ```json\nA\n``` ") ≡ codes "A"
unfolding program
fenced = refl

only_fence : strip_code_fence (codes "```") ≡ []
unfolding program
only_fence = refl

answers_stripped : decided (codes "```json\nA```") ≡ (ok (some (answering " hi ")), 0)
unfolding program
answers_stripped = refl

calls_without_arguments : decided (codes "T") ≡ (ok (some (calling "id" "sum" Fields.end)), 1)
unfolding program
calls_without_arguments = refl

not_json : (decided (codes "x")).0 ≡ err (invalid_decision "Agent returned invalid JSON")
unfolding program
not_json = refl

-- A list as the action has no hash: the set raises, and nothing turns that into a decision error.
list_as_action : (decided (codes "L")).0 ≡ err unexpected
unfolding program
list_as_action = refl

-- An integer of too many digits is a ValueError that is no JSONDecodeError.
huge_integer : (decided (codes "9")).0 ≡ err unexpected
unfolding program
huge_integer = refl

results_ask_final :
    (decide (backends (codes "A")) self (record first { tool_results = Json.null ∷ [] }) 0).0
    ≡ err (agent_error "AGENT_LLM_FAILED" "busy")
unfolding program
results_ask_final = refl

roles_of_prompt : map (λ m. m.role) (messages_of (backends []) self first) ≡ "system" ∷ "user" ∷ []
unfolding program
roles_of_prompt = refl

no_results_kept :
    decision_handler [] none (pos 8) (pos 9) (negsuc 0)
    ≡ err "Agent context limits must be greater than zero"
unfolding program
no_results_kept = refl

decide-Decided_example :
    Decided
      (backends (codes "T"))
      self
      (ask (backends (codes "T")) self first 0)
      (decided (codes "T"))
decide-Decided_example = decide-Decided (backends (codes "T")) self first 0

abbrev env : Environment ℕ
env = record {
  decide = λ s n. (ok none, n);
  execute = λ call s n. (err unexpected, n);
  is_cancelled = λ n. false;
  is_expired = λ n. false;
}

abbrev config : AgentRuntimeConfig
config = record { max_steps = 3; timeout_seconds = 9 }

ids : HasIds (backends (codes "T")) self env config
ids = λ w. refl

agent_node-Taken_example :
    Taken
      (backends (codes "T"))
      self
      env
      config
      first
      (decided (codes "T"))
      (agent_node (deciding (backends (codes "T")) self env config) config first 0)
agent_node-Taken_example =
    agent_node-Taken (backends (codes "T")) self env config first 0 ids refl refl
