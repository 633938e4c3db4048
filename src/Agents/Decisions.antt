-- ===== src/Agents/Decisions.antt =====
-- backend/app/agents/llm_handler.py: the decision handler, which asks a language model for a decision
-- in JSON. The models, `uuid4`, `json.loads` and `json.dumps` are parameters.
pub mod Decided
pub mod Taken
mod Tests
use ai_agent_hub.Common.{
  ℕ, ◌-◌, ◌≡◌, refl, String, Bool, true, false, not, ◌&&◌, ◌||◌, Option, none, some, List, [], ◌∷◌,
  ◌++◌, map, reverse, ◌==◌, string_eq, text_eq, if◌then◌else◌, leb, length, take, drop, take_last,
  is_empty, filter,
}
use ai_agent_hub.Common.Exec.{Exec}
use ai_agent_hub.Common.Int.{ℤ, pos, nonpositive, magnitude}
use ai_agent_hub.Common.Result.{Result, ok, err, ◌>>=◌}
use ai_agent_hub.Common.Strings.{trim, string_empty}
use ai_agent_hub.Common.Text.{Text, codes, strip}
use ai_agent_hub.Agents.State.{ToolCallStatus, Json, Items, Fields, AgentMessage, AgentState}
use ai_agent_hub.Agents.Contracts.{AgentDecision, NodeError, unexpected}
use ai_agent_hub.Agents.Graph.{agent_error}
use ai_agent_hub.Memory.ShortTerm.{MemoryMessage, ShortTermMemory, init, select}
use ai_agent_hub.Services.Chat.{LlmMessage, LlmFailure, llm_error, other_failure, said}
use ai_agent_hub.Tools.Contracts.{ToolDescriptor}
use ai_agent_hub.Tools.Schema.{lookup, value_or}

pub record LlmDecisionHandler : Type 0 where
  pub tools : List ToolDescriptor
  pub system_prompt : Option Text
  pub memory : ShortTermMemory
  pub tool_results_limit : ℕ

-- `__init__`; the error is the message of a ValueError.
unfoldable pub decision_handler :
    List ToolDescriptor → Option Text → ℤ → ℤ → ℤ → Result String LlmDecisionHandler
unfolding init
decision_handler tools system_prompt history_limit context_token_budget tool_results_limit =
    if nonpositive history_limit || nonpositive tool_results_limit
    then err "Agent context limits must be greater than zero"
    else (init history_limit context_token_budget (pos 4) >>= λ memory. ok (record {
      tools = tools;
      system_prompt = system_prompt;
      memory = memory;
      tool_results_limit = magnitude tool_results_limit;
    }))

-- How `json.loads` ends: a value, a JSONDecodeError, or another error, such as the ValueError of an
-- integer with too many digits or a RecursionError, which no clause catches.
pub data Loaded : Type 0 where
  loaded : Json → Loaded
  decode_error loads_broke : Loaded

pub record DecisionBackends (W : Type 0) : Type 0 where
  pub router_llm : List LlmMessage → Exec W LlmFailure Text
  pub final_llm : List LlmMessage → Exec W LlmFailure Text
  pub new_call_id : W → String × W
  pub loads : Text → Loaded
  pub dumps : Json → Text

abbrev pub invalid_decision : String → NodeError
invalid_decision message = agent_error "AGENT_INVALID_DECISION" message

abbrev pub fence : Text
fence = codes "```"

-- `s.startswith(prefix)` and `s.endswith(suffix)`
abbrev pub starts_with : Text → Text → Bool
starts_with s prefix = take (length prefix) s == prefix

abbrev pub ends_with : Text → Text → Bool
ends_with s suffix = take_last (length suffix) s == suffix

abbrev pub strip_language : Text → Text
strip_language s = if starts_with s (codes "json") then strip (drop 4 s) else s

unfoldable pub strip_stripped : Text → Text
unfolding strip
strip_stripped s =
    if starts_with s fence && ends_with s fence
    then strip_language (strip (drop 3 (take (length s - 3) s)))
    else s

-- `_strip_code_fence`
unfoldable pub strip_code_fence : Text → Text
unfolding strip strip_stripped
strip_code_fence content = strip_stripped (strip content)

-- The test of `parsed.get("action")`: a list or a dictionary has no hash, so the set raises.
pub data Action : Type 0 where
  answers calls unknown unhashable : Action

abbrev pub action_of : Option Json → Action
action_of (some (Json.str s)) =
    if s == "answer" then answers else if s == "tool" then calls else unknown
action_of (some (Json.arr items)) = unhashable
action_of (some (Json.obj fields)) = unhashable
action_of _ = unknown

unfoldable pub items_of : List Json → Items
items_of [] = Items.nil
items_of (j ∷ js) = Items.cons j (items_of js)

abbrev pub catalog_entry : ToolDescriptor → Json
catalog_entry tool = Json.obj (
    Fields.field "name" (Json.str tool.name) (
      Fields.field "description" (Json.str tool.description) (
        Fields.field "input_schema" (Json.obj tool.input_schema)
          (Fields.field "requires_approval" (Json.bool tool.requires_approval) Fields.end))))

-- `item.get("role") in {"user", "assistant"}`
abbrev pub is_spoken : AgentMessage → Bool
is_spoken m = (m.role == "user") || (m.role == "assistant")

abbrev pub as_memory : AgentMessage → MemoryMessage
as_memory m = record { role = m.role; content = m.content }

-- `[:-1]`
abbrev pub all_but_last {ℓ} : {A : Type ℓ} → List A → List A
all_but_last xs = take (length xs - 1) xs

module _ {W : Type 0} (b : DecisionBackends W) (self : LlmDecisionHandler) where
  -- A prompt that is not set, or is empty, is the default one.
  abbrev pub custom_prompt : Option Text → Text
  custom_prompt none = codes "Answer helpfully and concisely."
  custom_prompt (some []) = codes "Answer helpfully and concisely."
  custom_prompt (some (c ∷ cs)) = strip (c ∷ cs)

  -- `_system_prompt`
  unfoldable pub system_prompt : Text
  unfolding items_of strip
  system_prompt =
      custom_prompt self.system_prompt
      ++ (codes "\nYou are the AgentHub runtime decision layer. Return ONLY valid JSON. "
          ++ (codes
                "Use exactly one of these shapes: {\"action\":\"answer\",\"content\":\"...\"} or "
              ++ (codes "{\"action\":\"tool\",\"name\":\"tool_name\",\"arguments\":{...}}. "
                  ++ (codes "Use a tool when it materially helps answer the user. Available tools: "
                      ++ b.dumps (Json.arr (items_of (map catalog_entry self.tools)))))))

  -- `state_messages` and the last results of tools
  unfoldable pub spoken : AgentState → List MemoryMessage
  unfolding filter
  spoken s = map as_memory (filter is_spoken s.messages)

  unfoldable pub latest_results : AgentState → List Json
  latest_results s = take_last self.tool_results_limit s.tool_results

  unfoldable pub results_message : List Json → List LlmMessage
  unfolding items_of
  results_message [] = []
  results_message (r ∷ rs) =
      (record {
        role = "user";
        content =
            codes "Tool results from the previous step:\n"
            ++ b.dumps (Json.arr (items_of (r ∷ rs)));
      })
      ∷ []

  -- `messages`
  unfoldable pub messages_of : AgentState → List LlmMessage
  unfolding select spoken latest_results results_message system_prompt
  messages_of s =
      (record { role = "system"; content = system_prompt })
      ∷ (map said (select self.memory (all_but_last (spoken s))).messages
          ++ (map said (take_last 1 (spoken s)) ++ results_message (latest_results s)))

  abbrev pub answer_decision : Option Json → Exec W NodeError (Option AgentDecision)
  answer_decision (some (Json.str answer)) w =
      if string_empty (trim answer)
      then (err (invalid_decision "Agent answer content is empty"), w)
      else (
        ok (
            some (record {
              assistant_message =
                  some (record { role = "assistant"; content = codes (trim answer) });
              tool_call = none;
              done = true;
              metadata = [];
            })),
        w,
      )
  answer_decision _ w = (err (invalid_decision "Agent answer content is empty"), w)

  abbrev pub call_decision : Option Json → Json → Exec W NodeError (Option AgentDecision)
  call_decision (some (Json.str name)) (Json.obj arguments) w =
      if string_empty name
      then (err (invalid_decision "Agent tool decision is malformed"), w)
      else (let (call_id, w') = b.new_call_id w in
          (
            ok (
                some (record {
                  assistant_message = none;
                  tool_call = some (record {
                    call_id = some call_id;
                    name = some name;
                    arguments = Json.obj arguments;
                    status = ToolCallStatus.pending;
                    result = none;
                    error = none;
                  });
                  done = false;
                  metadata = [];
                })),
            w',
          ))
  call_decision _ _ w = (err (invalid_decision "Agent tool decision is malformed"), w)

  abbrev pub decision_for : Action → Fields → Exec W NodeError (Option AgentDecision)
  decision_for answers parsed w = answer_decision (lookup parsed "content") w
  decision_for calls parsed w =
      call_decision (lookup parsed "name")
        (value_or (lookup parsed "arguments") (Json.obj Fields.end)) w
  decision_for unknown parsed w = (err (invalid_decision "Agent returned an unknown action"), w)
  decision_for unhashable parsed w = (err unexpected, w)

  abbrev pub decision_of : Loaded → Exec W NodeError (Option AgentDecision)
  decision_of decode_error w = (err (invalid_decision "Agent returned invalid JSON"), w)
  decision_of loads_broke w = (err unexpected, w)
  decision_of (loaded (Json.obj parsed)) w =
      decision_for (action_of (lookup parsed "action")) parsed w
  decision_of (loaded _) w = (err (invalid_decision "Agent returned an unknown action"), w)

  -- `_parse_decision`
  unfoldable pub parse_decision : Text → Exec W NodeError (Option AgentDecision)
  unfolding strip_code_fence lookup trim
  parse_decision content w = decision_of (b.loads (strip_code_fence content)) w

  unfoldable pub decide_answered :
      Result LlmFailure Text × W → Result NodeError (Option AgentDecision) × W
  unfolding parse_decision
  decide_answered (ok content, w) = parse_decision content w
  decide_answered (err (llm_error message), w) = (err (agent_error "AGENT_LLM_FAILED" message), w)
  decide_answered (err other_failure, w) = (err unexpected, w)

  -- The final model answers when there are results of tools.
  unfoldable pub ask : AgentState → Exec W LlmFailure Text
  unfolding latest_results messages_of
  ask s =
      if is_empty (latest_results s)
      then b.router_llm (messages_of s)
      else b.final_llm (messages_of s)

  -- `decide`
  unfoldable pub decide : AgentState → Exec W NodeError (Option AgentDecision)
  unfolding ask decide_answered
  decide s w = decide_answered (ask s w)
