-- ===== src/Agents/Decisions/Decided.antt =====
-- backend/app/agents/llm_handler.py: how `decide` ends, and that the graph takes what it returns.
use ai_agent_hub.Common.{
  ◌≡◌, refl, sym, ap, inl, inr, String, true, false, Bool-cases, Option, none, some, [], ◌==◌,
  ==-eq, string_eq,
}
use ai_agent_hub.Common.Result.{Result, ok, err}
use ai_agent_hub.Common.Strings.{trim, string_empty}
use ai_agent_hub.Common.Text.{Text, codes}
use ai_agent_hub.Agents.State.{ToolCallStatus, Json, Fields, AgentState}
use ai_agent_hub.Agents.Contracts.{AgentDecision, NodeError, unexpected}
use ai_agent_hub.Agents.Graph.{agent_error}
use ai_agent_hub.Services.Chat.{LlmFailure, llm_error, other_failure}
use ai_agent_hub.Tools.Schema.{lookup, value_or}
use ai_agent_hub.Agents.Decisions.{
  LlmDecisionHandler, Loaded, loaded, decode_error, loads_broke, DecisionBackends, Action, answers,
  calls, unknown, unhashable, action_of, invalid_decision, strip_code_fence, answer_decision,
  call_decision, decision_for, decision_of, parse_decision, decide_answered, ask, decide,
}

-- The decision to answer, and the one to call a tool.
abbrev pub answering : String → AgentDecision
answering answer = record {
  assistant_message = some (record { role = "assistant"; content = codes (trim answer) });
  tool_call = none;
  done = true;
  metadata = [];
}

abbrev pub calling : String → String → Fields → AgentDecision
calling call_id name arguments = record {
  assistant_message = none;
  tool_call = some (record {
    call_id = some call_id;
    name = some name;
    arguments = Json.obj arguments;
    status = ToolCallStatus.pending;
    result = none;
    error = none;
  });
  done = false;
  metadata = [];
}

-- A value without a hash.
abbrev pub IsUnhashable : Option Json → Type 0
IsUnhashable (some (Json.arr items)) = Unit
IsUnhashable (some (Json.obj fields)) = Unit
IsUnhashable _ = ⊥

-- An action that is neither of the two, and has a hash.
abbrev IsUnknown : Option Json → Type 0
IsUnknown j = ¬ (j ≡ some (Json.str "answer")) × ¬ (j ≡ some (Json.str "tool")) × ¬ (IsUnhashable j)

abbrev pub ActionCase : Action → Option Json → Type 0
ActionCase answers j = j ≡ some (Json.str "answer")
ActionCase calls j = j ≡ some (Json.str "tool")
ActionCase unknown j = IsUnknown j
ActionCase unhashable j = IsUnhashable j

action_of_case : (j : Option Json) → ActionCase (action_of j) j
action_of_case none = (λ e. cc, λ e. cc, λ u. u)
action_of_case (some Json.null) = (λ e. cc, λ e. cc, λ u. u)
action_of_case (some (Json.bool x)) = (λ e. cc, λ e. cc, λ u. u)
action_of_case (some (Json.int x)) = (λ e. cc, λ e. cc, λ u. u)
action_of_case (some (Json.float x)) = (λ e. cc, λ e. cc, λ u. u)
action_of_case (some (Json.arr items)) = tt
action_of_case (some (Json.obj fields)) = tt
action_of_case (some (Json.str s)) = elim (Bool-cases (s == "answer")) [
  | inl e ↦ rw e (ap (λ t. some (Json.str t)) (==-eq s "answer" e))
  | inr n ↦ elim (Bool-cases (s == "tool")) [
    | inl e ↦ rw (n, e) (ap (λ t. some (Json.str t)) (==-eq s "tool" e))
    | inr m ↦
        rw (n, m)
          (
            λ e. (let same : s ≡ "answer" = cc in let h = rw same at n in cc),
            λ e. (let same : s ≡ "tool" = cc in let h = rw same at m in cc),
            λ u. u,
          )
  ]
]

-- What is no decision: text that is no JSON, JSON that is no object, an unknown action, an answer
-- without text, and a call without a name or without an object of arguments.
pub data Malformed : Loaded → Type 0 where
  no_json : Malformed decode_error
  no_object : (j : Json) → ((fields : Fields) → ¬ (j ≡ Json.obj fields)) → Malformed (loaded j)
  no_action :
      (parsed : Fields) → IsUnknown (lookup parsed "action") → Malformed (loaded (Json.obj parsed))
  no_answer :
      (parsed : Fields)
      → lookup parsed "action" ≡ some (Json.str "answer")
      → ((text : String)
          → lookup parsed "content" ≡ some (Json.str text)
          → string_empty (trim text) ≡ true)
      → Malformed (loaded (Json.obj parsed))
  no_name :
      (parsed : Fields)
      → lookup parsed "action" ≡ some (Json.str "tool")
      → ((text : String) → lookup parsed "name" ≡ some (Json.str text) → string_empty text ≡ true)
      → Malformed (loaded (Json.obj parsed))
  no_arguments :
      (parsed : Fields)
      → lookup parsed "action" ≡ some (Json.str "tool")
      → ((fields : Fields)
          → ¬ (value_or (lookup parsed "arguments") (Json.obj Fields.end) ≡ Json.obj fields))
      → Malformed (loaded (Json.obj parsed))

module _ {W : Type 0} (b : DecisionBackends W) (self : LlmDecisionHandler) where
  -- How `decide` ends, by what the model has answered.
  pub data Decided (p : Result LlmFailure Text × W)
      : Result NodeError (Option AgentDecision) × W → Type 0 where
    llm_failed :
        (message : String)
        → p.0 ≡ err (llm_error message)
        → Decided p (err (agent_error "AGENT_LLM_FAILED" message), p.1)
    llm_broke : p.0 ≡ err other_failure → Decided p (err unexpected, p.1)
    invalid :
        (content : Text) (message : String)
        → p.0 ≡ ok content
        → Malformed (b.loads (strip_code_fence content))
        → Decided p (err (invalid_decision message), p.1)
    unreadable :
        (content : Text)
        → p.0 ≡ ok content
        → b.loads (strip_code_fence content) ≡ loads_broke
        → Decided p (err unexpected, p.1)
    broken :
        (content : Text) (parsed : Fields)
        → p.0 ≡ ok content
        → b.loads (strip_code_fence content) ≡ loaded (Json.obj parsed)
        → IsUnhashable (lookup parsed "action")
        → Decided p (err unexpected, p.1)
    answered :
        (content : Text) (parsed : Fields) (answer : String)
        → p.0 ≡ ok content
        → b.loads (strip_code_fence content) ≡ loaded (Json.obj parsed)
        → lookup parsed "action" ≡ some (Json.str "answer")
        → lookup parsed "content" ≡ some (Json.str answer)
        → string_empty (trim answer) ≡ false
        → Decided p (ok (some (answering answer)), p.1)
    called :
        (content : Text) (parsed : Fields) (name : String) (arguments : Fields)
        → p.0 ≡ ok content
        → b.loads (strip_code_fence content) ≡ loaded (Json.obj parsed)
        → lookup parsed "action" ≡ some (Json.str "tool")
        → lookup parsed "name" ≡ some (Json.str name)
        → string_empty name ≡ false
        → value_or (lookup parsed "arguments") (Json.obj Fields.end) ≡ Json.obj arguments
        → Decided p
            (ok (some (calling (b.new_call_id p.1).0 name arguments)), (b.new_call_id p.1).1)

  module _ (content : Text) (w : W) where
    module _ (parsed : Fields)
        (is_loaded : b.loads (strip_code_fence content) ≡ loaded (Json.obj parsed)) where
      refused :
          (message : String)
          → Malformed (loaded (Json.obj parsed))
          → Decided (ok content, w) (err (invalid_decision message), w)
      refused message m = invalid content message refl (rw is_loaded m)

      answer-Decided :
          (answer : Option Json)
          → lookup parsed "content" ≡ answer
          → lookup parsed "action" ≡ some (Json.str "answer")
          → Decided (ok content, w) (answer_decision b self answer w)
      answer-Decided (some (Json.str answer)) el action =
          elim (Bool-cases (string_empty (trim answer))) [
            | inl blank ↦ rw blank (
                refused _ (
                  no_answer parsed action
                    (λ text e. (let same : answer ≡ text = cc in rw (sym same) blank))))
            | inr text ↦ rw text (answered content parsed answer refl is_loaded action el text)
          ]
      answer-Decided _ el action = refused _ (no_answer parsed action (λ text e. cc))

      call-Decided :
          (name : Option Json) (arguments : Json)
          → lookup parsed "name" ≡ name
          → value_or (lookup parsed "arguments") (Json.obj Fields.end) ≡ arguments
          → lookup parsed "action" ≡ some (Json.str "tool")
          → Decided (ok content, w) (call_decision b self name arguments w)
      call-Decided (some (Json.str name)) (Json.obj arguments) en ea action =
          elim (Bool-cases (string_empty name)) [
            | inl blank ↦ rw blank (
                refused _ (
                  no_name parsed action
                    (λ text e. (let same : name ≡ text = cc in rw (sym same) blank))))
            | inr text ↦
                rw text (called content parsed name arguments refl is_loaded action en text ea)
          ]
      call-Decided (some (Json.str name)) _ en ea action =
          refused _ (no_arguments parsed action (λ fields e. cc))
      call-Decided _ _ en ea action = refused _ (no_name parsed action (λ text e. cc))

      action-Decided :
          (action : Action)
          → ActionCase action (lookup parsed "action")
          → Decided (ok content, w) (decision_for b self action parsed w)
      action-Decided answers e = answer-Decided _ refl e
      action-Decided calls e = call-Decided _ _ refl refl e
      action-Decided unknown e = refused _ (no_action parsed e)
      action-Decided unhashable e = broken content parsed refl is_loaded e

    loaded-Decided :
        (answer : Loaded)
        → b.loads (strip_code_fence content) ≡ answer
        → Decided (ok content, w) (decision_of b self answer w)
    loaded-Decided decode_error e = invalid content _ refl (rw e no_json)
    loaded-Decided loads_broke e = unreadable content refl e
    loaded-Decided (loaded (Json.obj parsed)) e =
        action-Decided parsed e _ (action_of_case (lookup parsed "action"))
    loaded-Decided (loaded j) e = invalid content _ refl (rw e (no_object _ (λ fields e. cc)))

  asked-Decided : (p : Result LlmFailure Text × W) → Decided p (decide_answered b self p)
  unfolding decide_answered parse_decision
  asked-Decided (ok content, w) = loaded-Decided content w _ refl
  asked-Decided (err (llm_error message), w) = llm_failed message refl
  asked-Decided (err other_failure, w) = llm_broke refl

  module _ (s : AgentState) (w : W) where
    -- A decision is the answer or the tool call that the model's JSON object asks for: an answer that
    -- is not blank, without the white space around it, or a call of a named tool with an object of
    -- arguments. AGENT_INVALID_DECISION is for an answer that is no JSON or no object, or that has
    -- another action, a blank answer, no name, or arguments that are no object. An action that is a
    -- list or an object, and what `json.loads` raises otherwise, is no decision error; and the error
    -- of a model is AGENT_LLM_FAILED.
    pub decide-Decided : Decided (ask b self s w) (decide b self s w)
    unfolding decide
    decide-Decided = asked-Decided (ask b self s w)
