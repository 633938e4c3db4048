-- ===== src/Services/Agents/Lifecycle/Start.antt =====
-- backend/app/services/agents.py: `run`, with the short-term memory of its conversation.
use ai_agent_hub.Common.{
  ℕ, ◌+◌, String, Bool, false, not, ◌||◌, Option, none, some, List, [], ◌∷◌, ◌++◌, map, ◌==◌,
  nat_eq, string_eq, if◌then◌else◌, filter,
}
use ai_agent_hub.Common.Int.{pos, magnitude}
use ai_agent_hub.Common.Exec.{Exec, pure, raise, ◌>>=◌, ◌>>◌}
use ai_agent_hub.Common.Result.{Result, ok, err}
use ai_agent_hub.Common.Text.{Text}
use ai_agent_hub.Agents.State.{AgentStatus, Json, AgentMessage, AgentState}
use ai_agent_hub.Agents.Contracts.{Environment}
use ai_agent_hub.Memory.ShortTerm.{MemoryMessage, ShortTermMemory, init, select}
use ai_agent_hub.Tools.Contracts.{World, Outside}
use ai_agent_hub.Services.Store.{
  Agent, AgentRun, Conversation, Message, Store, ServiceError, app, unexpected, owned_conversation,
  update_state, create_message, list_for_conversation, touch,
}
use ai_agent_hub.Services.Agents.{Settings, get, step}
use ai_agent_hub.Services.Agents.Lifecycle.{finish_run}
use ai_agent_hub.Services.Agents.Lifecycle.Settling.{AgentRunResponse, unavailable}

-- `item.role in {"user", "assistant"}`
abbrev pub is_spoken : Message → Bool
is_spoken m = (m.role == "user") || (m.role == "assistant")

abbrev pub as_memory : Message → MemoryMessage
as_memory m = record { role = m.role; content = m.content }

abbrev pub as_agent_message : MemoryMessage → AgentMessage
as_agent_message m = record { role = m.role; content = m.content }

-- `a or b` of two optional ids
abbrev pub first_of : Option ℕ → Option ℕ → Option ℕ
first_of none b = b
first_of (some a) b = some a

-- The knowledge base that a conversation brings, where neither the request nor the agent names one.
abbrev pub base_of : Option ℕ → Option ℕ → Conversation → Option ℕ
base_of none none c = some c.knowledge_base_id
base_of requested own c = requested

-- The state that a run starts from.
unfoldable pub first_state :
    ℕ → Agent → String → Option ℕ → Option ℕ → List MemoryMessage → Text → AgentState
first_state user_id agent trace_id conversation_id knowledge_base_id history message = record {
  messages = map as_agent_message history ++ (record { role = "user"; content = message }) ∷ [];
  user_id = user_id;
  conversation_id = conversation_id;
  agent_id = agent.id;
  agent_run_id = none;
  knowledge_base_id = knowledge_base_id;
  tool_calls = [];
  tool_results = [];
  metadata =
      ("agent_name", Json.str agent.name)
      ∷ ("model_name", Json.str agent.model_name)
      ∷ ("trace_id", Json.str trace_id)
      ∷ [];
  status = AgentStatus.pending;
  step_count = 0;
  max_steps = none;
  error_code = none;
  error_message = none;
  pending_tool_call = none;
  approval_request = none;
  approved_tool_call_id = none;
  resume_approval = false;
}

module _ {V : Type 0} where
  -- `AgentRunRepository.create`. The first snapshot of the program has a status and a step count
  -- only; here it is the state that replaces it before the agent runs.
  unfoldable pub create_run :
      ℕ → Agent → Option ℕ → Option ℕ → Text → AgentState → Store V → AgentRun × Store V
  create_run user_id agent conversation_id knowledge_base_id input_text state s =
      let run : AgentRun = record {
        id = s.next_id;
        user_id = user_id;
        agent_id = agent.id;
        conversation_id = conversation_id;
        knowledge_base_id = knowledge_base_id;
        input_text = input_text;
        status = AgentStatus.pending;
        max_steps = agent.max_steps;
        timeout_seconds = agent.timeout_seconds;
        step_count = 0;
        state = state;
        error_code = none;
        error_message = none;
        started_at = none;
        finished_at = none;
      } in
      (run, record s { runs = run ∷ s.runs; next_id = s.next_id + 1 })

  -- The messages of the conversation that the memory selects.
  abbrev pub selected :
      Result String ShortTermMemory
      → List Message
      → Exec (Store V) ServiceError (List MemoryMessage)
  selected (err message) records = raise unexpected
  selected (ok memory) records =
      pure (select memory (map as_memory (filter is_spoken records))).messages

  unfoldable pub load_history :
      Settings → Conversation → Exec (Store V) ServiceError (List MemoryMessage)
  unfolding list_for_conversation init select filter
  load_history settings conversation s =
      let limit = settings.agent_history_max_messages in
      selected (init limit settings.agent_context_token_budget (pos 4))
        (list_for_conversation conversation.id (magnitude limit) s) s

  abbrev pub found_conversation : Option Conversation → Exec (Store V) ServiceError Conversation
  found_conversation none = raise (app "CONVERSATION_NOT_FOUND" "Conversation was not found" 404)
  found_conversation (some c) = pure c

  -- The history and the knowledge base of a run; the user's message joins its conversation.
  unfoldable pub join_conversation :
      Settings
      → ℕ
      → Agent
      → Text
      → Option ℕ
      → Option ℕ
      → Exec (Store V) ServiceError (List MemoryMessage × Option ℕ)
  unfolding owned_conversation load_history create_message touch
  join_conversation settings user_id agent message none knowledge_base_id =
      pure ([], knowledge_base_id)
  join_conversation settings user_id agent message (some conversation_id) knowledge_base_id = do
    conversation ← (λ s. found_conversation (owned_conversation conversation_id user_id s) s)
    history ← load_history settings conversation
    step (λ s. (tt, touch conversation (create_message conversation.id "user" message s)))
    pure (history, base_of knowledge_base_id agent.knowledge_base_id conversation)

  abbrev pub check_configured : Settings → Exec (Store V) ServiceError (Unit {0})
  check_configured settings = if not settings.is_configured then raise unavailable else pure tt

module _ {V : Type 0} (o : Outside V) (env : Agent → Environment (World V)) (limit : ℕ)
    (settings : Settings) (trace_id : String) where
  -- The row of a run that is about to start, its state, and the store with the row.
  unfoldable pub prepare_run :
      ℕ
      → Agent
      → Text
      → Option ℕ
      → List MemoryMessage
      → Option ℕ
      → Store V
      → AgentRun × AgentState × Store V
  unfolding create_run first_state update_state
  prepare_run user_id agent message conversation_id history base s =
      let state = first_state user_id agent trace_id conversation_id base history message in
      let (run, s') = create_run user_id agent conversation_id base message state s in
      let first = record state { agent_run_id = some run.id } in
      let (run', s'') =
        update_state run
          (record {
            status = AgentStatus.running;
            state = first;
            step_count = 0;
            error_code = none;
            error_message = none;
          })
          s' in
      (run', first, s'')

  -- The part of `run` from the row of the run on.
  unfoldable pub start_run :
      ℕ
      → Agent
      → Text
      → Option ℕ
      → List MemoryMessage
      → Option ℕ
      → Exec (Store V) ServiceError AgentRunResponse
  unfolding prepare_run finish_run
  start_run user_id agent message conversation_id history base s =
      let p = prepare_run user_id agent message conversation_id history base s in
      finish_run o env limit settings user_id agent p.0 p.1 p.2

  -- `run`
  unfoldable pub run_agent :
      ℕ → ℕ → Text → Option ℕ → Option ℕ → Exec (Store V) ServiceError AgentRunResponse
  unfolding get join_conversation start_run
  run_agent user_id agent_id message conversation_id knowledge_base_id = do
    agent ← get user_id agent_id
    check_configured settings
    joined ← join_conversation settings user_id agent message conversation_id knowledge_base_id
    start_run user_id agent message conversation_id joined.0
        (first_of joined.1 agent.knowledge_base_id)
