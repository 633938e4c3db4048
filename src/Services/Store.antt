-- ===== src/Services/Store.antt =====
-- The rows of the tables (backend/app/models) and the statements on them (backend/app/repositories).
-- Statements succeed: what a service does when the database refuses one is not modelled here.
use ai_agent_hub.Common.{
  ℕ, ◌+◌, String, Bool, true, false, ◌&&◌, Option, none, some, List, [], ◌∷◌, ◌++◌, ◌==◌, nat_eq,
  if◌then◌else◌, find, change, filter, take_last,
}
use ai_agent_hub.Common.Text.{Text}
use ai_agent_hub.Agents.State.{AgentStatus, ApprovalStatus, Fields, AgentState}
use ai_agent_hub.Tools.Contracts.{World}

pub record Agent : Type 0 where
  pub id : ℕ
  pub user_id : ℕ
  pub knowledge_base_id : Option ℕ
  pub name : String
  pub description : Option String
  pub system_prompt : Option String
  pub model_name : String
  pub max_steps : ℕ
  pub timeout_seconds : ℕ
  pub tool_names : List String

-- The snapshot `state` is the agent's state; the keys that a first snapshot lacks have their
-- defaults.
pub record AgentRun : Type 0 where
  pub id : ℕ
  pub user_id : ℕ
  pub agent_id : ℕ
  pub conversation_id : Option ℕ
  pub knowledge_base_id : Option ℕ
  pub input_text : Text
  pub status : AgentStatus
  pub max_steps : ℕ
  pub timeout_seconds : ℕ
  pub step_count : ℕ
  pub state : AgentState
  pub error_code : Option String
  pub error_message : Option String
  pub started_at : Option ℕ
  pub finished_at : Option ℕ

pub record AgentApproval : Type 0 where
  pub id : ℕ
  pub agent_run_id : ℕ
  pub call_id : String
  pub tool_name : String
  pub arguments : Fields
  pub status : ApprovalStatus
  pub expires_at : ℕ
  pub decided_at : Option ℕ

pub record Conversation : Type 0 where
  pub id : ℕ
  pub user_id : ℕ
  pub knowledge_base_id : ℕ
  pub updated_at : ℕ

pub record Message : Type 0 where
  pub conversation_id : ℕ
  pub role : String
  pub content : Text

-- Runs and approvals stand newest first, messages oldest first. The world is what the runtime changes.
pub record Store (V : Type 0) : Type 0 where
  pub agents : List Agent
  pub runs : List AgentRun
  pub approvals : List AgentApproval
  pub conversations : List Conversation
  pub messages : List Message
  pub next_id : ℕ
  pub now : ℕ
  pub world : World V

pub record AppError : Type 0 where
  pub code : String
  pub message : String
  pub status_code : ℕ

-- An `AppError`, or an exception of the database.
pub data ServiceError : Type 0 where
  app_error : AppError → ServiceError
  unexpected : ServiceError

abbrev pub app : String → String → ℕ → ServiceError
app code message status_code =
    app_error (record { code = code; message = message; status_code = status_code })

-- The new values of `AgentRunRepository.update_state`.
pub record RunUpdate : Type 0 where
  pub status : AgentStatus
  pub state : AgentState
  pub step_count : ℕ
  pub error_code : Option String
  pub error_message : Option String

abbrev pub is_running : AgentStatus → Bool
is_running AgentStatus.running = true
is_running _ = false

-- `status in {COMPLETED, FAILED, CANCELLED}`
abbrev pub is_final : AgentStatus → Bool
is_final AgentStatus.completed = true
is_final AgentStatus.failed = true
is_final AgentStatus.cancelled = true
is_final _ = false

abbrev pub or_now : Option ℕ → ℕ → Option ℕ
or_now none now = some now
or_now (some t) now = some t

-- `AgentRunRepository.update_state`: the row that it leaves.
unfoldable pub updated_run : ℕ → RunUpdate → AgentRun → AgentRun
updated_run now u run = record run {
  status = u.status;
  state = u.state;
  step_count = u.step_count;
  error_code = u.error_code;
  error_message = u.error_message;
  started_at = if is_running u.status then or_now run.started_at now else run.started_at;
  finished_at = if is_final u.status then some now else run.finished_at;
}

-- `ApprovalRepository.update_status`: the row that it leaves.
unfoldable pub decided : ℕ → ApprovalStatus → AgentApproval → AgentApproval
decided now status approval = record approval { status = status; decided_at = some now }

module _ {V : Type 0} where
  -- `AgentRepository.get_owned`
  unfoldable pub owned_agent : ℕ → ℕ → Store V → Option Agent
  unfolding find
  owned_agent agent_id user_id s = find (λ a. (a.id == agent_id) && (a.user_id == user_id)) s.agents

  -- `AgentRunRepository.get_owned`
  unfoldable pub owned_run : ℕ → ℕ → Store V → Option AgentRun
  unfolding find
  owned_run run_id user_id s = find (λ r. (r.id == run_id) && (r.user_id == user_id)) s.runs

  -- `ApprovalRepository.get_for_run`: the newest approval of a run
  unfoldable pub approval_for_run : ℕ → Store V → Option AgentApproval
  unfolding find
  approval_for_run run_id s = find (λ a. a.agent_run_id == run_id) s.approvals

  -- `ConversationRepository.get_owned`
  unfoldable pub owned_conversation : ℕ → ℕ → Store V → Option Conversation
  unfolding find
  owned_conversation conversation_id user_id s =
      find (λ c. (c.id == conversation_id) && (c.user_id == user_id)) s.conversations

  -- `AgentRunRepository.update_state`
  unfoldable pub update_state : AgentRun → RunUpdate → Store V → AgentRun × Store V
  unfolding updated_run change
  update_state run u s =
      let run' = updated_run s.now u run in
      (run', record s { runs = change (λ r. r.id == run.id) (λ r. run') s.runs })

  -- `ApprovalRepository.update_status`
  unfoldable pub update_approval :
      AgentApproval → ApprovalStatus → Store V → AgentApproval × Store V
  unfolding decided change
  update_approval approval status s =
      let approval' = decided s.now status approval in
      (
        approval',
        record s { approvals = change (λ a. a.id == approval.id) (λ a. approval') s.approvals },
      )

  -- `ApprovalRepository.create`
  unfoldable pub create_approval :
      ℕ → String → String → Fields → ℕ → Store V → AgentApproval × Store V
  create_approval run_id call_id tool_name arguments expires_at s =
      let approval : AgentApproval = record {
        id = s.next_id;
        agent_run_id = run_id;
        call_id = call_id;
        tool_name = tool_name;
        arguments = arguments;
        status = ApprovalStatus.pending;
        expires_at = expires_at;
        decided_at = none;
      } in
      (approval, record s { approvals = approval ∷ s.approvals; next_id = s.next_id + 1 })

  -- `MessageRepository.create`
  unfoldable pub create_message : ℕ → String → Text → Store V → Store V
  create_message conversation_id role content s = record s {
    messages =
        s.messages
        ++ (record { conversation_id = conversation_id; role = role; content = content }) ∷ [];
  }

  -- `MessageRepository.list_for_conversation`
  unfoldable pub list_for_conversation : ℕ → ℕ → Store V → List Message
  unfolding filter
  list_for_conversation conversation_id limit s =
      take_last limit (filter (λ m. m.conversation_id == conversation_id) s.messages)

  -- `ConversationRepository.touch`
  unfoldable pub touch : Conversation → Store V → Store V
  unfolding change
  touch conversation s = record s {
    conversations =
        change (λ c. c.id == conversation.id) (λ c. record c { updated_at = s.now })
          s.conversations;
  }
