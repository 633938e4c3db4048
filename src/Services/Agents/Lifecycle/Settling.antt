-- ===== src/Services/Agents/Lifecycle/Settling.antt =====
-- backend/app/services/agents.py: the result of a run, the answer to a request, and `reject`.
use ai_agent_hub.Common.{
  ℕ, ◌+◌, String, Option, none, some, List, reverse, ◌==◌, nat_eq, string_eq, if◌then◌else◌, filter,
}
use ai_agent_hub.Common.Exec.{Exec, pure, raise, ◌>>=◌, ◌>>◌}
use ai_agent_hub.Common.Text.{Text, strip, is_blank}
use ai_agent_hub.Agents.State.{AgentStatus, ApprovalStatus, ApprovalRequest, AgentState}
use ai_agent_hub.Tools.Contracts.{ToolCallRecord, Outside}
use ai_agent_hub.Tools.Records.{update_status, get_for_run_call}
use ai_agent_hub.Tools.Registry.{string_or_empty}
use ai_agent_hub.Services.Store.{
  Agent, AgentRun, AgentApproval, Conversation, Store, ServiceError, app, approval_for_run,
  owned_conversation, update_state, update_approval, create_approval, create_message, touch,
}
use ai_agent_hub.Services.Agents.{
  Settings, is_waiting, is_completed, is_expired, answer_of, object_or_empty, rejected_state,
  final_update, failed_call, get_owned_run, get_approval, step, on_world,
}

-- `AgentRunResponse`: the row, with what `_run_response` adds.
pub record AgentRunResponse : Type 0 where
  pub run : AgentRun
  pub answer : Option Text
  pub tool_calls : List ToolCallRecord
  pub approval : Option AgentApproval

abbrev pub unavailable : ServiceError
unavailable = app "AGENT_RUNTIME_UNAVAILABLE" "Agent runtime dependencies are not configured" 503

abbrev pub incomplete : AgentState → AgentState
incomplete state = record state {
  status = AgentStatus.failed;
  error_code = some "APPROVAL_REQUEST_MISSING";
  error_message = some "Agent approval request was incomplete";
}

-- `datetime.now(UTC) + timedelta(…)`
abbrev pub expiry : {V : Type 0} → Settings → Store V → ℕ
expiry settings s = s.now + settings.agent_approval_timeout_seconds

abbrev pub with_approval : AgentState → ApprovalRequest → AgentApproval → AgentState
with_approval state request approval = record state {
  approval_request =
      some
        (record request { approval_id = some approval.id; expires_at = some approval.expires_at });
}

module _ {V : Type 0} where
  -- The newest row of the tool calls stands first; they are listed oldest first.
  unfoldable pub run_response : AgentRun → Exec (Store V) ServiceError AgentRunResponse
  unfolding answer_of approval_for_run
  run_response run s =
      pure
        (record {
          run = run;
          answer = answer_of run.state;
          tool_calls = reverse (filter (λ r. r.agent_run_id == run.id) s.world.records);
          approval = approval_for_run run.id s;
        })
        s

  -- The approval of a state that waits, and the state with its id and its expiry.
  abbrev pub request_approval :
      Settings → AgentRun → AgentState → Option ApprovalRequest → Store V → AgentState × Store V
  request_approval settings run state none s = (incomplete state, s)
  request_approval settings run state (some request) s =
      let (approval, s') =
        create_approval run.id (string_or_empty request.tool_call_id)
          (string_or_empty request.tool_name) (object_or_empty request.arguments)
          (expiry settings s) s in
      (with_approval state request approval, s')

  unfoldable pub with_request : Settings → AgentRun → AgentState → Store V → AgentState × Store V
  unfolding create_approval
  with_request settings run state s =
      if is_waiting state.status
      then request_approval settings run state state.approval_request s
      else (state, s)

  abbrev pub touch_owned : Option Conversation → Store V → Store V
  touch_owned none s = s
  touch_owned (some conversation) s = touch conversation s

  -- The message that a completed run leaves in its conversation.
  abbrev pub save_answer : ℕ → Option ℕ → Option Text → Store V → Store V
  save_answer user_id none answer s = s
  save_answer user_id (some conversation) none s = s
  save_answer user_id (some conversation) (some answer) s =
      if is_blank answer
      then s
      else (let s' = create_message conversation "assistant" (strip answer) s in
          touch_owned (owned_conversation conversation user_id s') s')

  -- The rest of `_persist_runtime_result`, for the state with its request.
  unfoldable pub store_state :
      ℕ → AgentRun → AgentState → Exec (Store V) ServiceError AgentRunResponse
  unfolding update_state answer_of touch owned_conversation create_message is_blank run_response
  store_state user_id run state = do
    run' ← step (update_state run (final_update state))
    step (λ s. (
      tt,
      if is_completed state.status
          then save_answer user_id run.conversation_id (answer_of state) s
          else s,
    ))
    run_response run'

  -- `_persist_runtime_result`
  unfoldable pub persist :
      Settings → ℕ → AgentRun → AgentState → Exec (Store V) ServiceError AgentRunResponse
  unfolding with_request store_state
  persist settings user_id run final = do
    state ← step (with_request settings run final)
    store_state user_id run state

  -- What `approve`, `reject` and `resume` begin with: the user's run and its newest approval.
  unfoldable pub look_up :
      ℕ → ℕ → ℕ → Exec (Store V) ServiceError (AgentRun × Agent × AgentApproval)
  unfolding get_owned_run get_approval
  look_up user_id agent_id run_id = do
    (run, agent) ← get_owned_run user_id agent_id run_id
    approval ← get_approval run
    pure (run, agent, approval)

module _ {V : Type 0} (o : Outside V) where
  abbrev pub fail_call : String → String → Option ℕ → Exec (Store V) ServiceError (Unit {0})
  fail_call error_code error_message none = pure tt
  fail_call error_code error_message (some id) =
      on_world (update_status o id (failed_call error_code error_message))

  -- `_finish_rejected_run`
  unfoldable pub finish_rejected_run :
      AgentRun → AgentApproval → String → String → Exec (Store V) ServiceError AgentRun
  unfolding get_for_run_call update_status update_state rejected_state
  finish_rejected_run run approval error_code error_message = do
    found ← on_world (get_for_run_call o run.id approval.call_id)
    fail_call error_code error_message found
    step (
        update_state run (record {
          status = AgentStatus.failed;
          state = rejected_state run.state approval.status error_code error_message;
          step_count = run.step_count;
          error_code = some error_code;
          error_message = some error_message;
        }))

  -- The end of a run whose approval is refused or has expired.
  unfoldable pub refuse :
      AgentRun
      → AgentApproval
      → ApprovalStatus
      → String
      → String
      → Exec (Store V) ServiceError AgentRunResponse
  unfolding update_approval finish_rejected_run run_response
  refuse run approval status error_code error_message = do
    approval' ← step (update_approval approval status)
    run' ← finish_rejected_run run approval' error_code error_message
    run_response run'

  -- `_expire_approval`
  abbrev pub expire_approval :
      AgentRun → AgentApproval → Exec (Store V) ServiceError AgentRunResponse
  expire_approval run approval =
      refuse run approval ApprovalStatus.expired "APPROVAL_EXPIRED" "Tool approval expired"

  -- The case of `reject` for each status.
  unfoldable pub reject_by :
      AgentRun → AgentApproval → ApprovalStatus → Exec (Store V) ServiceError AgentRunResponse
  unfolding is_expired refuse run_response
  reject_by run approval ApprovalStatus.pending s =
      if is_expired approval s.now
      then expire_approval run approval s
      else refuse run approval ApprovalStatus.rejected "APPROVAL_REJECTED"
          "Tool approval was rejected" s
  reject_by run approval ApprovalStatus.rejected s = run_response run s
  reject_by run approval _ s =
      raise (app "APPROVAL_ALREADY_DECIDED" "Approval request was already decided" 409) s

  -- `reject`
  unfoldable pub reject : ℕ → ℕ → ℕ → Exec (Store V) ServiceError AgentRunResponse
  unfolding look_up reject_by
  reject user_id agent_id run_id = do
    (run, agent, approval) ← look_up user_id agent_id run_id
    reject_by run approval approval.status
