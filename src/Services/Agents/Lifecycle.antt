-- ===== src/Services/Agents/Lifecycle.antt =====
-- backend/app/services/agents.py: `approve`, `reject`, `resume`, and what they share.
pub mod Lookup
pub mod Settling
pub mod Authority
pub mod Listing
pub mod Persistence
pub mod Start
pub mod Finished
mod Tests
use ai_agent_hub.Common.{
  ℕ, ◌+◌, String, Bool, true, false, not, ◌&&◌, Option, none, some, List, [], ◌∷◌, ◌++◌, reverse,
  ◌==◌, nat_eq, string_eq, if◌then◌else◌, filter, is_empty,
}
use ai_agent_hub.Common.Exec.{Exec, pure, raise, ◌>>=◌, ◌>>◌}
use ai_agent_hub.Common.Text.{Text, strip, is_blank}
use ai_agent_hub.Agents.State.{AgentStatus, ApprovalStatus, Json, ApprovalRequest, AgentState}
use ai_agent_hub.Agents.Contracts.{AgentRuntimeConfig, Environment}
use ai_agent_hub.Agents.Runtime.{run as run_runtime}
use ai_agent_hub.Tools.Contracts.{ToolCallRecord, World, Outside}
use ai_agent_hub.Tools.Records.{StatusUpdate, update_status, get_for_run_call}
use ai_agent_hub.Tools.Registry.{string_or_empty}
use ai_agent_hub.Services.Store.{
  Agent, AgentRun, AgentApproval, Conversation, Store, ServiceError, app, RunUpdate,
  approval_for_run, owned_conversation, update_state, update_approval, create_approval,
  create_message, touch,
}
use ai_agent_hub.Services.Agents.{
  Settings, is_waiting, is_completed, is_expired, answer_of, object_or_empty, resumed,
  rejected_state, runtime_config, final_update, failed_call, get_owned_run, get_approval, step,
  on_world,
}
use ai_agent_hub.Services.Agents.Lifecycle.Settling.{
  AgentRunResponse, unavailable, run_response, persist, look_up, refuse, expire_approval,
}

module _ {V : Type 0} (o : Outside V) (env : Agent → Environment (World V)) (limit : ℕ)
    (settings : Settings) where
  -- `_execute_runtime`
  unfoldable pub execute_runtime : Agent → AgentState → Exec (Store V) ServiceError AgentState
  unfolding run_runtime
  execute_runtime agent state s =
      if not settings.is_configured
      then raise unavailable s
      else (let (final, w) = run_runtime (env agent) (runtime_config agent) limit state s.world in
          pure final (record s { world = w }))

  -- The last two statements of `run` and of `resume`.
  unfoldable pub finish_run :
      ℕ → Agent → AgentRun → AgentState → Exec (Store V) ServiceError AgentRunResponse
  unfolding execute_runtime persist
  finish_run user_id agent run state = do
    final ← execute_runtime agent state
    persist settings user_id run final

  -- The part of `resume` that runs the agent.
  unfoldable pub continue_run :
      ℕ → Agent → AgentRun → AgentApproval → Exec (Store V) ServiceError AgentRunResponse
  unfolding resumed update_state finish_run
  continue_run user_id agent run approval = do
    let state = resumed run.state approval
    run' ← step (
        update_state run (record {
          status = AgentStatus.running;
          state = state;
          step_count = run.step_count;
          error_code = none;
          error_message = none;
        }))
    finish_run user_id agent run' state

  -- The case of `resume` for each status.
  unfoldable pub resume_by :
      ℕ
      → Agent
      → AgentRun
      → AgentApproval
      → ApprovalStatus
      → Exec (Store V) ServiceError AgentRunResponse
  unfolding is_expired refuse run_response continue_run
  resume_by user_id agent run approval ApprovalStatus.pending s =
      if is_expired approval s.now
      then expire_approval o run approval s
      else raise (app "APPROVAL_REQUIRED" "Approve the pending tool call before resuming" 409) s
  resume_by user_id agent run approval ApprovalStatus.approved s =
      if not (is_waiting run.status)
      then run_response run s
      else continue_run user_id agent run approval s
  resume_by user_id agent run approval _ s = run_response run s

  -- `resume`
  unfoldable pub resume : ℕ → ℕ → ℕ → Exec (Store V) ServiceError AgentRunResponse
  unfolding look_up resume_by
  resume user_id agent_id run_id = do
    (run, agent, approval) ← look_up user_id agent_id run_id
    resume_by user_id agent run approval approval.status

  -- The case of `approve` for each status.
  unfoldable pub approve_by :
      ℕ
      → ℕ
      → ℕ
      → AgentRun
      → AgentApproval
      → ApprovalStatus
      → Exec (Store V) ServiceError AgentRunResponse
  unfolding is_expired refuse update_approval resume
  approve_by user_id agent_id run_id run approval ApprovalStatus.pending s =
      if is_expired approval s.now
      then expire_approval o run approval s
      else (do
        approved ← step (update_approval approval ApprovalStatus.approved)
        resume user_id agent_id run_id)
          s
  approve_by user_id agent_id run_id run approval ApprovalStatus.approved s =
      resume user_id agent_id run_id s
  approve_by user_id agent_id run_id run approval _ s =
      raise (app "APPROVAL_ALREADY_DECIDED" "Approval request was already decided" 409) s

  -- `approve`
  unfoldable pub approve : ℕ → ℕ → ℕ → Exec (Store V) ServiceError AgentRunResponse
  unfolding look_up approve_by
  approve user_id agent_id run_id = do
    (run, agent, approval) ← look_up user_id agent_id run_id
    approve_by user_id agent_id run_id run approval approval.status
