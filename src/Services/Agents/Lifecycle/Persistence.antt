-- ===== src/Services/Agents/Lifecycle/Persistence.antt =====
-- What the end of a run leaves in the store.
use ai_agent_hub.Common.{
  ℕ, ◌+◌, ◌≡◌, refl, Bool, true, false, Option, none, some, ◌∷◌, nat_eq, ==_refl, if◌then◌else◌,
  Bool-cases, inl, inr, List, ◌==◌, find, change, find-change, ap, ◌∙◌,
}
use ai_agent_hub.Common.Result.{Result, ok}
use ai_agent_hub.Common.Text.{Text, is_blank}
use ai_agent_hub.Agents.State.{AgentStatus, ApprovalStatus, ApprovalRequest, AgentState}
use ai_agent_hub.Tools.Registry.{string_or_empty}
use ai_agent_hub.Services.Store.{
  AgentRun, AgentApproval, RunUpdate, Conversation, Store, ServiceError, updated_run,
  approval_for_run, create_approval, update_state, touch, create_message,
}
use ai_agent_hub.Services.Agents.{
  Settings, is_waiting, is_completed, answer_of, object_or_empty, final_update,
}
use ai_agent_hub.Services.Agents.Lifecycle.Settling.{
  AgentRunResponse, incomplete, with_approval, request_approval, with_request, save_answer,
  touch_owned, store_state, persist, run_response,
}

waiting-not_completed :
    (status : AgentStatus) → is_waiting status ≡ true → is_completed status ≡ false
waiting-not_completed AgentStatus.waiting_approval h = refl
waiting-not_completed AgentStatus.pending h = refl
waiting-not_completed AgentStatus.running h = refl
waiting-not_completed AgentStatus.completed h = cc
waiting-not_completed AgentStatus.failed h = refl
waiting-not_completed AgentStatus.cancelled h = refl

pub is_waiting-eq :
    (status : AgentStatus) → is_waiting status ≡ true → status ≡ AgentStatus.waiting_approval
is_waiting-eq AgentStatus.waiting_approval h = refl
is_waiting-eq AgentStatus.pending h = cc
is_waiting-eq AgentStatus.running h = cc
is_waiting-eq AgentStatus.completed h = cc
is_waiting-eq AgentStatus.failed h = cc
is_waiting-eq AgentStatus.cancelled h = cc

module _ {V : Type 0} where
  touch_owned-approvals :
      (c : Option Conversation) (s : Store V) → (touch_owned c s).approvals ≡ s.approvals
  unfolding touch
  touch_owned-approvals none s = refl
  touch_owned-approvals (some c) s = refl

  save_answer-approvals :
      (user_id : ℕ) (conversation : Option ℕ) (answer : Option Text) (s : Store V)
      → (save_answer user_id conversation answer s).approvals ≡ s.approvals
  unfolding create_message
  save_answer-approvals user_id none answer s = refl
  save_answer-approvals user_id (some c) none s = refl
  save_answer-approvals user_id (some c) (some answer) s = elim (Bool-cases (is_blank answer)) [
    | inl blank ↦ rw blank refl
    | inr said ↦ rw said (touch_owned-approvals _ _)
  ]

module _ {V : Type 0} where
  touch_owned-runs : (c : Option Conversation) (s : Store V) → (touch_owned c s).runs ≡ s.runs
  unfolding touch
  touch_owned-runs none s = refl
  touch_owned-runs (some c) s = refl

  save_answer-runs :
      (user_id : ℕ) (conversation : Option ℕ) (answer : Option Text) (s : Store V)
      → (save_answer user_id conversation answer s).runs ≡ s.runs
  unfolding create_message
  save_answer-runs user_id none answer s = refl
  save_answer-runs user_id (some c) none s = refl
  save_answer-runs user_id (some c) (some answer) s = elim (Bool-cases (is_blank answer)) [
    | inl blank ↦ rw blank refl
    | inr said ↦ rw said (touch_owned-runs _ _)
  ]

module _ {V : Type 0} (settings : Settings) (user_id : ℕ) (run : AgentRun) (final : AgentState)
    (s : Store V) where
  -- The approval that a request of the final state opens.
  abbrev opened : ApprovalRequest → AgentApproval
  opened request = record {
    id = s.next_id;
    agent_run_id = run.id;
    call_id = string_or_empty request.tool_call_id;
    tool_name = string_or_empty request.tool_name;
    arguments = object_or_empty request.arguments;
    status = ApprovalStatus.pending;
    expires_at = s.now + settings.agent_approval_timeout_seconds;
    decided_at = none;
  }

  -- The rows of the runs, with another row for the run.
  abbrev pub replaced : AgentRun → List AgentRun
  replaced row = change (λ r. r.id == run.id) (λ r. row) s.runs

  -- The ways in which a final state is stored.
  pub data Persisted (p : Result ServiceError AgentRunResponse × Store V) : Type 0 where
    -- A state that waits, with its request: an open approval of the call.
    parked :
        (request : ApprovalRequest) (r : AgentRunResponse)
        → is_waiting final.status ≡ true
        → final.approval_request ≡ some request
        → p.0 ≡ ok r
        → r.run
          ≡ updated_run s.now (final_update (with_approval final request (opened request))) run
        → r.run.status ≡ AgentStatus.waiting_approval
        → p.1.runs ≡ replaced r.run
        → r.approval ≡ some (opened request)
        → p.1.approvals ≡ opened request ∷ s.approvals
        → Persisted p
    -- A state that waits without a request: a failed run.
    lost :
        (r : AgentRunResponse)
        → is_waiting final.status ≡ true
        → final.approval_request ≡ none
        → p.0 ≡ ok r
        → r.run ≡ updated_run s.now (final_update (incomplete final)) run
        → r.run.status ≡ AgentStatus.failed
        → p.1.runs ≡ replaced r.run
        → p.1.approvals ≡ s.approvals
        → Persisted p
    -- Any other state: the run as it is, and no approval.
    settled :
        (r : AgentRunResponse)
        → is_waiting final.status ≡ false
        → p.0 ≡ ok r
        → r.run ≡ updated_run s.now (final_update final) run
        → r.run.status ≡ final.status
        → p.1.runs ≡ replaced r.run
        → p.1.approvals ≡ s.approvals
        → Persisted p

  pub persist_cases : Persisted (persist settings user_id run final s)
  unfolding persist with_request
  persist_cases = elim (Bool-cases (is_waiting final.status)) [
    | inl waits ↦ rw waits (by_request waits final.approval_request refl)
    | inr done ↦ rw done (
        unfold store_state update_state run_response in
        settled _ done refl refl (unfold updated_run in refl) (rows (is_completed final.status))
          (stored (is_completed final.status)))
  ]
    where
      stored :
          (b : Bool)
          → (if b
              then save_answer user_id run.conversation_id
                  (answer_of final)
                  (update_state run (final_update final) s).1
              else (update_state run (final_update final) s).1).approvals
            ≡ s.approvals
      stored true = save_answer-approvals user_id run.conversation_id (answer_of final) _
      stored false = refl

      rows :
          (b : Bool)
          → (if b
              then save_answer user_id run.conversation_id
                  (answer_of final)
                  (update_state run (final_update final) s).1
              else (update_state run (final_update final) s).1).runs
            ≡ replaced (updated_run s.now (final_update final) run)
      rows true = save_answer-runs user_id run.conversation_id (answer_of final) _
      rows false = refl

      by_request :
          is_waiting final.status ≡ true
          → (request : Option ApprovalRequest) → final.approval_request ≡ request
          → Persisted (
              let (state, s') = request_approval settings run final request s in
              store_state user_id run state s')
      by_request waits none e =
          unfold store_state update_state run_response in
          lost _ waits e refl refl (unfold updated_run in refl) refl refl
      by_request waits (some request) e =
          unfold store_state update_state run_response create_approval in
          rw (waiting-not_completed final.status waits) (
            parked request _ waits e refl refl
              (unfold updated_run in is_waiting-eq final.status waits) refl
              (unfold approval_for_run find in rw (==_refl run.id) refl) refl)

  -- How the run is stored: the row of the answer is the one that is found under its id.
  pub data Stored (p : Result ServiceError AgentRunResponse × Store V) : Type 0 where
    stored_row :
        (r : AgentRunResponse)
        → Persisted p
        → p.0 ≡ ok r
        → find (λ row. row.id == run.id) p.1.runs ≡ some r.run
        → Stored p

  found_row :
      (old row : AgentRun) (u : RunUpdate) (rows : List AgentRun)
      → find (λ r. r.id == run.id) s.runs ≡ some old
      → row ≡ updated_run s.now u run
      → rows ≡ replaced row
      → find (λ r. r.id == run.id) rows ≡ some row
  unfolding updated_run
  found_row old row u rows found is_row replaces =
      ap (find (λ r. r.id == run.id)) replaces
      ∙ find-change (λ r. r.id == run.id) (λ r. row) s.runs old found (rw is_row (==_refl run.id))

  -- Storing the result of a run that has a row does not fail, and the row of the answer is then
  -- found under the run's id. A state that waits opens one approval, with the call of its request
  -- and the time limit of the settings, and the row waits; without a request the row is failed, and
  -- no approval is opened. Any other state is stored with its status and opens none.
  pub persist-Persisted :
      (old : AgentRun)
      → find (λ r. r.id == run.id) s.runs ≡ some old
      → Stored (persist settings user_id run final s)
  persist-Persisted old found = by_case persist_cases
    where
      by_case :
          Persisted (persist settings user_id run final s)
          → Stored (persist settings user_id run final s)
      by_case (parked request r w q e row status rows approval more) =
          stored_row r (parked request r w q e row status rows approval more) e
            (found_row old r.run _ _ found row rows)
      by_case (lost r w q e row status rows more) =
          stored_row r (lost r w q e row status rows more) e
            (found_row old r.run _ _ found row rows)
      by_case (settled r n e row status rows more) =
          stored_row r (settled r n e row status rows more) e
            (found_row old r.run _ _ found row rows)
