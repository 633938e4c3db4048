-- ===== src/Services/Agents/Lifecycle/Listing.antt =====
-- backend/app/services/agents.py: `get_run` and `list_runs`. The newest run stands first.
use ai_agent_hub.Common.{ℕ, ◌&&◌, List, [], ◌∷◌, ◌==◌, nat_eq, filter}
use ai_agent_hub.Common.Exec.{Exec, pure, ◌>>=◌}
use ai_agent_hub.Services.Store.{AgentRun, Store, ServiceError}
use ai_agent_hub.Services.Agents.{get, get_owned_run}
use ai_agent_hub.Services.Agents.Lifecycle.Settling.{AgentRunResponse, run_response}

module _ {V : Type 0} where
  unfoldable pub get_run : ℕ → ℕ → ℕ → Exec (Store V) ServiceError AgentRunResponse
  unfolding get_owned_run run_response
  get_run user_id agent_id run_id = do
    (run, agent) ← get_owned_run user_id agent_id run_id
    run_response run

  unfoldable pub list_for_agent : ℕ → ℕ → Store V → List AgentRun
  unfolding filter
  list_for_agent agent_id user_id s =
      filter (λ r. (r.agent_id == agent_id) && (r.user_id == user_id)) s.runs

  unfoldable pub run_responses : List AgentRun → Exec (Store V) ServiceError (List AgentRunResponse)
  unfolding run_response
  run_responses [] = pure []
  run_responses (run ∷ runs) = do
    response ← run_response run
    responses ← run_responses runs
    pure (response ∷ responses)

  unfoldable pub list_runs : ℕ → ℕ → Exec (Store V) ServiceError (List AgentRunResponse)
  unfolding get list_for_agent run_responses
  list_runs user_id agent_id = do
    agent ← get user_id agent_id
    (λ s. run_responses (list_for_agent agent_id user_id s) s)
