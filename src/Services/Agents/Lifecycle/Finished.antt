-- ===== src/Services/Agents/Lifecycle/Finished.antt =====
-- How a run that the service starts or resumes is answered.
use ai_agent_hub.Common.{
  ℕ, ◌≡◌, ◌⊎◌, refl, sym, ap, subst, ◌∙◌, String, Bool, true, false, not, Option, some, List,
  if◌then◌else◌, inl, inr,
}
use ai_agent_hub.Common.Exec.{pure, raise, bind-eq-ok}
use ai_agent_hub.Common.Result.{ok}
use ai_agent_hub.Common.Text.{Text}
use ai_agent_hub.Agents.State.{AgentStatus, ApprovalStatus, AgentState}
use ai_agent_hub.Agents.Contracts.{AgentRuntimeConfig, Environment}
use ai_agent_hub.Agents.Graph.Endings.{completed, failed, waiting}
use ai_agent_hub.Agents.Runtime.{run as run_runtime, failure_state}
use ai_agent_hub.Agents.Runtime.Outcome.{IsFailureOf, Outcome, returned, failure, run-Outcome}
use ai_agent_hub.Memory.ShortTerm.{MemoryMessage}
use ai_agent_hub.Tools.Contracts.{World, Outside}
use ai_agent_hub.Services.Store.{Agent, AgentRun, AgentApproval, Store, updated_run}
use ai_agent_hub.Services.Agents.{Settings, get, is_waiting, runtime_config}
use ai_agent_hub.Services.Agents.Lifecycle.{execute_runtime, finish_run}
use ai_agent_hub.Services.Agents.Lifecycle.Settling.{AgentRunResponse, unavailable, persist}
use ai_agent_hub.Services.Agents.Lifecycle.Persistence.{
  Persisted, parked, lost, settled, persist_cases,
}
use ai_agent_hub.Services.Agents.Lifecycle.Start.{
  check_configured, join_conversation, first_of, prepare_run, start_run, run_agent,
}

-- A status that no step of the agent leaves.
pub data IsOver : AgentStatus → Type 0 where
  completes : IsOver AgentStatus.completed
  fails : IsOver AgentStatus.failed
  cancels : IsOver AgentStatus.cancelled

failure-status : (s t : AgentState) (f : IsFailureOf s t) → t.status ≡ f.status
unfolding failure_state
failure-status s t f = ap (λ u. u.status) f.same

module _ {W : Type 0} (env : Environment W) (config : AgentRuntimeConfig) (limit : ℕ) where
  run-IsOver :
      (initial : AgentState) (w : W)
      → (is_waiting (run_runtime env config limit initial w).0.status ≡ true)
        ⊎ IsOver (run_runtime env config limit initial w).0.status
  run-IsOver initial w = over _ (run-Outcome env config limit initial w)
    where
      over :
          (t : AgentState)
          → Outcome env config limit initial w t
          → (is_waiting t.status ≡ true) ⊎ IsOver t.status
      over t (returned e (completed p) x) = inr (subst IsOver (sym p) completes)
      over t (returned e (failed p c) x) = inr (subst IsOver (sym p) fails)
      over t (returned e (waiting p q) x) = inl (rw p refl)
      over t (failure f) = elim f.ended [
        | inl p ↦ inr (subst IsOver (sym (failure-status _ t f ∙ p)) fails)
        | inr p ↦ inr (subst IsOver (sym (failure-status _ t f ∙ p)) cancels)
      ]

-- The answer to a run: it is over, or it waits and its newest approval is open and its own.
pub data Finished (r : AgentRunResponse) : Type 0 where
  over : IsOver r.run.status → Finished r
  waits :
      (a : AgentApproval)
      → is_waiting r.run.status ≡ true
      → r.approval ≡ some a
      → a.status ≡ ApprovalStatus.pending
      → a.agent_run_id ≡ r.run.id
      → Finished r

module _ {V : Type 0} (o : Outside V) (env : Agent → Environment (World V)) (limit : ℕ)
    (settings : Settings) where
  persist-Finished :
      (user_id : ℕ) (run : AgentRun) (final : AgentState) (s : Store V) (r : AgentRunResponse)
      → (is_waiting final.status ≡ true) ⊎ IsOver final.status
      → (persist settings user_id run final s).0 ≡ ok r
      → Finished r
  persist-Finished user_id run final s r h e = by_case (persist_cases settings user_id run final s)
    where
      by_case :
          Persisted settings user_id run final s (persist settings user_id run final s) → Finished r
      by_case (parked request r' w q e' row status rows approval more) =
          let same : r' ≡ r = cc in
          subst Finished same (
            waits _ (rw row (unfold updated_run in w)) approval refl
              (rw row (unfold updated_run in refl)))
      by_case (lost r' w q e' row status rows more) =
          let same : r' ≡ r = cc in
          subst Finished same (over (rw row (unfold updated_run in fails)))
      by_case (settled r' n e' row status rows more) =
          let same : r' ≡ r = cc in
          subst Finished same (over (rw row (unfold updated_run in not_waiting h)))
        where
          not_waiting : (is_waiting final.status ≡ true) ⊎ IsOver final.status → IsOver final.status
          not_waiting (inl w) = absurd (cc)
          not_waiting (inr v) = v

  execute_runtime-IsOver :
      (agent : Agent) (state : AgentState) (s s' : Store V) (final : AgentState)
      → execute_runtime o env limit settings agent state s ≡ (ok final, s')
      → (is_waiting final.status ≡ true) ⊎ IsOver final.status
  unfolding execute_runtime
  execute_runtime-IsOver agent state s s' final e = by_test settings.is_configured e
    where
      by_test :
          (b : Bool)
          → (if not b
              then raise unavailable s
              else (let (t, w) =
                    run_runtime (env agent) (runtime_config agent) limit state s.world in
                  pure t (record s { world = w })))
            ≡ (ok final, s')
          → (is_waiting final.status ≡ true) ⊎ IsOver final.status
      by_test false e = cc
      by_test true e =
          let same : (run_runtime (env agent) (runtime_config agent) limit state s.world).0
              ≡ final =
            cc in
          subst (λ (t : AgentState). (is_waiting t.status ≡ true) ⊎ IsOver t.status) same
            (run-IsOver (env agent) (runtime_config agent) limit state s.world)

  finish_run-Finished :
      (user_id : ℕ) (agent : Agent) (run : AgentRun) (state : AgentState) (s : Store V)
      (r : AgentRunResponse)
      → (finish_run o env limit settings user_id agent run state s).0 ≡ ok r
      → Finished r
  unfolding finish_run
  finish_run-Finished user_id agent run state s r h =
      let (final, s', e, h') =
        bind-eq-ok (execute_runtime o env limit settings agent state) _ s h in
      persist-Finished user_id run final s' r (execute_runtime-IsOver agent state s s' final e) h'

  start_run-Finished :
      (trace_id : String) (user_id : ℕ) (agent : Agent) (message : Text)
      (conversation_id : Option ℕ) (history : List MemoryMessage) (base : Option ℕ) (s : Store V)
      (r : AgentRunResponse)
      → (start_run o env limit settings trace_id user_id agent message conversation_id history base
          s).0
        ≡ ok r
      → Finished r
  unfolding start_run
  start_run-Finished trace_id user_id agent message conversation_id history base s r h =
      let p =
        prepare_run o env limit settings trace_id user_id agent message conversation_id history base
          s in
      finish_run-Finished user_id agent p.0 p.1 p.2 r h

  -- A run that is answered is over, completed, failed or cancelled; or it waits, and its newest
  -- approval is open and belongs to it. No answer shows a run that is pending or running.
  pub run_agent-Finished :
      (trace_id : String) (user_id agent_id : ℕ) (message : Text)
      (conversation_id knowledge_base_id : Option ℕ) (s : Store V) (r : AgentRunResponse)
      → (run_agent o env limit settings trace_id user_id agent_id message conversation_id
          knowledge_base_id s).0
        ≡ ok r
      → Finished r
  unfolding run_agent
  run_agent-Finished trace_id user_id agent_id message conversation_id knowledge_base_id s r h =
      let (agent, s1, _, h1) = bind-eq-ok (get user_id agent_id) _ s h in
      let (_, s2, _, h2) = bind-eq-ok (check_configured settings) _ s1 h1 in
      let (joined, s3, _, h3) =
        bind-eq-ok
          (join_conversation settings user_id agent message conversation_id knowledge_base_id) _ s2
          h2 in
      start_run-Finished trace_id user_id agent message conversation_id joined.0
        (first_of joined.1 agent.knowledge_base_id) s3 r h3
