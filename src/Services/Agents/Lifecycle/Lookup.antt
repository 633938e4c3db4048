-- ===== src/Services/Agents/Lifecycle/Lookup.antt =====
-- What the checks of a request have found.
use ai_agent_hub.Common.{
  ℕ, ◌≡◌, refl, Option, none, some, ◌==◌, nat_eq, ==-eq, Bool-cases, inl, inr,
}
use ai_agent_hub.Common.Exec.{pure, ◌>>=◌, continue_with}
use ai_agent_hub.Common.Result.{Result, ok, err}
use ai_agent_hub.Services.Store.{
  Agent, AgentRun, AgentApproval, Store, ServiceError, owned_agent, owned_run, approval_for_run,
}
use ai_agent_hub.Services.Agents.{
  get, required_agent, run_of, get_owned_run, required, get_approval,
}
use ai_agent_hub.Services.Agents.Lifecycle.Settling.{look_up}

module _ {V : Type 0} where
  -- What the checks of a request have found: the agent and the run of the user, and the newest
  -- approval of the run.
  pub record Found (user_id agent_id run_id : ℕ) (s : Store V) : Type 0 where
    pub agent : Agent
    pub run : AgentRun
    pub approval : AgentApproval
    pub owned : owned_agent agent_id user_id s ≡ some agent
    pub owned_too : owned_run run_id user_id s ≡ some run
    pub of_agent : run.agent_id ≡ agent_id
    pub newest : approval_for_run run.id s ≡ some approval

  -- A look-up fails and changes nothing, or finds.
  pub data LookedUp (user_id agent_id run_id : ℕ) (s : Store V)
      (p : Result ServiceError (AgentRun × Agent × AgentApproval) × Store V) : Type 0 where
    missing : (e : ServiceError) → p ≡ (err e, s) → LookedUp user_id agent_id run_id s p
    found :
        (f : Found user_id agent_id run_id s)
        → p ≡ (ok (f.run, f.agent, f.approval), s)
        → LookedUp user_id agent_id run_id s p

  pub look_up-LookedUp :
      (user_id agent_id run_id : ℕ) (s : Store V)
      → LookedUp user_id agent_id run_id s (look_up user_id agent_id run_id s)
  unfolding look_up get_owned_run get get_approval
  look_up-LookedUp user_id agent_id run_id s = by_agent (owned_agent agent_id user_id s) refl
    where
      by_approval :
          (agent : Agent) (run : AgentRun) (approval : Option AgentApproval)
          → owned_agent agent_id user_id s ≡ some agent
          → owned_run run_id user_id s ≡ some run
          → run.agent_id ≡ agent_id
          → approval_for_run run.id s ≡ approval
          → LookedUp user_id agent_id run_id s
              (continue_with (λ a. pure (run, agent, a)) (required approval s))
      by_approval agent run none ea er same en = missing _ refl
      by_approval agent run (some approval) ea er same en =
          found
            (record {
              agent = agent;
              run = run;
              approval = approval;
              owned = ea;
              owned_too = er;
              of_agent = same;
              newest = en;
            })
            refl

      by_run :
          (agent : Agent) (run : Option AgentRun)
          → owned_agent agent_id user_id s ≡ some agent
          → owned_run run_id user_id s ≡ run
          → LookedUp user_id agent_id run_id s (
              continue_with
                (λ p. get_approval p.0 >>= λ a. pure (p.0, p.1, a))
                (run_of agent_id agent run s))
      by_run agent none ea er = missing _ refl
      by_run agent (some run) ea er = elim (Bool-cases (run.agent_id == agent_id)) [
        | inl same ↦ rw same (
            by_approval agent run (approval_for_run run.id s) ea er
              (==-eq run.agent_id agent_id same) refl)
        | inr other ↦ rw other (missing _ refl)
      ]

      by_agent :
          (agent : Option Agent)
          → owned_agent agent_id user_id s ≡ agent
          → LookedUp user_id agent_id run_id s (
              continue_with
                (λ p. get_approval p.0 >>= λ a. pure (p.0, p.1, a))
                (continue_with
                  (λ a s. run_of agent_id a (owned_run run_id user_id s) s)
                  (required_agent agent s)))
      by_agent none ea = missing _ refl
      by_agent (some agent) ea = by_run agent (owned_run run_id user_id s) ea refl
