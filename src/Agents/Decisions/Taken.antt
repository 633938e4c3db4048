-- ===== src/Agents/Decisions/Taken.antt =====
-- backend/app/agents/llm_handler.py with graph.py: the agent node over the decision handler.
use ai_agent_hub.Common.{
  ◌≡◌, refl, String, true, false, Bool-cases, inl, inr, ap, Option, some, leb, ◌==◌, ==-eq,
  string_eq,
}
use ai_agent_hub.Common.Exec.{Exec, pure, continue_with, ◌>>=◌, ◌>>◌}
use ai_agent_hub.Common.Result.{Result, ok, err}
use ai_agent_hub.Common.Strings.{string_empty}
use ai_agent_hub.Common.Text.{Text}
use ai_agent_hub.Agents.State.{AgentState}
use ai_agent_hub.Agents.Contracts.{AgentRuntimeConfig, AgentDecision, Environment, NodeError}
use ai_agent_hub.Agents.Graph.{
  agent_node, after_decision, as_decision, validate_tool_call, check_cancelled, truthy,
}
use ai_agent_hub.Services.Chat.{LlmFailure}
use ai_agent_hub.Agents.Decisions.{LlmDecisionHandler, DecisionBackends, ask, decide}
use ai_agent_hub.Agents.Decisions.Decided.{
  Decided, llm_failed, llm_broke, invalid, unreadable, broken, answered, called, decide-Decided,
}

module _ {W : Type 0} (b : DecisionBackends W) (self : LlmDecisionHandler) (env : Environment W)
    (config : AgentRuntimeConfig) where
  -- `str(uuid4())` is not empty.
  abbrev pub HasIds : Type 0
  HasIds = (w : W) → string_empty (b.new_call_id w).0 ≡ false

  -- The environment that decides by the handler.
  abbrev pub deciding : Environment W
  deciding = record env { decide = decide b self }

  -- The node fails as the handler does, and takes any decision of it.
  pub data Taken (s : AgentState) (decided : Result NodeError (Option AgentDecision) × W)
      : Result NodeError AgentState × W → Type 0 where
    raised : (e : NodeError) → decided.0 ≡ err e → Taken s decided (err e, decided.1)
    updated :
        (d : AgentDecision)
        → decided.0 ≡ ok (some d)
        → Taken s decided (ok (after_decision s d), decided.1)

  present : (text : String) → string_empty text ≡ false → truthy (some text) ≡ true
  present text e = elim (Bool-cases (text == "")) [
    | inl same ↦
        let empty : string_empty text ≡ true = ap (λ t. string_empty t) (==-eq text "" same) in cc
    | inr other ↦ rw other refl
  ]

  -- The rest of the agent node, after the decision.
  abbrev takes : AgentState → Option AgentDecision → Exec W NodeError AgentState
  takes s answer = as_decision deciding config answer >>= λ d.
      validate_tool_call deciding config d.tool_call >> pure (after_decision s d)

  takes-Taken :
      (s : AgentState) (p : Result LlmFailure Text × W)
      (q : Result NodeError (Option AgentDecision) × W)
      → HasIds
      → Decided b self p q
      → Taken s q (continue_with (takes s) q)
  unfolding validate_tool_call
  takes-Taken s p _ ids (llm_failed message e) = raised _ refl
  takes-Taken s p _ ids (llm_broke e) = raised _ refl
  takes-Taken s p _ ids (invalid content message e malformed) = raised _ refl
  takes-Taken s p _ ids (unreadable content e broke) = raised _ refl
  takes-Taken s p _ ids (broken content parsed e read action) = raised _ refl
  takes-Taken s p _ ids (answered content parsed answer e read action el text) = updated _ refl
  takes-Taken s p _ ids (called content parsed name arguments e read action en text ea) =
      rw (present name text, present _ (ids p.1)) (updated _ refl)

  -- Where ids are not empty, the agent node fails on a decision of the handler only as the handler
  -- itself has failed: while the run is not cancelled and has steps left, it takes every decision that
  -- the handler returns into the state.
  pub agent_node-Taken :
      (s : AgentState) (w : W)
      → HasIds
      → env.is_cancelled w ≡ false
      → leb config.max_steps s.step_count ≡ false
      → Taken s (decide b self s w) (agent_node deciding config s w)
  unfolding agent_node check_cancelled
  agent_node-Taken s w ids runs below =
      rw (runs, below) (takes-Taken s (ask b self s w) _ ids (decide-Decided b self s w))
