-- ===== src/Agents/Runtime/Outcome.antt =====
-- What `run` returns, whatever the model, the tools and the clock do.
use ai_agent_hub.Common.{
  ℕ, ◌≤◌, max, ◌≡◌, refl, sym, subst, String, true, arith, Bool-cases, inl, inr, ◌==◌, string_eq,
  if◌then◌else◌, ◌⊎◌,
}
use ai_agent_hub.Common.Result.{Result, ok, err}
use ai_agent_hub.Agents.State.{AgentStatus, AgentState}
use ai_agent_hub.Agents.Contracts.{
  AgentRuntimeConfig, runtime_error, timed_out, unexpected, Environment,
}
use ai_agent_hub.Agents.Graph.{GraphError, node_error, recursion_limit, is_running, invoke}
use ai_agent_hub.Agents.Graph.Endings.{
  Ended, completed, failed, waiting, Extends, invoke-Ended, invoke-Extends,
}
use ai_agent_hub.Agents.Graph.Bounds.{step_count-invoke}
use ai_agent_hub.Agents.Runtime.{failure_state, prepare, failed_run, conclude, run}

-- A failure changes the status and the error of the prepared state, and nothing else.
pub record IsFailureOf (s t : AgentState) : Type 0 where
  pub code : String
  pub message : String
  pub status : AgentStatus
  pub ended : (status ≡ AgentStatus.failed) ⊎ (status ≡ AgentStatus.cancelled)
  pub same : t ≡ failure_state s code message status

failed_run-IsFailureOf : (s : AgentState) (e : GraphError) → IsFailureOf s (failed_run s e)
unfolding failed_run
failed_run-IsFailureOf s (node_error timed_out) = record {
  code = _;
  message = _;
  status = AgentStatus.failed;
  ended = inl refl;
  same = refl;
}
failed_run-IsFailureOf s (node_error (runtime_error e)) = record {
  code = e.code;
  message = e.message;
  status = if e.code == "AGENT_CANCELLED" then AgentStatus.cancelled else AgentStatus.failed;
  ended = elim (Bool-cases (e.code == "AGENT_CANCELLED")) [
    | inl stopped ↦ rw stopped (inr refl)
    | inr other ↦ rw other (inl refl)
  ];
  same = refl;
}
failed_run-IsFailureOf s (node_error unexpected) = record {
  code = _;
  message = _;
  status = AgentStatus.failed;
  ended = inl refl;
  same = refl;
}
failed_run-IsFailureOf s recursion_limit = record {
  code = _;
  message = _;
  status = AgentStatus.failed;
  ended = inl refl;
  same = refl;
}

completed_run-eq :
    (t : AgentState)
    → Ended t
    → (if is_running t.status then record t { status = AgentStatus.completed } else t) ≡ t
completed_run-eq t (completed p) = rw p refl
completed_run-eq t (failed p q) = rw p refl
completed_run-eq t (waiting p q) = rw p refl

module _ {W : Type 0} (env : Environment W) (config : AgentRuntimeConfig) (limit : ℕ) where
  -- How a run may end: with what the graph returned, or as a failure.
  pub data Outcome (initial : AgentState) (w : W) (t : AgentState) : Type 0 where
    returned :
        (invoke env config limit (prepare config initial) w).0 ≡ ok t
        → Ended t
        → Extends (prepare config initial) t
        → Outcome initial w t
    failure : IsFailureOf (prepare config initial) t → Outcome initial w t

  -- A run returns the state of the graph, which has ended, with the messages and tool results of
  -- the run added to the first ones; or, when anything was raised, the prepared first state with
  -- the status `failed` or `cancelled` and an error, and nothing else changed.
  pub run-Outcome :
      (initial : AgentState) (w : W) → Outcome initial w (run env config limit initial w).0
  unfolding run
  run-Outcome initial w = elim (Bool-cases (env.is_cancelled w)) [
    | inl stopped ↦ rw stopped (
        failure (record {
          code = "AGENT_CANCELLED";
          message = "Agent run was cancelled";
          status = AgentStatus.cancelled;
          ended = inr refl;
          same = refl;
        }))
    | inr going ↦ rw going (concluded (invoke env config limit (prepare config initial) w).0 refl)
  ]
    where
      concluded :
          (r : Result GraphError AgentState)
          → (invoke env config limit (prepare config initial) w).0 ≡ r
          → Outcome initial w (conclude (prepare config initial) r)
      concluded (err e) h = failure (failed_run-IsFailureOf (prepare config initial) e)
      concluded (ok t) h =
          let ended = invoke-Ended env config limit (prepare config initial) w h in
          subst (Outcome initial w) (sym (completed_run-eq t ended))
            (returned h ended (invoke-Extends env config limit (prepare config initial) w h))

  -- A run makes at most `max_steps` decisions, those made before it counted.
  pub step_count-run :
      (initial : AgentState) (w : W)
      → (run env config limit initial w).0.step_count ≤ max config.max_steps initial.step_count
  step_count-run initial w = bounded (run env config limit initial w).0 (run-Outcome initial w)
    where
      bounded :
          (t : AgentState)
          → Outcome initial w t
          → t.step_count ≤ max config.max_steps initial.step_count
      bounded t (returned h ended x) =
          unfold prepare in step_count-invoke env config limit (prepare config initial) w h
      bounded t (failure f) = rw f.same (unfold prepare failure_state in omega arith)

  -- A run that is cancelled before it starts is recorded as cancelled, and calls neither the model
  -- nor a tool: the world is as it was.
  pub run_cancelled :
      (initial : AgentState) (w : W)
      → env.is_cancelled w ≡ true
      → run env config limit initial w ≡ (
        failure_state
            (prepare config initial)
            "AGENT_CANCELLED"
            "Agent run was cancelled"
            AgentStatus.cancelled,
        w,
      )
  unfolding run
  run_cancelled initial w h = rw h refl
