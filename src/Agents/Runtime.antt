-- ===== src/Agents/Runtime.antt =====
-- backend/app/agents/runtime.py: `AgentRuntime.run`.
-- The deadline of `asyncio.timeout` is `is_expired` of the environment, and a node that waits past
-- it raises `timed_out`. Logging is left out.
pub mod Outcome
mod Tests
use ai_agent_hub.Common.{
  ℕ, String, Bool, true, false, Option, none, some, ◌==◌, string_eq, if◌then◌else◌,
}
use ai_agent_hub.Common.Result.{Result, ok, err}
use ai_agent_hub.Agents.State.{AgentStatus, AgentState}
use ai_agent_hub.Agents.Contracts.{
  AgentRuntimeError, AgentRuntimeConfig, NodeError, runtime_error, timed_out, unexpected,
  Environment,
}
use ai_agent_hub.Agents.Graph.{GraphError, node_error, recursion_limit, is_running, invoke}

-- `_failure_state`
unfoldable pub failure_state : AgentState → String → String → AgentStatus → AgentState
failure_state s code message status = record s {
  status = status;
  error_code = some code;
  error_message = some message;
}

-- `state.setdefault("max_steps", …)`
abbrev pub set_default : Option ℕ → ℕ → Option ℕ
set_default none n = some n
set_default (some m) n = some m

-- The state that the graph starts from.
unfoldable pub prepare : AgentRuntimeConfig → AgentState → AgentState
prepare config s = record s {
  max_steps = set_default s.max_steps config.max_steps;
  status = AgentStatus.running;
}

-- The `except` clauses.
unfoldable pub failed_run : AgentState → GraphError → AgentState
unfolding failure_state
failed_run s (node_error timed_out) =
    failure_state s "AGENT_TIMEOUT" "Agent run timed out" AgentStatus.failed
failed_run s (node_error (runtime_error e)) =
    failure_state s e.code e.message
      (if e.code == "AGENT_CANCELLED" then AgentStatus.cancelled else AgentStatus.failed)
failed_run s (node_error unexpected) =
    failure_state s "AGENT_RUNTIME_FAILED" "Agent runtime failed" AgentStatus.failed
failed_run s recursion_limit =
    failure_state s "AGENT_RUNTIME_FAILED" "Agent runtime failed" AgentStatus.failed

-- What `run` makes of the state that the graph returns.
abbrev pub completed_run : AgentState → AgentState
completed_run s = if is_running s.status then record s { status = AgentStatus.completed } else s

-- The value of `run`, by how the graph ended.
unfoldable pub conclude : AgentState → Result GraphError AgentState → AgentState
unfolding failed_run
conclude s (ok t) = completed_run t
conclude s (err e) = failed_run s e

module _ {W : Type 0} (env : Environment W) (config : AgentRuntimeConfig) (limit : ℕ) where
  unfoldable pub run : AgentState → W → AgentState × W
  unfolding prepare conclude failure_state
  run initial w =
      let s = prepare config initial in
      if env.is_cancelled w
      then (failure_state s "AGENT_CANCELLED" "Agent run was cancelled" AgentStatus.cancelled, w)
      else (let (r, w') = invoke env config limit s w in (conclude s r, w'))
