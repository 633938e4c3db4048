-- ===== src/Agents/Runtime/Tests.antt =====
-- Runs of the agent over a small world: how often the model has been asked.
use ai_agent_hub.Common.{
  ℕ, ◌+◌, ◌≤◌, ◌≡◌, refl, ◌≢◌, Bool, true, false, Option, none, some, [], arith, ltb, if◌then◌else◌,
}
use ai_agent_hub.Common.Result.{ok, err}
use ai_agent_hub.Common.Exec.{Exec, pure}
use ai_agent_hub.Common.Text.{codes}
use ai_agent_hub.Agents.State.{AgentStatus, ToolCallStatus, Json, ToolCallState, AgentState}
use ai_agent_hub.Agents.Samples.{first}
use ai_agent_hub.Agents.Contracts.{
  AgentRuntimeConfig, AgentDecision, ToolExecutionResult, NodeError, Environment,
}
use ai_agent_hub.Agents.Graph.{recursion_limit, invoke}
use ai_agent_hub.Agents.Graph.Bounds.{invoke-ne-recursion_limit, step_count-invoke}
use ai_agent_hub.Agents.Graph.Endings.{Ended, invoke-Ended}
use ai_agent_hub.Agents.Runtime.{run}
use ai_agent_hub.Agents.Runtime.Outcome.{Outcome, run-Outcome, step_count-run}

abbrev call : ToolCallState
call = record {
  call_id = some "c1";
  name = some "calculator";
  arguments = Json.null;
  status = ToolCallStatus.pending;
  result = none;
  error = none;
}

-- Asks for the tool so often, then answers.
decide : ℕ → AgentState → Exec ℕ NodeError (Option AgentDecision)
decide times s asked = (
  ok (
      some (
        if ltb asked times
        then record { assistant_message = none; tool_call = some call; done = false; metadata = [] }
        else record {
          assistant_message = some (record { role = "assistant"; content = codes "4" });
          tool_call = none;
          done = true;
          metadata = [];
        })),
  asked + 1,
)

execute : Bool → ToolCallState → AgentState → Exec ℕ NodeError ToolExecutionResult
execute dangerous c s = pure (record {
  result = Json.null;
  error_code = none;
  error_message = none;
  approval_required = dangerous;
  approval_message = none;
})

abbrev env : ℕ → Bool → Environment ℕ
env times dangerous = record {
  decide = decide times;
  execute = execute dangerous;
  is_cancelled = λ w. false;
  is_expired = λ w. false;
}

abbrev config : AgentRuntimeConfig
config = record { max_steps = 20; timeout_seconds = 60 }

program : Unit {0}
unfolding run invoke decide execute
program = tt

run_answers : (run (env 1 false) config 25 first 0).0.status ≡ AgentStatus.completed
unfolding program
run_answers = refl

run_waits : (run (env 1 true) config 25 first 0).0.status ≡ AgentStatus.waiting_approval
unfolding program
run_waits = refl

run_too_long : (run (env 30 false) config 42 first 0).0.error_code ≡ some "MAX_STEPS_EXCEEDED"
unfolding program
run_too_long = refl

-- With a limit of 25 nodes the twenty steps that the configuration allows are not reached.
run_limited : (run (env 30 false) config 25 first 0).0.error_code ≡ some "AGENT_RUNTIME_FAILED"
unfolding program
run_limited = refl

abbrev final : AgentState
unfolding program
final = (run (env 1 false) config 25 first 0).0

returns : (invoke (env 1 false) config 25 first 0).0 ≡ ok final
unfolding program
returns = refl

invoke-ne-recursion_limit_example :
    (invoke (env 30 false) config 42 first 0).0 ≢ err recursion_limit
invoke-ne-recursion_limit_example =
    invoke-ne-recursion_limit (env 30 false) config 42 first 0 (omega arith)

step_count-invoke_example : final.step_count ≤ 20
unfolding program
step_count-invoke_example = step_count-invoke (env 1 false) config 25 first 0 returns

invoke-Ended_example : Ended final
unfolding program
invoke-Ended_example = invoke-Ended (env 1 false) config 25 first 0 returns

run-Outcome_example : Outcome (env 1 true) config 25 first 0 (run (env 1 true) config 25 first 0).0
run-Outcome_example = run-Outcome (env 1 true) config 25 first 0

bounded_run : (run (env 30 false) config 25 first 0).0.step_count ≤ 20
bounded_run = step_count-run (env 30 false) config 25 first 0

abbrev stopped : Environment ℕ
stopped = record {
  decide = decide 1;
  execute = execute false;
  is_cancelled = λ w. true;
  is_expired = λ w. false;
}
