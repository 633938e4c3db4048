-- ===== src/Services/Agents/Lifecycle/Tests.antt =====
-- A run that waits for the approval of a tool call: approved, rejected, too late, twice.
use ai_agent_hub.Common.{ℕ, ◌+◌, ◌≡◌, ◌⊎◌, refl, true, false, Option, none, some, [], ◌∷◌, String}
use ai_agent_hub.Common.Int.{pos}
use ai_agent_hub.Common.Exec.{Exec, pure}
use ai_agent_hub.Common.Result.{Result, ok, err}
use ai_agent_hub.Common.Text.{codes}
use ai_agent_hub.Agents.State.{
  AgentStatus, ToolCallStatus, ApprovalStatus, Json, Fields, ToolCallState, AgentState,
}
use ai_agent_hub.Agents.Samples.{first}
use ai_agent_hub.Agents.Graph.{invoke}
use ai_agent_hub.Agents.Contracts.{AgentDecision, ToolExecutionResult, NodeError, Environment}
use ai_agent_hub.Tools.Contracts.{World, Outside}
use ai_agent_hub.Services.Store.{Agent, AgentRun, Store, ServiceError}
use ai_agent_hub.Services.Agents.{Settings}
use ai_agent_hub.Services.Agents.Lifecycle.{approve, resume}
use ai_agent_hub.Services.Agents.Lifecycle.Settling.{AgentRunResponse, reject, persist}
use ai_agent_hub.Services.Agents.Lifecycle.Start.{run_agent}
use ai_agent_hub.Services.Agents.Lifecycle.Finished.{Finished, run_agent-Finished}
use ai_agent_hub.Services.Agents.Lifecycle.Persistence.{Stored, persist-Persisted}
use ai_agent_hub.Services.Agents.Lifecycle.Authority.{
  Approved, Approvable, resume-Approved, approve-Approvable,
}

abbrev call : ToolCallState
call = record {
  call_id = some "c1";
  name = some "sql_query";
  arguments = Json.obj Fields.end;
  status = ToolCallStatus.waiting_approval;
  result = none;
  error = none;
}

abbrev waiting : AgentRun
waiting = record {
  id = 3;
  user_id = 1;
  agent_id = 2;
  conversation_id = none;
  knowledge_base_id = none;
  input_text = codes "2 + 2?";
  status = AgentStatus.waiting_approval;
  max_steps = 20;
  timeout_seconds = 60;
  step_count = 1;
  state = record first {
    status = AgentStatus.waiting_approval;
    step_count = 1;
    pending_tool_call = some call;
  };
  error_code = none;
  error_message = none;
  started_at = some 1;
  finished_at = none;
}

abbrev agent : Agent
agent = record {
  id = 2;
  user_id = 1;
  knowledge_base_id = none;
  name = "helper";
  description = none;
  system_prompt = none;
  model_name = "model";
  max_steps = 20;
  timeout_seconds = 60;
  tool_names = "sql_query" ∷ [];
}

abbrev store : Store ℕ
store = record {
  agents = agent ∷ [];
  runs = waiting ∷ [];
  approvals =
      record {
        id = 5;
        agent_run_id = 3;
        call_id = "c1";
        tool_name = "sql_query";
        arguments = Fields.end;
        status = ApprovalStatus.pending;
        expires_at = 100;
        decided_at = none;
      }
      ∷ [];
  conversations = [];
  messages = [];
  next_id = 6;
  now = 50;
  world = record { records = []; next_id = 1; events = []; outside = 0 };
}

decide : AgentState → Exec (World ℕ) NodeError (Option AgentDecision)
decide s = pure (
    some (record {
      assistant_message = some (record { role = "assistant"; content = codes "4" });
      tool_call = none;
      done = true;
      metadata = [];
    }))

execute : ToolCallState → AgentState → Exec (World ℕ) NodeError ToolExecutionResult
execute c s w = (
  ok (record {
    result = Json.null;
    error_code = none;
    error_message = none;
    approval_required = false;
    approval_message = none;
  }),
  record w { outside = w.outside + 1 },
)

abbrev env : Agent → Environment (World ℕ)
env a = record {
  decide = decide;
  execute = execute;
  is_cancelled = λ w. false;
  is_expired = λ w. false;
}

abbrev outside : Outside ℕ
outside = record { now = λ v. 9; duration_ms = λ v. 5; is_down = λ v. false }

abbrev settings : Settings
settings = record {
  is_configured = true;
  agent_approval_timeout_seconds = 900;
  agent_history_max_messages = pos 8;
  agent_context_token_budget = pos 2000;
}

program : Unit {0}
unfolding approve reject resume decide execute invoke
program = tt

abbrev status_of :
    Result ServiceError AgentRunResponse × Store ℕ → Option (AgentStatus × Option String)
status_of (ok r, s) = some (r.run.status, r.run.error_code)
status_of (err e, s) = none

approved_runs : (approve outside env 25 settings 1 2 3 store).1.world.outside ≡ 1
unfolding program
approved_runs = refl

approved_completes :
    status_of (approve outside env 25 settings 1 2 3 store) ≡ some (AgentStatus.completed, none)
unfolding program
approved_completes = refl

-- A second approval runs nothing again.
approved_twice :
    (approve outside env 25 settings 1 2 3
      (approve outside env 25 settings 1 2 3 store).1).1.world.outside
    ≡ 1
unfolding program
approved_twice = refl

rejected_fails :
    status_of (reject outside 1 2 3 store) ≡ some (AgentStatus.failed, some "APPROVAL_REJECTED")
unfolding program
rejected_fails = refl

late_fails :
    status_of (approve outside env 25 settings 1 2 3 (record store { now = 100 }))
    ≡ some (AgentStatus.failed, some "APPROVAL_EXPIRED")
unfolding program
late_fails = refl

resume-Approved_example :
    ((resume outside env 25 settings 1 2 3 store).1.world.outside ≡ 0) ⊎ Approved 1 2 3 store
resume-Approved_example = resume-Approved outside env 25 settings 1 2 3 store

approve-Approvable_example :
    ((approve outside env 25 settings 1 2 3 store).1.world.outside ≡ 0)
    ⊎ (Approved 1 2 3 store ⊎ Approvable 1 2 3 store)
approve-Approvable_example = approve-Approvable outside env 25 settings 1 2 3 store

running : Unit {0}
unfolding run_agent decide execute invoke persist
running = tt

abbrev answer : Exec (Store ℕ) ServiceError AgentRunResponse
unfolding running
answer = run_agent outside env 25 settings "t" 1 2 (codes "2 + 2?") none none

abbrev answered : AgentRunResponse
unfolding answer
answered = elim (answer store).0 [
  | ok r ↦ r
  | err e ↦ record { run = waiting; answer = none; tool_calls = []; approval = none }
]

answers :
    (run_agent outside env 25 settings "t" 1 2 (codes "2 + 2?") none none store).0 ≡ ok answered
unfolding answer
answers = refl

run_agent-Finished_example : Finished answered
run_agent-Finished_example =
    run_agent-Finished outside env 25 settings "t" 1 2 (codes "2 + 2?") none none store answered
      answers

persist-Persisted_example :
    Stored settings 1 waiting first store (persist settings 1 waiting first store)
persist-Persisted_example =
    persist-Persisted settings 1 waiting first store waiting (unfold program in refl)
