-- ===== src/Agents/Samples.antt =====
-- The state of a small run, for the tests.
use ai_agent_hub.Common.{false, none, some, [], ◌∷◌}
use ai_agent_hub.Common.Text.{codes}
use ai_agent_hub.Agents.State.{AgentStatus, AgentState}

abbrev pub first : AgentState
first = record {
  messages = record { role = "user"; content = codes "2 + 2?" } ∷ [];
  user_id = 1;
  conversation_id = none;
  agent_id = 2;
  agent_run_id = some 3;
  knowledge_base_id = none;
  tool_calls = [];
  tool_results = [];
  metadata = [];
  status = AgentStatus.pending;
  step_count = 0;
  max_steps = some 20;
  error_code = none;
  error_message = none;
  pending_tool_call = none;
  approval_request = none;
  approved_tool_call_id = none;
  resume_approval = false;
}
