-- ===== src/Tools/Execution/Audit.antt =====
-- The audit trail of a tool call.
use ai_agent_hub.Common.{
  ℕ, ◌+◌, ◌≡◌, refl, String, true, false, none, some, List, ◌∷◌, nat_eq, string_eq, option_eq,
}
use ai_agent_hub.Common.Result.{ok}
use ai_agent_hub.Agents.State.{ToolCallStatus, Json, Fields, ToolCallState, AgentState}
use ai_agent_hub.Tools.Contracts.{ToolCallRecord, World, Outside}
use ai_agent_hub.Tools.Records.{StatusUpdate, create}
use ai_agent_hub.Tools.Registry.{ToolRegistry, string_or_empty}
use ai_agent_hub.Tools.Execution.{resume_record, start_record, open_record, execute}
use ai_agent_hub.Tools.Execution.Logged.{Logged, Audited, caught-Audited, perform-Performed}

-- The row that `create` adds, which is the first state of the log.
abbrev pub opened : ℕ → ℕ → String → String → Fields → ToolCallRecord
opened id run call_id name arguments = record {
  id = id;
  agent_run_id = run;
  call_id = call_id;
  tool_name = name;
  status = ToolCallStatus.pending;
  arguments = arguments;
  result = none;
  error_code = none;
  error_message = none;
  started_at = none;
  finished_at = none;
  duration_ms = none;
}

abbrev pending_status : StatusUpdate
pending_status = record {
  status = ToolCallStatus.pending;
  result = none;
  error_code = none;
  error_message = none;
  duration_ms = none;
}

opened-Logged :
    (id run : ℕ) (call_id name : String) (arguments : Fields) (before : List ToolCallRecord)
    → Logged id run call_id name arguments before pending_status
        (opened id run call_id name arguments ∷ before)
opened-Logged id run call_id name arguments before = record {
  row = opened id run call_id name arguments;
  newest = refl;
  has_id = refl;
  has_run = refl;
  has_call_id = refl;
  has_name = refl;
  has_arguments = refl;
  has_status = refl;
  has_result = refl;
  has_error_code = refl;
  has_error_message = refl;
}

module _ {V : Type 0} (o : Outside V) (registry : ToolRegistry V)
    (up : (v : V) → o.is_down v ≡ false) (recording : registry.has_recorder ≡ true)
    (call : ToolCallState) (s : AgentState) (w : World V) (run : ℕ) (arguments : Fields)
    (has_run : s.agent_run_id ≡ some run) (first : s.resume_approval ≡ false)
    (object : call.arguments ≡ Json.obj arguments) where
  open_record-opened : open_record o registry call s w ≡ (
    ok (arguments, some w.next_id),
    record w {
      next_id = w.next_id + 1;
      records =
          opened w.next_id run (string_or_empty call.call_id) (string_or_empty call.name) arguments
          ∷ w.records;
    },
  )
  unfolding open_record resume_record start_record create
  open_record-opened = rw (object, has_run, first, recording, up w.outside) refl

  -- With a recorder and a database that accepts statements, a call of a run that does not resume,
  -- with an object of arguments, adds one row. The call is answered and the row says how: waiting for the approval, failed with
  -- the error of the answer, or completed with its value; or the deadline of the run stops the
  -- tool, and the row is left running. No other exception comes out.
  pub execute-Audited :
      Audited o registry up recording w.next_id run
        (string_or_empty call.call_id)
        (string_or_empty call.name)
        arguments
        w.records
        (execute o registry call s w)
  unfolding execute
  execute-Audited =
      let call_id = string_or_empty call.call_id in
      let name = string_or_empty call.name in
      rw open_record-opened (
        caught-Audited o registry up recording w.next_id run call_id name arguments w.records s _ (
          perform-Performed o registry up recording w.next_id run call_id name arguments w.records s
            _ pending_status (opened-Logged w.next_id run call_id name arguments w.records)))
