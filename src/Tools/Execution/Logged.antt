-- ===== src/Tools/Execution/Logged.antt =====
-- The log of a tool call through its steps.
use ai_agent_hub.Common.{
  ℕ, ◌≡◌, refl, sym, subst, String, Bool, true, false, Option, none, some, List, ◌∷◌, nat_eq,
  string_eq, option_eq, if◌then◌else◌, ==_refl, Bool-cases, inl, inr,
}
use ai_agent_hub.Common.Result.{Result, ok, err}
use ai_agent_hub.Common.Exec.{continue_with, after-bind}
use ai_agent_hub.Common.Dict.{get}
use ai_agent_hub.Agents.State.{ToolCallStatus, Json, Fields, AgentState}
use ai_agent_hub.Agents.Contracts.{ToolExecutionResult, NodeError}
use ai_agent_hub.Agents.Contracts as Contracts
use ai_agent_hub.Tools.Contracts.{
  ToolError, ToolFailure, tool_error, timed_out, unexpected, interrupted, Tool, ToolCallRecord,
  World, Outside,
}
use ai_agent_hub.Tools.Records.{StatusUpdate, changed, change_row, update_status}
use ai_agent_hub.Tools.Registry.{
  ToolRegistry, not_found, string_or_empty, failure_result, failed_status, running_status,
  completed_status, waiting_status, approval_message,
}
use ai_agent_hub.Tools.Schema.{validate_arguments}
use ai_agent_hub.Tools.Execution.{
  gate, admit, perform_with, report, update_record, ask_approval, run_tool, perform, handle, caught,
}
use ai_agent_hub.Tools.Execution.Recording.{
  emit_observation, needs_approval, found_tool, schema_of, as_graph_result, within_outside,
}

-- The newest row is the record of a call, as the last update has left it, and the rows before it
-- are the given ones.
pub record Logged (id run : ℕ) (call_id name : String) (arguments : Fields)
    (before : List ToolCallRecord) (u : StatusUpdate) (records : List ToolCallRecord) : Type 0 where
  pub row : ToolCallRecord
  pub newest : records ≡ row ∷ before
  pub has_id : row.id ≡ id
  pub has_run : row.agent_run_id ≡ run
  pub has_call_id : row.call_id ≡ call_id
  pub has_name : row.tool_name ≡ name
  pub has_arguments : row.arguments ≡ arguments
  pub has_status : row.status ≡ u.status
  pub has_result : row.result ≡ u.result
  pub has_error_code : row.error_code ≡ u.error_code
  pub has_error_message : row.error_message ≡ u.error_message

emit_observation-records :
    {V : Type 0} (registry : ToolRegistry V) (s : AgentState) (call_id name : String)
    (status : ToolCallStatus) (error_code : Option String) (w : World V)
    → (emit_observation registry s call_id name status error_code w).records ≡ w.records
unfolding emit_observation
emit_observation-records registry s call_id name status error_code w =
    elim (Bool-cases registry.has_observability) [ inl on ↦ rw on refl | inr off ↦ rw off refl ]

module _ {V : Type 0} (o : Outside V) (registry : ToolRegistry V)
    (up : (v : V) → o.is_down v ≡ false) (recording : registry.has_recorder ≡ true) (id run : ℕ)
    (call_id name : String) (arguments : Fields) (before : List ToolCallRecord) where
  abbrev pub Logs : StatusUpdate → List ToolCallRecord → Type 0
  Logs = Logged id run call_id name arguments before

  -- An update of the record succeeds and is what the log then holds.
  update_record-Logs :
      (u u' : StatusUpdate) (w : World V)
      → Logs u w.records
      → (update_record o registry (some id) u' w).0 ≡ ok tt
  unfolding update_record update_status
  update_record-Logs u u' w l = rw (recording, up w.outside) refl

  Logs-update_record :
      (u u' : StatusUpdate) (w : World V)
      → Logs u w.records
      → Logs u' (update_record o registry (some id) u' w).1.records
  unfolding update_record update_status
  Logs-update_record u u' w l =
      rw (recording, up w.outside)
        (record {
          row = changed (o.now w.outside) u' l.row;
          newest = unfold change_row in rw (l.newest, l.has_id, ==_refl id) refl;
          has_id = unfold changed in l.has_id;
          has_run = unfold changed in l.has_run;
          has_call_id = unfold changed in l.has_call_id;
          has_name = unfold changed in l.has_name;
          has_arguments = unfold changed in l.has_arguments;
          has_status = unfold changed in refl;
          has_result = unfold changed in refl;
          has_error_code = unfold changed in refl;
          has_error_message = unfold changed in refl;
        })

  -- What the record of a call says when the call returns: the error of the result, that it waits
  -- for an approval, or its value.
  abbrev pub update_for : ToolExecutionResult → ℕ → StatusUpdate
  update_for r duration =
      if r.approval_required then waiting_status (approval_message name) else elim r.error_code [
        | none ↦ completed_status r.result duration
        | some code ↦
            failed_status (record { code = code; message = string_or_empty r.error_message })
              duration
      ]

  -- How the `try` block may end.
  pub data Performed (p : Result ToolFailure ToolExecutionResult × World V) : Type 0 where
    returned :
        (r : ToolExecutionResult) (duration : ℕ)
        → p.0 ≡ ok r
        → Logs (update_for r duration) p.1.records
        → Performed p
    raised : (e : ToolFailure) → p.0 ≡ err e → Logs running_status p.1.records → Performed p

  -- How a call may end: it is answered and its record says how, or the deadline of the run stops
  -- the tool and the record is left running.
  pub data Audited (p : Result NodeError ToolExecutionResult × World V) : Type 0 where
    answered :
        (r : ToolExecutionResult) (duration : ℕ)
        → p.0 ≡ ok r
        → Logs (update_for r duration) p.1.records
        → Audited p
    stopped : p.0 ≡ err Contracts.timed_out → Logs running_status p.1.records → Audited p

  ask_approval-Performed :
      (s : AgentState) (w : World V)
      → Logs running_status w.records
      → Performed (ask_approval o registry s call_id name (some id) w)
  unfolding ask_approval
  ask_approval-Performed s w l =
      let u = waiting_status (approval_message name) in
      let done = update_record-Logs running_status u w l in
      after-bind _ Performed (update_record o registry (some id) u w)
        (λ a e. returned _ 0 refl (
          subst (Logs u) (sym (emit_observation-records registry s call_id name _ _ _))
            (Logs-update_record running_status u w l)))
        (λ e h. cc)

  run_tool-Performed :
      (tool : Tool V) (s : AgentState) (w : World V)
      → Logs running_status w.records
      → Performed (run_tool o registry tool arguments s call_id name (some id) w)
  unfolding run_tool
  run_tool-Performed tool s w l =
      after-bind _ Performed (within_outside (tool.execute _ arguments _) w)
        (λ result e.
          let w' = (within_outside (tool.execute _ arguments _) w).1 in
          let u = completed_status result (o.duration_ms w'.outside) in
          let done = update_record-Logs running_status u w' l in
          after-bind _ Performed (update_record o registry (some id) u w')
            (λ a e. returned _ (o.duration_ms w'.outside) refl (
              subst (Logs u) (sym (emit_observation-records registry s call_id name _ _ _))
                (Logs-update_record running_status u w' l)))
            (λ e h. cc))
        (λ e h. raised e refl l)

  gate-Performed :
      (needed : Bool) (tool : Tool V) (s : AgentState) (w : World V)
      → Logs running_status w.records
      → Performed (gate o registry needed tool arguments (some id) s call_id name w)
  gate-Performed true tool s w l = ask_approval-Performed s w l
  gate-Performed false tool s w l = run_tool-Performed tool s w l

  admit-Performed :
      (checked : Result ToolError (Unit {0})) (tool : Tool V) (s : AgentState) (w : World V)
      → Logs running_status w.records
      → Performed (admit o registry checked tool arguments (some id) s call_id name w)
  unfolding admit
  admit-Performed (ok a) tool s w l = gate-Performed (needs_approval tool s call_id) tool s w l
  admit-Performed (err e) tool s w l = raised (tool_error e) refl l

  schema-Performed :
      (input_schema : Json) (tool : Tool V) (s : AgentState) (w : World V)
      → Logs running_status w.records
      → Performed (
          continue_with
            (λ schema.
              admit o registry
                (validate_arguments schema arguments)
                tool
                arguments
                (some id)
                s
                call_id
                name)
            (schema_of input_schema w))
  schema-Performed (Json.obj schema) tool s w l =
      admit-Performed (validate_arguments schema arguments) tool s w l
  schema-Performed _ tool s w l = raised unexpected refl l

  found-Performed :
      (tool : Option (Tool V)) (s : AgentState) (w : World V)
      → Logs running_status w.records
      → Performed (
          continue_with
            (λ t. perform_with o registry t arguments (some id) s call_id name)
            (found_tool name tool w))
  found-Performed none s w l = raised (tool_error (not_found name)) refl l
  found-Performed (some tool) s w l =
      unfold perform_with in schema-Performed tool.input_schema tool s w l

  pub perform-Performed :
      (s : AgentState) (w : World V) (u : StatusUpdate)
      → Logs u w.records
      → Performed (perform o registry arguments (some id) s call_id name w)
  unfolding perform
  perform-Performed s w u l =
      after-bind _ Performed (update_record o registry (some id) running_status w)
        (λ a e.
          found-Performed (get registry.tools name) s
            (update_record o registry (some id) running_status w).1
            (Logs-update_record u running_status w l))
        (λ e h. cc (update_record-Logs u running_status w l))

  report-Audited :
      (s : AgentState) (w : World V) (e : ToolFailure) (error : ToolError)
      → Logs running_status w.records
      → Audited (as_graph_result (report o registry s call_id name (some id) e (some error) w))
  report-Audited s w e error l =
      let u = failed_status error (o.duration_ms w.outside) in
      after-bind _ (λ p. Audited (as_graph_result p)) (update_record o registry (some id) u w)
        (λ a h. answered (failure_result error) (o.duration_ms w.outside) refl (
          subst (Logs u) (sym (emit_observation-records registry s call_id name _ _ _))
            (Logs-update_record running_status u w l)))
        (λ e h. cc (update_record-Logs running_status u w l))

  handle-Audited :
      (s : AgentState) (w : World V) (e : ToolFailure)
      → Logs running_status w.records
      → Audited (as_graph_result (handle o registry s call_id name (some id) e w))
  unfolding handle
  handle-Audited s w interrupted l = stopped refl l
  handle-Audited s w (tool_error e) l = report-Audited s w (tool_error e) _ l
  handle-Audited s w timed_out l = report-Audited s w timed_out _ l
  handle-Audited s w unexpected l = report-Audited s w unexpected _ l

  pub caught-Audited :
      (s : AgentState) (p : Result ToolFailure ToolExecutionResult × World V)
      → Performed p
      → Audited (as_graph_result (caught o registry s call_id name (some id) p))
  caught-Audited s (p, w) (returned r duration e l) = rw e (answered r duration refl l)
  caught-Audited s (p, w) (raised failure e l) = rw e (handle-Audited s w failure l)
