-- ===== src/Tools/Records.antt =====
-- backend/app/repositories/agent_runs.py: `ToolCallRepository`, over the rows of its table.
-- A statement that the database refuses raises and leaves the rows as they are.
pub mod Frame
use ai_agent_hub.Common.{
  ℕ, ◌+◌, String, Bool, true, false, ◌&&◌, Option, none, some, List, [], ◌∷◌, ◌++◌, map, ◌==◌,
  nat_eq, string_eq, if◌then◌else◌,
}
use ai_agent_hub.Common.Exec.{Exec, pure, raise}
use ai_agent_hub.Agents.State.{ToolCallStatus, Json, Fields}
use ai_agent_hub.Tools.Contracts.{ToolFailure, unexpected, ToolCallRecord, World, Outside}

abbrev pub is_running : ToolCallStatus → Bool
is_running ToolCallStatus.running = true
is_running _ = false

-- `status in {COMPLETED, FAILED, CANCELLED}`
abbrev pub is_final : ToolCallStatus → Bool
is_final ToolCallStatus.completed = true
is_final ToolCallStatus.failed = true
is_final ToolCallStatus.cancelled = true
is_final _ = false

-- The keyword arguments of `update_status`.
pub record StatusUpdate : Type 0 where
  pub status : ToolCallStatus
  pub result : Option Json
  pub error_code : Option String
  pub error_message : Option String
  pub duration_ms : Option ℕ

-- The assignments of `update_status`.
unfoldable pub changed : ℕ → StatusUpdate → ToolCallRecord → ToolCallRecord
changed now u r = record r {
  status = u.status;
  result = u.result;
  error_code = u.error_code;
  error_message = u.error_message;
  duration_ms = u.duration_ms;
  started_at =
      if is_running u.status
      then (elim r.started_at [ none ↦ some now | some t ↦ some t ])
      else r.started_at;
  finished_at = if is_final u.status then some now else r.finished_at;
}

unfoldable pub change_row :
    ℕ → (ToolCallRecord → ToolCallRecord) → List ToolCallRecord → List ToolCallRecord
change_row id f [] = []
change_row id f (r ∷ rs) = if r.id == id then f r ∷ rs else r ∷ change_row id f rs

-- The rows of one call of a run.
unfoldable pub rows_of_call : ℕ → String → List ToolCallRecord → List ToolCallRecord
rows_of_call run call [] = []
rows_of_call run call (r ∷ rs) =
    let rest = rows_of_call run call rs in
    if (r.agent_run_id == run) && (r.call_id == call) then r ∷ rest else rest

module _ {V : Type 0} (o : Outside V) where
  unfoldable pub create : ℕ → String → String → Fields → Exec (World V) ToolFailure ℕ
  create run call tool arguments w =
      if o.is_down w.outside
      then raise unexpected w
      else pure w.next_id (record w {
        next_id = w.next_id + 1;
        records =
            record {
              id = w.next_id;
              agent_run_id = run;
              call_id = call;
              tool_name = tool;
              status = ToolCallStatus.pending;
              arguments = arguments;
              result = none;
              error_code = none;
              error_message = none;
              started_at = none;
              finished_at = none;
              duration_ms = none;
            }
            ∷ w.records;
      })

  unfoldable pub update_status : ℕ → StatusUpdate → Exec (World V) ToolFailure (Unit {0})
  unfolding change_row changed
  update_status id u w =
      if o.is_down w.outside
      then raise unexpected w
      else pure tt (record w { records = change_row id (changed (o.now w.outside) u) w.records })

  -- `scalar_one_or_none`: two rows of one call are an error.
  abbrev pub one_or_none : List ToolCallRecord → Exec (World V) ToolFailure (Option ℕ)
  one_or_none [] = pure none
  one_or_none (r ∷ []) = pure (some r.id)
  one_or_none (r ∷ s ∷ rs) = raise unexpected

  unfoldable pub get_for_run_call : ℕ → String → Exec (World V) ToolFailure (Option ℕ)
  unfolding rows_of_call
  get_for_run_call run call w =
      if o.is_down w.outside
      then raise unexpected w
      else one_or_none (rows_of_call run call w.records) w
