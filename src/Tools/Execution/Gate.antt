-- ===== src/Tools/Execution/Gate.antt =====
-- What a tool call may change outside of its records and events.
use ai_agent_hub.Common.{
  ℕ, ◌≡◌, ◌⊎◌, refl, ◌∙◌, String, Bool, true, false, not, ◌&&◌, Option, none, some, arith, ◌==◌,
  string_eq, option_eq, ==-eq, Bool-cases, inl, inr,
}
use ai_agent_hub.Common.Result.{Result, ok, err}
use ai_agent_hub.Common.Exec.{continue_with, after-bind}
use ai_agent_hub.Common.Dict.{get}
use ai_agent_hub.Agents.State.{Json, Fields, ToolCallState, AgentState}
use ai_agent_hub.Agents.Contracts.{ToolExecutionResult}
use ai_agent_hub.Tools.Contracts.{ToolError, ToolFailure, Tool, World, Outside}
use ai_agent_hub.Tools.Registry.{ToolRegistry, string_or_empty, reported, running_status}
use ai_agent_hub.Tools.Schema.{validate_arguments}
use ai_agent_hub.Tools.Schema.Conforms.{Conforms, validate_arguments_iff_Conforms}
use ai_agent_hub.Tools.Execution.{
  resume_record, open_with, update_record, or_start, open_record, ask_approval, gate, admit,
  perform_with, perform, handle, caught, proceed, execute,
}
use ai_agent_hub.Tools.Execution.Recording.{
  found_tool, schema_of, needs_approval, as_graph_result, object_arguments,
}
use ai_agent_hub.Tools.Execution.Framing.{
  update_record-outside, emit_observation-outside, resume_of-outside, or_start-outside,
  report-outside,
}

-- The tool of the call is registered, its schema describes the arguments, and it needs no approval
-- or has the approval of this very call.
pub data Allowed {V : Type 0} (registry : ToolRegistry V) (call : ToolCallState) (s : AgentState)
    : Type 0 where
  allowed :
      (tool : Tool V) (schema arguments : Fields)
      → get registry.tools (string_or_empty call.name) ≡ some tool
      → tool.input_schema ≡ Json.obj schema
      → call.arguments ≡ Json.obj arguments
      → Conforms schema arguments
      → (tool.requires_approval ≡ false)
        ⊎ (s.approved_tool_call_id ≡ some (string_or_empty call.call_id))
      → Allowed registry call s

not_needed :
    (requires : Bool) (approved : Option String) (call_id : String)
    → (requires && not (approved == some call_id)) ≡ false
    → (requires ≡ false) ⊎ (approved ≡ some call_id)
not_needed false approved call_id h = inl refl
not_needed true approved call_id h = elim (Bool-cases (approved == some call_id)) [
  | inl same ↦ inr (==-eq approved (some call_id) same)
  | inr other ↦ absurd (ground (arith, h, other))
]

module _ {V : Type 0} (o : Outside V) (registry : ToolRegistry V) where
  module _ (call : ToolCallState) (s : AgentState) (v : V) where
    -- The outside is as it was, or the call was allowed.
    abbrev Guarded : {A : Type 0} → Result ToolFailure A × World V → Type 0
    Guarded p = (p.1.outside ≡ v) ⊎ Allowed registry call s

    handle-Guarded :
        (id : Option ℕ) (e : ToolFailure) (w : World V)
        → (w.outside ≡ v) ⊎ Allowed registry call s
        → Guarded
            (handle o registry s (string_or_empty call.call_id) (string_or_empty call.name) id e w)
    unfolding handle
    handle-Guarded id e w (inl same) =
        inl (report-outside o registry s _ _ id e (reported e) w ∙ same)
    handle-Guarded id e w (inr a) = inr a

    caught-Guarded :
        (id : Option ℕ) (p : Result ToolFailure ToolExecutionResult × World V)
        → Guarded p
        → Guarded
            (caught o registry s (string_or_empty call.call_id) (string_or_empty call.name) id p)
    caught-Guarded id (ok r, w) h = h
    caught-Guarded id (err e, w) h = handle-Guarded id e w h

    ask_approval-Guarded :
        (id : Option ℕ) (w : World V)
        → w.outside ≡ v
        → Guarded (
            ask_approval o registry s
              (string_or_empty call.call_id)
              (string_or_empty call.name)
              id
              w)
    unfolding ask_approval
    ask_approval-Guarded id w same =
        after-bind _ Guarded (update_record o registry id _ w)
          (λ a h. inl (
            emit_observation-outside o registry s _ _ _ _ _
            ∙ (update_record-outside o registry id _ w ∙ same)))
          (λ e h. inl (update_record-outside o registry id _ w ∙ same))

    module _ (tool : Tool V) (arguments : Fields)
        (registered : get registry.tools (string_or_empty call.name) ≡ some tool)
        (object : call.arguments ≡ Json.obj arguments) (id : Option ℕ) where
      schema-Guarded :
          (input_schema : Json) (w : World V)
          → tool.input_schema ≡ input_schema
          → w.outside ≡ v
          → Guarded (
              continue_with
                (λ schema.
                  admit o registry
                    (validate_arguments schema arguments)
                    tool
                    arguments
                    id
                    s
                    (string_or_empty call.call_id)
                    (string_or_empty call.name))
                (schema_of input_schema w))
      unfolding admit
      schema-Guarded (Json.obj schema) w described same =
          checked (validate_arguments schema arguments) refl
        where
          gated :
              (needed : Bool)
              → needs_approval tool s (string_or_empty call.call_id) ≡ needed
              → validate_arguments schema arguments ≡ ok tt
              → Guarded (
                  gate o registry needed tool arguments id s
                    (string_or_empty call.call_id)
                    (string_or_empty call.name)
                    w)
          gated true h valid = ask_approval-Guarded id w same
          gated false h valid = inr (
              allowed tool schema arguments registered described object
                ((validate_arguments_iff_Conforms schema arguments).0 valid)
                (not_needed tool.requires_approval s.approved_tool_call_id
                  (string_or_empty call.call_id) h))

          checked :
              (r : Result ToolError (Unit {0}))
              → validate_arguments schema arguments ≡ r
              → Guarded (
                  admit o registry r tool arguments id s
                    (string_or_empty call.call_id)
                    (string_or_empty call.name)
                    w)
          checked (ok tt) valid =
              gated (needs_approval tool s (string_or_empty call.call_id)) refl valid
          checked (err e) invalid = inl same
      schema-Guarded _ w described same = inl same

    found-Guarded :
        (tool : Option (Tool V)) (arguments : Fields) (id : Option ℕ) (w : World V)
        → get registry.tools (string_or_empty call.name) ≡ tool
        → call.arguments ≡ Json.obj arguments
        → w.outside ≡ v
        → Guarded (
            continue_with
              (λ t.
                perform_with o registry t arguments id s
                  (string_or_empty call.call_id)
                  (string_or_empty call.name))
              (found_tool (string_or_empty call.name) tool w))
    found-Guarded none arguments id w registered object same = inl same
    found-Guarded (some tool) arguments id w registered object same =
        unfold perform_with in
        schema-Guarded tool arguments registered object id tool.input_schema w refl same

    perform-Guarded :
        (arguments : Fields) (id : Option ℕ) (w : World V)
        → call.arguments ≡ Json.obj arguments
        → w.outside ≡ v
        → Guarded (
            perform o registry arguments id s
              (string_or_empty call.call_id)
              (string_or_empty call.name)
              w)
    unfolding perform
    perform-Guarded arguments id w object same =
        let same' = update_record-outside o registry id running_status w ∙ same in
        after-bind _ Guarded (update_record o registry id running_status w)
          (λ a h.
            found-Guarded (get registry.tools (string_or_empty call.name)) arguments id _ refl
              object same')
          (λ e h. inl same')

    -- What the opening of the record gives: the arguments of the call, and the outside as it was.
    Opened : Result ToolFailure (Fields × Option ℕ) × World V → Type 0
    Opened (ok (arguments, id), w) = (call.arguments ≡ Json.obj arguments) × (w.outside ≡ v)
    Opened (err e, w) = w.outside ≡ v

    open_with-Opened :
        (arguments : Fields) (w : World V)
        → call.arguments ≡ Json.obj arguments
        → w.outside ≡ v
        → Opened (open_with o registry call s arguments w)
    unfolding Opened resume_record
    open_with-Opened arguments w object same =
        let call_id = string_or_empty call.call_id in
        let same' = resume_of-outside o registry s call_id s.agent_run_id w ∙ same in
        after-bind _ Opened (resume_record o registry s call_id w)
          (λ found h.
            after-bind _ Opened (or_start o registry s call_id _ arguments found _)
              (λ id h. (object, or_start-outside o registry s call_id _ arguments found _ ∙ same'))
              (λ e h. or_start-outside o registry s call_id _ arguments found _ ∙ same'))
          (λ e h. same')

    object_arguments-Opened :
        (j : Json) (w : World V)
        → call.arguments ≡ j
        → w.outside ≡ v
        → Opened (continue_with (open_with o registry call s) (object_arguments j w))
    unfolding Opened
    object_arguments-Opened (Json.obj arguments) w e same = open_with-Opened arguments w e same
    object_arguments-Opened _ w e same = same

    proceed-Guarded :
        (p : Result ToolFailure (Fields × Option ℕ) × World V)
        → Opened p
        → Guarded
            (proceed o registry s (string_or_empty call.call_id) (string_or_empty call.name) p)
    unfolding Opened
    proceed-Guarded (ok (arguments, id), w) h =
        caught-Guarded id _ (perform-Guarded arguments id w h.0 h.1)
    proceed-Guarded (err e, w) h = handle-Guarded none e w (inl h)

    as_graph_result-Guarded :
        (p : Result ToolFailure ToolExecutionResult × World V)
        → Guarded p
        → ((as_graph_result p).1.outside ≡ v) ⊎ Allowed registry call s
    as_graph_result-Guarded (ok r, w) h = h
    as_graph_result-Guarded (err e, w) h = h

  -- A call changes nothing but records and events, unless its tool is registered, its arguments
  -- conform to the schema of the tool, and the tool needs no approval or this very call has it.
  pub execute-Allowed :
      (call : ToolCallState) (s : AgentState) (w : World V)
      → ((execute o registry call s w).1.outside ≡ w.outside) ⊎ Allowed registry call s
  unfolding execute open_record
  execute-Allowed call s w = as_graph_result-Guarded call s w.outside _ (
      proceed-Guarded call s w.outside _
        (object_arguments-Opened call s w.outside call.arguments w refl refl))
