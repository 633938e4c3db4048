-- ===== src/Tools/Execution/Framing.antt =====
-- What records and events leave as it was.
use ai_agent_hub.Common.{
  ℕ, ◌≡◌, refl, ◌∙◌, String, not, ◌||◌, Option, none, some, string_eq, option_eq, Bool-cases, inl,
  inr,
}
use ai_agent_hub.Common.Exec.{after-bind}
use ai_agent_hub.Agents.State.{ToolCallStatus, Fields, AgentState}
use ai_agent_hub.Tools.Contracts.{ToolError, ToolFailure, World, Outside}
use ai_agent_hub.Tools.Records.{StatusUpdate, create}
use ai_agent_hub.Tools.Records.Frame.{update_status-outside, get_for_run_call-outside}
use ai_agent_hub.Tools.Registry.{ToolRegistry, failed_status}
use ai_agent_hub.Tools.Execution.{
  resume_of, start_of, start_record, update_record, or_start, report,
}
use ai_agent_hub.Tools.Execution.Recording.{emit_observation}

module _ {V : Type 0} (o : Outside V) (registry : ToolRegistry V) where
  pub update_record-outside :
      (id : Option ℕ) (u : StatusUpdate) (w : World V)
      → (update_record o registry id u w).1.outside ≡ w.outside
  unfolding update_record
  update_record-outside none u w = refl
  update_record-outside (some id) u w = elim (Bool-cases registry.has_recorder) [
    | inr off ↦ rw off refl
    | inl on ↦ rw on (update_status-outside o id u w)
  ]

  pub emit_observation-outside :
      (s : AgentState) (call_id name : String) (status : ToolCallStatus)
      (error_code : Option String) (w : World V)
      → (emit_observation registry s call_id name status error_code w).outside ≡ w.outside
  unfolding emit_observation
  emit_observation-outside s call_id name status error_code w =
      elim (Bool-cases registry.has_observability) [ inl on ↦ rw on refl | inr off ↦ rw off refl ]

  pub resume_of-outside :
      (s : AgentState) (call_id : String) (run : Option ℕ) (w : World V)
      → (resume_of o registry s call_id run w).1.outside ≡ w.outside
  resume_of-outside s call_id none w = refl
  resume_of-outside s call_id (some run) w =
      elim (Bool-cases (not registry.has_recorder || not s.resume_approval)) [
        | inl off ↦ rw off refl
        | inr on ↦ rw on (get_for_run_call-outside o run call_id w)
      ]

  start_of-outside :
      (call_id name : String) (arguments : Fields) (run : Option ℕ) (w : World V)
      → (start_of o registry call_id name arguments run w).1.outside ≡ w.outside
  unfolding create
  start_of-outside call_id name arguments none w = refl
  start_of-outside call_id name arguments (some run) w = elim (Bool-cases registry.has_recorder) [
    | inr off ↦ rw off refl
    | inl on ↦ elim (Bool-cases (o.is_down w.outside)) [
      | inl down ↦ rw (on, down) refl
      | inr up ↦ rw (on, up) refl
    ]
  ]

  pub or_start-outside :
      (s : AgentState) (call_id name : String) (arguments : Fields) (found : Option ℕ) (w : World V)
      → (or_start o registry s call_id name arguments found w).1.outside ≡ w.outside
  unfolding start_record
  or_start-outside s call_id name arguments none w =
      start_of-outside call_id name arguments s.agent_run_id w
  or_start-outside s call_id name arguments (some id) w = refl

  pub report-outside :
      (s : AgentState) (call_id name : String) (id : Option ℕ) (e : ToolFailure)
      (r : Option ToolError) (w : World V)
      → (report o registry s call_id name id e r w).1.outside ≡ w.outside
  report-outside s call_id name id e none w = refl
  report-outside s call_id name id e (some error) w =
      let u = failed_status error (o.duration_ms w.outside) in
      after-bind _ (λ p. p.1.outside ≡ w.outside) (update_record o registry id u w)
        (λ a h. emit_observation-outside s call_id name _ _ _ ∙ update_record-outside id u w)
        (λ e h. update_record-outside id u w)
