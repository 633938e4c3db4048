-- ===== src/Tools/Records/Frame.antt =====
-- The statements on the tool-call records leave everything else as it is.
use ai_agent_hub.Common.{ℕ, ◌≡◌, refl, String, List, [], ◌∷◌, Bool-cases, inl, inr}
use ai_agent_hub.Tools.Contracts.{ToolCallRecord, World, Outside}
use ai_agent_hub.Tools.Records.{
  StatusUpdate, update_status, get_for_run_call, one_or_none, rows_of_call,
}

module _ {V : Type 0} (o : Outside V) where
  one_or_none-outside :
      (rows : List ToolCallRecord) (w : World V) → (one_or_none o rows w).1.outside ≡ w.outside
  one_or_none-outside [] w = refl
  one_or_none-outside (r ∷ []) w = refl
  one_or_none-outside (r ∷ q ∷ rows) w = refl

  pub get_for_run_call-outside :
      (run : ℕ) (call_id : String) (w : World V)
      → (get_for_run_call o run call_id w).1.outside ≡ w.outside
  unfolding get_for_run_call
  get_for_run_call-outside run call_id w = elim (Bool-cases (o.is_down w.outside)) [
    | inl down ↦ rw down refl
    | inr up ↦ rw up (one_or_none-outside (rows_of_call run call_id w.records) w)
  ]

  pub update_status-outside :
      (id : ℕ) (u : StatusUpdate) (w : World V) → (update_status o id u w).1.outside ≡ w.outside
  unfolding update_status
  update_status-outside id u w = elim (Bool-cases (o.is_down w.outside)) [
    | inl down ↦ rw down refl
    | inr up ↦ rw up refl
  ]
