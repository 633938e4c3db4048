-- ===== src/Services/Agents/Lifecycle/Authority.antt =====
-- When the runtime may run again for a run that waits for an approval.
use ai_agent_hub.Common.{
  ℕ, ◌≡◌, ◌⊎◌, refl, sym, ap, ◌∙◌, String, false, Option, none, some, nat_eq, Bool-cases, inl, inr,
}
use ai_agent_hub.Common.Exec.{after-bind}
use ai_agent_hub.Common.Result.{Result}
use ai_agent_hub.Agents.State.{AgentStatus, ApprovalStatus}
use ai_agent_hub.Agents.Contracts.{Environment}
use ai_agent_hub.Tools.Contracts.{World, Outside}
use ai_agent_hub.Tools.Records.{get_for_run_call}
use ai_agent_hub.Tools.Records.Frame.{get_for_run_call-outside, update_status-outside}
use ai_agent_hub.Services.Store.{
  Agent, AgentRun, AgentApproval, Store, ServiceError, owned_run, update_approval, update_state,
}
use ai_agent_hub.Services.Agents.{Settings, is_waiting, is_expired, on_world}
use ai_agent_hub.Services.Agents.Lifecycle.Persistence.{is_waiting-eq}
use ai_agent_hub.Services.Agents.Lifecycle.{resume_by, resume, approve_by, approve}
use ai_agent_hub.Services.Agents.Lifecycle.Settling.{
  run_response, fail_call, finish_rejected_run, refuse,
}
use ai_agent_hub.Services.Agents.Lifecycle.Lookup.{Found, missing, found, look_up-LookedUp}

-- What the tools see is as it was.
abbrev Untouched : {V A : Type 0} → Store V → Result ServiceError A × Store V → Type 0
Untouched s p = p.1.world.outside ≡ s.world.outside

module _ {V : Type 0} (o : Outside V) where
  finish_rejected_run-Untouched :
      (run : AgentRun) (approval : AgentApproval) (code message : String) (s : Store V)
      → Untouched s (finish_rejected_run o run approval code message s)
  unfolding finish_rejected_run update_state
  finish_rejected_run-Untouched run approval code message s =
      let looked = get_for_run_call-outside o run.id approval.call_id s.world in
      after-bind _ (Untouched s) (on_world (get_for_run_call o run.id approval.call_id) s)
        (λ id h.
          after-bind _ (Untouched s) (fail_call o code message id _) (λ a e. failing id _ ∙ looked)
            (λ e h. failing id _ ∙ looked))
        (λ e h. looked)
    where
      failing :
          (id : Option ℕ) (s : Store V)
          → (fail_call o code message id s).1.world.outside ≡ s.world.outside
      failing none s = refl
      failing (some id) s = update_status-outside o id _ s.world

  pub refuse-Untouched :
      (run : AgentRun) (approval : AgentApproval) (status : ApprovalStatus) (code message : String)
      (s : Store V)
      → Untouched s (refuse o run approval status code message s)
  unfolding refuse update_approval run_response
  refuse-Untouched run approval status code message s =
      let (approval', s') = update_approval approval status s in
      let kept = finish_rejected_run-Untouched run approval' code message s' in
      after-bind _ (Untouched s) (finish_rejected_run o run approval' code message s')
        (λ run' h. kept) (λ e h. kept)

module _ {V : Type 0} where
  -- The run of the user waits for an approval, and its newest approval is given.
  pub record Approved (user_id agent_id run_id : ℕ) (s : Store V) : Type 0 where
    pub request : Found user_id agent_id run_id s
    pub waits : request.run.status ≡ AgentStatus.waiting_approval
    pub given : request.approval.status ≡ ApprovalStatus.approved

  -- The run of the user waits for an approval, and its newest approval is open and in time.
  pub record Approvable (user_id agent_id run_id : ℕ) (s : Store V) : Type 0 where
    pub request : Found user_id agent_id run_id s
    pub waits : request.run.status ≡ AgentStatus.waiting_approval
    pub undecided : request.approval.status ≡ ApprovalStatus.pending
    pub in_time : is_expired request.approval s.now ≡ false

owned_run-update_approval :
    {V : Type 0} (run_id user_id : ℕ) (approval : AgentApproval) (status : ApprovalStatus)
    (s : Store V)
    → owned_run run_id user_id (update_approval approval status s).1 ≡ owned_run run_id user_id s
unfolding owned_run update_approval
owned_run-update_approval run_id user_id approval status s = refl

module _ {V : Type 0} (o : Outside V) (env : Agent → Environment (World V)) (limit : ℕ)
    (settings : Settings) where
  -- `resume` changes nothing that the tools see, unless the run of the user waits for an approval
  -- and its newest approval is given.
  pub resume-Approved :
      (user_id agent_id run_id : ℕ) (s : Store V)
      → ((resume o env limit settings user_id agent_id run_id s).1.world.outside ≡ s.world.outside)
        ⊎ Approved user_id agent_id run_id s
  unfolding resume
  resume-Approved user_id agent_id run_id s = elim (look_up-LookedUp user_id agent_id run_id s) [
    | missing e h ↦ rw h (inl refl)
    | found f h ↦ rw h (by_status f f.approval.status refl)
  ]
    where
      by_status :
          (f : Found user_id agent_id run_id s) (status : ApprovalStatus)
          → f.approval.status ≡ status
          → (Untouched s (resume_by o env limit settings user_id f.agent f.run f.approval status s))
            ⊎ Approved user_id agent_id run_id s
      by_status f ApprovalStatus.pending e = elim (Bool-cases (is_expired f.approval s.now)) [
        | inl late ↦ unfold resume_by in rw late (inl (refuse-Untouched o f.run f.approval _ _ _ s))
        | inr early ↦ unfold resume_by in rw early (inl refl)
      ]
      by_status f ApprovalStatus.approved e = elim (Bool-cases (is_waiting f.run.status)) [
        | inl waits ↦
            inr (record { request = f; waits = is_waiting-eq f.run.status waits; given = e })
        | inr moved ↦ unfold resume_by run_response in rw moved (inl refl)
      ]
      by_status f ApprovalStatus.rejected e = unfold resume_by run_response in inl refl
      by_status f ApprovalStatus.expired e = unfold resume_by run_response in inl refl

  -- `approve` changes nothing that the tools see, unless the run of the user waits for an approval
  -- and its newest approval is given, or is open and in time.
  pub approve-Approvable :
      (user_id agent_id run_id : ℕ) (s : Store V)
      → ((approve o env limit settings user_id agent_id run_id s).1.world.outside ≡ s.world.outside)
        ⊎ (Approved user_id agent_id run_id s ⊎ Approvable user_id agent_id run_id s)
  unfolding approve approve_by
  approve-Approvable user_id agent_id run_id s = elim (look_up-LookedUp user_id agent_id run_id s) [
    | missing e h ↦ rw h (inl refl)
    | found f h ↦ rw h (by_status f f.approval.status refl)
  ]
    where
      given :
          (((resume o env limit settings user_id agent_id run_id s).1.world.outside
              ≡ s.world.outside)
            ⊎ Approved user_id agent_id run_id s)
          → Untouched s (resume o env limit settings user_id agent_id run_id s)
            ⊎ (Approved user_id agent_id run_id s ⊎ Approvable user_id agent_id run_id s)
      given (inl same) = inl same
      given (inr approved) = inr (inl approved)

      opened :
          (f : Found user_id agent_id run_id s)
          → f.approval.status ≡ ApprovalStatus.pending
          → is_expired f.approval s.now ≡ false
          → (let s' = (update_approval f.approval ApprovalStatus.approved s).1 in
              ((resume o env limit settings user_id agent_id run_id s').1.world.outside
                ≡ s'.world.outside)
              ⊎ Approved user_id agent_id run_id s')
          → (Untouched s (
              resume o env limit settings user_id agent_id run_id
                (update_approval f.approval ApprovalStatus.approved s).1))
            ⊎ (Approved user_id agent_id run_id s ⊎ Approvable user_id agent_id run_id s)
      opened f e early (inl same) = inl (unfold update_approval in same)
      opened f e early (inr approved) = inr (
          inr (record {
            request = f;
            waits = same_run ∙ approved.waits;
            undecided = e;
            in_time = early;
          }))
        where
          same_run : f.run.status ≡ approved.request.run.status
          same_run =
              let before : owned_run run_id user_id s ≡ some approved.request.run =
                sym (owned_run-update_approval run_id user_id f.approval ApprovalStatus.approved s)
                ∙ approved.request.owned_too in
              let same : f.run ≡ approved.request.run = cc f.owned_too in ap (λ r. r.status) same

      by_status :
          (f : Found user_id agent_id run_id s) (status : ApprovalStatus)
          → f.approval.status ≡ status
          → (Untouched s
              (approve_by o env limit settings user_id agent_id run_id f.run f.approval status s))
            ⊎ (Approved user_id agent_id run_id s ⊎ Approvable user_id agent_id run_id s)
      by_status f ApprovalStatus.pending e = elim (Bool-cases (is_expired f.approval s.now)) [
        | inl late ↦ rw late (inl (refuse-Untouched o f.run f.approval _ _ _ s))
        | inr early ↦ rw early (
            opened f e early (
              resume-Approved user_id agent_id run_id
                (update_approval f.approval ApprovalStatus.approved s).1))
      ]
      by_status f ApprovalStatus.approved e = given (resume-Approved user_id agent_id run_id s)
      by_status f ApprovalStatus.rejected e = inl refl
      by_status f ApprovalStatus.expired e = inl refl
