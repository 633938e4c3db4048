-- ===== src/Agents/Graph/Endings.antt =====
-- How a run of the graph ends, and what it leaves of the state that it began with.
use ai_agent_hub.Common.{
  ℕ, ◌≡◌, refl, sym, ap, ◌∙◌, true, false, Option, none, some, List, [], ◌∷◌, ◌++◌, append-nil,
  append_assoc,
}
use ai_agent_hub.Common.Result.{ok}
use ai_agent_hub.Agents.State.{
  AgentStatus, ApprovalStatus, Json, AgentMessage, ToolCallState, ApprovalRequest, AgentState,
}
use ai_agent_hub.Agents.Contracts.{
  AgentRuntimeConfig, AgentDecision, ToolExecutionResult, Environment,
}
use ai_agent_hub.Agents.Graph.{
  truthy, with_message, failed_update, after_decision, Node, agent, tool, Next, goto, finish, route,
  route_after_start, invoke,
}
use ai_agent_hub.Agents.Graph.Steps.{
  Step, exceeded, decided, executed, Decided, done, calls, thinks, Executed, parks, fails, returns,
  after_decision-Decided, after_execution-Executed, Routed, Rule, run_graph_rule,
}

-- A state that waits for an approval: the request is the pending call's, and is not decided.
pub record IsWaiting (s : AgentState) : Type 0 where
  pub call : ToolCallState
  pub request : ApprovalRequest
  pub pending : s.pending_tool_call ≡ some call
  pub requested : s.approval_request ≡ some request
  pub same_id : request.tool_call_id ≡ call.call_id
  pub same_name : request.tool_name ≡ call.name
  pub same_arguments : request.arguments ≡ call.arguments
  pub undecided : request.status ≡ ApprovalStatus.pending
  pub not_resumed : s.resume_approval ≡ false

-- A final state is completed, or failed with an error code, or waits for an approval.
pub data Ended (s : AgentState) : Type 0 where
  completed : s.status ≡ AgentStatus.completed → Ended s
  failed : s.status ≡ AgentStatus.failed → truthy s.error_code ≡ true → Ended s
  waiting : s.status ≡ AgentStatus.waiting_approval → IsWaiting s → Ended s

Ended-rule : (config : AgentRuntimeConfig) → Rule config (λ n s. Unit) Ended
Ended-rule config = record { keep = λ node s s' step _. keep node s s' step }
  where
    led :
        (d : AgentDecision) (t : AgentState) (next : Next)
        → Decided d t next
        → Routed (λ n u. Unit) Ended t next
    led d t _ (done p) = completed p
    led d t _ (calls c p q) = tt
    led d t _ (thinks p) = tt

    run :
        (s : AgentState) (call : ToolCallState) (r : ToolExecutionResult) (t : AgentState)
        (next : Next)
        → Executed s call r t next
        → Routed (λ n u. Unit) Ended t next
    run s call r _ _ (parks p) = waiting refl (record {
      call = call;
      request = _;
      pending = refl;
      requested = refl;
      same_id = refl;
      same_name = refl;
      same_arguments = refl;
      undecided = refl;
      not_resumed = refl;
    })
    run s call r _ _ (fails code message p q h) = unfold failed_update in failed refl (rw h refl)
    run s call r _ _ (returns p q) = tt

    keep :
        (node : Node) (s s' : AgentState)
        → Step config s s' node
        → Routed (λ n u. Unit) Ended s' (route node s')
    keep _ s s' (exceeded full e) = rw e (unfold route failed_update in failed refl refl)
    keep _ s s' (decided d room named e) = rw e (led d _ _ (after_decision-Decided s d))
    keep _ s s' (executed call r pending e) =
        rw e (run s call r _ _ (after_execution-Executed s call r))

-- The messages and the tool results only grow.
pub record Extends (s t : AgentState) : Type 0 where
  pub new_messages : List AgentMessage
  pub new_results : List Json
  pub messages : t.messages ≡ s.messages ++ new_messages
  pub tool_results : t.tool_results ≡ s.tool_results ++ new_results

Extends-refl : (s : AgentState) → Extends s s
Extends-refl s = record {
  new_messages = [];
  new_results = [];
  messages = sym (append-nil s.messages);
  tool_results = sym (append-nil s.tool_results);
}

Extends-append :
    (s t u : AgentState) (ms : List AgentMessage) (rs : List Json)
    → Extends s t
    → u.messages ≡ t.messages ++ ms
    → u.tool_results ≡ t.tool_results ++ rs
    → Extends s u
Extends-append s t u ms rs x p q = record {
  new_messages = x.new_messages ++ ms;
  new_results = x.new_results ++ rs;
  messages = p ∙ ap (λ l. l ++ ms) x.messages ∙ append_assoc s.messages x.new_messages ms;
  tool_results =
      q ∙ ap (λ l. l ++ rs) x.tool_results ∙ append_assoc s.tool_results x.new_results rs;
}

messages-with_message :
    (ms : List AgentMessage) (m : Option AgentMessage)
    → (more : List AgentMessage) × (with_message ms m ≡ ms ++ more)
messages-with_message ms none = ([], sym (append-nil ms))
messages-with_message ms (some m) = (m ∷ [], refl)

Extends-rule :
    (config : AgentRuntimeConfig) (first : AgentState)
    → Rule config (λ n s. Extends first s) (Extends first)
Extends-rule config first = record { keep = keep }
  where
    both :
        (t : AgentState) (next : Next)
        → Extends first t
        → Routed (λ n u. Extends first u) (Extends first) t next
    both t finish x = x
    both t (goto n) x = x

    run :
        (s : AgentState) (call : ToolCallState) (r : ToolExecutionResult) (t : AgentState)
        (next : Next)
        → Executed s call r t next
        → Extends first s
        → Extends first t
    run s call r _ _ (parks p) x =
        Extends-append first s _ [] [] x (sym (append-nil s.messages))
          (sym (append-nil s.tool_results))
    run s call r _ _ (fails code message p q h) x =
        Extends-append first s _ [] (r.result ∷ []) x
          (unfold failed_update in sym (append-nil s.messages)) (unfold failed_update in refl)
    run s call r _ _ (returns p q) x =
        Extends-append first s _ [] (r.result ∷ []) x (sym (append-nil s.messages)) refl

    keep :
        (node : Node) (s s' : AgentState)
        → Step config s s' node
        → Extends first s
        → Routed (λ n u. Extends first u) (Extends first) s' (route node s')
    keep _ s s' (exceeded full e) x = both s' (route agent s') (
        rw e (
          unfold failed_update in
          record {
            new_messages = x.new_messages;
            new_results = x.new_results;
            messages = x.messages;
            tool_results = x.tool_results;
          }))
    keep _ s s' (decided d room named e) x =
        let (ms, added) = messages-with_message s.messages d.assistant_message in
        both s' (route agent s') (
          rw e (
            Extends-append first s (after_decision s d) ms [] x (unfold after_decision in added)
              (unfold after_decision in sym (append-nil s.tool_results))))
    keep _ s s' (executed call r pending e) x =
        both s' (route tool s') (rw e (run s call r _ _ (after_execution-Executed s call r) x))

module _ {W : Type 0} (env : Environment W) (config : AgentRuntimeConfig) where
  -- A run of the graph that returns has completed, or failed with an error code, or waits for the
  -- approval of its pending tool call by a request with that call's id, name and arguments.
  pub invoke-Ended :
      (limit : ℕ) (s : AgentState) (w : W) {final : AgentState}
      → (invoke env config limit s w).0 ≡ ok final
      → Ended final
  unfolding invoke
  invoke-Ended limit s w h =
      run_graph_rule env config (Ended-rule config) limit (route_after_start s) s w tt h

  -- A run of the graph that returns only adds messages and tool results, at the end.
  pub invoke-Extends :
      (limit : ℕ) (s : AgentState) (w : W) {final : AgentState}
      → (invoke env config limit s w).0 ≡ ok final
      → Extends s final
  unfolding invoke
  invoke-Extends limit s w h =
      run_graph_rule env config (Extends-rule config s) limit (route_after_start s) s w
        (Extends-refl s) h
