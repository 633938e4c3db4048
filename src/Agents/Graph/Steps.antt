-- ===== src/Agents/Graph/Steps.antt =====
-- The nodes as steps between states, and a rule for runs of the graph.
use ai_agent_hub.Common.{
  ℕ, zero, suc, ◌≤◌, ◌<◌, ◌≡◌, refl, ap, subst, String, Bool, true, false, Option, none, some,
  arith, leb, leb→le, ◌==◌, string_eq, Bool-cases, inl, inr,
}
use ai_agent_hub.Common.Result.{Result, ok, err}
use ai_agent_hub.Common.Exec.{pure, raise, bind-eq-ok}
use ai_agent_hub.Common.Dict.{Dict}
use ai_agent_hub.Agents.State.{AgentStatus, Json, AgentMessage, ToolCallState, AgentState}
use ai_agent_hub.Agents.Contracts.{
  AgentRuntimeConfig, AgentDecision, ToolExecutionResult, NodeError, Environment,
}
use ai_agent_hub.Agents.Graph.{
  truthy, or_else, parked, settled, failed_update, after_execution, after_decision, Node, agent,
  tool, Next, goto, finish, GraphError, node_error, check_cancelled, as_decision,
  validate_tool_call, agent_node, pending_call, tool_node, run_node, route, run_graph,
}

-- A tool call that may be handed to the tool node has an id and a name.
abbrev pub IsNamed : Option ToolCallState → Type 0
IsNamed none = Unit
IsNamed (some c) = (truthy c.call_id ≡ true) × (truthy c.name ≡ true)

-- How the nodes change the state when they return.
pub data Step (config : AgentRuntimeConfig) (s s' : AgentState) : Node → Type 0 where
  exceeded :
      config.max_steps ≤ s.step_count
      → s' ≡ failed_update s "MAX_STEPS_EXCEEDED" "Agent maximum step count exceeded"
      → Step config s s' agent
  decided :
      (d : AgentDecision)
      → s.step_count < config.max_steps
      → IsNamed d.tool_call
      → s' ≡ after_decision s d
      → Step config s s' agent
  executed :
      (call : ToolCallState) (r : ToolExecutionResult)
      → s.pending_tool_call ≡ some call
      → s' ≡ after_execution s call r
      → Step config s s' tool

module _ {W : Type 0} (env : Environment W) (config : AgentRuntimeConfig) where
  named :
      (c : Option ToolCallState) (w : W) → (validate_tool_call env config c w).0 ≡ ok tt → IsNamed c
  unfolding validate_tool_call
  named none w h = tt
  named (some c) w h = (ground arith, ground arith)

  pending :
      (s : AgentState) (w w' : W) (c : ToolCallState)
      → pending_call env config s w ≡ (ok c, w')
      → s.pending_tool_call ≡ some c
  pending s w w' c h = ground arith

  a_decision :
      (answer : Option AgentDecision) (w w' : W) (d : AgentDecision)
      → as_decision env config answer w ≡ (ok d, w')
      → answer ≡ some d
  a_decision answer w w' d h = ground arith

  pub agent_node-Step :
      (s : AgentState) (w : W) {s' : AgentState}
      → (agent_node env config s w).0 ≡ ok s'
      → Step config s s' agent
  unfolding agent_node
  agent_node-Step s w h =
      let (_, w1, _, h1) = bind-eq-ok (check_cancelled env config) _ w h in
      elim (Bool-cases (leb config.max_steps s.step_count)) [
        | inl full ↦ exceeded (leb→le _ _ full) (let h2 = rw full at h1 in cc)
        | inr room ↦
            let h2 = rw room at h1 in
            let (answer, w2, e2, h3) = bind-eq-ok (env.decide s) _ w1 h2 in
            let (d, w3, e3, h4) = bind-eq-ok (as_decision env config answer) _ w2 h3 in
            let (u, w4, e4, h5) = bind-eq-ok (validate_tool_call env config d.tool_call) _ w3 h4 in
            decided d (ground arith)
              (named d.tool_call w3 (ap (λ (r : Result NodeError (Unit {0}) × W). r.0) e4)) (cc)
      ]

  pub tool_node-Step :
      (s : AgentState) (w : W) {s' : AgentState}
      → (tool_node env config s w).0 ≡ ok s'
      → Step config s s' tool
  unfolding tool_node
  tool_node-Step s w h =
      let (_, w1, _, h1) = bind-eq-ok (check_cancelled env config) _ w h in
      let (call, w2, e2, h2) = bind-eq-ok (pending_call env config s) _ w1 h1 in
      let (r, w3, e3, h3) = bind-eq-ok (env.execute call s) _ w2 h2 in
      executed call r (pending s w1 w2 call e2) (cc)

  pub run_node-Step :
      (node : Node) (s : AgentState) (w : W) {s' : AgentState}
      → (run_node env config node s w).0 ≡ ok s'
      → Step config s s' node
  unfolding run_node
  run_node-Step agent s w h = agent_node-Step s w h
  run_node-Step tool s w h = tool_node-Step s w h

-- Where a decision leads.
pub data Decided (d : AgentDecision) (s' : AgentState) : Next → Type 0 where
  done : s'.status ≡ AgentStatus.completed → Decided d s' finish
  calls :
      (c : ToolCallState)
      → d.tool_call ≡ some c
      → s'.status ≡ AgentStatus.running
      → Decided d s' (goto tool)
  thinks : s'.status ≡ AgentStatus.running → Decided d s' (goto agent)

pub after_decision-Decided :
    (s : AgentState) (d : AgentDecision)
    → Decided d (after_decision s d) (route agent (after_decision s d))
unfolding after_decision route
after_decision-Decided s d = by_fields d.assistant_message d.tool_call d.done d.metadata
  where
    by_fields :
        (m : Option AgentMessage) (c : Option ToolCallState) (end : Bool) (metadata : Dict Json)
        → (let e : AgentDecision = record {
          assistant_message = m;
          tool_call = c;
          done = end;
          metadata = metadata;
        } in
            Decided e (after_decision s e) (route agent (after_decision s e)))
    by_fields m c true metadata = done refl
    by_fields m none false metadata = thinks refl
    by_fields m (some c) false metadata = calls c refl refl

-- Where a tool call leads, and the state that it leaves.
pub data Executed (s : AgentState) (call : ToolCallState) (r : ToolExecutionResult)
    : AgentState → Next → Type 0 where
  parks : r.approval_required ≡ true → Executed s call r (parked s call r) finish
  fails :
      (code message : String)
      → r.approval_required ≡ false
      → r.error_code ≡ some code
      → (code == "") ≡ false
      → Executed s call r (failed_update (settled s call r) code message) finish
  returns :
      r.approval_required ≡ false
      → truthy r.error_code ≡ false
      → Executed s call r (record (settled s call r) { status = AgentStatus.running }) (goto agent)

pub after_execution-Executed :
    (s : AgentState) (call : ToolCallState) (r : ToolExecutionResult)
    → Executed s call r (after_execution s call r) (route tool (after_execution s call r))
unfolding after_execution route
after_execution-Executed s call r =
    by_fields r.result r.error_code r.error_message r.approval_required r.approval_message
  where
    by_fields :
        (result : Json) (code message : Option String) (required : Bool) (reason : Option String)
        → (let t : ToolExecutionResult = record {
          result = result;
          error_code = code;
          error_message = message;
          approval_required = required;
          approval_message = reason;
        } in
            Executed s call t (after_execution s call t) (route tool (after_execution s call t)))
    by_fields result code message true reason = parks refl
    by_fields result none message false reason = returns refl refl
    by_fields result (some code) message false reason = elim (Bool-cases (code == "")) [
      | inl empty ↦ rw empty (returns refl (rw empty refl))
      | inr failing ↦
          rw failing (fails code (or_else message "Tool execution failed") refl refl failing)
    ]

-- What a predicate of nodes and states, and one of final states, say of a routed state.
abbrev pub Routed :
    (Node → AgentState → Type 0) → (AgentState → Type 0) → AgentState → Next → Type 0
Routed P Q s finish = Q s
Routed P Q s (goto n) = P n s

-- A predicate that each node keeps, and that gives the postcondition where the graph ends.
pub record Rule (config : AgentRuntimeConfig) (P : Node → AgentState → Type 0)
    (Q : AgentState → Type 0) : Type 0 where
  pub keep :
      (node : Node) (s s' : AgentState)
      → Step config s s' node
      → P node s
      → Routed P Q s' (route node s')

module _ {W : Type 0} (env : Environment W) (config : AgentRuntimeConfig)
    {P : Node → AgentState → Type 0} {Q : AgentState → Type 0} (rule : Rule config P Q) where
  -- A run of the graph that returns meets the postcondition.
  pub run_graph_rule :
      (limit : ℕ) (node : Node) (s : AgentState) (w : W) {final : AgentState}
      → P node s
      → (run_graph env config limit node s w).0 ≡ ok final
      → Q final
  unfolding run_graph
  run_graph_rule zero node s w p h = cc
  run_graph_rule (suc limit) node s w {final} p h = elim (Bool-cases (env.is_expired w)) [
    | inl late ↦ let h1 = rw late at h in cc
    | inr early ↦
        ran (λ n t v. run_graph_rule limit n t v) (run_node env config node s w) refl
          (rw early at h)
  ]
    where
      routed :
          ((n : Node) (t : AgentState) (v : W)
            → P n t
            → (run_graph env config limit n t v).0 ≡ ok final
            → Q final)
          → (t : AgentState) (v : W) (next : Next) → Routed P Q t next
          → (let r : Result GraphError AgentState × W = elim next [
            | finish ↦ pure t v
            | goto n ↦ run_graph env config limit n t v
          ] in
              r.0)
            ≡ ok final
          → Q final
      routed ih t v finish q e = subst Q (cc) q
      routed ih t v (goto n) q e = ih n t v q e

      ran :
          ((n : Node) (t : AgentState) (v : W)
            → P n t
            → (run_graph env config limit n t v).0 ≡ ok final
            → Q final)
          → (r : Result NodeError AgentState × W) → run_node env config node s w ≡ r
          → (let out : Result GraphError AgentState × W = elim r.0 [
            | err e ↦ raise (node_error e) r.1
            | ok t ↦ elim (route node t) [
              | finish ↦ pure t r.1
              | goto n ↦ run_graph env config limit n t r.1
            ]
          ] in
              out.0)
            ≡ ok final
          → Q final
      ran ih (err e, v) same h1 = cc
      ran ih (ok t, v) same h1 =
          routed ih t v (route node t)
            (rule.keep node s t
              (run_node-Step env config node s w
                (ap (λ (r : Result NodeError AgentState × W). r.0) same))
              p)
            h1
