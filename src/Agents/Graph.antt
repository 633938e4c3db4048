-- ===== src/Agents/Graph.antt =====
-- backend/app/agents/graph.py: the nodes and the edges of the graph.
-- LangGraph merges what a node returns into the state key by key; here a node returns the merged
-- state. It raises after `recursion_limit` nodes, which is a parameter.
pub mod Steps
pub mod Bounds
pub mod Endings
use ai_agent_hub.Common.{
  ℕ, zero, suc, ◌+◌, String, Bool, true, false, not, ◌&&◌, ◌||◌, Option, none, some, List, [], ◌∷◌,
  ◌++◌, reverse, leb, ◌==◌, string_eq, option_eq, if◌then◌else◌,
}
use ai_agent_hub.Common.Exec.{Exec, pure, raise, ◌>>=◌, ◌>>◌}
use ai_agent_hub.Common.Result.{ok, err}
use ai_agent_hub.Common.Dict.{update}
use ai_agent_hub.Agents.State.{
  AgentStatus, ToolCallStatus, ApprovalStatus, Json, AgentMessage, ToolCallState, ApprovalRequest,
  AgentState,
}
use ai_agent_hub.Agents.Contracts.{
  AgentRuntimeError, AgentRuntimeConfig, AgentDecision, ToolExecutionResult, NodeError,
  runtime_error, timed_out, unexpected, Environment,
}

-- `bool(text)`
abbrev pub truthy : Option String → Bool
truthy none = false
truthy (some s) = not (s == "")

-- `text or default`
abbrev pub or_else : Option String → String → String
or_else none d = d
or_else (some s) d = if s == "" then d else s

abbrev pub is_some {ℓ} : {A : Type ℓ} → Option A → Bool
is_some none = false
is_some (some a) = true

-- `status == "running"`
abbrev pub is_running : AgentStatus → Bool
is_running AgentStatus.running = true
is_running _ = false

unfoldable pub failed_update : AgentState → String → String → AgentState
failed_update s code message = record s {
  status = AgentStatus.failed;
  error_code = some code;
  error_message = some message;
}

-- `messages` with the message of a decision, if it has one
abbrev pub with_message : List AgentMessage → Option AgentMessage → List AgentMessage
with_message ms none = ms
with_message ms (some m) = ms ++ m ∷ []

abbrev pub with_call : List ToolCallState → Option ToolCallState → List ToolCallState
with_call cs none = cs
with_call cs (some c) = cs ++ c ∷ []

-- The loops over `reversed(updated_calls)` that change the first call with a given id, and stop.
unfoldable pub change_first :
    Option String → (ToolCallState → ToolCallState) → List ToolCallState → List ToolCallState
change_first call_id f [] = []
change_first call_id f (c ∷ cs) =
    if c.call_id == call_id then f c ∷ cs else c ∷ change_first call_id f cs

unfoldable pub change_last :
    Option String → (ToolCallState → ToolCallState) → List ToolCallState → List ToolCallState
unfolding change_first
change_last call_id f cs = reverse (change_first call_id f (reverse cs))

abbrev pub park : ToolCallState → ToolCallState
park c = record c { status = ToolCallStatus.waiting_approval }

abbrev pub settle : ToolExecutionResult → ToolCallState → ToolCallState
settle r c = record c {
  status = if truthy r.error_code then ToolCallStatus.failed else ToolCallStatus.completed;
  result = some r.result;
  error = if truthy r.error_message then r.error_message else c.error;
}

-- The update of `tool_node` where the tool needs an approval.
abbrev pub parked : AgentState → ToolCallState → ToolExecutionResult → AgentState
parked s call r = record s {
  tool_calls = change_last call.call_id park s.tool_calls;
  pending_tool_call = some call;
  approval_request = some (record {
    tool_call_id = call.call_id;
    tool_name = call.name;
    arguments = call.arguments;
    message = or_else r.approval_message "Tool approval is required";
    status = ApprovalStatus.pending;
    approval_id = none;
    expires_at = none;
  });
  resume_approval = false;
  status = AgentStatus.waiting_approval;
}

-- The part of its other two updates that they share.
abbrev pub settled : AgentState → ToolCallState → ToolExecutionResult → AgentState
settled s call r = record s {
  tool_calls = change_last call.call_id (settle r) s.tool_calls;
  tool_results = s.tool_results ++ r.result ∷ [];
  pending_tool_call = none;
  approval_request = none;
  approved_tool_call_id = none;
  resume_approval = false;
}

-- The update of `tool_node` by the result of the execution.
unfoldable pub after_execution : AgentState → ToolCallState → ToolExecutionResult → AgentState
unfolding failed_update change_last
after_execution s call r =
    if r.approval_required
    then parked s call r
    else if truthy r.error_code
    then failed_update (settled s call r) (or_else r.error_code "")
        (or_else r.error_message "Tool execution failed")
    else record (settled s call r) { status = AgentStatus.running }

-- The update of `agent_node` by a decision.
unfoldable pub after_decision : AgentState → AgentDecision → AgentState
unfolding update
after_decision s d = record s {
  messages = with_message s.messages d.assistant_message;
  tool_calls = with_call s.tool_calls d.tool_call;
  metadata = update s.metadata d.metadata;
  pending_tool_call = d.tool_call;
  step_count = s.step_count + 1;
  status = if d.done then AgentStatus.completed else AgentStatus.running;
}

abbrev pub agent_error : String → String → NodeError
agent_error code message = runtime_error (record { code = code; message = message })

pub data Node : Type 0 where
  agent tool : Node

pub data Next : Type 0 where
  goto : Node → Next
  finish : Next

unfoldable pub route_after_start : AgentState → Node
route_after_start s = if s.resume_approval && is_some s.pending_tool_call then tool else agent

unfoldable pub route_after_agent : AgentState → Next
route_after_agent s =
    if not (is_running s.status)
    then finish
    else if is_some s.pending_tool_call
    then goto tool
    else goto agent

unfoldable pub route_after_tool : AgentState → Next
route_after_tool s = if not (is_running s.status) then finish else goto agent

unfoldable pub route : Node → AgentState → Next
unfolding route_after_agent route_after_tool
route agent = route_after_agent
route tool = route_after_tool

-- What `ainvoke` may raise: what a node raises, or that the nodes are too many.
pub data GraphError : Type 0 where
  node_error : NodeError → GraphError
  recursion_limit : GraphError

module _ {W : Type 0} (env : Environment W) (config : AgentRuntimeConfig) where
  unfoldable pub check_cancelled : Exec W NodeError (Unit {0})
  check_cancelled w =
      if env.is_cancelled w
      then raise (agent_error "AGENT_CANCELLED" "Agent run was cancelled") w
      else pure tt w

  -- The check that `decide` returned a decision.
  abbrev pub as_decision : Option AgentDecision → Exec W NodeError AgentDecision
  as_decision none =
      raise (agent_error "INVALID_AGENT_DECISION" "Agent step handler returned an invalid decision")
  as_decision (some d) = pure d

  unfoldable pub validate_tool_call : Option ToolCallState → Exec W NodeError (Unit {0})
  validate_tool_call none = pure tt
  validate_tool_call (some c) =
      if not (truthy c.call_id) || not (truthy c.name)
      then raise (agent_error "INVALID_TOOL_CALL" "Tool call requires call_id and name")
      else pure tt

  unfoldable pub agent_node : AgentState → Exec W NodeError AgentState
  unfolding check_cancelled validate_tool_call failed_update after_decision
  agent_node s = do
    check_cancelled
    if leb config.max_steps s.step_count
        then pure (failed_update s "MAX_STEPS_EXCEEDED" "Agent maximum step count exceeded")
        else do
          answer ← env.decide s
          d ← as_decision answer
          validate_tool_call d.tool_call
          pure (after_decision s d)

  abbrev pub pending_call : AgentState → Exec W NodeError ToolCallState
  pending_call s = elim s.pending_tool_call [
    | none ↦ raise (agent_error "TOOL_CALL_MISSING" "Agent tool node has no pending tool call")
    | some c ↦ pure c
  ]

  unfoldable pub tool_node : AgentState → Exec W NodeError AgentState
  unfolding check_cancelled after_execution
  tool_node s = do
    check_cancelled
    call ← pending_call s
    r ← env.execute call s
    pure (after_execution s call r)

  unfoldable pub run_node : Node → AgentState → Exec W NodeError AgentState
  unfolding agent_node tool_node
  run_node agent = agent_node
  run_node tool = tool_node

  -- The graph from a node on; the deadline is looked at before each node.
  unfoldable pub run_graph : ℕ → Node → AgentState → Exec W GraphError AgentState
  unfolding run_node route
  run_graph zero node s w = raise recursion_limit w
  run_graph (suc limit) node s w =
      if env.is_expired w
      then raise (node_error timed_out) w
      else (let (r, w') = run_node node s w in
          elim r [
            | err e ↦ raise (node_error e) w'
            | ok s' ↦ elim (route node s') [
              | finish ↦ pure s' w'
              | goto n ↦ run_graph limit n s' w'
            ]
          ])

  -- `ainvoke`
  unfoldable pub invoke : ℕ → AgentState → Exec W GraphError AgentState
  unfolding run_graph route_after_start
  invoke limit s = run_graph limit (route_after_start s) s
