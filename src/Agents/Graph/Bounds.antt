-- ===== src/Agents/Graph/Bounds.antt =====
-- The graph ends: its nodes are bounded by `max_steps`, whatever the model and the tools answer.
use ai_agent_hub.Common.{
  ℕ, zero, suc, ◌+◌, ◌-◌, ◌*◌, ◌≤◌, ◌<◌, max, ◌≡◌, refl, ap, ◌≢◌, arith, Bool-cases, inl, inr,
}
use ai_agent_hub.Common.Result.{Result, ok, err}
use ai_agent_hub.Common.Exec.{pure, raise}
use ai_agent_hub.Agents.State.{AgentState}
use ai_agent_hub.Agents.Contracts.{AgentRuntimeConfig, AgentDecision, NodeError, Environment}
use ai_agent_hub.Agents.Graph.{
  failed_update, after_execution, after_decision, Node, agent, tool, Next, goto, finish, GraphError,
  node_error, recursion_limit, run_node, route, route_after_start, run_graph, invoke,
}
use ai_agent_hub.Agents.Graph.Steps.{
  Step, exceeded, decided, executed, Decided, done, calls, thinks, Executed, parks, fails, returns,
  after_decision-Decided, after_execution-Executed, run_node-Step, Routed, Rule, run_graph_rule,
}

-- The nodes that may still run, the next one counted.
abbrev pub nodes_left : AgentRuntimeConfig → Node → AgentState → ℕ
nodes_left config agent s = 2 * (config.max_steps - s.step_count) + 1
nodes_left config tool s = 2 * (config.max_steps - s.step_count) + 2

step_count-after_decision :
    (s : AgentState) (d : AgentDecision) → (after_decision s d).step_count ≡ s.step_count + 1
unfolding after_decision
step_count-after_decision s d = refl

Step-nodes_left :
    (config : AgentRuntimeConfig) (node : Node) (s s' : AgentState)
    → Step config s s' node
    → Routed
        (λ n t. nodes_left config n t < nodes_left config node s)
        (λ t. Unit)
        s'
        (route node s')
Step-nodes_left config _ s s' (exceeded full e) = rw e (unfold route failed_update in tt)
Step-nodes_left config _ s s' (decided d room named e) =
    rw e (led (route agent (after_decision s d)) (after_decision-Decided s d))
  where
    led :
        (next : Next)
        → Decided d (after_decision s d) next
        → Routed
            (λ n t. nodes_left config n t < nodes_left config agent s)
            (λ t. Unit)
            (after_decision s d)
            next
    led _ (done p) = tt
    led _ (calls c p q) = omega (arith, step_count-after_decision s d)
    led _ (thinks p) = omega (arith, step_count-after_decision s d)
Step-nodes_left config _ s s' (executed call r pending e) = rw e (
    led (after_execution s call r) (route tool (after_execution s call r))
      (after_execution-Executed s call r))
  where
    led :
        (t : AgentState) (next : Next)
        → Executed s call r t next
        → Routed (λ n t. nodes_left config n t < nodes_left config tool s) (λ t. Unit) t next
    led _ _ (parks p) = tt
    led _ _ (fails code message p q t) = tt
    led _ _ (returns p q) = omega arith

-- A state whose decisions are counted up to `bound`.
Step-step_count :
    (config : AgentRuntimeConfig) (bound : ℕ)
    → config.max_steps ≤ bound
    → Rule config (λ n t. t.step_count ≤ bound) (λ t. t.step_count ≤ bound)
Step-step_count config bound h = record { keep = keep }
  where
    both :
        (t : AgentState) (next : Next)
        → t.step_count ≤ bound
        → Routed (λ n u. u.step_count ≤ bound) (λ u. u.step_count ≤ bound) t next
    both t finish k = k
    both t (goto n) k = k

    keep :
        (node : Node) (s s' : AgentState)
        → Step config s s' node
        → s.step_count ≤ bound
        → Routed (λ n u. u.step_count ≤ bound) (λ u. u.step_count ≤ bound) s' (route node s')
    keep _ s s' (exceeded full e) k = both s' (route agent s') (rw e (unfold failed_update in k))
    keep _ s s' (decided d room named e) k =
        both s' (route agent s') (rw e (omega (arith, step_count-after_decision s d)))
    keep _ s s' (executed call r pending e) k =
        both s' (route tool s') (rw e (unfold after_execution in ground arith))

module _ {W : Type 0} (env : Environment W) (config : AgentRuntimeConfig) where
  -- As many nodes as are left suffice.
  run_graph-ne-recursion_limit :
      (limit : ℕ) (node : Node) (s : AgentState) (w : W)
      → nodes_left config node s ≤ limit
      → (run_graph env config limit node s w).0 ≢ err recursion_limit
  unfolding run_graph
  run_graph-ne-recursion_limit zero agent s w h e = omega arith
  run_graph-ne-recursion_limit zero tool s w h e = omega arith
  run_graph-ne-recursion_limit (suc limit) node s w h e = elim (Bool-cases (env.is_expired w)) [
    | inl late ↦ let e1 = rw late at e in cc
    | inr early ↦
        ran (λ n t v. run_graph-ne-recursion_limit limit n t v) (run_node env config node s w) refl
          (rw early at e)
  ]
    where
      routed :
          ((n : Node) (t : AgentState) (v : W)
            → nodes_left config n t ≤ limit
            → (run_graph env config limit n t v).0 ≢ err recursion_limit)
          → (t : AgentState) (v : W) (next : Next)
          → Routed (λ n u. nodes_left config n u < nodes_left config node s) (λ u. Unit) t next
          → (let r : Result GraphError AgentState × W = elim next [
            | finish ↦ pure t v
            | goto n ↦ run_graph env config limit n t v
          ] in
              r.0)
            ≢ err recursion_limit
      routed ih t v finish q e1 = cc
      routed ih t v (goto n) q e1 = ih n t v (omega arith) e1

      ran :
          ((n : Node) (t : AgentState) (v : W)
            → nodes_left config n t ≤ limit
            → (run_graph env config limit n t v).0 ≢ err recursion_limit)
          → (r : Result NodeError AgentState × W) → run_node env config node s w ≡ r
          → (let out : Result GraphError AgentState × W = elim r.0 [
            | err x ↦ raise (node_error x) r.1
            | ok t ↦ elim (route node t) [
              | finish ↦ pure t r.1
              | goto n ↦ run_graph env config limit n t r.1
            ]
          ] in
              out.0)
            ≢ err recursion_limit
      ran ih (err x, v) same e1 = cc
      ran ih (ok t, v) same e1 =
          routed ih t v (route node t)
            (Step-nodes_left config node s t (
              run_node-Step env config node s w
                (ap (λ (r : Result NodeError AgentState × W). r.0) same)))
            e1

  -- The graph runs at most two nodes for each step that is left and two more: with a limit of
  -- that many it does not meet the limit, whatever the model and the tools answer.
  pub invoke-ne-recursion_limit :
      (limit : ℕ) (s : AgentState) (w : W)
      → 2 * (config.max_steps - s.step_count) + 2 ≤ limit
      → (invoke env config limit s w).0 ≢ err recursion_limit
  unfolding invoke
  invoke-ne-recursion_limit limit s w h =
      run_graph-ne-recursion_limit limit (route_after_start s) s w (left (route_after_start s))
    where
      left : (node : Node) → nodes_left config node s ≤ limit
      left agent = omega arith
      left tool = omega arith

  -- A run of the graph that returns has a step count of at most the larger of `max_steps` and the
  -- step count that it started with.
  pub step_count-invoke :
      (limit : ℕ) (s : AgentState) (w : W) {final : AgentState}
      → (invoke env config limit s w).0 ≡ ok final
      → final.step_count ≤ max config.max_steps s.step_count
  unfolding invoke
  step_count-invoke limit s w h =
      run_graph_rule env config
        (Step-step_count config (max config.max_steps s.step_count) (omega arith)) limit
        (route_after_start s) s w (omega arith) h
