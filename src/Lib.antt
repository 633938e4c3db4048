-- ===== src/Lib.antt =====
-- AgentHub backend: a model of the Python program under backend/app, with what makes it correct.
--
-- The program and this library. A user's agent run is a LangGraph graph of two nodes: the agent node
-- asks a decision handler (a language model) and the tool node has a tool executor run the tool call
-- that was decided. `AgentRuntime` runs the graph and turns what is raised into a failed state. The
-- tool registry is the executor: it validates the arguments, holds back tools that need an approval,
-- runs the tool and keeps a record of the call. The agent service stores runs and approvals, and
-- resumes a run when its approval is given. Documents are ingested into chunks and vectors; the
-- retrievers find chunks, the fusion merges two rankings, and the context builder cuts them to a
-- budget. The short-term memory chooses the messages that an agent sees.
--
--   Agents.State, .Contracts   agents/state.py, agents/contracts.py: the state, decisions, results
--   Agents.Graph               agents/graph.py: agent_node, tool_node, the routes, invoke (ainvoke)
--   Agents.Runtime             agents/runtime.py: run, conclude (its except clauses)
--   Agents.Decisions           agents/llm_handler.py: decide, _parse_decision
--   Tools.Contracts, .Records  tools/registry.py, repositories/agent_runs.py: tools, rows of calls
--   Tools.Schema               tools/registry.py: _validate_arguments, _matches_type
--   Tools.Registry             tools/registry.py: __init__, register, the descriptors
--   Tools.Execution            tools/registry.py: execute, in the parts of its try block
--   Tools.Calculator           tools/calculator.py: execute, _evaluate
--   Tools.Sql                  tools/sql.py: __init__, execute, _prepare_query
--   Services.Store             models, repositories: rows of runs, approvals, conversations
--   Services.Agents            services/agents.py: run, approve, reject, resume (Lifecycle), and the
--                              agents themselves (Configuration)
--   Services.Ingestion         services/ingestion.py: process
--   Services.Documents         services/documents.py: upload, list, get, delete (Manage)
--   Services.Owned             the specification of rows that belong to users
--   Services.KnowledgeBases    services/knowledge_bases.py: create, get, update, delete
--   Services.Chat              services/chat.py, repositories/conversations.py
--   Services.RetrievalDebug    services/retrieval_debug.py: debug, evaluate (Evaluate)
--   Rag.Chunker                rag/chunkers/fixed.py: __init__, split
--   Rag.Context                rag/context/builder.py: __init__, build
--   Rag.Fusion                 rag/fusion/rrf.py: __init__, fuse
--   Rag.Retrievers             rag/retrievers/dense.py, hybrid.py: retrieve
--   Rag.Sparse                 rag/retrievers/sparse.py: retrieve
--   Rag.Evaluation             rag/evaluation/metrics.py: evaluate_case and the summaries
--   Rag.Reranker               rag/rerankers/cohere.py, base.py: rerank
--   Memory.ShortTerm           memory/short_term/policy.py: __init__, select
--   Common                     tests, lists, text, dictionaries, results and programs that raise
--
-- (Paths are under backend/app.) The graph runs over an `Environment`: the decision handler, the
-- tool executor, the cancel event and the deadline, on a world that it does not see. `execute` of
-- Tools.Execution has the type of such an executor, over the world of records, events and everything
-- that tools change. The agent service runs `run` of Agents.Runtime on that world.
--
-- How the program is written here. A function of the program is a function; a coroutine that
-- changes state or raises is an `Exec`, from a world to a result and a world; an exception is a
-- value. Integer arguments of constructors are ℤ, other integers ℕ. Ids and UUIDs are ℕ. Strings that
-- are compared or are keys are `String`; text that is measured is a list of code points (`Text`). A
-- float is its bit pattern in JSON, a whole number of units as a timeout, and an abstract type with
-- the operations that the code uses in the fusion. A key that is missing from the agent's state is
-- a field with the default that the code reads. `sorted` is an insertion sort, which is stable.
--
-- Bounds. LangGraph stops a graph after a number of nodes, which is the argument `limit`; two nodes
-- for each step and two more are enough. The loop of the chunker runs on fuel, the length of the
-- page, of which each round uses a character; `decimal` runs on the number and one. Everything else
-- is structural recursion.
--
-- Parameters, which stand for code outside the repository: the language models, sqlglot, `json`, the
-- tools' effects, the clock, `uuid4`, `ast.parse` and Python's numbers for the calculator, the object
-- storage, the vector store, the embedder, the match and the rank of a full-text search, the HTTP
-- client of the reranker, the recursion limit.
-- The database of the registry may refuse any statement; that of the services does not, but for a
-- null column in Services.KnowledgeBases and Services.Agents.Configuration and a commit in
-- Services.Documents. A service's rows change at once, except in Services.Ingestion and
-- Services.Documents, where commit and rollback are modelled.
--
-- Not modelled: logging, the times in observation events, HTTP routes and schemas, settings,
-- migrations, the clients of external services, the web frontend; the services for users and
-- long-term memories, the parsers, the two search tools and the sorted pages of knowledge bases.
pub mod Common
pub mod Rag
pub mod Memory
pub mod Agents
pub mod Tools
pub mod Services
