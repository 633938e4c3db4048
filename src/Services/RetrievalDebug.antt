-- ===== src/Services/RetrievalDebug.antt =====
-- backend/app/services/retrieval_debug.py: one retrieval with its rows, and the evaluation of a
-- dataset. The embedder, the vector store, the tables and the match of the full-text search, the HTTP client of the reranker, the
-- floats, the tables of Unicode and the digests are parameters. Observations are not modelled.
pub mod Shown
pub mod Candidates
pub mod Ranked
pub mod Evaluate
pub mod Evaluated
mod Tests
use ai_agent_hub.Common.{
  ℕ, suc, String, Option, none, some, List, [], ◌∷◌, map, ◌==◌, text_eq, find, length,
}
use ai_agent_hub.Common.Int.{ℤ}
use ai_agent_hub.Common.Exec.{Exec, pure, ◌>>=◌}
use ai_agent_hub.Common.Result.{Result, ok, err}
use ai_agent_hub.Common.Text.{Text, codes, join}
use ai_agent_hub.Rag.Contracts.{Uuid, RetrievedChunk}
use ai_agent_hub.Rag.Evaluation.{
  Arithmetic, Alphabet, CaseEvaluation, evaluate_case, summarize_cases, summarize_answer_metrics,
}
use ai_agent_hub.Rag.Fusion.{Floats, RrFusion}
use ai_agent_hub.Rag.Reranker.{
  RerankedChunk, RerankError, reranker_error, RerankerSettings, Scores, PostOutcome, rerank,
}
use ai_agent_hub.Rag.Retrievers.{
  RetrieverError, retrieval_error, VectorSearch, HybridRetrievedChunk, Retriever, retrieve_dense,
  retrieve_hybrid,
}
use ai_agent_hub.Rag.Sparse.{FullTextSearch, retrieve_sparse}
use ai_agent_hub.Services.KnowledgeBases.{KnowledgeBase, get_owned}
use ai_agent_hub.Services.Store.{AppError}

pub data RetrievalMode : Type 0 where
  dense sparse hybrid rerank_hybrid : RetrievalMode

pub record DebugRequest : Type 0 where
  pub query : Text
  pub mode : RetrievalMode
  pub top_k : ℤ
  pub candidate_k : ℤ

pub record DebugItem (S : Type 0) : Type 0 where
  pub chunk_id : Text
  pub document_id : Text
  pub filename : Text
  pub page_number : ℕ
  pub snippet : Text
  pub dense_score : Option S
  pub sparse_score : Option S
  pub fusion_score : Option S
  pub rerank_score : Option S
  pub final_rank : ℕ

pub record DebugResponse (S : Type 0) : Type 0 where
  pub query : Text
  pub mode : RetrievalMode
  pub candidate_k : ℤ
  pub items : List (DebugItem S)

-- What `_retrieve_items` may raise.
pub data DebugFailure : Type 0 where
  retriever_failed : RetrieverError → DebugFailure
  reranker_failed : RerankError → DebugFailure

abbrev pub app : String → String → ℕ → AppError
app code message status_code = record { code = code; message = message; status_code = status_code }

abbrev pub unknown_knowledge_base : AppError
unknown_knowledge_base = app "KNOWLEDGE_BASE_NOT_FOUND" "Knowledge base was not found" 404

-- The `except` clauses of `debug`
unfoldable pub debug_error : DebugFailure → AppError
debug_error (reranker_failed (reranker_error code message)) = app "RERANKER_FAILED" message 502
debug_error (retriever_failed (retrieval_error message)) = app "RETRIEVAL_DEBUG_FAILED" message 422
debug_error _ = app "RETRIEVAL_DEBUG_FAILED" "Retrieval debug failed" 502

-- `[f(chunk, rank) for rank, chunk in enumerate(chunks, first)]`
abbrev pub enumerate {ℓ κ} : {A : Type ℓ} {B : Type κ} → (A → ℕ → B) → ℕ → List A → List B
enumerate f first [] = []
enumerate f first (x ∷ xs) = f x first ∷ enumerate f (suc first) xs

module _ {S : Type 0} where
  -- `_basic_item`
  unfoldable pub basic_item : Option S → Option S → RetrievedChunk S → ℕ → DebugItem S
  basic_item dense_score sparse_score chunk rank = record {
    chunk_id = chunk.chunk_id;
    document_id = chunk.document_id;
    filename = chunk.filename;
    page_number = chunk.page_number;
    snippet = chunk.text;
    dense_score = dense_score;
    sparse_score = sparse_score;
    fusion_score = none;
    rerank_score = none;
    final_rank = rank;
  }

  abbrev pub dense_item : RetrievedChunk S → ℕ → DebugItem S
  dense_item chunk rank = basic_item (some chunk.score) none chunk rank

  abbrev pub sparse_item : RetrievedChunk S → ℕ → DebugItem S
  sparse_item chunk rank = basic_item none (some chunk.score) chunk rank

  -- `_hybrid_item`
  unfoldable pub hybrid_item : HybridRetrievedChunk S → ℕ → DebugItem S
  hybrid_item h rank = record {
    chunk_id = h.chunk.chunk_id;
    document_id = h.chunk.document_id;
    filename = h.chunk.filename;
    page_number = h.chunk.page_number;
    snippet = h.chunk.text;
    dense_score = h.dense_score;
    sparse_score = h.sparse_score;
    fusion_score = some h.fusion_score;
    rerank_score = none;
    final_rank = rank;
  }

  abbrev pub dense_score_of : Option (HybridRetrievedChunk S) → Option S
  dense_score_of none = none
  dense_score_of (some h) = h.dense_score

  abbrev pub sparse_score_of : Option (HybridRetrievedChunk S) → Option S
  sparse_score_of none = none
  sparse_score_of (some h) = h.sparse_score

  abbrev pub fusion_score_of : Option (HybridRetrievedChunk S) → Option S
  fusion_score_of none = none
  fusion_score_of (some h) = some h.fusion_score

  -- `_reranked_item`
  unfoldable pub reranked_item : Option (HybridRetrievedChunk S) → RerankedChunk S → ℕ → DebugItem S
  reranked_item h r rank = record {
    chunk_id = r.chunk.chunk_id;
    document_id = r.chunk.document_id;
    filename = r.chunk.filename;
    page_number = r.chunk.page_number;
    snippet = r.chunk.text;
    dense_score = dense_score_of h;
    sparse_score = sparse_score_of h;
    fusion_score = fusion_score_of h;
    rerank_score = r.rerank_score;
    final_rank = rank;
  }

  -- `hybrid_by_id.get(chunk_id)`: the chunks of a hybrid retrieval have different ids.
  unfoldable pub by_id : List (HybridRetrievedChunk S) → Text → Option (HybridRetrievedChunk S)
  unfolding find
  by_id chunks id = find (λ h. h.chunk.chunk_id == id) chunks

-- What the service works with.
pub record DebugBackends (X S Vector : Type 0) : Type 0 where
  pub floats : Floats S
  pub scores : Scores S
  pub vectors : VectorSearch X S Vector
  pub full_text : FullTextSearch X S
  pub fusion : RrFusion S
  pub reranker : RerankerSettings
  pub post : Text → List Text → ℕ → X → PostOutcome × X
  pub retrieval_score_threshold : Option S

-- A step that may raise, with its error among those of the service.
abbrev pub lifting : {X E A : Type 0} → (E → DebugFailure) → Exec X E A → Exec X DebugFailure A
lifting f m x = lifted f (m x)
  where
    lifted : {X E A : Type 0} → (E → DebugFailure) → Result E A × X → Result DebugFailure A × X
    lifted f (ok a, x) = (ok a, x)
    lifted f (err e, x) = (err (f e), x)

module _ {X S Vector : Type 0} (b : DebugBackends X S Vector) where
  abbrev pub dense_retriever : Retriever X S
  unfolding retrieve_dense
  dense_retriever = retrieve_dense b.floats b.vectors

  abbrev pub sparse_retriever : Retriever X S
  unfolding retrieve_sparse
  sparse_retriever = retrieve_sparse b.floats b.full_text

  unfoldable pub retrieve_candidates :
      Uuid → DebugRequest → Exec X RetrieverError (List (HybridRetrievedChunk S))
  unfolding retrieve_hybrid dense_retriever sparse_retriever
  retrieve_candidates base payload =
      retrieve_hybrid b.floats dense_retriever sparse_retriever b.fusion base payload.query
        payload.top_k payload.candidate_k none none

  abbrev pub reranked_items :
      List (HybridRetrievedChunk S) → List (RerankedChunk S) → List (DebugItem S)
  reranked_items chunks rs =
      enumerate (λ r rank. reranked_item (by_id chunks r.chunk.chunk_id) r rank) 1 rs

  -- `_retrieve_items`
  unfoldable pub retrieve_items :
      Uuid → DebugRequest → RetrievalMode → Exec X DebugFailure (List (DebugItem S))
  unfolding retrieve_dense retrieve_sparse retrieve_candidates basic_item hybrid_item reranked_item
      by_id rerank
  retrieve_items base payload dense = do
    chunks ← lifting retriever_failed (
        retrieve_dense b.floats b.vectors base payload.query payload.top_k
          b.retrieval_score_threshold)
    pure (enumerate dense_item 1 chunks)
  retrieve_items base payload sparse = do
    chunks ←
        lifting retriever_failed
          (retrieve_sparse b.floats b.full_text base payload.query payload.top_k none)
    pure (enumerate sparse_item 1 chunks)
  retrieve_items base payload hybrid = do
    chunks ← lifting retriever_failed (retrieve_candidates base payload)
    pure (enumerate hybrid_item 1 chunks)
  retrieve_items base payload rerank_hybrid = do
    chunks ← lifting retriever_failed (retrieve_candidates base payload)
    rs ← lifting reranker_failed (
        rerank b.scores b.post b.reranker payload.query (map (λ h. h.chunk) chunks)
          (some payload.top_k))
    pure (reranked_items chunks rs)

  abbrev pub respond :
      DebugRequest
      → Result DebugFailure (List (DebugItem S)) × X
      → Result AppError (DebugResponse S) × X
  respond payload (err e, x) = (err (debug_error e), x)
  respond payload (ok items, x) = (
    ok (record {
      query = payload.query;
      mode = payload.mode;
      candidate_k = payload.candidate_k;
      items = items;
    }),
    x,
  )

  abbrev pub debug_found :
      DebugRequest → Option KnowledgeBase → X → Result AppError (DebugResponse S) × X
  debug_found payload none x = (err unknown_knowledge_base, x)
  debug_found payload (some base) x =
      respond payload (retrieve_items base.id payload payload.mode x)

  -- `debug`
  unfoldable pub debug :
      List KnowledgeBase → ℕ → ℕ → DebugRequest → Exec X AppError (DebugResponse S)
  unfolding get_owned debug_error retrieve_items
  debug bases user_id knowledge_base_id payload =
      debug_found payload (get_owned knowledge_base_id user_id bases)
