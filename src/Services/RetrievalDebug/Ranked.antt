-- ===== src/Services/RetrievalDebug/Ranked.antt =====
-- The rows of a retrieval.
use ai_agent_hub.Common.{
  ℕ, ◌≤◌, ◌≡◌, refl, ap, subst, Option, none, some, List, map, text_eq, arith, length,
}
use ai_agent_hub.Common.Int.{magnitude}
use ai_agent_hub.Common.Exec.{bind-eq-ok}
use ai_agent_hub.Common.Result.{Result, ok, err}
use ai_agent_hub.Rag.Contracts.{Uuid, RetrievedChunk}
use ai_agent_hub.Rag.Reranker.{RerankedChunk, rerank}
use ai_agent_hub.Rag.Reranker.Outcome.{rerank-IsReranked}
use ai_agent_hub.Rag.Retrievers.{
  RetrieverError, HybridRetrievedChunk, retrieve_dense, retrieve_hybrid,
}
use ai_agent_hub.Rag.Retrievers.Filtered.{retrieve_dense-IsRetrieved}
use ai_agent_hub.Rag.Sparse.{retrieve_sparse}
use ai_agent_hub.Services.KnowledgeBases.{KnowledgeBase, get_owned}
use ai_agent_hub.Services.RetrievalDebug.{
  RetrievalMode, dense, sparse, hybrid, rerank_hybrid, DebugRequest, DebugItem, DebugResponse,
  DebugFailure, retriever_failed, reranker_failed, enumerate, basic_item, dense_item, sparse_item,
  hybrid_item, reranked_item, by_id, DebugBackends, lifting, dense_retriever, sparse_retriever,
  retrieve_candidates, reranked_items, retrieve_items, respond, debug_found, debug,
}
use ai_agent_hub.Services.RetrievalDebug.Shown.{
  Rows, DenseRow, SparseRow, HybridRow, RerankedRow, Rows-enumerate, length-Rows, everything,
  lifting-eq, IsKnown,
}
use ai_agent_hub.Services.RetrievalDebug.Candidates.{
  reranked-IsKnown, reranked_shown, candidates_at_most, sparse_at_most,
}

module _ {X S Vector : Type 0} (b : DebugBackends X S Vector) where
  -- The hybrid retrieval that two of the modes begin with.
  abbrev pub candidates :
      Uuid → DebugRequest → X → Result RetrieverError (List (HybridRetrievedChunk S)) × X
  candidates base payload =
      retrieve_hybrid b.floats (dense_retriever b) (sparse_retriever b) b.fusion base payload.query
        payload.top_k payload.candidate_k none none

  -- The rows of a retrieval, by its mode: one for each chunk that the retriever of the mode returns.
  pub data Retrieves (base : Uuid) (payload : DebugRequest) (x : X) (items : List (DebugItem S))
      : RetrievalMode → Type 0 where
    dense_rows :
        (chunks : List (RetrievedChunk S))
        → (retrieve_dense b.floats b.vectors base payload.query payload.top_k
            b.retrieval_score_threshold x).0
          ≡ ok chunks
        → Rows DenseRow 1 chunks items
        → Retrieves base payload x items dense
    sparse_rows :
        (chunks : List (RetrievedChunk S))
        → (retrieve_sparse b.floats b.full_text base payload.query payload.top_k none x).0
          ≡ ok chunks
        → Rows SparseRow 1 chunks items
        → Retrieves base payload x items sparse
    hybrid_rows :
        (chunks : List (HybridRetrievedChunk S))
        → (candidates base payload x).0 ≡ ok chunks
        → Rows HybridRow 1 chunks items
        → Retrieves base payload x items hybrid
    reranked_rows :
        (chunks : List (HybridRetrievedChunk S)) (x' : X) (rs : List (RerankedChunk S))
        → candidates base payload x ≡ (ok chunks, x')
        → (rerank b.scores b.post b.reranker payload.query
            (map (λ h. h.chunk) chunks)
            (some payload.top_k)
            x').0
          ≡ ok rs
        → Rows (RerankedRow chunks) 1 rs items
        → Retrieves base payload x items rerank_hybrid

  -- What a retrieval shows: the rows of its mode, at most `top_k`.
  pub record IsShown (base : Uuid) (payload : DebugRequest) (x : X) (mode : RetrievalMode)
      (items : List (DebugItem S)) : Type 0 where
    pub rows : Retrieves base payload x items mode
    pub at_most : length items ≤ magnitude payload.top_k

  module _ (base : Uuid) (payload : DebugRequest) (x : X) where
    dense-IsShown :
        (chunks : List (RetrievedChunk S)) (items : List (DebugItem S))
        → (retrieve_dense b.floats b.vectors base payload.query payload.top_k
            b.retrieval_score_threshold x).0
          ≡ ok chunks
        → enumerate dense_item 1 chunks ≡ items
        → IsShown base payload x dense items
    unfolding basic_item
    dense-IsShown chunks items e same =
        let rows =
          Rows-enumerate dense_item DenseRow (λ c. Unit {0})
            (λ c rank u. ((refl, refl, refl), refl, refl, refl, refl)) 1 chunks
            (everything chunks) in
        let most =
          (retrieve_dense-IsRetrieved b.floats b.vectors base payload.query payload.top_k
            b.retrieval_score_threshold x chunks e).at_most in
        subst (IsShown base payload x dense) same (record {
          rows = dense_rows chunks e rows;
          at_most = omega (arith, most, length-Rows dense_item DenseRow 1 chunks _ rows);
        })

    sparse-IsShown :
        (chunks : List (RetrievedChunk S)) (items : List (DebugItem S))
        → (retrieve_sparse b.floats b.full_text base payload.query payload.top_k none x).0
          ≡ ok chunks
        → enumerate sparse_item 1 chunks ≡ items
        → IsShown base payload x sparse items
    unfolding basic_item
    sparse-IsShown chunks items e same =
        let rows =
          Rows-enumerate sparse_item SparseRow (λ c. Unit {0})
            (λ c rank u. ((refl, refl, refl), refl, refl, refl, refl)) 1 chunks
            (everything chunks) in
        let most = sparse_at_most b base payload x chunks e in
        subst (IsShown base payload x sparse) same (record {
          rows = sparse_rows chunks e rows;
          at_most = omega (arith, most, length-Rows sparse_item SparseRow 1 chunks _ rows);
        })

    hybrid-IsShown :
        (chunks : List (HybridRetrievedChunk S)) (items : List (DebugItem S))
        → (candidates base payload x).0 ≡ ok chunks
        → enumerate hybrid_item 1 chunks ≡ items
        → IsShown base payload x hybrid items
    unfolding hybrid_item retrieve_candidates
    hybrid-IsShown chunks items e same =
        let rows =
          Rows-enumerate hybrid_item HybridRow (λ c. Unit {0})
            (λ c rank u. ((refl, refl, refl), (refl, refl, refl), refl)) 1 chunks
            (everything chunks) in
        let most = candidates_at_most b base payload x chunks e in
        subst (IsShown base payload x hybrid) same (record {
          rows = hybrid_rows chunks e rows;
          at_most = omega (arith, most, length-Rows hybrid_item HybridRow 1 chunks _ rows);
        })

    reranked-IsShown :
        (chunks : List (HybridRetrievedChunk S)) (x' : X) (rs : List (RerankedChunk S))
        (items : List (DebugItem S))
        → candidates base payload x ≡ (ok chunks, x')
        → (rerank b.scores b.post b.reranker payload.query
            (map (λ h. h.chunk) chunks)
            (some payload.top_k)
            x').0
          ≡ ok rs
        → reranked_items b chunks rs ≡ items
        → IsShown base payload x rerank_hybrid items
    reranked-IsShown chunks x' rs items e ranked same =
        let f = λ (r : RerankedChunk S) (rank : ℕ).
          reranked_item (by_id chunks r.chunk.chunk_id) r rank in
        let (known, most) = reranked-IsKnown b chunks (magnitude payload.top_k) _ rs (
          rerank-IsReranked b.scores b.post b.reranker payload.query (map (λ h. h.chunk) chunks)
            (some payload.top_k) x' rs ranked) in
        let rows =
          Rows-enumerate f (RerankedRow chunks) (λ r. IsKnown chunks r.chunk.chunk_id)
            (reranked_shown b chunks) 1 rs known in
        subst (IsShown base payload x rerank_hybrid) same (record {
          rows = reranked_rows chunks x' rs e ranked rows;
          at_most = omega (arith, most, length-Rows f (RerankedRow chunks) 1 rs _ rows);
        })

    retrieve_items-IsShown :
        (mode : RetrievalMode) (items : List (DebugItem S))
        → (retrieve_items b base payload mode x).0 ≡ ok items
        → IsShown base payload x mode items
    unfolding retrieve_items retrieve_candidates
    retrieve_items-IsShown dense items h =
        let m =
          retrieve_dense b.floats b.vectors base payload.query payload.top_k
            b.retrieval_score_threshold in
        let (chunks, x1, e, h1) = bind-eq-ok (lifting retriever_failed m) _ x h in
        dense-IsShown chunks items (ap (λ p. p.0) (lifting-eq retriever_failed m x x1 chunks e)) cc
    retrieve_items-IsShown sparse items h =
        let m = retrieve_sparse b.floats b.full_text base payload.query payload.top_k none in
        let (chunks, x1, e, h1) = bind-eq-ok (lifting retriever_failed m) _ x h in
        sparse-IsShown chunks items (ap (λ p. p.0) (lifting-eq retriever_failed m x x1 chunks e)) cc
    retrieve_items-IsShown hybrid items h =
        let m = candidates base payload in
        let (chunks, x1, e, h1) = bind-eq-ok (lifting retriever_failed m) _ x h in
        hybrid-IsShown chunks items (ap (λ p. p.0) (lifting-eq retriever_failed m x x1 chunks e)) cc
    retrieve_items-IsShown rerank_hybrid items h =
        let m = candidates base payload in
        let (chunks, x1, e, h1) = bind-eq-ok (lifting retriever_failed m) _ x h in
        let n =
          rerank b.scores b.post b.reranker payload.query (map (λ h. h.chunk) chunks)
            (some payload.top_k) in
        let (rs, x2, e2, h2) = bind-eq-ok (lifting reranker_failed n) _ x1 h1 in
        reranked-IsShown chunks x1 rs items (lifting-eq retriever_failed m x x1 chunks e)
          (ap (λ p. p.0) (lifting-eq reranker_failed n x1 x2 rs e2)) cc

  -- A response of `debug`: the rows of the knowledge base of the user, for the query and the mode.
  pub record Responds (bases : List KnowledgeBase) (user_id knowledge_base_id : ℕ)
      (payload : DebugRequest) (x : X) (response : DebugResponse S) : Type 0 where
    pub base : KnowledgeBase
    pub owned : get_owned knowledge_base_id user_id bases ≡ some base
    pub shown : IsShown base.id payload x payload.mode response.items
    pub query : response.query ≡ payload.query
    pub mode : response.mode ≡ payload.mode

  respond-Responds :
      (payload : DebugRequest) (p : Result DebugFailure (List (DebugItem S)) × X)
      (response : DebugResponse S)
      → (respond b payload p).0 ≡ ok response
      → (p.0 ≡ ok response.items)
        × (response.query ≡ payload.query)
        × (response.mode ≡ payload.mode)
  respond-Responds payload (err e, x) response h = cc
  respond-Responds payload (ok items, x) response h =
      let same : items ≡ response.items = cc in (ap (λ i. ok i) same, cc, cc)

  -- A retrieval that succeeds shows at most `top_k` rows, one for each chunk that the retriever of its mode returns, in its order, ranked from 1, with
  -- the id and the text of the chunk. A dense or a sparse row has the score of its chunk and no other;
  -- a hybrid row has the scores of its hybrid chunk; and a reranked row has the score of the reranker,
  -- if any, with those of the hybrid chunk with its id.
  pub debug-IsShown :
      (bases : List KnowledgeBase) (user_id knowledge_base_id : ℕ) (payload : DebugRequest) (x : X)
      (response : DebugResponse S)
      → (debug b bases user_id knowledge_base_id payload x).0 ≡ ok response
      → Responds bases user_id knowledge_base_id payload x response
  unfolding debug
  debug-IsShown bases user_id knowledge_base_id payload x response h =
      by_base (get_owned knowledge_base_id user_id bases) refl h
    where
      by_base :
          (found : Option KnowledgeBase)
          → get_owned knowledge_base_id user_id bases ≡ found
          → (debug_found b payload found x).0 ≡ ok response
          → Responds bases user_id knowledge_base_id payload x response
      by_base none e r = cc
      by_base (some base) e r =
          let (items, query, mode) =
            respond-Responds payload (retrieve_items b base.id payload payload.mode x) response r in
          record {
            base = base;
            owned = e;
            shown = retrieve_items-IsShown base.id payload x payload.mode response.items items;
            query = query;
            mode = mode;
          }
