-- ===== src/Services/RetrievalDebug/Candidates.antt =====
-- The ids of reranked chunks, and how many chunks the modes give.
use ai_agent_hub.Common.{
  ℕ, ◌≤◌, ◌≡◌, refl, ap, none, List, [], ◌∷◌, map, text_eq, arith, length, length-map, take,
  length-take, All, All-take, All-over_map,
}
use ai_agent_hub.Common.Int.{nonpositive, magnitude}
use ai_agent_hub.Common.Exec.{bind-eq-ok}
use ai_agent_hub.Common.Result.{ok}
use ai_agent_hub.Common.Sort.{sort_by}
use ai_agent_hub.Common.Text.{is_blank, strip}
use ai_agent_hub.Agents.State.{Items}
use ai_agent_hub.Rag.Contracts.{Uuid, RetrievedChunk}
use ai_agent_hub.Rag.Reranker.{RerankedChunk, PostOutcome, kept}
use ai_agent_hub.Rag.Reranker.Picks.{IsPicked, ended, full, pick, IsPicked-at_most}
use ai_agent_hub.Rag.Reranker.Outcome.{IsReranked, no_chunks, picked, fell_back}
use ai_agent_hub.Rag.Retrievers.{HybridRetrievedChunk, raise_when}
use ai_agent_hub.Rag.Retrievers.Fused.{retrieve_hybrid-IsHybrid}
use ai_agent_hub.Rag.Sparse.{
  above, length-above_le, retrieve_sparse, statement, ranks_before, selected,
}
use ai_agent_hub.Services.RetrievalDebug.{
  DebugRequest, reranked_item, by_id, DebugBackends, dense_retriever, sparse_retriever,
  retrieve_candidates,
}
use ai_agent_hub.Services.RetrievalDebug.Shown.{RerankedRow, IsKnown, chunks-IsKnown, All-get_elem?}

module _ {X S Vector : Type 0} (b : DebugBackends X S Vector) where
  picked-IsKnown :
      (chunks : List (HybridRetrievedChunk S)) (room : ℕ) (seen : List ℕ) (items : Items)
      (rs : List (RerankedChunk S))
      → IsPicked b.scores (map (λ h. h.chunk) chunks) room seen items rs
      → All (λ r. IsKnown chunks r.chunk.chunk_id) rs
  picked-IsKnown chunks _ _ _ _ (ended room seen) = tt
  picked-IsKnown chunks _ _ _ _ (full seen items) = tt
  picked-IsKnown chunks _ _ _ _
        (pick room seen fields items n c s rs index new at score finite others) =
      (
        All-get_elem? (λ c. IsKnown chunks c.chunk_id) (map (λ h. h.chunk) chunks) n c
            (chunks-IsKnown chunks) at,
        picked-IsKnown chunks room (n ∷ seen) items rs others,
      )

  pub reranked-IsKnown :
      (chunks : List (HybridRetrievedChunk S)) (k : ℕ) (outcome : PostOutcome)
      (rs : List (RerankedChunk S))
      → IsReranked b.scores b.reranker (map (λ h. h.chunk) chunks) k outcome rs
      → All (λ r. IsKnown chunks r.chunk.chunk_id) rs × (length rs ≤ k)
  reranked-IsKnown chunks k outcome _ (no_chunks none_left) = (tt, omega arith)
  reranked-IsKnown chunks k outcome _ (picked status body rs key answered accepted is_read) = (
    picked-IsKnown chunks k [] is_read.items rs is_read.picked,
    IsPicked-at_most b.scores (map (λ h. h.chunk) chunks) k [] is_read.items rs is_read.picked,
  )
  reranked-IsKnown chunks k outcome _ (fell_back enabled fails) =
      let front = take k (map (λ (h : HybridRetrievedChunk S). h.chunk) chunks) in
      (
        All-over_map (λ (r : RerankedChunk S). IsKnown chunks r.chunk.chunk_id) kept front
            (All-take (λ (c : RetrievedChunk S). IsKnown chunks c.chunk_id) k
              (map (λ h. h.chunk) chunks) (chunks-IsKnown chunks)),
        omega (
          arith,
          length-map kept front,
          length-take k (map (λ (h : HybridRetrievedChunk S). h.chunk) chunks),
        ),
      )

  pub reranked_shown :
      (chunks : List (HybridRetrievedChunk S)) (r : RerankedChunk S) (rank : ℕ)
      → IsKnown chunks r.chunk.chunk_id
      → RerankedRow chunks r rank (reranked_item (by_id chunks r.chunk.chunk_id) r rank)
  unfolding reranked_item by_id
  reranked_shown chunks r rank (h, e) = rw e ((refl, refl, refl), refl, h, refl, (refl, refl, refl))

  pub candidates_at_most :
      (base : Uuid) (payload : DebugRequest) (x : X) (chunks : List (HybridRetrievedChunk S))
      → (retrieve_candidates b base payload x).0 ≡ ok chunks
      → length chunks ≤ magnitude payload.top_k
  unfolding retrieve_candidates dense_retriever sparse_retriever
  candidates_at_most base payload x chunks h =
      (retrieve_hybrid-IsHybrid b.floats (dense_retriever b) (sparse_retriever b) b.fusion base
        payload.query payload.top_k payload.candidate_k none none x chunks h).at_most

  pub sparse_at_most :
      (base : Uuid) (payload : DebugRequest) (x : X) (chunks : List (RetrievedChunk S))
      → (retrieve_sparse b.floats b.full_text base payload.query payload.top_k none x).0 ≡ ok chunks
      → length chunks ≤ magnitude payload.top_k
  unfolding retrieve_sparse statement
  sparse_at_most base payload x chunks h =
      let (_, x1, _, h1) = bind-eq-ok (raise_when (is_blank payload.query) _) _ x h in
      let (_, x2, _, h2) = bind-eq-ok (raise_when (nonpositive payload.top_k) _) _ x1 h1 in
      let (rows, x4, e4, h4) = bind-eq-ok b.full_text.joined _ x2 h2 in
      let k = magnitude payload.top_k in
      let found = statement b.floats b.full_text base (strip payload.query) k rows in
      let same : above b.floats none found ≡ chunks = cc in
      omega (
        arith,
        ap (λ (l : List (RetrievedChunk S)). length l) same,
        length-above_le b.floats none found,
        length-take k (
            sort_by (ranks_before b.floats)
              (selected b.floats b.full_text base (strip payload.query) rows)),
      )
