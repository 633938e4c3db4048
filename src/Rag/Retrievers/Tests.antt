-- ===== src/Rag/Retrievers/Tests.antt =====
-- Retrievals from a small store of points, with whole numbers for scores.
use ai_agent_hub.Common.{ℕ, ◌+◌, ◌≡◌, refl, none, some, List, [], ◌∷◌, map}
use ai_agent_hub.Common.Int.{pos}
use ai_agent_hub.Common.Result.{Result, ok, err}
use ai_agent_hub.Common.Exec.{pure}
use ai_agent_hub.Common.Text.{Text, codes}
use ai_agent_hub.Rag.Contracts.{RetrievedChunk}
use ai_agent_hub.Rag.Fusion.Samples.{numbers, fusion, dense, sparse}
use ai_agent_hub.Rag.Retrievers.{
  RetrieverError, SearchResult, VectorSearch, HybridRetrievedChunk, Retriever, retrieve_dense,
  retrieve_hybrid,
}
use ai_agent_hub.Rag.Retrievers.Fused.{IsHybrid, retrieve_hybrid-IsHybrid}

abbrev point : Text → ℕ → SearchResult ℕ
point id score = record {
  point_id = id;
  score = score;
  payload = record {
    chunk_id = none;
    document_id = some (codes "d");
    filename = none;
    page_number = none;
    text = some (codes "t");
    start_char = none;
    end_char = some 1;
  };
}

abbrev service : VectorSearch ℕ ℕ ℕ
service = record {
  embed = λ query x. (ok 7, x + 1);
  search = λ base vector limit x.
      (ok (point (codes "a") 1 ∷ point (codes "a") 1 ∷ point (codes "b") 0 ∷ []), x + 1);
}

program : Unit {0}
unfolding retrieve_dense retrieve_hybrid
program = tt

abbrev found : Result RetrieverError (List (RetrievedChunk ℕ)) → List (RetrievedChunk ℕ)
found (ok chunks) = chunks
found (err e) = []

abbrev chunks : List (RetrievedChunk ℕ)
unfolding program
chunks = found (retrieve_dense numbers service 2 (codes "q") (pos 3) (some 1) 0).0

retrieves : (retrieve_dense numbers service 2 (codes "q") (pos 3) (some 1) 0).0 ≡ ok chunks
unfolding program
retrieves = refl

one_is_kept : map (λ c. c.chunk_id) chunks ≡ codes "a" ∷ []
unfolding program
one_is_kept = refl

dense_retriever : Retriever ℕ ℕ
dense_retriever base query top_k threshold = pure dense

sparse_retriever : Retriever ℕ ℕ
sparse_retriever base query top_k threshold = pure sparse

abbrev hybrid : Result RetrieverError (List (HybridRetrievedChunk ℕ))
unfolding program dense_retriever sparse_retriever
hybrid =
    (retrieve_hybrid numbers dense_retriever sparse_retriever fusion 2 (codes "q") (pos 2) (pos 20)
      none none 0).0

abbrev merged : List (HybridRetrievedChunk ℕ)
unfolding hybrid
merged = elim hybrid [ ok found ↦ found | err e ↦ [] ]

merges :
    (retrieve_hybrid numbers dense_retriever sparse_retriever fusion 2
      (codes "q")
      (pos 2)
      (pos 20)
      none
      none
      0).0
    ≡ ok merged
unfolding hybrid
merges = refl

retrieve_hybrid-IsHybrid_example :
    IsHybrid numbers dense_retriever sparse_retriever fusion 2
      (codes "q")
      (pos 2)
      (pos 20)
      none
      none
      0
      merged
retrieve_hybrid-IsHybrid_example =
    retrieve_hybrid-IsHybrid numbers dense_retriever sparse_retriever fusion 2 (codes "q") (pos 2)
      (pos 20) none none 0 merged merges
