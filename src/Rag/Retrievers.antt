-- ===== src/Rag/Retrievers.antt =====
-- backend/app/rag/retrievers/dense.py and hybrid.py: the dense retriever over an embedder and a
-- vector store, and the hybrid retriever over two retrievers and the fusion.
-- `asyncio.gather` runs the two retrievers one after the other here, and either may raise.
pub mod Filtered
pub mod Fused
mod Tests
use ai_agent_hub.Common.{
  ℕ, zero, suc, ◌+◌, String, Bool, true, false, not, ◌&&◌, ◌||◌, Option, none, some, List, [], ◌∷◌,
  map, ◌==◌, text_eq, if◌then◌else◌, leb, ltb, contains,
}
use ai_agent_hub.Common.Int.{ℤ, pos, negsuc, nonpositive, magnitude}
use ai_agent_hub.Common.Result.{Result, ok, err}
use ai_agent_hub.Common.Exec.{Exec, pure, raise, ◌>>=◌, ◌>>◌}
use ai_agent_hub.Common.Text.{Text, is_blank}
use ai_agent_hub.Rag.Contracts.{Uuid, RetrievedChunk}
use ai_agent_hub.Rag.Fusion.{Floats, FusedRetrieval, RrFusion, fuse}

-- What a retriever may raise: an error of its arguments, of the fusion, or of a service.
pub data RetrieverError : Type 0 where
  retrieval_error : String → RetrieverError
  fusion_error : String → RetrieverError
  backend_error : RetrieverError

-- The payload of a point, where it has the keys.
pub record Payload : Type 0 where
  pub chunk_id : Option Text
  pub document_id : Option Text
  pub filename : Option Text
  pub page_number : Option ℕ
  pub text : Option Text
  pub start_char : Option ℕ
  pub end_char : Option ℕ

pub record SearchResult (S : Type 0) : Type 0 where
  pub point_id : Text
  pub score : S
  pub payload : Payload

-- `payload.get(key, default)`
abbrev pub or_default : {A : Type 0} → Option A → A → A
or_default none d = d
or_default (some a) d = a

-- The embedder and the vector store.
pub record VectorSearch (X S Vector : Type 0) : Type 0 where
  pub embed : Text → Exec X RetrieverError Vector
  pub search : Uuid → Vector → ℕ → Exec X RetrieverError (List (SearchResult S))

abbrev pub raise_when : {X : Type 0} → Bool → String → Exec X RetrieverError (Unit {0})
raise_when true message = raise (retrieval_error message)
raise_when false message = pure tt

module _ {S : Type 0} where
  -- `_normalize`
  unfoldable pub normalize : Payload → Text → S → RetrievedChunk S
  normalize payload chunk_id score = record {
    chunk_id = chunk_id;
    document_id = or_default payload.document_id [];
    filename = or_default payload.filename [];
    page_number = or_default payload.page_number 1;
    text = or_default payload.text [];
    score = score;
    start_char = or_default payload.start_char 0;
    end_char = or_default payload.end_char 0;
  }

  abbrev pub result_id : SearchResult S → Text
  result_id r = or_default r.payload.chunk_id r.point_id

module _ {S : Type 0} (floats : Floats S) where
  -- `score_threshold is not None and score < score_threshold`
  abbrev pub is_below : Option S → S → Bool
  is_below none score = false
  is_below (some threshold) score = floats.less score threshold

  -- `score_threshold is not None and not -1.0 <= score_threshold <= 1.0`
  abbrev pub out_of_range : Option S → Bool
  out_of_range none = false
  out_of_range (some threshold) = not (
      floats.at_most (floats.negate (floats.of_nat 1)) threshold
      && floats.at_most threshold (floats.of_nat 1))

  -- The loop over the results, when `count` chunks have been retrieved.
  unfoldable pub collect :
      Option S → ℕ → List Text → ℕ → List (SearchResult S) → List (RetrievedChunk S)
  unfolding normalize
  collect threshold top_k seen count [] = []
  collect threshold top_k seen count (r ∷ rs) =
      let skipped = collect threshold top_k seen count rs in
      let others = collect threshold top_k (result_id r ∷ seen) (suc count) rs in
      if is_below threshold r.score
      then skipped
      else if contains (result_id r) seen
      then skipped
      else normalize r.payload (result_id r) r.score
        ∷ (if leb top_k (suc count) then [] else others)

  -- `DenseRetriever.retrieve`
  unfoldable pub retrieve_dense :
      {X Vector : Type 0}
      → VectorSearch X S Vector
      → Uuid
      → Text
      → ℤ
      → Option S
      → Exec X RetrieverError (List (RetrievedChunk S))
  unfolding collect is_blank
  retrieve_dense service knowledge_base query top_k threshold = do
    raise_when (is_blank query) "query must not be empty"
    raise_when (nonpositive top_k) "top_k must be greater than zero"
    raise_when (out_of_range threshold) "score_threshold must be between -1 and 1"
    vector ← service.embed query
    results ← service.search knowledge_base vector (magnitude top_k)
    pure (collect threshold (magnitude top_k) [] 0 results)

pub record HybridRetrievedChunk (S : Type 0) : Type 0 where
  pub chunk : RetrievedChunk S
  pub fusion_score : S
  pub dense_score : Option S
  pub sparse_score : Option S
  pub dense_normalized_score : Option S
  pub sparse_normalized_score : Option S
  pub dense_rank : Option ℕ
  pub sparse_rank : Option ℕ

-- `candidate_k < top_k`
abbrev pub int_ltb : ℤ → ℤ → Bool
int_ltb (pos a) (pos b) = ltb a b
int_ltb (pos a) (negsuc b) = false
int_ltb (negsuc a) (pos b) = true
int_ltb (negsuc a) (negsuc b) = ltb b a

-- `_to_hybrid_result`: the score of the chunk is the score of the fusion.
unfoldable pub to_hybrid_result : {S : Type 0} → FusedRetrieval S → HybridRetrievedChunk S
to_hybrid_result result = record {
  chunk = record result.chunk { score = result.fusion_score };
  fusion_score = result.fusion_score;
  dense_score = result.dense_score;
  sparse_score = result.sparse_score;
  dense_normalized_score = result.dense_normalized_score;
  sparse_normalized_score = result.sparse_normalized_score;
  dense_rank = result.dense_rank;
  sparse_rank = result.sparse_rank;
}

-- `Retriever`
abbrev pub Retriever : Type 0 → Type 0 → Type 0
Retriever X S = Uuid → Text → ℤ → Option S → Exec X RetrieverError (List (RetrievedChunk S))

-- A `FusionError`, raised.
abbrev pub lift_fusion : {X A : Type 0} → Result String A → Exec X RetrieverError A
lift_fusion (ok a) = pure a
lift_fusion (err e) = raise (fusion_error e)

module _ {X S : Type 0} (floats : Floats S) (dense sparse : Retriever X S)
    (fusion : RrFusion S) where
  -- `HybridRetriever.retrieve`
  unfoldable pub retrieve_hybrid :
      Uuid
      → Text
      → ℤ
      → ℤ
      → Option S
      → Option S
      → Exec X RetrieverError (List (HybridRetrievedChunk S))
  unfolding fuse to_hybrid_result is_blank
  retrieve_hybrid knowledge_base query top_k candidate_k dense_threshold sparse_threshold = do
    raise_when (is_blank query) "query must not be empty"
    raise_when (nonpositive top_k) "top_k must be greater than zero"
    raise_when (int_ltb candidate_k top_k) "candidate_k must be greater than or equal to top_k"
    dense_results ← dense knowledge_base query candidate_k dense_threshold
    sparse_results ← sparse knowledge_base query candidate_k sparse_threshold
    fused ← lift_fusion (fuse floats fusion dense_results sparse_results top_k)
    pure (map to_hybrid_result fused)
