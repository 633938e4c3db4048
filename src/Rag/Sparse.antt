-- ===== src/Rag/Sparse.antt =====
-- backend/app/rag/retrievers/sparse.py: the sparse retriever and its statement. Reading the tables, the
-- match operator `@@` and `ts_rank_cd` of the database are parameters.
pub mod Found
mod Tests
use ai_agent_hub.Common.{
  ℕ, Bool, false, ◌&&◌, ◌==◌, nat_eq, map, filter, take, Option, none, some, List, [], ◌∷◌,
  if◌then◌else◌, ◌≤◌, arith, length, Bool-cases, inl, inr,
}
use ai_agent_hub.Common.Int.{ℤ, nonpositive, magnitude}
use ai_agent_hub.Common.Exec.{Exec, pure, ◌>>=◌, ◌>>◌}
use ai_agent_hub.Common.Sort.{sort_by}
use ai_agent_hub.Common.Text.{Text, strip, is_blank}
use ai_agent_hub.Rag.Contracts.{Uuid, RetrievedChunk}
use ai_agent_hub.Rag.Fusion.{Floats, text_less}
use ai_agent_hub.Rag.Retrievers.{RetrieverError, raise_when, is_below}

-- A row of the joined tables: the chunk, whose score the statement sets, its knowledge base, and
-- whether the status of its document is COMPLETED. The ids are printed UUIDs, which order as their text.
pub record SearchRow (S : Type 0) : Type 0 where
  pub knowledge_base_id : Uuid
  pub is_completed : Bool
  pub chunk : RetrievedChunk S

-- The database: the joined rows, whether a text matches a query, and the rank of a text, a float.
pub record FullTextSearch (X S : Type 0) : Type 0 where
  pub joined : Exec X RetrieverError (List (SearchRow S))
  pub matches : Text → Text → Bool
  pub rank : Text → Text → S

module _ {S : Type 0} (floats : Floats S) where
  -- `score_threshold is not None and score_threshold < 0`
  abbrev pub is_negative : Option S → Bool
  is_negative none = false
  is_negative (some threshold) = floats.less threshold (floats.of_nat 0)

  -- The loop over the rows.
  unfoldable pub above : Option S → List (RetrievedChunk S) → List (RetrievedChunk S)
  above threshold [] = []
  above threshold (row ∷ rows) =
      let rest = above threshold rows in
      if is_below floats threshold row.score then rest else row ∷ rest

  -- `order_by(desc(score), DocumentChunk.id)`
  unfoldable pub ranks_before : RetrievedChunk S → RetrievedChunk S → Bool
  unfolding text_less
  ranks_before a b =
      if floats.equal a.score b.score
      then text_less a.chunk_id b.chunk_id
      else floats.less b.score a.score

  -- The rows that the statement selects, with their ranks.
  unfoldable pub selected :
      {X : Type 0} → FullTextSearch X S → Uuid → Text → List (SearchRow S) → List (RetrievedChunk S)
  unfolding filter
  selected search knowledge_base query rows =
      map (λ row. record row.chunk { score = search.rank row.chunk.text query })
        (filter
          (λ row.
            (row.knowledge_base_id == knowledge_base)
            && (row.is_completed && search.matches row.chunk.text query))
          rows)

  -- `statement`
  unfoldable pub statement :
      {X : Type 0}
      → FullTextSearch X S
      → Uuid
      → Text
      → ℕ
      → List (SearchRow S)
      → List (RetrievedChunk S)
  unfolding selected ranks_before sort_by
  statement search knowledge_base query limit rows =
      take limit (sort_by ranks_before (selected search knowledge_base query rows))

  -- `retrieve`
  unfoldable pub retrieve_sparse :
      {X : Type 0}
      → FullTextSearch X S
      → Uuid
      → Text
      → ℤ
      → Option S
      → Exec X RetrieverError (List (RetrievedChunk S))
  unfolding above is_blank strip statement
  retrieve_sparse search knowledge_base query top_k threshold = do
    raise_when (is_blank query) "query must not be empty"
    raise_when (nonpositive top_k) "top_k must be greater than zero"
    raise_when (is_negative threshold) "score_threshold must not be negative"
    rows ← search.joined
    pure (above threshold (statement search knowledge_base (strip query) (magnitude top_k) rows))

  pub length-above_le :
      (threshold : Option S) (rows : List (RetrievedChunk S))
      → length (above threshold rows) ≤ length rows
  unfolding above
  length-above_le threshold [] = omega arith
  length-above_le threshold (row ∷ rows) = elim (Bool-cases (is_below floats threshold row.score)) [
    | inl low ↦ rw low (omega (arith, length-above_le threshold rows))
    | inr high ↦ rw high (omega (arith, length-above_le threshold rows))
  ]
