-- ===== src/Rag/Reranker/Tests.antt =====
-- Rerankings of three chunks, with whole numbers for scores.
use ai_agent_hub.Common.{ℕ, ◌+◌, ◌≡◌, ◌⊎◌, refl, true, none, some, List, [], ◌∷◌, map}
use ai_agent_hub.Common.Int.{pos, negsuc}
use ai_agent_hub.Common.Result.{Result, ok, err}
use ai_agent_hub.Common.Text.{Text, codes}
use ai_agent_hub.Agents.State.{Json, Items, Fields}
use ai_agent_hub.Rag.Contracts.{RetrievedChunk}
use ai_agent_hub.Rag.Reranker.{
  RerankedChunk, RerankError, overflow_error, other_error, RerankerSettings, Scores, PostOutcome,
  timed_out, broke, responded, kept, rerank, validate_input,
}
use ai_agent_hub.Rag.Reranker.Outcome.{IsReranked, rerank-IsReranked}
use ai_agent_hub.Rag.Reranker.Raised.{Escapes, rerank-raises}

-- Integers below zero stand for the ones that are too large.
abbrev scores : Scores ℕ
scores = record {
  of_int = λ i. elim i [ pos n ↦ some n | negsuc n ↦ none ];
  of_bits = λ n. n;
  is_finite = λ s. true;
}

abbrev chunk : Text → RetrievedChunk ℕ
chunk id = record {
  chunk_id = id;
  document_id = codes "d";
  filename = codes "f";
  page_number = 1;
  text = codes "t";
  score = 5;
  start_char = 0;
  end_char = 1;
}

abbrev chunks : List (RetrievedChunk ℕ)
chunks = chunk (codes "a") ∷ chunk (codes "b") ∷ chunk (codes "c") ∷ []

abbrev settings : RerankerSettings
settings = record { has_api_key = true; fallback_enabled = true; top_k = pos 2 }

abbrev result : ℕ → Json → Json
result index score =
    Json.obj (
      Fields.field "index" (Json.int (pos index)) (Fields.field "relevance_score" score Fields.end))

abbrev body : Items → Json
body items = Json.obj (Fields.field "results" (Json.arr items) Fields.end)

abbrev answering : PostOutcome → Text → List Text → ℕ → ℕ → PostOutcome × ℕ
answering outcome query documents top_n x = (outcome, x + 1)

abbrev good : PostOutcome
good = responded 200 (
    some (
      body (
        Items.cons (result 2 (Json.int (pos 9))) (
          Items.cons (result 0 (Json.int (pos 7)))
            (Items.cons (result 1 (Json.int (pos 3))) Items.nil)))))

program : Unit {0}
unfolding rerank
program = tt

abbrev listed : Result RerankError (List (RerankedChunk ℕ)) → List (RerankedChunk ℕ)
listed (ok rs) = rs
listed (err e) = []

abbrev picked : List (RerankedChunk ℕ)
unfolding program
picked = listed (rerank scores (answering good) settings (codes "q") chunks none 0).0

two_picked : map (λ r. r.chunk.chunk_id) picked ≡ codes "c" ∷ codes "a" ∷ []
unfolding program
two_picked = refl

same_index_falls_back :
    (rerank scores
      (answering (
        responded 200 (
          some (
            body (
              Items.cons
                (result 2 (Json.int (pos 9)))
                (Items.cons (result 2 (Json.int (pos 7))) Items.nil))))))
      settings
      (codes "q")
      chunks
      none
      0).0
    ≡ ok (map kept (chunk (codes "a") ∷ chunk (codes "b") ∷ []))
unfolding program
same_index_falls_back = refl

large_score_raises :
    (rerank scores
      (answering
        (responded 200 (some (body (Items.cons (result 2 (Json.int (negsuc 0))) Items.nil)))))
      settings
      (codes "q")
      chunks
      none
      0).0
    ≡ err overflow_error
unfolding program
large_score_raises = refl

-- An exception that is none of the listed ones escapes, although the fallback is enabled.
broken_client_raises :
    (rerank scores (answering broke) settings (codes "q") chunks none 0).0 ≡ err other_error
unfolding program
broken_client_raises = refl

timeout_falls_back :
    (rerank scores (answering timed_out) settings (codes "q") chunks (some (pos 1)) 0).0
    ≡ ok (map kept (chunk (codes "a") ∷ []))
unfolding program
timeout_falls_back = refl

reranks : (rerank scores (answering good) settings (codes "q") chunks none 0).0 ≡ ok picked
unfolding program
reranks = refl

rerank-IsReranked_example : IsReranked scores settings chunks 2 good picked
rerank-IsReranked_example =
    rerank-IsReranked scores (answering good) settings (codes "q") chunks none 0 picked reranks

abbrev oversized : PostOutcome
oversized = responded 200 (some (body (Items.cons (result 2 (Json.int (negsuc 0))) Items.nil)))

rerank-raises_example :
    (validate_input (codes "q") chunks (pos 2) ≡ some overflow_error)
    ⊎ Escapes oversized overflow_error
rerank-raises_example =
    rerank-raises scores settings refl (answering oversized) (codes "q") chunks none 0
      overflow_error large_score_raises
