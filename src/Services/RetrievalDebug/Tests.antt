-- ===== src/Services/RetrievalDebug/Tests.antt =====
-- Retrievals in each mode over two points, with whole numbers for scores.
use ai_agent_hub.Common.{
  ℕ, ◌+◌, ◌==◌, text_eq, false, ◌≡◌, refl, true, none, some, List, [], ◌∷◌, map,
}
use ai_agent_hub.Common.Int.{pos, negsuc}
use ai_agent_hub.Common.Result.{Result, ok, err}
use ai_agent_hub.Common.Text.{Text, codes}
use ai_agent_hub.Agents.State.{Json, Items, Fields}
use ai_agent_hub.Rag.Evaluation.Samples.{thousandths, ascii}
use ai_agent_hub.Rag.Fusion.Samples.{numbers, fusion, chunk}
use ai_agent_hub.Rag.Retrievers.{SearchResult}
use ai_agent_hub.Rag.Sparse.{SearchRow}
use ai_agent_hub.Rag.Reranker.{PostOutcome, responded, timed_out}
use ai_agent_hub.Services.KnowledgeBases.{KnowledgeBase}
use ai_agent_hub.Services.Store.{AppError}
use ai_agent_hub.Services.RetrievalDebug.{
  RetrievalMode, dense, sparse, hybrid, rerank_hybrid, DebugRequest, DebugResponse, DebugBackends,
  app, unknown_knowledge_base, debug,
}
use ai_agent_hub.Services.RetrievalDebug.Ranked.{Responds, debug-IsShown}
use ai_agent_hub.Services.RetrievalDebug.Evaluate.{
  EvaluationRequest, EvaluationResponse, Digests, evaluate,
}
use ai_agent_hub.Services.RetrievalDebug.Evaluated.{Scored, Counts, evaluate-Scored}

abbrev point : Text → ℕ → SearchResult ℕ
point id score = record {
  point_id = id;
  score = score;
  payload = record {
    chunk_id = none;
    document_id = some (codes "d");
    filename = some (codes "f");
    page_number = none;
    text = some (codes "red");
    start_char = none;
    end_char = none;
  };
}

-- The last three rows are of another base, of an unfinished document, and without a match.
abbrev table : List (SearchRow ℕ)
table =
    (record { knowledge_base_id = 3; is_completed = true; chunk = chunk (codes "c") 0 })
    ∷ (record { knowledge_base_id = 3; is_completed = true; chunk = chunk (codes "b") 0 })
    ∷ (record { knowledge_base_id = 4; is_completed = true; chunk = chunk (codes "a") 0 })
    ∷ (record { knowledge_base_id = 3; is_completed = false; chunk = chunk (codes "a") 0 })
    ∷ (record {
      knowledge_base_id = 3;
      is_completed = true;
      chunk = record (chunk (codes "a") 0) { text = codes "u" };
    })
    ∷ []

-- The answer of the reranker: the second candidate only.
abbrev second : Json
second = Json.obj (
    Fields.field "results"
      (Json.arr (
        Items.cons
          (Json.obj (
            Fields.field "index" (Json.int (pos 1))
              (Fields.field "relevance_score" (Json.int (pos 77)) Fields.end)))
          Items.nil))
      Fields.end)

abbrev backends : PostOutcome → DebugBackends ℕ ℕ ℕ
backends outcome = record {
  floats = numbers;
  scores = record {
    of_int = λ i. elim i [ pos n ↦ some n | negsuc n ↦ none ];
    of_bits = λ n. n;
    is_finite = λ s. true;
  };
  vectors = record {
    embed = λ query x. (ok 7, x + 1);
    search = λ base vector limit x. (ok (point (codes "a") 2 ∷ point (codes "b") 1 ∷ []), x + 1);
  };
  full_text = record {
    joined = λ x. (ok table, x + 1);
    matches = λ text query. text == codes "t";
    rank = λ text query. 9;
  };
  fusion = fusion;
  reranker = record { has_api_key = true; fallback_enabled = true; top_k = pos 5 };
  post = λ query documents top_n x. (outcome, x + 1);
  retrieval_score_threshold = none;
}

abbrev bases : List KnowledgeBase
bases = (record { id = 3; user_id = 7; name = "base"; description = none }) ∷ []

abbrev request : RetrievalMode → DebugRequest
request mode = record { query = codes "q"; mode = mode; top_k = pos 2; candidate_k = pos 4 }

program : Unit {0}
unfolding debug evaluate
program = tt

abbrev ids : Result AppError (DebugResponse ℕ) → List Text
ids (ok response) = map (λ i. i.chunk_id) response.items
ids (err e) = []

abbrev run : PostOutcome → RetrievalMode → Result AppError (DebugResponse ℕ)
run outcome mode = (debug (backends outcome) bases 7 3 (request mode) 0).0

dense_rows : ids (run timed_out dense) ≡ codes "a" ∷ codes "b" ∷ []
unfolding program
dense_rows = refl

sparse_rows : ids (run timed_out sparse) ≡ codes "b" ∷ codes "c" ∷ []
unfolding program
sparse_rows = refl

hybrid_rows : ids (run timed_out hybrid) ≡ codes "b" ∷ codes "a" ∷ []
unfolding program
hybrid_rows = refl

reranked_rows : ids (run (responded 200 (some second)) rerank_hybrid) ≡ codes "a" ∷ []
unfolding program
reranked_rows = refl

fallback_rows : ids (run timed_out rerank_hybrid) ≡ codes "b" ∷ codes "a" ∷ []
unfolding program
fallback_rows = refl

other_user : (debug (backends timed_out) bases 8 3 (request dense) 0).0 ≡ err unknown_knowledge_base
unfolding program
other_user = refl

few_candidates :
    (debug (backends timed_out) bases 7 3 (record (request hybrid) { candidate_k = pos 1 }) 0).0
    ≡ err (app "RETRIEVAL_DEBUG_FAILED" "candidate_k must be greater than or equal to top_k" 422)
unfolding program
few_candidates = refl

abbrev got : Result AppError (DebugResponse ℕ) → DebugResponse ℕ
got (ok response) = response
got (err e) = record { query = []; mode = dense; candidate_k = pos 0; items = [] }

abbrev response : DebugResponse ℕ
unfolding program
response = got (run (responded 200 (some second)) rerank_hybrid)

responds : run (responded 200 (some second)) rerank_hybrid ≡ ok response
unfolding program
responds = refl

debug-IsShown_example :
    Responds (backends (responded 200 (some second))) bases 7 3 (request rerank_hybrid) 0 response
debug-IsShown_example =
    debug-IsShown (backends (responded 200 (some second))) bases 7 3 (request rerank_hybrid) 0
      response responds

abbrev digests : Digests ℕ
digests = record { dataset = λ d. d.name; result = λ name mode top_k candidate_k results. name }

abbrev evaluation : EvaluationRequest
evaluation = record {
  dataset = record {
    name = codes "set";
    version = codes "1";
    cases =
        (record {
          case_id = codes "one";
          question = codes "q";
          expected_chunk_ids = codes "b" ∷ codes "z" ∷ [];
          expected_answer = none;
          answer = some (codes "red");
          citation_chunk_ids = [];
        })
        ∷ [];
  };
  mode = sparse;
  top_k = pos 2;
  candidate_k = pos 4;
}

abbrev evaluated : Result AppError (EvaluationResponse ℕ)
unfolding program
evaluated = (evaluate (backends timed_out) thousandths ascii digests bases 7 3 evaluation 0).0

abbrev scores_of : Result AppError (EvaluationResponse ℕ) → ℕ × ℕ
scores_of (ok r) = (r.metrics.retrieval_recall, r.metrics.faithfulness_scored_cases)
scores_of (err e) = (0, 0)

half_recall : scores_of evaluated ≡ (500, 1)
unfolding program
half_recall = refl

abbrev results : Result AppError (EvaluationResponse ℕ) → EvaluationResponse ℕ
results (ok r) = r
results (err e) = record {
  dataset_name = [];
  dataset_version = [];
  dataset_fingerprint = [];
  result_fingerprint = [];
  mode = sparse;
  metrics = record {
    total_cases = 0;
    retrieval_recall = 0;
    citation_correctness = 0;
    answer_relevance = none;
    faithfulness = none;
    answer_scored_cases = 0;
    faithfulness_scored_cases = 0;
  };
  cases = [];
}

evaluates :
    (evaluate (backends timed_out) thousandths ascii digests bases 7 3 evaluation 0).0
    ≡ ok (results evaluated)
unfolding program
evaluates = refl

evaluate-Scored_example :
    Scored
      (backends timed_out)
      thousandths
      ascii
      bases
      7
      3
      evaluation
      evaluation.dataset.cases
      (results evaluated).cases
    × Counts (backends timed_out) thousandths ascii 1 (results evaluated).metrics
evaluate-Scored_example =
    evaluate-Scored (backends timed_out) thousandths ascii digests bases 7 3 evaluation 0
      (results evaluated) evaluates
