-- ===== src/Services/RetrievalDebug/Evaluate.antt =====
-- backend/app/services/retrieval_debug.py: `evaluate`, over the retrieval of `debug`.
use ai_agent_hub.Common.{ℕ, Bool, Option, none, some, List, [], ◌∷◌, map, length}
use ai_agent_hub.Common.Int.{ℤ}
use ai_agent_hub.Common.Exec.{Exec, pure, ◌>>=◌}
use ai_agent_hub.Common.Text.{Text, codes, join}
use ai_agent_hub.Rag.Evaluation.{
  Arithmetic, Alphabet, CaseEvaluation, evaluate_case, summarize_cases, summarize_answer_metrics,
}
use ai_agent_hub.Services.KnowledgeBases.{KnowledgeBase}
use ai_agent_hub.Services.Store.{AppError}
use ai_agent_hub.Services.RetrievalDebug.{
  RetrievalMode, DebugRequest, DebugItem, DebugBackends, debug,
}

pub record EvaluationCase : Type 0 where
  pub case_id : Text
  pub question : Text
  pub expected_chunk_ids : List Text
  pub expected_answer : Option Text
  pub answer : Option Text
  pub citation_chunk_ids : List Text

pub record EvaluationDataset : Type 0 where
  pub name : Text
  pub version : Text
  pub cases : List EvaluationCase

pub record EvaluationRequest : Type 0 where
  pub dataset : EvaluationDataset
  pub mode : RetrievalMode
  pub top_k : ℤ
  pub candidate_k : ℤ

pub record EvaluationCaseResult (S : Type 0) : Type 0 where
  pub case_id : Text
  pub question : Text
  pub expected_chunk_ids : List Text
  pub retrieved_chunk_ids : List Text
  pub retrieval_hit : Bool
  pub retrieval_recall : S
  pub citation_correctness : S
  pub answer_relevance : Option S
  pub faithfulness : Option S

pub record EvaluationMetrics (S : Type 0) : Type 0 where
  pub total_cases : ℕ
  pub retrieval_recall : S
  pub citation_correctness : S
  pub answer_relevance : Option S
  pub faithfulness : Option S
  pub answer_scored_cases : ℕ
  pub faithfulness_scored_cases : ℕ

pub record EvaluationResponse (S : Type 0) : Type 0 where
  pub dataset_name : Text
  pub dataset_version : Text
  pub dataset_fingerprint : Text
  pub result_fingerprint : Text
  pub mode : RetrievalMode
  pub metrics : EvaluationMetrics S
  pub cases : List (EvaluationCaseResult S)

-- `_fingerprint` of the two values that are hashed: SHA-256 of their canonical JSON.
pub record Digests (S : Type 0) : Type 0 where
  pub dataset : EvaluationDataset → Text
  pub result : Text → RetrievalMode → ℤ → ℤ → List (EvaluationCaseResult S) → Text

-- `case.citation_chunk_ids or None`
abbrev pub or_none : List Text → Option (List Text)
or_none [] = none
or_none (c ∷ cs) = some (c ∷ cs)

module _ {X S Vector : Type 0} (b : DebugBackends X S Vector) (arithmetic : Arithmetic S)
    (alphabet : Alphabet) where
  abbrev pub request_for : EvaluationRequest → EvaluationCase → DebugRequest
  request_for payload c = record {
    query = c.question;
    mode = payload.mode;
    top_k = payload.top_k;
    candidate_k = payload.candidate_k;
  }

  -- The metrics of a case, from the rows of its retrieval.
  unfoldable pub metrics_of : EvaluationCase → List (DebugItem S) → CaseEvaluation S
  unfolding evaluate_case join
  metrics_of c items =
      evaluate_case arithmetic alphabet c.expected_chunk_ids (map (λ i. i.chunk_id) items)
        c.expected_answer c.answer (join (codes "\n") (map (λ i. i.snippet) items))
        (or_none c.citation_chunk_ids)

  abbrev pub case_result : EvaluationCase → CaseEvaluation S → EvaluationCaseResult S
  case_result c e = record {
    case_id = c.case_id;
    question = c.question;
    expected_chunk_ids = c.expected_chunk_ids;
    retrieved_chunk_ids = e.retrieved_chunk_ids;
    retrieval_hit = e.retrieval_hit;
    retrieval_recall = e.retrieval_recall;
    citation_correctness = e.citation_correctness;
    answer_relevance = e.answer_relevance;
    faithfulness = e.faithfulness;
  }

  -- The loop over the cases: `case_results` and `case_metrics`, side by side.
  unfoldable pub evaluate_cases :
      List KnowledgeBase
      → ℕ
      → ℕ
      → EvaluationRequest
      → List EvaluationCase
      → Exec X AppError (List (EvaluationCaseResult S × CaseEvaluation S))
  unfolding debug metrics_of
  evaluate_cases bases user_id knowledge_base_id payload [] = pure []
  evaluate_cases bases user_id knowledge_base_id payload (c ∷ cs) = do
    response ← debug b bases user_id knowledge_base_id (request_for payload c)
    let metrics = metrics_of c response.items
    others ← evaluate_cases bases user_id knowledge_base_id payload cs
    pure ((case_result c metrics, metrics) ∷ others)

  unfoldable pub summarize : List (CaseEvaluation S) → EvaluationMetrics S
  unfolding summarize_cases summarize_answer_metrics
  summarize cases =
      let (recall, correctness) = summarize_cases arithmetic cases in
      let (relevance, faith, answered, faithful) = summarize_answer_metrics arithmetic cases in
      record {
        total_cases = length cases;
        retrieval_recall = recall;
        citation_correctness = correctness;
        answer_relevance = relevance;
        faithfulness = faith;
        answer_scored_cases = answered;
        faithfulness_scored_cases = faithful;
      }

  -- `evaluate`
  unfoldable pub evaluate :
      Digests S
      → List KnowledgeBase
      → ℕ
      → ℕ
      → EvaluationRequest
      → Exec X AppError (EvaluationResponse S)
  unfolding evaluate_cases summarize
  evaluate digests bases user_id knowledge_base_id payload = do
    pairs ← evaluate_cases bases user_id knowledge_base_id payload payload.dataset.cases
    let results = map (λ p. p.0) pairs
    let fingerprint = digests.dataset payload.dataset
    pure (record {
      dataset_name = payload.dataset.name;
      dataset_version = payload.dataset.version;
      dataset_fingerprint = fingerprint;
      result_fingerprint =
          digests.result fingerprint payload.mode payload.top_k payload.candidate_k results;
      mode = payload.mode;
      metrics = summarize (map (λ p. p.1) pairs);
      cases = results;
    })
