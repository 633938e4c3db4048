-- ===== src/Services/RetrievalDebug/Evaluated.antt =====
-- The evaluation of a dataset.
use ai_agent_hub.Common.{
  ℕ, suc, ◌≤◌, ◌≡◌, refl, sym, ap, ◌∙◌, subst, Option, none, some, List, [], ◌∷◌, map, arith,
  length, length-map,
}
use ai_agent_hub.Common.Exec.{bind-eq-ok}
use ai_agent_hub.Common.Result.{ok}
use ai_agent_hub.Common.Text.{codes, join}
use ai_agent_hub.Rag.Evaluation.{
  Arithmetic, Alphabet, CaseEvaluation, distinct, nonempty, present, summarize_answer_metrics,
}
use ai_agent_hub.Rag.Evaluation.Counted.{IsPart, evaluate_case-IsCounted}
use ai_agent_hub.Services.KnowledgeBases.{KnowledgeBase}
use ai_agent_hub.Services.RetrievalDebug.{DebugItem, DebugResponse, DebugBackends, debug}
use ai_agent_hub.Services.RetrievalDebug.Evaluate.{
  EvaluationCase, EvaluationRequest, EvaluationCaseResult, EvaluationMetrics, EvaluationResponse,
  Digests, or_none, request_for, metrics_of, case_result, evaluate_cases, summarize, evaluate,
}

module _ {X S Vector : Type 0} (b : DebugBackends X S Vector) (arithmetic : Arithmetic S)
    (alphabet : Alphabet) where
  -- The result of a case: the recall is that of the rows of a retrieval for its question.
  pub record IsScored (bases : List KnowledgeBase) (user_id knowledge_base_id : ℕ)
      (payload : EvaluationRequest) (c : EvaluationCase) (r : EvaluationCaseResult S) : Type 0 where
    pub world : X
    pub response : DebugResponse S
    pub retrieved :
        (debug b bases user_id knowledge_base_id
          (record {
            query = c.question;
            mode = payload.mode;
            top_k = payload.top_k;
            candidate_k = payload.candidate_k;
          })
          world).0
        ≡ ok response
    pub id : r.case_id ≡ c.case_id
    pub question : r.question ≡ c.question
    pub listed : r.retrieved_chunk_ids ≡ distinct (nonempty (map (λ i. i.chunk_id) response.items))
    pub recall :
        IsPart arithmetic alphabet r.retrieval_recall
          (distinct (nonempty c.expected_chunk_ids))
          r.retrieved_chunk_ids
          (distinct (nonempty c.expected_chunk_ids))

  -- The cases and their results, pair by pair.
  abbrev pub Scored :
      List KnowledgeBase
      → ℕ
      → ℕ
      → EvaluationRequest
      → List EvaluationCase
      → List (EvaluationCaseResult S)
      → Type 0
  Scored bases user_id knowledge_base_id payload [] [] = Unit
  Scored bases user_id knowledge_base_id payload [] (r ∷ rs) = ⊥
  Scored bases user_id knowledge_base_id payload (c ∷ cs) [] = ⊥
  Scored bases user_id knowledge_base_id payload (c ∷ cs) (r ∷ rs) =
      IsScored bases user_id knowledge_base_id payload c r
      × Scored bases user_id knowledge_base_id payload cs rs

  case-IsScored :
      (bases : List KnowledgeBase) (user_id knowledge_base_id : ℕ) (payload : EvaluationRequest)
      (c : EvaluationCase) (x : X) (response : DebugResponse S)
      → (debug b bases user_id knowledge_base_id (request_for b arithmetic alphabet payload c) x).0
        ≡ ok response
      → IsScored bases user_id knowledge_base_id payload c
          (case_result b arithmetic alphabet c (metrics_of b arithmetic alphabet c response.items))
  unfolding metrics_of
  case-IsScored bases user_id knowledge_base_id payload c x response h =
      let counted =
        evaluate_case-IsCounted arithmetic alphabet c.expected_chunk_ids
          (map (λ (i : DebugItem S). i.chunk_id) response.items) c.expected_answer c.answer
          (join (codes "\n") (map (λ (i : DebugItem S). i.snippet) response.items))
          (or_none c.citation_chunk_ids) in
      record {
        world = x;
        response = response;
        retrieved = h;
        id = refl;
        question = refl;
        listed = counted.ids;
        recall = counted.recall;
      }

  abbrev results : List (EvaluationCaseResult S × CaseEvaluation S) → List (EvaluationCaseResult S)
  results pairs = map (λ p. p.0) pairs

  evaluate_cases-Scored :
      (bases : List KnowledgeBase) (user_id knowledge_base_id : ℕ) (payload : EvaluationRequest)
      (cases : List EvaluationCase) (x : X)
      (pairs : List (EvaluationCaseResult S × CaseEvaluation S))
      → (evaluate_cases b arithmetic alphabet bases user_id knowledge_base_id payload cases x).0
        ≡ ok pairs
      → Scored bases user_id knowledge_base_id payload cases (results pairs)
  unfolding evaluate_cases
  evaluate_cases-Scored bases user_id knowledge_base_id payload [] x pairs h =
      let same : [] ≡ pairs = cc in
      subst (λ ps. Scored bases user_id knowledge_base_id payload [] (results ps)) same tt
  evaluate_cases-Scored bases user_id knowledge_base_id payload (c ∷ cs) x pairs h =
      let (response, x1, e1, h1) =
        bind-eq-ok
          (debug b bases user_id knowledge_base_id (request_for b arithmetic alphabet payload c)) _
          x h in
      let (others, x2, e2, h2) =
        bind-eq-ok (evaluate_cases b arithmetic alphabet bases user_id knowledge_base_id payload cs)
          _ x1 h1 in
      let metrics = metrics_of b arithmetic alphabet c response.items in
      let same : ((case_result b arithmetic alphabet c metrics, metrics) ∷ others) ≡ pairs = cc in
      subst (λ ps. Scored bases user_id knowledge_base_id payload (c ∷ cs) (results ps)) same
        (
          case-IsScored bases user_id knowledge_base_id payload c x response (ap (λ p. p.0) e1),
          evaluate_cases-Scored bases user_id knowledge_base_id payload cs x1 others
              (ap (λ p. p.0) e2),
        )

  length-Scored :
      (bases : List KnowledgeBase) (user_id knowledge_base_id : ℕ) (payload : EvaluationRequest)
      (cases : List EvaluationCase) (rs : List (EvaluationCaseResult S))
      → Scored bases user_id knowledge_base_id payload cases rs
      → length rs ≡ length cases
  length-Scored bases user_id knowledge_base_id payload [] [] h = refl
  length-Scored bases user_id knowledge_base_id payload [] (r ∷ rs) h = absurd h
  length-Scored bases user_id knowledge_base_id payload (c ∷ cs) [] h = absurd h
  length-Scored bases user_id knowledge_base_id payload (c ∷ cs) (r ∷ rs) h =
      ap suc (length-Scored bases user_id knowledge_base_id payload cs rs h.1)

  length-present : (os : List (Option S)) → length (present arithmetic os) ≤ length os
  length-present [] = omega arith
  length-present (none ∷ os) = omega (arith, length-present os)
  length-present (some o ∷ os) = omega (arith, length-present os)

  -- What the metrics count.
  pub record Counts (n : ℕ) (m : EvaluationMetrics S) : Type 0 where
    pub total : m.total_cases ≡ n
    pub answered : m.answer_scored_cases ≤ n
    pub faithful : m.faithfulness_scored_cases ≤ n

  summarize-Counts :
      (cases : List (CaseEvaluation S))
      → Counts (length cases) (summarize b arithmetic alphabet cases)
  unfolding summarize summarize_answer_metrics
  summarize-Counts cases = record {
    total = refl;
    answered = omega (
      arith,
      length-present (map (λ c. c.answer_relevance) cases),
      length-map (λ (c : CaseEvaluation S). c.answer_relevance) cases,
    );
    faithful = omega (
      arith,
      length-present (map (λ c. c.faithfulness) cases),
      length-map (λ (c : CaseEvaluation S). c.faithfulness) cases,
    );
  }

  -- An evaluation that succeeds has one result for each case of the dataset, in their order, with its
  -- id and question: the ids that a retrieval for the question, with the mode and the limits of the
  -- request, has shown, listed once, and the number of the expected ids among them over that of the
  -- expected ids, or zero where none is expected. The metrics count all cases, and score no more
  -- answers than these.
  pub evaluate-Scored :
      (digests : Digests S) (bases : List KnowledgeBase) (user_id knowledge_base_id : ℕ)
      (payload : EvaluationRequest) (x : X) (response : EvaluationResponse S)
      → (evaluate b arithmetic alphabet digests bases user_id knowledge_base_id payload x).0
        ≡ ok response
      → Scored bases user_id knowledge_base_id payload payload.dataset.cases response.cases
        × Counts (length payload.dataset.cases) response.metrics
  unfolding evaluate
  evaluate-Scored digests bases user_id knowledge_base_id payload x response h =
      let (pairs, x1, e1, h1) =
        bind-eq-ok
          (evaluate_cases b arithmetic alphabet bases user_id knowledge_base_id payload
            payload.dataset.cases)
          _ x h in
      let scored =
        evaluate_cases-Scored bases user_id knowledge_base_id payload payload.dataset.cases x pairs
          (ap (λ p. p.0) e1) in
      let cases : results pairs ≡ response.cases = cc in
      let metrics : summarize b arithmetic alphabet (map (λ p. p.1) pairs) ≡ response.metrics =
        cc in
      let size : length (map (λ (p : EvaluationCaseResult S × CaseEvaluation S). p.1) pairs)
          ≡ length payload.dataset.cases =
        (length-map (λ (p : EvaluationCaseResult S × CaseEvaluation S). p.1) pairs
          ∙ sym (length-map (λ (p : EvaluationCaseResult S × CaseEvaluation S). p.0) pairs)
          ∙ length-Scored bases user_id knowledge_base_id payload payload.dataset.cases
              (results pairs) scored) in
      (
        subst (Scored bases user_id knowledge_base_id payload payload.dataset.cases) cases scored,
        subst (Counts (length payload.dataset.cases)) metrics (
            subst (λ n. Counts n (summarize b arithmetic alphabet (map (λ p. p.1) pairs))) size
              (summarize-Counts (map (λ p. p.1) pairs))),
      )
