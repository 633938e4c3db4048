-- ===== src/Rag/Evaluation/Tests.antt =====
-- The scores of small cases, in thousandths.
use ai_agent_hub.Common.{ℕ, ◌≡◌, refl, none, some, List, [], ◌∷◌, nat_eq}
use ai_agent_hub.Common.Text.{Text, codes}
use ai_agent_hub.Rag.Evaluation.{
  CaseEvaluation, distinct, nonempty, or_retrieved, tokens, evaluate_case, summarize_answer_metrics,
}
use ai_agent_hub.Rag.Evaluation.Samples.{thousandths, ascii}
use ai_agent_hub.Rag.Evaluation.Counted.{IsCounted, evaluate_case-IsCounted}

program : Unit {0}
unfolding distinct nonempty tokens evaluate_case summarize_answer_metrics
program = tt

tokens_lem :
    tokens thousandths ascii (codes "to be, or to") ≡ codes "to" ∷ codes "be" ∷ codes "or" ∷ []
unfolding program
tokens_lem = refl

abbrev expected : List Text
expected = codes "a" ∷ codes "b" ∷ codes "a" ∷ []

abbrev retrieved : List Text
retrieved = codes "c" ∷ codes "b" ∷ [] ∷ codes "b" ∷ []

abbrev evaluation : CaseEvaluation ℕ
unfolding program
evaluation =
    evaluate_case thousandths ascii expected retrieved (some (codes "it is red"))
      (some (codes "it was red")) (codes "red it is") none

half_is_found : evaluation.retrieval_recall ≡ 500
unfolding program
half_is_found = refl

two_words_of_three : evaluation.faithfulness ≡ some 666
unfolding program
two_words_of_three = refl

evaluate_case-IsCounted_example :
    IsCounted thousandths ascii
      (distinct (nonempty expected))
      (distinct (nonempty retrieved))
      (distinct (or_retrieved none (distinct (nonempty retrieved))))
      (some (codes "it is red"))
      (some (codes "it was red"))
      (codes "red it is")
      (evaluate_case thousandths ascii expected retrieved
        (some (codes "it is red"))
        (some (codes "it was red"))
        (codes "red it is")
        none)
evaluate_case-IsCounted_example =
    evaluate_case-IsCounted thousandths ascii expected retrieved (some (codes "it is red"))
      (some (codes "it was red")) (codes "red it is") none
