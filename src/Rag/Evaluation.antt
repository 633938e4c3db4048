-- ===== src/Rag/Evaluation.antt =====
-- backend/app/rag/evaluation/metrics.py: the scores of retrievals and answers.
-- A set is a list without repetitions. `Arithmetic` has the operations of floats that the code uses;
-- `Alphabet` has the tables of Unicode behind `str.casefold` and the class `\w`.
pub mod Sets
pub mod Counted
pub mod Samples
mod Tests
use ai_agent_hub.Common.{
  ℕ, suc, Bool, true, false, not, ◌&&◌, ◌||◌, Option, none, some, List, [], ◌∷◌, ◌++◌, map, ◌==◌,
  nat_eq, text_eq, if◌then◌else◌, filter, length, contains, is_empty,
}
use ai_agent_hub.Common.Text.{Text}

pub record Arithmetic (S : Type 0) : Type 0 where
  pub of_nat : ℕ → S
  pub add : S → S → S
  pub mul : S → S → S
  pub div : S → S → S
  pub is_zero : S → Bool

pub record Alphabet : Type 0 where
  pub is_word : ℕ → Bool
  pub casefold : Text → Text

pub record CaseEvaluation (S : Type 0) : Type 0 where
  pub retrieved_chunk_ids : List Text
  pub retrieval_hit : Bool
  pub retrieval_recall : S
  pub citation_correctness : S
  pub answer_relevance : Option S
  pub faithfulness : Option S

-- `dict.fromkeys(xs)`: the first occurrences, in their order; `seen` stand before them.
unfoldable pub distinct_from : List Text → List Text → List Text
distinct_from seen [] = []
distinct_from seen (x ∷ xs) =
    let others = distinct_from (x ∷ seen) xs in
    let skipped = distinct_from seen xs in if contains x seen then skipped else x ∷ others

unfoldable pub distinct : List Text → List Text
unfolding distinct_from
distinct xs = distinct_from [] xs

-- `{x for x in xs if x}`, in order
unfoldable pub nonempty : List Text → List Text
unfolding filter
nonempty xs = filter (λ x. not (is_empty x)) xs

-- `len(a & b)`
unfoldable pub common : List Text → List Text → ℕ
unfolding filter
common a b = length (filter (λ x. contains x b) a)

-- `citation_chunk_ids or retrieved`
abbrev pub or_retrieved : Option (List Text) → List Text → List Text
or_retrieved none retrieved = retrieved
or_retrieved (some []) retrieved = retrieved
or_retrieved (some (c ∷ cs)) retrieved = c ∷ cs

-- The maximal runs of word characters; `run` is the one that is being read.
unfoldable pub words : (ℕ → Bool) → Text → Text → List Text
words is_word [] [] = []
words is_word (r ∷ run) [] = (r ∷ run) ∷ []
words is_word run (c ∷ cs) =
    let longer = words is_word (run ++ c ∷ []) cs in
    let others = words is_word [] cs in
    if is_word c then longer else if is_empty run then others else run ∷ others

module _ {S : Type 0} (arithmetic : Arithmetic S) where
  -- `a / b if b else 0.0`, for the sizes of sets
  unfoldable pub ratio : ℕ → ℕ → S
  ratio a b =
      if b == 0
      then arithmetic.of_nat 0
      else arithmetic.div (arithmetic.of_nat a) (arithmetic.of_nat b)

  -- `sum(values) / len(values)`, of one value or more
  abbrev pub sum_from : S → List S → S
  sum_from total [] = total
  sum_from total (x ∷ xs) = sum_from (arithmetic.add total x) xs

  abbrev pub mean_of : List S → S
  mean_of xs = arithmetic.div (sum_from (arithmetic.of_nat 0) xs) (arithmetic.of_nat (length xs))

  module _ (alphabet : Alphabet) where
    -- `_tokens`
    unfoldable pub tokens : Text → List Text
    unfolding words distinct
    tokens text = distinct (words alphabet.is_word [] (alphabet.casefold text))

    -- The harmonic mean in `_answer_relevance`
    abbrev pub harmonic : S → S → S
    harmonic precision recall =
        if arithmetic.is_zero (arithmetic.add precision recall)
        then arithmetic.of_nat 0
        else arithmetic.div (arithmetic.mul (arithmetic.mul (arithmetic.of_nat 2) precision) recall)
            (arithmetic.add precision recall)

    abbrev pub relevance_of : List Text → List Text → S
    unfolding common
    relevance_of expected actual =
        if is_empty expected || is_empty actual
        then arithmetic.of_nat 0
        else harmonic
            (arithmetic.div (arithmetic.of_nat (common expected actual))
              (arithmetic.of_nat (length actual)))
            (arithmetic.div (arithmetic.of_nat (common expected actual))
              (arithmetic.of_nat (length expected)))

    -- `_answer_relevance`
    unfoldable pub answer_relevance : Option Text → Option Text → Option S
    unfolding tokens common
    answer_relevance none answer = none
    answer_relevance (some expected) none = none
    answer_relevance (some expected) (some answer) =
        if is_empty expected || is_empty answer
        then none
        else some (relevance_of (tokens expected) (tokens answer))

    -- `_faithfulness`
    unfoldable pub faithfulness : Option Text → Text → Option S
    unfolding tokens common ratio
    faithfulness none context_text = none
    faithfulness (some answer) context_text =
        if is_empty answer || is_empty context_text
        then none
        else some (ratio (common (tokens answer) (tokens context_text)) (length (tokens answer)))

    -- `evaluate_case`
    unfoldable pub evaluate_case :
        List Text
        → List Text
        → Option Text
        → Option Text
        → Text
        → Option (List Text)
        → CaseEvaluation S
    unfolding nonempty distinct common ratio answer_relevance faithfulness
    evaluate_case expected_chunk_ids retrieved_chunk_ids expected_answer answer context_text
          citation_chunk_ids =
        let expected = distinct (nonempty expected_chunk_ids) in
        let retrieved = distinct (nonempty retrieved_chunk_ids) in
        let citations = distinct (or_retrieved citation_chunk_ids retrieved) in
        record {
          retrieved_chunk_ids = retrieved;
          retrieval_hit = not (common expected retrieved == 0);
          retrieval_recall = ratio (common expected retrieved) (length expected);
          citation_correctness = ratio (common expected citations) (length citations);
          answer_relevance = answer_relevance expected_answer answer;
          faithfulness = faithfulness answer context_text;
        }

  -- `summarize_cases`
  unfoldable pub summarize_cases : List (CaseEvaluation S) → S × S
  summarize_cases [] = (arithmetic.of_nat 0, arithmetic.of_nat 0)
  summarize_cases (c ∷ cs) = (
    mean_of (map (λ c. c.retrieval_recall) (c ∷ cs)),
    mean_of (map (λ c. c.citation_correctness) (c ∷ cs)),
  )

  -- `[x for x in xs if x is not None]`
  abbrev pub present : List (Option S) → List S
  present [] = []
  present (none ∷ xs) = present xs
  present (some x ∷ xs) = x ∷ present xs

  abbrev pub mean_or_none : List S → Option S
  mean_or_none [] = none
  mean_or_none (x ∷ xs) = some (mean_of (x ∷ xs))

  -- `summarize_answer_metrics`
  unfoldable pub summarize_answer_metrics : List (CaseEvaluation S) → Option S × Option S × ℕ × ℕ
  summarize_answer_metrics cases =
      let relevance = present (map (λ c. c.answer_relevance) cases) in
      let faith = present (map (λ c. c.faithfulness) cases) in
      (mean_or_none relevance, mean_or_none faith, length relevance, length faith)
