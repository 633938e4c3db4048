-- ===== src/Rag/Evaluation/Counted.antt =====
-- The scores of a case are proportions of counted sets.
use ai_agent_hub.Common.{
  ℕ, ◌≤◌, ◌<◌, ◌≡◌, ◌↔◌, refl, subst, true, false, not, ◌||◌, ◌⊎◌, inl, inr, Option, none, some,
  List, [], ◌∷◌, ◌==◌, nat_eq, arith, length, is_empty, Bool-cases,
}
use ai_agent_hub.Common.Text.{Text}
use ai_agent_hub.Rag.Evaluation.{
  Arithmetic, Alphabet, CaseEvaluation, distinct, nonempty, common, or_retrieved, tokens, ratio,
  harmonic, relevance_of, answer_relevance, faithfulness, evaluate_case,
}
use ai_agent_hub.Rag.Evaluation.Sets.{Differ, Differ-distinct, IsBoth, Overlap, common-Overlap}

is_empty-length : (xs : List Text) → is_empty xs ≡ true → length xs ≡ 0
is_empty-length [] h = refl
is_empty-length (x ∷ xs) h = cc

nonempty-length : (xs : List Text) → is_empty xs ≡ false → 0 < length xs
nonempty-length [] h = cc
nonempty-length (x ∷ xs) h = omega arith

module _ {S : Type 0} (arithmetic : Arithmetic S) (alphabet : Alphabet) where
  -- A number of texts over another, or zero where there are none.
  abbrev pub IsRatio : S → ℕ → ℕ → Type 0
  IsRatio score n d =
      ((d ≡ 0) × (score ≡ arithmetic.of_nat 0))
      ⊎ ((0 < d) × (score ≡ arithmetic.div (arithmetic.of_nat n) (arithmetic.of_nat d)))

  ratio-IsRatio : (n d : ℕ) → IsRatio (ratio arithmetic n d) n d
  unfolding ratio
  ratio-IsRatio n d = elim (Bool-cases (d == 0)) [
    | inl none_ ↦ rw none_ (inl (ground arith, refl))
    | inr some_ ↦ rw some_ (inr (ground arith, refl))
  ]

  -- The score is the share of one of two sets that is common to both.
  pub record IsPart (score : S) (a b whole : List Text) : Type 0 where
    pub both : List Text
    pub is_both : IsBoth a b both
    pub at_most : length both ≤ length whole
    pub value : IsRatio score (length both) (length whole)

  -- The harmonic mean of two scores.
  abbrev pub IsMean : S → S → S → Type 0
  IsMean score p r =
      ((arithmetic.is_zero (arithmetic.add p r) ≡ true) × (score ≡ arithmetic.of_nat 0))
      ⊎ ((arithmetic.is_zero (arithmetic.add p r) ≡ false)
          × (score
              ≡ arithmetic.div (arithmetic.mul (arithmetic.mul (arithmetic.of_nat 2) p) r)
                  (arithmetic.add p r)))

  -- The relevance of an answer: the mean of the shares of the common words among those of the answer
  -- and among those that were expected.
  pub record IsRelevant (score : S) (expected answer : List Text) : Type 0 where
    pub both : List Text
    pub is_both : IsBoth expected answer both
    pub value :
        (((length expected ≡ 0) ⊎ (length answer ≡ 0)) × (score ≡ arithmetic.of_nat 0))
        ⊎ ((0 < length expected)
            × (0 < length answer)
            × IsMean score
                (arithmetic.div
                  (arithmetic.of_nat (length both))
                  (arithmetic.of_nat (length answer)))
                (arithmetic.div
                  (arithmetic.of_nat (length both))
                  (arithmetic.of_nat (length expected))))

  -- What an evaluation says, for the sets of expected, retrieved and cited ids.
  pub record IsCounted (expected retrieved cited : List Text) (expected_answer answer : Option Text)
      (context_text : Text) (e : CaseEvaluation S) : Type 0 where
    pub ids : e.retrieved_chunk_ids ≡ retrieved
    pub differ : Differ retrieved
    pub recall : IsPart e.retrieval_recall expected retrieved expected
    pub correctness : IsPart e.citation_correctness expected cited cited
    pub hit : (e.retrieval_hit ≡ true) ↔ (0 < length recall.both)
    pub relevant :
        (score : S)
        → e.answer_relevance ≡ some score
        → (wanted text : Text) × (expected_answer ≡ some wanted)
          × (answer ≡ some text)
          × IsRelevant score (tokens arithmetic alphabet wanted) (tokens arithmetic alphabet text)
    pub faithful :
        (score : S)
        → e.faithfulness ≡ some score
        → (text : Text) × (answer ≡ some text)
          × IsPart score
              (tokens arithmetic alphabet text)
              (tokens arithmetic alphabet context_text)
              (tokens arithmetic alphabet text)

  harmonic-IsMean : (p r : S) → IsMean (harmonic arithmetic alphabet p r) p r
  harmonic-IsMean p r = elim (Bool-cases (arithmetic.is_zero (arithmetic.add p r))) [
    | inl no_sum ↦ rw no_sum (inl (refl, refl))
    | inr a_sum ↦ rw a_sum (inr (refl, refl))
  ]

  relevance_of-IsRelevant :
      (expected answer : List Text)
      → Differ expected
      → IsRelevant (relevance_of arithmetic alphabet expected answer) expected answer
  unfolding relevance_of
  relevance_of-IsRelevant expected answer d =
      let c = common-Overlap expected answer d in
      record {
        both = c.both;
        is_both = c.is_both;
        value = elim (Bool-cases (is_empty expected)) [
          | inl blank ↦ rw blank (inl (inl (is_empty-length expected blank), refl))
          | inr wanted ↦ elim (Bool-cases (is_empty answer)) [
            | inl blank ↦ rw (wanted, blank) (inl (inr (is_empty-length answer blank), refl))
            | inr said ↦
                rw (wanted, said, c.counted)
                  (inr (
                    nonempty-length expected wanted,
                    nonempty-length answer said,
                    harmonic-IsMean _ _,
                  ))
          ]
        ];
      }

  answer_relevance-IsRelevant :
      (expected_answer answer : Option Text) (score : S)
      → answer_relevance arithmetic alphabet expected_answer answer ≡ some score
      → (wanted text : Text) × (expected_answer ≡ some wanted)
        × (answer ≡ some text)
        × IsRelevant score (tokens arithmetic alphabet wanted) (tokens arithmetic alphabet text)
  unfolding answer_relevance
  answer_relevance-IsRelevant none answer score h = cc
  answer_relevance-IsRelevant (some wanted) none score h = cc
  answer_relevance-IsRelevant (some wanted) (some text) score h =
      elim (Bool-cases (is_empty wanted || is_empty text)) [
        | inl blank ↦ let h1 = rw blank at h in cc
        | inr full ↦
            let h1 = rw full at h in
            let same : relevance_of arithmetic alphabet (tokens arithmetic alphabet wanted)
                  (tokens arithmetic alphabet text)
                ≡ score =
              cc in
            (
              wanted,
              text,
              refl,
              refl,
              subst
                  (λ s.
                    IsRelevant s (tokens arithmetic alphabet wanted)
                      (tokens arithmetic alphabet text))
                  same (relevance_of-IsRelevant _ _ (unfold tokens in Differ-distinct _)),
            )
      ]

  part :
      (a b whole : List Text) (c : Overlap a b)
      → length c.both ≤ length whole
      → IsPart (ratio arithmetic (common a b) (length whole)) a b whole
  part a b whole c most = record {
    both = c.both;
    is_both = c.is_both;
    at_most = most;
    value = rw c.counted (ratio-IsRatio (length c.both) (length whole));
  }

  faithfulness-IsPart :
      (answer : Option Text) (context_text : Text) (score : S)
      → faithfulness arithmetic alphabet answer context_text ≡ some score
      → (text : Text) × (answer ≡ some text)
        × IsPart score
            (tokens arithmetic alphabet text)
            (tokens arithmetic alphabet context_text)
            (tokens arithmetic alphabet text)
  unfolding faithfulness
  faithfulness-IsPart none context_text score h = cc
  faithfulness-IsPart (some text) context_text score h =
      elim (Bool-cases (is_empty text || is_empty context_text)) [
        | inl empty ↦ let h1 = rw empty at h in cc
        | inr full ↦
            let h1 = rw full at h in
            let words = tokens arithmetic alphabet text in
            let others = tokens arithmetic alphabet context_text in
            let c = common-Overlap words others (unfold tokens in Differ-distinct _) in
            let same : ratio arithmetic (common words others) (length words) ≡ score = cc in
            (
              text,
              refl,
              subst (λ s. IsPart s words others words) same (part words others words c c.left),
            )
      ]

  hit_iff : (n m : ℕ) → n ≡ m → (not (n == 0) ≡ true) ↔ (0 < m)
  hit_iff n m e = (λ h. ground arith, λ h. ground arith)

  -- Recall is the share of the expected ids that were retrieved, citation correctness the share of the
  -- cited ids that were expected, and faithfulness, where there is one, the share of the answer's
  -- words that the context has: a number of common texts over the size of the set, or zero for an
  -- empty set. The relevance of an answer, where there is one, is the harmonic mean of the shares of
  -- the common words among those of the answer and among the expected ones, or zero where there are no
  -- words or the shares are zero. There is a hit exactly when an expected id was retrieved. The retrieved ids
  -- are listed once.
  pub evaluate_case-IsCounted :
      (expected retrieved : List Text) (expected_answer answer : Option Text) (context_text : Text)
      (citations : Option (List Text))
      → IsCounted
          (distinct (nonempty expected))
          (distinct (nonempty retrieved))
          (distinct (or_retrieved citations (distinct (nonempty retrieved))))
          expected_answer
          answer
          context_text
          (evaluate_case arithmetic alphabet expected retrieved expected_answer answer context_text
            citations)
  unfolding evaluate_case part
  evaluate_case-IsCounted expected retrieved expected_answer answer context_text citations =
      let wanted = distinct (nonempty expected) in
      let found = distinct (nonempty retrieved) in
      let cited = distinct (or_retrieved citations found) in
      let apart : Differ wanted = Differ-distinct (nonempty expected) in
      let c = common-Overlap wanted found apart in
      let d = common-Overlap wanted cited apart in
      record {
        ids = refl;
        differ = Differ-distinct (nonempty retrieved);
        recall = part wanted found wanted c c.left;
        correctness = part wanted cited cited d d.right;
        hit = hit_iff (common wanted found) (length c.both) c.counted;
        relevant = answer_relevance-IsRelevant expected_answer answer;
        faithful = faithfulness-IsPart answer context_text;
      }
