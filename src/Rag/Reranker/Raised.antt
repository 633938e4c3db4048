-- ===== src/Rag/Reranker/Raised.antt =====
-- What `rerank` raises with the fallback enabled.
use ai_agent_hub.Common.{
  ℕ, suc, ◌≡◌, refl, ap, nat_eq, Bool, true, false, not, ◌⊎◌, inl, inr, Option, none, some, List,
  [], ◌∷◌, map, leb, length, min, contains, get_elem?, if◌then◌else◌, Bool-cases,
}
use ai_agent_hub.Common.Int.{ℤ, pos, magnitude}
use ai_agent_hub.Common.Result.{Result, ok, err, ◌>>=◌}
use ai_agent_hub.Common.Text.{Text, strip}
use ai_agent_hub.Agents.State.{Json, Items}
use ai_agent_hub.Tools.Schema.{lookup}
use ai_agent_hub.Rag.Contracts.{RetrievedChunk}
use ai_agent_hub.Rag.Reranker.{
  RerankedChunk, RerankError, reranker_error, overflow_error, other_error, RerankerSettings, Scores,
  PostOutcome, timed_out, http_error, rejected, broke, responded, fallback_or_raise, validate_input,
  settle_parsed, settle_request, effective, request, validated, rerank, checked_score, converted,
  score_of, named, indexed, read_item, read_results, read_list, parse_response,
}
use ai_agent_hub.Rag.Reranker.Outcome.{outcome_of}

-- A result that is not the error of the client.
abbrev NotOther : {A : Type 0} → Result RerankError A → Type 0
NotOther r = ¬ (r ≡ err other_error)

bind-NotOther :
    {A B : Type 0} (m : Result RerankError A) (f : A → Result RerankError B)
    → NotOther m
    → ((a : A) → NotOther (f a))
    → NotOther (m >>= f)
bind-NotOther (ok a) f h k = k a
bind-NotOther (err e) f h k = λ q. (let same : e ≡ other_error = cc in h (ap (λ t. err t) same))

module _ {S : Type 0} (scores : Scores S) where
  checked_score-NotOther : (s : S) → NotOther (checked_score scores s)
  checked_score-NotOther s = elim (Bool-cases (scores.is_finite s)) [
    | inl finite ↦ rw finite (λ e. cc)
    | inr infinite ↦ rw infinite (λ e. cc)
  ]

  converted-NotOther : (s : Option S) → NotOther (converted scores s)
  converted-NotOther none = λ e. cc
  converted-NotOther (some s) = checked_score-NotOther s

  score_of-NotOther : (score : Option Json) → NotOther (score_of scores score)
  score_of-NotOther (some (Json.bool true)) = converted-NotOther (scores.of_int (pos 1))
  score_of-NotOther (some (Json.bool false)) = converted-NotOther (scores.of_int (pos 0))
  score_of-NotOther (some (Json.int i)) = converted-NotOther (scores.of_int i)
  score_of-NotOther (some (Json.float bits)) = checked_score-NotOther (scores.of_bits bits)
  score_of-NotOther _ = λ e. cc

  module _ (chunks : List (RetrievedChunk S)) where
    indexed-NotOther :
        (seen : List ℕ) (index : Option ℕ) (score : Option Json)
        → NotOther (indexed scores chunks seen index score)
    indexed-NotOther seen none score = λ e. cc
    indexed-NotOther seen (some n) score = found (get_elem? chunks n)
      where
        found : (c : Option (RetrievedChunk S)) → NotOther (named scores chunks seen n c score)
        found none = λ e. cc
        found (some c) = elim (Bool-cases (contains n seen)) [
          | inl old ↦ rw old (λ e. cc)
          | inr new ↦
              rw new (bind-NotOther (score_of scores score) _ (score_of-NotOther score) (λ s e. cc))
        ]

    read_item-NotOther :
        (seen : List ℕ) (item : Json) → NotOther (read_item scores chunks seen item)
    unfolding read_item
    read_item-NotOther seen (Json.obj fields) = indexed-NotOther seen _ _
    read_item-NotOther seen _ = λ e. cc

    read_results-NotOther :
        (top_k : ℕ) (seen : List ℕ) (count : ℕ) (items : Items)
        → NotOther (read_results scores chunks top_k seen count items)
    unfolding read_results
    read_results-NotOther top_k seen count Items.nil = λ e. cc
    read_results-NotOther top_k seen count (Items.cons item items) =
        bind-NotOther (read_item scores chunks seen item) _ (read_item-NotOther seen item) (λ p.
          (elim (Bool-cases (leb top_k (suc count))) [
            | inl full ↦ rw full (λ e. cc)
            | inr more ↦ rw more (
                bind-NotOther (read_results scores chunks top_k (p.0 ∷ seen) (suc count) items) _
                  (read_results-NotOther top_k (p.0 ∷ seen) (suc count) items) (λ xs e. cc))
          ]))

    read_list-NotOther :
        (top_k : ℕ) (results : Option Json) → NotOther (read_list scores chunks top_k results)
    read_list-NotOther top_k (some (Json.arr items)) = read_results-NotOther top_k [] 0 items
    read_list-NotOther top_k _ = λ e. cc

    parse_response-NotOther :
        (top_k : ℕ) (body : Option Json) → NotOther (parse_response scores chunks top_k body)
    unfolding parse_response
    parse_response-NotOther top_k (some (Json.obj fields)) =
        read_list-NotOther top_k (lookup fields "results")
    parse_response-NotOther top_k _ = λ e. cc

-- An error that no clause catches: an OverflowError, or one of a request that has broken.
abbrev pub Escapes : PostOutcome → RerankError → Type 0
Escapes outcome e = (e ≡ overflow_error) ⊎ ((e ≡ other_error) × (outcome ≡ broke))

module _ {S : Type 0} (scores : Scores S) (settings : RerankerSettings)
    (enabled : settings.fallback_enabled ≡ true) where
  fallback-ok :
      (error e : RerankError) (chunks : List (RetrievedChunk S)) (top_k : ℕ)
      → fallback_or_raise settings error chunks top_k ≡ err e
      → ⊥
  unfolding fallback_or_raise
  fallback-ok error e chunks top_k h = let h1 = rw enabled at h in cc

  settle_parsed-Overflow :
      (chunks : List (RetrievedChunk S)) (top_k : ℕ)
      (parsed : Result RerankError (List (RerankedChunk S))) (e : RerankError)
      → NotOther parsed
      → settle_parsed scores settings chunks top_k parsed ≡ err e
      → e ≡ overflow_error
  settle_parsed-Overflow chunks top_k (ok xs) e clean h = cc
  settle_parsed-Overflow chunks top_k (err overflow_error) e clean h = cc
  settle_parsed-Overflow chunks top_k (err other_error) e clean h = absurd (clean refl)
  settle_parsed-Overflow chunks top_k (err (reranker_error code message)) e clean h =
      absurd (fallback-ok _ e chunks top_k h)

  settle_request-Escapes :
      (chunks : List (RetrievedChunk S)) (top_k : ℕ) (outcome : PostOutcome) (e : RerankError)
      → settle_request scores settings chunks top_k outcome ≡ err e
      → Escapes outcome e
  unfolding settle_request
  settle_request-Escapes chunks top_k timed_out e h = absurd (fallback-ok _ e chunks top_k h)
  settle_request-Escapes chunks top_k http_error e h = absurd (fallback-ok _ e chunks top_k h)
  settle_request-Escapes chunks top_k rejected e h = absurd (fallback-ok _ e chunks top_k h)
  settle_request-Escapes chunks top_k broke e h = inr (cc, refl)
  settle_request-Escapes chunks top_k (responded status body) e h =
      elim (Bool-cases (leb 400 status)) [
        | inl refused ↦ let h1 = rw refused at h in absurd (fallback-ok _ e chunks top_k h1)
        | inr answered ↦
            let h1 = rw answered at h in
            inl (
              settle_parsed-Overflow chunks top_k _ e
                (parse_response-NotOther scores chunks top_k body) h1)
      ]

  module _ {X : Type 0} (post : Text → List Text → ℕ → X → PostOutcome × X) (query : Text) where
    keyed-Escapes :
        (chunks : List (RetrievedChunk S)) (top_k : ℕ) (error : RerankError) (has_key : Bool)
        (outcome : PostOutcome) (x y : X) (e : RerankError)
        → (if◌then◌else◌ {A = Result RerankError (List (RerankedChunk S)) × X}
            (not has_key)
            (fallback_or_raise settings error chunks top_k, x)
            (settle_request scores settings chunks top_k outcome, y)).0
          ≡ err e
        → Escapes outcome e
    keyed-Escapes chunks top_k error true outcome x y e h =
        settle_request-Escapes chunks top_k outcome e h
    keyed-Escapes chunks top_k error false outcome x y e h =
        absurd (fallback-ok error e chunks top_k h)

    request-Escapes :
        (chunks : List (RetrievedChunk S)) (top_k : ℕ) (x : X) (e : RerankError)
        → (request scores post settings query chunks top_k x).0 ≡ err e
        → Escapes (outcome_of scores post settings query chunks x top_k) e
    request-Escapes [] top_k x e h = cc
    request-Escapes (c ∷ cs) top_k x e h =
        let answer =
          post (strip query) (map (λ d. d.text) (c ∷ cs)) (min top_k (length (c ∷ cs))) x in
        keyed-Escapes (c ∷ cs) top_k
          (reranker_error "RERANKER_NOT_CONFIGURED" "Reranker API key is not configured")
          settings.has_api_key answer.0 x answer.1 e h

    validated-Escapes :
        (chunks : List (RetrievedChunk S)) (k : ℕ) (x : X) (invalid : Option RerankError)
        (e : RerankError)
        → (validated scores post settings query chunks k x invalid).0 ≡ err e
        → (invalid ≡ some e) ⊎ Escapes (outcome_of scores post settings query chunks x k) e
    validated-Escapes chunks k x none e h = inr (request-Escapes chunks k x e h)
    validated-Escapes chunks k x (some error) e h = inl cc

    -- With the fallback enabled, `rerank` raises only what the validation of its input raises, the
    -- OverflowError of a score that is no float, or what the client raises that is no timeout, no
    -- other HTTPError and no ValueError, TypeError, KeyError or IndexError.
    pub rerank-raises :
        (chunks : List (RetrievedChunk S)) (top_k : Option ℤ) (x : X) (e : RerankError)
        → (rerank scores post settings query chunks top_k x).0 ≡ err e
        → (validate_input query chunks (effective top_k settings.top_k) ≡ some e)
          ⊎ Escapes
              (outcome_of scores post settings query chunks x
                (magnitude (effective top_k settings.top_k)))
              e
    unfolding rerank
    rerank-raises chunks top_k x e h =
        validated-Escapes chunks (magnitude (effective top_k settings.top_k)) x
          (validate_input query chunks (effective top_k settings.top_k)) e h
