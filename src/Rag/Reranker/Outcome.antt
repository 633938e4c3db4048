-- ===== src/Rag/Reranker/Outcome.antt =====
-- What a call of `rerank` returns.
use ai_agent_hub.Common.{
  ℕ, zero, suc, ◌<◌, ◌≡◌, refl, subst, nat_eq, Bool, true, false, not, ◌⊎◌, inl, inr, Option, none,
  some, List, [], ◌∷◌, map, leb, length, take, min, if◌then◌else◌, arith, Bool-cases,
}
use ai_agent_hub.Common.Int.{ℤ, pos, negsuc, nonpositive, magnitude}
use ai_agent_hub.Common.Result.{Result, ok, err}
use ai_agent_hub.Common.Text.{Text, is_blank, strip}
use ai_agent_hub.Agents.State.{Json}
use ai_agent_hub.Rag.Contracts.{RetrievedChunk}
use ai_agent_hub.Rag.Reranker.{
  RerankedChunk, RerankError, reranker_error, overflow_error, other_error, RerankerSettings, Scores,
  PostOutcome, timed_out, http_error, rejected, broke, responded, kept, parse_response,
  fallback_or_raise, validate_input, settle_parsed, settle_request, effective, request, validated,
  rerank,
}
use ai_agent_hub.Rag.Reranker.Picks.{IsRead, parse_response_complete}
use ai_agent_hub.Rag.Reranker.Picked.{parse_response-IsRead}

module _ {S : Type 0} (scores : Scores S) (settings : RerankerSettings)
    (chunks : List (RetrievedChunk S)) (k : ℕ) where
  -- The ways in which a request gives no reranking; the last is a body without readable results.
  pub data Fails : PostOutcome → Type 0 where
    timeout : Fails timed_out
    no_connection : Fails http_error
    client_rejected : Fails rejected
    refused :
        (status : ℕ) (body : Option Json) → leb 400 status ≡ true → Fails (responded status body)
    unreadable :
        (status : ℕ) (body : Option Json)
        → leb 400 status ≡ false
        → ((rs : List (RerankedChunk S)) → ¬ (IsRead scores chunks k body rs))
        → Fails (responded status body)

  -- What `rerank` returns, by the outcome of its request.
  pub data IsReranked (outcome : PostOutcome) : List (RerankedChunk S) → Type 0 where
    no_chunks : chunks ≡ [] → IsReranked outcome []
    picked :
        (status : ℕ) (body : Option Json) (rs : List (RerankedChunk S))
        → settings.has_api_key ≡ true
        → outcome ≡ responded status body
        → leb 400 status ≡ false
        → IsRead scores chunks k body rs
        → IsReranked outcome rs
    fell_back :
        settings.fallback_enabled ≡ true
        → (settings.has_api_key ≡ false) ⊎ Fails outcome
        → IsReranked outcome (
            map
              (λ c. record {
                chunk = c;
                rerank_score = none;
                original_score = c.score;
                used_fallback = true;
              })
              (take k chunks))

  fallback-IsReranked :
      (error : RerankError) (outcome : PostOutcome) (rs : List (RerankedChunk S))
      → (settings.has_api_key ≡ false) ⊎ Fails outcome
      → fallback_or_raise settings error chunks k ≡ ok rs
      → IsReranked outcome rs
  unfolding fallback_or_raise
  fallback-IsReranked error outcome rs fails h = elim (Bool-cases settings.fallback_enabled) [
    | inl enabled ↦
        let h1 = rw enabled at h in
        let same : map kept (take k chunks) ≡ rs = cc in
        subst (IsReranked outcome) same (fell_back enabled fails)
    | inr disabled ↦ let h1 = rw disabled at h in cc
  ]

  settle_parsed-IsReranked :
      (status : ℕ) (body : Option Json) (parsed : Result RerankError (List (RerankedChunk S)))
      (rs : List (RerankedChunk S))
      → 0 < k
      → settings.has_api_key ≡ true
      → leb 400 status ≡ false
      → parse_response scores chunks k body ≡ parsed
      → settle_parsed scores settings chunks k parsed ≡ ok rs
      → IsReranked (responded status body) rs
  settle_parsed-IsReranked status body (ok xs) rs room key accepted e h =
      let parses : parse_response scores chunks k body ≡ ok rs = cc in
      picked status body rs key refl accepted (read k room parses)
    where
      read :
          (k : ℕ)
          → 0 < k
          → parse_response scores chunks k body ≡ ok rs
          → IsRead scores chunks k body rs
      read zero room e = absurd (omega arith)
      read (suc n) room e = parse_response-IsRead scores chunks n body rs e
  settle_parsed-IsReranked status body (err overflow_error) rs room key accepted e h = cc
  settle_parsed-IsReranked status body (err other_error) rs room key accepted e h = cc
  settle_parsed-IsReranked status body (err (reranker_error code message)) rs room key accepted e
        h =
      fallback-IsReranked _ (responded status body) rs
        (inr (
          unreadable status body accepted (λ xs is_read.
            (let reads = parse_response_complete scores chunks k body xs room is_read in cc))))
        h

  settle_request-IsReranked :
      (outcome : PostOutcome) (rs : List (RerankedChunk S))
      → 0 < k
      → settings.has_api_key ≡ true
      → settle_request scores settings chunks k outcome ≡ ok rs
      → IsReranked outcome rs
  unfolding settle_request
  settle_request-IsReranked timed_out rs room key h =
      fallback-IsReranked _ timed_out rs (inr timeout) h
  settle_request-IsReranked http_error rs room key h =
      fallback-IsReranked _ http_error rs (inr no_connection) h
  settle_request-IsReranked rejected rs room key h =
      fallback-IsReranked _ rejected rs (inr client_rejected) h
  settle_request-IsReranked broke rs room key h = cc
  settle_request-IsReranked (responded status body) rs room key h =
      elim (Bool-cases (leb 400 status)) [
        | inl high ↦
            let h1 = rw high at h in
            fallback-IsReranked _ (responded status body) rs (inr (refused status body high)) h1
        | inr accepted ↦
            let h1 = rw accepted at h in
            settle_parsed-IsReranked status body _ rs room key accepted refl h1
      ]

room_of : (k : ℤ) → nonpositive k ≡ false → 0 < magnitude k
room_of (pos zero) h = cc
room_of (pos (suc n)) h = omega arith
room_of (negsuc n) h = cc

validate_input-positive :
    {S : Type 0} (query : Text) (chunks : List (RetrievedChunk S)) (k : ℤ)
    → validate_input query chunks k ≡ none
    → nonpositive k ≡ false
unfolding validate_input is_blank
validate_input-positive query chunks k h = elim (Bool-cases (is_blank query)) [
  | inl blank ↦ let h1 = rw blank at h in cc
  | inr asked ↦
      let h1 = rw asked at h in
      elim (Bool-cases (nonpositive k)) [ inl low ↦ let h2 = rw low at h1 in cc | inr high ↦ high ]
]

module _ {S : Type 0} (scores : Scores S) {X : Type 0}
    (post : Text → List Text → ℕ → X → PostOutcome × X) (settings : RerankerSettings) (query : Text)
    (chunks : List (RetrievedChunk S)) (x : X) where
  -- How the request ends for the stripped query and the texts of the chunks.
  abbrev pub outcome_of : ℕ → PostOutcome
  outcome_of k =
      (post (strip query) (map (λ (d : RetrievedChunk S). d.text) chunks) (min k (length chunks))
        x).0

  keyed-IsReranked :
      (k : ℕ) (error : RerankError) (has_key : Bool) (y : X) (rs : List (RerankedChunk S))
      → 0 < k
      → settings.has_api_key ≡ has_key
      → (if◌then◌else◌ {A = Result RerankError (List (RerankedChunk S)) × X}
          (not has_key)
          (fallback_or_raise settings error chunks k, x)
          (settle_request scores settings chunks k (outcome_of k), y)).0
        ≡ ok rs
      → IsReranked scores settings chunks k (outcome_of k) rs
  keyed-IsReranked k error true y rs room key h =
      settle_request-IsReranked scores settings chunks k (outcome_of k) rs room key h
  keyed-IsReranked k error false y rs room key h =
      fallback-IsReranked scores settings chunks k error (outcome_of k) rs (inl key) h

module _ {S : Type 0} (scores : Scores S) {X : Type 0}
    (post : Text → List Text → ℕ → X → PostOutcome × X) (settings : RerankerSettings)
    (query : Text) where
  request-IsReranked :
      (chunks : List (RetrievedChunk S)) (k : ℕ) (x : X) (rs : List (RerankedChunk S))
      → 0 < k
      → (request scores post settings query chunks k x).0 ≡ ok rs
      → IsReranked scores settings chunks k (outcome_of scores post settings query chunks x k) rs
  request-IsReranked [] k x rs room h =
      let same : [] ≡ rs = cc in
      subst (IsReranked scores settings [] k (outcome_of scores post settings query [] x k)) same
        (no_chunks refl)
  request-IsReranked (c ∷ cs) k x rs room h =
      keyed-IsReranked scores post settings query (c ∷ cs) x k
        (reranker_error "RERANKER_NOT_CONFIGURED" "Reranker API key is not configured")
        settings.has_api_key
        (post (strip query) (map (λ d. d.text) (c ∷ cs)) (min k (length (c ∷ cs))) x).1 rs room refl
        h

  validated-IsReranked :
      (chunks : List (RetrievedChunk S)) (k : ℤ) (x : X) (invalid : Option RerankError)
      (rs : List (RerankedChunk S))
      → validate_input query chunks k ≡ invalid
      → (validated scores post settings query chunks (magnitude k) x invalid).0 ≡ ok rs
      → IsReranked scores settings chunks
          (magnitude k)
          (outcome_of scores post settings query chunks x (magnitude k))
          rs
  validated-IsReranked chunks k x (some e) rs same h = cc
  validated-IsReranked chunks k x none rs same h =
      request-IsReranked chunks (magnitude k) x rs
        (room_of k (validate_input-positive query chunks k same)) h

  -- Where `rerank` returns chunks, there are no candidates and no result; or there is a key, the
  -- provider responds with a status below 400 and readable results, and the chunks are, up to `top_k`
  -- and in the order of the results, the candidates at the indexes of the results, which differ, each
  -- with the finite score of its result; or the fallback is enabled and the key is missing or the
  -- request has failed, which a response without readable results does too, and the chunks are the
  -- first `top_k` candidates as they were.
  pub rerank-IsReranked :
      (chunks : List (RetrievedChunk S)) (top_k : Option ℤ) (x : X) (rs : List (RerankedChunk S))
      → (rerank scores post settings query chunks top_k x).0 ≡ ok rs
      → IsReranked scores settings chunks
          (magnitude (effective top_k settings.top_k))
          (outcome_of scores post settings query chunks x
            (magnitude (effective top_k settings.top_k)))
          rs
  unfolding rerank
  rerank-IsReranked chunks top_k x rs h =
      validated-IsReranked chunks (effective top_k settings.top_k) x
        (validate_input query chunks (effective top_k settings.top_k)) rs refl h
