-- ===== src/Rag/Reranker.antt =====
-- backend/app/rag/rerankers/cohere.py and base.py: the reranker over a provider's answer.
-- `post` is the HTTP client. `Score` is Python's float; `of_int` is the conversion of an integer, which
-- raises an OverflowError, that no clause catches, where it gives nothing.
pub mod Picks
pub mod Picked
pub mod Outcome
pub mod Raised
mod Tests
use ai_agent_hub.Common.{
  ℕ, zero, suc, ◌+◌, String, Bool, true, false, not, ◌&&◌, ◌||◌, Option, none, some, List, [], ◌∷◌,
  map, ◌==◌, nat_eq, string_eq, if◌then◌else◌, leb, min, contains, length, take, get_elem?,
}
use ai_agent_hub.Common.Int.{ℤ, pos, negsuc, nonpositive, magnitude}
use ai_agent_hub.Common.Result.{Result, ok, err, ◌>>=◌}
use ai_agent_hub.Common.Text.{Text, strip, is_blank}
use ai_agent_hub.Agents.State.{Json, Items, Fields}
use ai_agent_hub.Tools.Schema.{lookup}
use ai_agent_hub.Rag.Contracts.{RetrievedChunk}

pub record RerankedChunk (S : Type 0) : Type 0 where
  pub chunk : RetrievedChunk S
  pub rerank_score : Option S
  pub original_score : S
  pub used_fallback : Bool

-- A `RerankerError`, the OverflowError of a conversion, or another error that no clause catches.
pub data RerankError : Type 0 where
  reranker_error : String → String → RerankError
  overflow_error other_error : RerankError

pub record RerankerSettings : Type 0 where
  pub has_api_key : Bool
  pub fallback_enabled : Bool
  pub top_k : ℤ

-- The floats that the code makes of JSON numbers.
pub record Scores (S : Type 0) : Type 0 where
  pub of_int : ℤ → Option S
  pub of_bits : ℕ → S
  pub is_finite : S → Bool

-- How a request ends: a timeout, another HTTPError, a ValueError, TypeError, KeyError or IndexError of
-- the client, another exception (as httpx.InvalidURL, or RecursionError where the body is read), or a
-- response, whose body is missing where it is no JSON.
pub data PostOutcome : Type 0 where
  timed_out : PostOutcome
  http_error : PostOutcome
  rejected : PostOutcome
  broke : PostOutcome
  responded : ℕ → Option Json → PostOutcome

abbrev pub invalid_response : String → RerankError
invalid_response message = reranker_error "RERANKER_INVALID_RESPONSE" message

abbrev pub invalid_fields : RerankError
invalid_fields = invalid_response "Reranker provider returned invalid result fields"

-- An index that is an integer and not negative; a Boolean is an integer of Python.
abbrev pub index_of : Option Json → Option ℕ
index_of (some (Json.int (pos n))) = some n
index_of (some (Json.bool true)) = some 1
index_of (some (Json.bool false)) = some 0
index_of _ = none

-- `top_k if top_k is not None else self.settings.reranker_top_k`
abbrev pub effective : Option ℤ → ℤ → ℤ
effective none d = d
effective (some k) d = k

module _ {S : Type 0} where
  -- The chunk that a result names, with its new score.
  abbrev pub reranked : RetrievedChunk S → S → RerankedChunk S
  reranked chunk score = record {
    chunk = record chunk { score = score };
    rerank_score = some score;
    original_score = chunk.score;
    used_fallback = false;
  }

  abbrev pub kept : RetrievedChunk S → RerankedChunk S
  kept chunk = record {
    chunk = chunk;
    rerank_score = none;
    original_score = chunk.score;
    used_fallback = true;
  }

  -- `_fallback_or_raise`
  unfoldable pub fallback_or_raise :
      RerankerSettings
      → RerankError
      → List (RetrievedChunk S)
      → ℕ
      → Result RerankError (List (RerankedChunk S))
  fallback_or_raise settings error chunks top_k =
      if not settings.fallback_enabled then err error else ok (map kept (take top_k chunks))

  abbrev pub any_blank : List (RetrievedChunk S) → Bool
  any_blank [] = false
  any_blank (c ∷ cs) = is_blank c.text || any_blank cs

  -- `_validate_input`
  unfoldable pub validate_input : Text → List (RetrievedChunk S) → ℤ → Option RerankError
  unfolding is_blank
  validate_input query chunks top_k =
      if is_blank query
      then some (reranker_error "RERANKER_EMPTY_QUERY" "Reranker query must not be empty")
      else if nonpositive top_k
      then some (reranker_error "RERANKER_INVALID_TOP_K" "Reranker top_k must be greater than zero")
      else if any_blank chunks
      then some (reranker_error "RERANKER_EMPTY_DOCUMENT" "Reranker documents must not be empty")
      else none

module _ {S : Type 0} (scores : Scores S) where
  -- `float(score)` of a score that is a number
  abbrev pub checked_score : S → Result RerankError S
  checked_score s = if not (scores.is_finite s) then err invalid_fields else ok s

  abbrev pub converted : Option S → Result RerankError S
  converted none = err overflow_error
  converted (some s) = checked_score s

  abbrev pub score_of : Option Json → Result RerankError S
  score_of (some (Json.int i)) = converted (scores.of_int i)
  score_of (some (Json.float bits)) = checked_score (scores.of_bits bits)
  score_of (some (Json.bool true)) = converted (scores.of_int (pos 1))
  score_of (some (Json.bool false)) = converted (scores.of_int (pos 0))
  score_of _ = err invalid_fields

  module _ (chunks : List (RetrievedChunk S)) where
    -- The index, the chunk and the score of one result.
    abbrev pub named :
        List ℕ
        → ℕ
        → Option (RetrievedChunk S)
        → Option Json
        → Result RerankError (ℕ × RetrievedChunk S × S)
    named seen n none score = err invalid_fields
    named seen n (some chunk) score =
        if contains n seen then err invalid_fields else score_of score >>= λ s. ok (n, chunk, s)

    abbrev pub indexed :
        List ℕ → Option ℕ → Option Json → Result RerankError (ℕ × RetrievedChunk S × S)
    indexed seen none score = err invalid_fields
    indexed seen (some n) score = named seen n (get_elem? chunks n) score

    unfoldable pub read_item : List ℕ → Json → Result RerankError (ℕ × RetrievedChunk S × S)
    unfolding lookup
    read_item seen (Json.obj fields) =
        indexed seen (index_of (lookup fields "index")) (lookup fields "relevance_score")
    read_item seen _ = err (invalid_response "Reranker result must be an object")

    -- The loop over the results, when `count` of them have been taken.
    unfoldable pub read_results :
        ℕ → List ℕ → ℕ → Items → Result RerankError (List (RerankedChunk S))
    unfolding read_item
    read_results top_k seen count Items.nil = ok []
    read_results top_k seen count (Items.cons item rest) = read_item seen item >>= λ p.
        let others = read_results top_k (p.0 ∷ seen) (suc count) rest in
        if leb top_k (suc count)
        then ok (reranked p.1 p.2 ∷ [])
        else others >>= λ rs. ok (reranked p.1 p.2 ∷ rs)

    abbrev pub read_list : ℕ → Option Json → Result RerankError (List (RerankedChunk S))
    read_list top_k (some (Json.arr results)) = read_results top_k [] 0 results
    read_list top_k _ = err (invalid_response "Reranker provider returned an invalid response")

    -- `_parse_response`, of a body that may be no JSON
    unfoldable pub parse_response : ℕ → Option Json → Result RerankError (List (RerankedChunk S))
    unfolding lookup read_results
    parse_response top_k (some (Json.obj fields)) = read_list top_k (lookup fields "results")
    parse_response top_k _ = err (invalid_response "Reranker provider returned an invalid response")

  -- What `rerank` makes of the end of the request: the `try` block and its clauses.
  abbrev pub settle_parsed :
      RerankerSettings
      → List (RetrievedChunk S)
      → ℕ
      → Result RerankError (List (RerankedChunk S))
      → Result RerankError (List (RerankedChunk S))
  settle_parsed settings chunks top_k (ok rs) = ok rs
  settle_parsed settings chunks top_k (err overflow_error) = err overflow_error
  settle_parsed settings chunks top_k (err other_error) = err other_error
  settle_parsed settings chunks top_k (err (reranker_error code message)) =
      fallback_or_raise settings (reranker_error code message) chunks top_k

  unfoldable pub settle_request :
      RerankerSettings
      → List (RetrievedChunk S)
      → ℕ
      → PostOutcome
      → Result RerankError (List (RerankedChunk S))
  unfolding fallback_or_raise parse_response
  settle_request settings chunks top_k timed_out =
      fallback_or_raise settings
        (reranker_error "RERANKER_TIMEOUT" "Reranker provider request timed out") chunks top_k
  settle_request settings chunks top_k http_error =
      fallback_or_raise settings
        (reranker_error "RERANKER_REQUEST_FAILED" "Reranker provider request failed") chunks top_k
  settle_request settings chunks top_k rejected =
      fallback_or_raise settings (invalid_response "Reranker provider returned an invalid response")
        chunks top_k
  settle_request settings chunks top_k broke = err other_error
  settle_request settings chunks top_k (responded status body) =
      if leb 400 status
      then fallback_or_raise settings
          (reranker_error "RERANKER_REQUEST_FAILED" "Reranker provider returned an error") chunks
          top_k
      else settle_parsed settings chunks top_k (parse_response chunks top_k body)

  module _ {X : Type 0} (post : Text → List Text → ℕ → X → PostOutcome × X) where
    abbrev pub request :
        RerankerSettings
        → Text
        → List (RetrievedChunk S)
        → ℕ
        → X
        → Result RerankError (List (RerankedChunk S)) × X
    request settings query [] top_k x = (ok [], x)
    request settings query (c ∷ cs) top_k x =
        if not settings.has_api_key
        then (
          fallback_or_raise settings
              (reranker_error "RERANKER_NOT_CONFIGURED" "Reranker API key is not configured")
              (c ∷ cs) top_k,
          x,
        )
        else (let (outcome, x') =
              post (strip query) (map (λ d. d.text) (c ∷ cs)) (min top_k (length (c ∷ cs))) x in
            (settle_request settings (c ∷ cs) top_k outcome, x'))

    abbrev pub validated :
        RerankerSettings
        → Text
        → List (RetrievedChunk S)
        → ℕ
        → X
        → Option RerankError
        → Result RerankError (List (RerankedChunk S)) × X
    validated settings query chunks top_k x (some error) = (err error, x)
    validated settings query chunks top_k x none = request settings query chunks top_k x

    -- `rerank`
    unfoldable pub rerank :
        RerankerSettings
        → Text
        → List (RetrievedChunk S)
        → Option ℤ
        → X
        → Result RerankError (List (RerankedChunk S)) × X
    unfolding validate_input fallback_or_raise settle_request strip
    rerank settings query chunks top_k x =
        let k = effective top_k settings.top_k in
        validated settings query chunks (magnitude k) x (validate_input query chunks k)
