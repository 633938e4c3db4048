-- ===== src/Rag/Reranker/Picks.antt =====
-- What the reranker is to keep of a response, and that it keeps it.
use ai_agent_hub.Common.{
  ℕ, zero, suc, ◌+◌, ◌≤◌, ◌<◌, ◌≡◌, refl, nat_eq, true, false, Option, some, List, [], ◌∷◌, leb,
  contains, length, get_elem?, arith,
}
use ai_agent_hub.Common.Int.{ℤ, pos}
use ai_agent_hub.Common.Result.{ok}
use ai_agent_hub.Agents.State.{Json, Items, Fields}
use ai_agent_hub.Tools.Schema.{lookup}
use ai_agent_hub.Rag.Contracts.{RetrievedChunk}
use ai_agent_hub.Rag.Reranker.{
  RerankedChunk, Scores, index_of, score_of, read_item, read_results, parse_response,
}

-- The index that a result gives; a Boolean is an integer of Python.
pub data IsIndex : Option Json → ℕ → Type 0 where
  whole : (n : ℕ) → IsIndex (some (Json.int (pos n))) n
  one : IsIndex (some (Json.bool true)) 1
  naught : IsIndex (some (Json.bool false)) 0

-- The score that a result gives, as a float.
pub data HasScore {S : Type 0} (scores : Scores S) : Option Json → S → Type 0 where
  integer : (i : ℤ) (s : S) → scores.of_int i ≡ some s → HasScore scores (some (Json.int i)) s
  float : (bits : ℕ) → HasScore scores (some (Json.float bits)) (scores.of_bits bits)
  yes_ : (s : S) → scores.of_int (pos 1) ≡ some s → HasScore scores (some (Json.bool true)) s
  no_ : (s : S) → scores.of_int (pos 0) ≡ some s → HasScore scores (some (Json.bool false)) s

-- The chunks that the results of the provider name, in their order, until there is no room left: each
-- at an index that was not seen before, with the finite score of its result.
pub data IsPicked {S : Type 0} (scores : Scores S) (chunks : List (RetrievedChunk S))
    : ℕ → List ℕ → Items → List (RerankedChunk S) → Type 0 where
  ended : (room : ℕ) (seen : List ℕ) → IsPicked scores chunks room seen Items.nil []
  full : (seen : List ℕ) (items : Items) → IsPicked scores chunks 0 seen items []
  pick :
      (room : ℕ) (seen : List ℕ) (fields : Fields) (items : Items) (n : ℕ) (c : RetrievedChunk S)
      (s : S) (rs : List (RerankedChunk S))
      → IsIndex (lookup fields "index") n
      → contains n seen ≡ false
      → get_elem? chunks n ≡ some c
      → HasScore scores (lookup fields "relevance_score") s
      → scores.is_finite s ≡ true
      → IsPicked scores chunks room (n ∷ seen) items rs
      → IsPicked scores chunks (suc room) seen (Items.cons (Json.obj fields) items) (
          (record {
            chunk = record c { score = s };
            rerank_score = some s;
            original_score = c.score;
            used_fallback = false;
          })
          ∷ rs)

pub IsPicked-at_most :
    {S : Type 0} (scores : Scores S) (chunks : List (RetrievedChunk S)) (room : ℕ) (seen : List ℕ)
    (items : Items) (rs : List (RerankedChunk S))
    → IsPicked scores chunks room seen items rs
    → length rs ≤ room
IsPicked-at_most scores chunks _ _ _ _ (ended room seen) = omega arith
IsPicked-at_most scores chunks _ _ _ _ (full seen items) = omega arith
IsPicked-at_most scores chunks _ _ _ _
      (pick room seen fields items n c s rs index new at score finite rest) =
    omega (arith, IsPicked-at_most scores chunks room (n ∷ seen) items rs rest)

-- A body that has been read: its results, and what was picked of them.
pub record IsRead {S : Type 0} (scores : Scores S) (chunks : List (RetrievedChunk S)) (room : ℕ)
    (body : Option Json) (rs : List (RerankedChunk S)) : Type 0 where
  pub fields : Fields
  pub items : Items
  pub object : body ≡ some (Json.obj fields)
  pub results : lookup fields "results" ≡ some (Json.arr items)
  pub picked : IsPicked scores chunks room [] items rs

index_of_complete : (j : Option Json) (n : ℕ) → IsIndex j n → index_of j ≡ some n
index_of_complete _ _ (whole n) = refl
index_of_complete _ _ one = refl
index_of_complete _ _ naught = refl

nil_of : {A : Type 0} (xs : List A) → length xs ≤ 0 → xs ≡ []
nil_of [] h = refl
nil_of (x ∷ xs) h = absurd (omega arith)

module _ {S : Type 0} (scores : Scores S) where
  score_of_complete :
      (j : Option Json) (s : S)
      → HasScore scores j s
      → scores.is_finite s ≡ true
      → score_of scores j ≡ ok s
  score_of_complete _ _ (integer i s e) finite = rw (e, finite) refl
  score_of_complete _ _ (float bits) finite = rw finite refl
  score_of_complete _ _ (yes_ s e) finite = rw (e, finite) refl
  score_of_complete _ _ (no_ s e) finite = rw (e, finite) refl

  module _ (chunks : List (RetrievedChunk S)) where
    read_item_complete :
        (seen : List ℕ) (fields : Fields) (n : ℕ) (c : RetrievedChunk S) (s : S)
        → IsIndex (lookup fields "index") n
        → contains n seen ≡ false
        → get_elem? chunks n ≡ some c
        → HasScore scores (lookup fields "relevance_score") s
        → scores.is_finite s ≡ true
        → read_item scores chunks seen (Json.obj fields) ≡ ok (n, c, s)
    unfolding read_item
    read_item_complete seen fields n c s index new at score finite =
        rw (index_of_complete _ n index, at, new, score_of_complete _ s score finite) refl

    read_results_complete :
        (top_k : ℕ) (seen : List ℕ) (count room : ℕ) (items : Items) (rs : List (RerankedChunk S))
        → top_k ≡ count + room
        → 0 < room
        → IsPicked scores chunks room seen items rs
        → read_results scores chunks top_k seen count items ≡ ok rs
    unfolding read_results
    read_results_complete top_k _ count _ _ _ size some_room (ended room seen) = refl
    read_results_complete top_k _ count _ _ _ size some_room (full seen items) =
        absurd (omega arith)
    read_results_complete top_k _ count _ _ _ size some_room
          (pick zero seen fields items n c s rs index new at score finite rest) =
        let last : leb top_k (suc count) ≡ true = ground arith in
        let no_more : rs ≡ [] =
          nil_of rs (IsPicked-at_most scores chunks 0 (n ∷ seen) items rs rest) in
        rw (read_item_complete seen fields n c s index new at score finite, last, no_more) refl
    read_results_complete top_k _ count _ _ _ size some_room
          (pick (suc left) seen fields items n c s rs index new at score finite rest) =
        let more : leb top_k (suc count) ≡ false = ground arith in
        rw
          (
            read_item_complete seen fields n c s index new at score finite,
            more,
            read_results_complete top_k (n ∷ seen) (suc count) (suc left) items rs (omega arith)
                (omega arith) rest,
          )
          refl

    -- A body that can be read is read.
    pub parse_response_complete :
        (room : ℕ) (body : Option Json) (rs : List (RerankedChunk S))
        → 0 < room
        → IsRead scores chunks room body rs
        → parse_response scores chunks room body ≡ ok rs
    unfolding parse_response
    parse_response_complete room body rs some_room r =
        rw
          (
            r.object,
            r.results,
            read_results_complete room [] 0 room r.items rs (omega arith) some_room r.picked,
          )
          refl
