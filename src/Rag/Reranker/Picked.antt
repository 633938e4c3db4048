-- ===== src/Rag/Reranker/Picked.antt =====
-- The results that the reranker keeps.
use ai_agent_hub.Common.{
  ℕ, zero, suc, ◌+◌, ◌≡◌, refl, sym, ap, subst, nat_eq, true, false, inl, inr, Option, none, some,
  List, [], ◌∷◌, leb, contains, get_elem?, if◌then◌else◌, arith, Bool-cases,
}
use ai_agent_hub.Common.Int.{pos}
use ai_agent_hub.Common.Result.{Result, ok, err, ◌>>=◌}
use ai_agent_hub.Agents.State.{Json, Items, Fields}
use ai_agent_hub.Tools.Schema.{lookup}
use ai_agent_hub.Rag.Contracts.{RetrievedChunk}
use ai_agent_hub.Rag.Reranker.Picks.{
  IsIndex, whole, one, naught, HasScore, integer, float, yes_, no_, IsPicked, ended, full, pick,
  IsRead,
}
use ai_agent_hub.Rag.Reranker.{
  RerankedChunk, RerankError, Scores, index_of, reranked, checked_score, converted, score_of, named,
  indexed, read_item, read_results, read_list, parse_response,
}

bind-ok :
    {E A B : Type 0} (m : Result E A) (f : A → Result E B) (b : B)
    → (m >>= f) ≡ ok b
    → (a : A) × (m ≡ ok a) × (f a ≡ ok b)
bind-ok (ok a) f b h = (a, refl, h)
bind-ok (err e) f b h = cc

index_of-IsIndex : (j : Option Json) (n : ℕ) → index_of j ≡ some n → IsIndex j n
index_of-IsIndex (some (Json.int (pos m))) n h =
    let same : m ≡ n = cc in subst (IsIndex (some (Json.int (pos m)))) same (whole m)
index_of-IsIndex (some (Json.bool true)) n h =
    let same : 1 ≡ n = cc in subst (IsIndex (some (Json.bool true))) same one
index_of-IsIndex (some (Json.bool false)) n h =
    let same : 0 ≡ n = cc in subst (IsIndex (some (Json.bool false))) same naught
index_of-IsIndex _ n h = cc

-- What a result that is taken says.
abbrev IsNamed :
    {S : Type 0}
    → Scores S
    → List (RetrievedChunk S)
    → List ℕ
    → Option Json
    → Option Json
    → ℕ × RetrievedChunk S × S
    → Type 0
IsNamed scores chunks seen index score p =
    IsIndex index p.0
    × (contains p.0 seen ≡ false)
    × (get_elem? chunks p.0 ≡ some p.1)
    × HasScore scores score p.2
    × (scores.is_finite p.2 ≡ true)

module _ {S : Type 0} (scores : Scores S) where
  checked_score-same :
      (s t : S) → checked_score scores s ≡ ok t → (s ≡ t) × (scores.is_finite t ≡ true)
  checked_score-same s t h = elim (Bool-cases (scores.is_finite s)) [
    | inl e ↦ let h1 = rw e at h in let same : s ≡ t = cc in (same, rw (sym same) e)
    | inr e ↦ let h1 = rw e at h in cc
  ]

  converted-same :
      (s : Option S) (t : S)
      → converted scores s ≡ ok t
      → (s ≡ some t) × (scores.is_finite t ≡ true)
  converted-same none t h = cc
  converted-same (some s) t h =
      let (same, finite) = checked_score-same s t h in (ap (λ u. some u) same, finite)

  score_of-HasScore :
      (score : Option Json) (t : S)
      → score_of scores score ≡ ok t
      → HasScore scores score t × (scores.is_finite t ≡ true)
  score_of-HasScore (some (Json.bool true)) t h =
      let (e, finite) = converted-same (scores.of_int (pos 1)) t h in (yes_ t e, finite)
  score_of-HasScore (some (Json.bool false)) t h =
      let (e, finite) = converted-same (scores.of_int (pos 0)) t h in (no_ t e, finite)
  score_of-HasScore (some (Json.int i)) t h =
      let (e, finite) = converted-same (scores.of_int i) t h in (integer i t e, finite)
  score_of-HasScore (some (Json.float bits)) t h =
      let (same, finite) = checked_score-same (scores.of_bits bits) t h in
      (subst (HasScore scores (some (Json.float bits))) same (float bits), finite)
  score_of-HasScore _ t h = cc

  module _ (chunks : List (RetrievedChunk S)) where
    named-IsNamed :
        (seen : List ℕ) (n : ℕ) (found : Option (RetrievedChunk S)) (index score : Option Json)
        (p : ℕ × RetrievedChunk S × S)
        → IsIndex index n
        → get_elem? chunks n ≡ found
        → named scores chunks seen n found score ≡ ok p
        → IsNamed scores chunks seen index score p
    named-IsNamed seen n none index score p i at h = cc
    named-IsNamed seen n (some c) index score p i at h = elim (Bool-cases (contains n seen)) [
      | inl old ↦ let h1 = rw old at h in cc
      | inr new ↦
          let h1 = rw new at h in
          let (s, scored, same) = bind-ok (score_of scores score) (λ s. ok (n, c, s)) p h1 in
          let same_item : (n, c, s) ≡ p = cc in
          let (has_score, finite) = score_of-HasScore score s scored in
          subst (λ q. IsNamed scores chunks seen index score q) same_item
            (i, new, at, has_score, finite)
    ]

    indexed-IsNamed :
        (seen : List ℕ) (number : Option ℕ) (index score : Option Json)
        (p : ℕ × RetrievedChunk S × S)
        → index_of index ≡ number
        → indexed scores chunks seen number score ≡ ok p
        → IsNamed scores chunks seen index score p
    indexed-IsNamed seen none index score p e h = cc
    indexed-IsNamed seen (some n) index score p e h =
        named-IsNamed seen n (get_elem? chunks n) index score p (index_of-IsIndex index n e) refl h

    read_item-IsNamed :
        (seen : List ℕ) (item : Json) (p : ℕ × RetrievedChunk S × S)
        → read_item scores chunks seen item ≡ ok p
        → (fields : Fields) × (item ≡ Json.obj fields)
          × IsNamed scores chunks seen (lookup fields "index") (lookup fields "relevance_score") p
    unfolding read_item
    read_item-IsNamed seen (Json.obj fields) p h =
        (fields, refl, indexed-IsNamed seen _ (lookup fields "index") _ p refl h)
    read_item-IsNamed seen _ p h = cc

    -- The loop, after it has taken a result: `others` is what the rest of it gives.
    after_item-IsPicked :
        (top_k : ℕ) (seen : List ℕ) (count room : ℕ) (fields : Fields) (items : Items)
        (p : ℕ × RetrievedChunk S × S) (others : Result RerankError (List (RerankedChunk S)))
        (rs : List (RerankedChunk S))
        → top_k ≡ count + suc room
        → IsNamed scores chunks seen (lookup fields "index") (lookup fields "relevance_score") p
        → ((left : ℕ) (xs : List (RerankedChunk S))
            → room ≡ suc left
            → others ≡ ok xs
            → IsPicked scores chunks (suc left) (p.0 ∷ seen) items xs)
        → (if leb top_k (suc count)
            then ok (reranked p.1 p.2 ∷ [])
            else others >>= λ xs. ok (reranked p.1 p.2 ∷ xs))
          ≡ ok rs
        → IsPicked scores chunks (suc room) seen (Items.cons (Json.obj fields) items) rs
    after_item-IsPicked top_k seen count zero fields items (n, c, s) others rs size
          (index, new, at, score, finite) rest h =
        let last : leb top_k (suc count) ≡ true = ground arith in
        let h1 = rw last at h in
        let same : (reranked c s ∷ []) ≡ rs = cc in
        subst (IsPicked scores chunks 1 seen (Items.cons (Json.obj fields) items)) same
          (pick 0 seen fields items n c s [] index new at score finite (full (n ∷ seen) items))
    after_item-IsPicked top_k seen count (suc left) fields items (n, c, s) others rs size
          (index, new, at, score, finite) rest h =
        let more : leb top_k (suc count) ≡ false = ground arith in
        let h1 = rw more at h in
        let (xs, found, joined) = bind-ok others (λ xs. ok (reranked c s ∷ xs)) rs h1 in
        let same : (reranked c s ∷ xs) ≡ rs = cc in
        subst (IsPicked scores chunks (suc (suc left)) seen (Items.cons (Json.obj fields) items))
          same
          (pick (suc left) seen fields items n c s xs index new at score finite
            (rest left xs refl found))

    read_results-IsPicked :
        (top_k : ℕ) (seen : List ℕ) (count room : ℕ) (items : Items) (rs : List (RerankedChunk S))
        → top_k ≡ count + suc room
        → read_results scores chunks top_k seen count items ≡ ok rs
        → IsPicked scores chunks (suc room) seen items rs
    unfolding read_results
    read_results-IsPicked top_k seen count room Items.nil rs size h =
        let same : [] ≡ rs = cc in
        subst (IsPicked scores chunks (suc room) seen Items.nil) same (ended (suc room) seen)
    read_results-IsPicked top_k seen count room (Items.cons item items) rs size h =
        let (p, read, h1) = bind-ok (read_item scores chunks seen item) _ rs h in
        let (fields, is_object, is_named) = read_item-IsNamed seen item p read in
        rw is_object (
          after_item-IsPicked top_k seen count room fields items p
            (read_results scores chunks top_k (p.0 ∷ seen) (suc count) items) rs size is_named
            (λ left xs is_room found.
              read_results-IsPicked top_k (p.0 ∷ seen) (suc count) left items xs (omega arith)
                found)
            h1)

    read_list-IsRead :
        (room : ℕ) (fields : Fields) (found : Option Json) (rs : List (RerankedChunk S))
        → lookup fields "results" ≡ found
        → read_list scores chunks (suc room) found ≡ ok rs
        → IsRead scores chunks (suc room) (some (Json.obj fields)) rs
    read_list-IsRead room fields (some (Json.arr items)) rs results h = record {
      fields = fields;
      items = items;
      object = refl;
      results = results;
      picked = read_results-IsPicked (suc room) [] 0 room items rs (omega arith) h;
    }
    read_list-IsRead room fields _ rs results h = cc

    pub parse_response-IsRead :
        (room : ℕ) (body : Option Json) (rs : List (RerankedChunk S))
        → parse_response scores chunks (suc room) body ≡ ok rs
        → IsRead scores chunks (suc room) body rs
    unfolding parse_response
    parse_response-IsRead room (some (Json.obj fields)) rs h =
        read_list-IsRead room fields (lookup fields "results") rs refl h
    parse_response-IsRead room _ rs h = cc
