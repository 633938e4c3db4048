-- ===== src/Rag/Fusion.antt =====
-- backend/app/rag/fusion/rrf.py: reciprocal rank fusion of two ranked lists.
-- `Score` is Python's float, by the operations that the code uses. The dictionary `by_chunk_id` is
-- the list of its values in the order of insertion: the key of a value is the id of its chunk.
pub mod Items
pub mod Merged
pub mod Ordered
pub mod Samples
mod Tests
use ai_agent_hub.Common.{
  ℕ, zero, suc, ◌+◌, ◌*◌, ◌<◌, String, Bool, true, false, not, ◌&&◌, ◌||◌, Option, none, some, List,
  [], ◌∷◌, ◌++◌, map, ◌==◌, nat_eq, text_eq, ltb, if◌then◌else◌, take, is_empty, contains,
}
use ai_agent_hub.Common.Int.{ℤ, nonpositive, magnitude}
use ai_agent_hub.Common.Result.{Result, ok, err, raise_if, ◌>>=◌, ◌>>◌}
use ai_agent_hub.Common.Text.{Text}
use ai_agent_hub.Rag.Contracts.{RetrievedChunk}

-- The operations of floats.
pub record Floats (S : Type 0) : Type 0 where
  pub add : S → S → S
  pub sub : S → S → S
  pub div : S → S → S
  pub less : S → S → Bool
  pub equal : S → S → Bool
  pub at_most : S → S → Bool
  pub negate : S → S
  pub is_finite : S → Bool
  pub of_nat : ℕ → S

pub record FusedRetrieval (S : Type 0) : Type 0 where
  pub chunk : RetrievedChunk S
  pub fusion_score : S
  pub dense_score : Option S
  pub sparse_score : Option S
  pub dense_normalized_score : Option S
  pub sparse_normalized_score : Option S
  pub dense_rank : Option ℕ
  pub sparse_rank : Option ℕ

pub record RankedCandidate (S : Type 0) : Type 0 where
  pub chunk : RetrievedChunk S
  pub rank : ℕ
  pub normalized_score : S

pub record RrFusion (S : Type 0) : Type 0 where
  pub rrf_k : ℕ
  pub dense_weight : S
  pub sparse_weight : S

-- `a or b`, where the empty text and zero are false
abbrev pub text_or : Text → Text → Text
text_or a b = if is_empty a then b else a

abbrev pub nat_or : ℕ → ℕ → ℕ
nat_or a b = if a == 0 then b else a

-- The order of strings, by code points
unfoldable pub text_less : Text → Text → Bool
text_less [] [] = false
text_less [] (y ∷ ys) = true
text_less (x ∷ xs) [] = false
text_less (x ∷ xs) (y ∷ ys) = let rest = text_less xs ys in if x == y then rest else ltb x y

module _ {S : Type 0} where
  -- `_merge_chunks`
  unfoldable pub merge_chunks : RetrievedChunk S → RetrievedChunk S → RetrievedChunk S
  merge_chunks first second = record {
    chunk_id = first.chunk_id;
    document_id = text_or first.document_id second.document_id;
    filename = text_or first.filename second.filename;
    page_number = nat_or first.page_number second.page_number;
    text = text_or first.text second.text;
    score = first.score;
    start_char = nat_or first.start_char second.start_char;
    end_char = nat_or first.end_char second.end_char;
  }

  -- `by_chunk_id.get(chunk_id)`
  unfoldable pub get_fused : List (FusedRetrieval S) → Text → Option (FusedRetrieval S)
  get_fused [] id = none
  get_fused (item ∷ items) id = if item.chunk.chunk_id == id then some item else get_fused items id

  -- `by_chunk_id[item.chunk.chunk_id] = item`
  unfoldable pub put_fused : FusedRetrieval S → List (FusedRetrieval S) → List (FusedRetrieval S)
  put_fused new [] = new ∷ []
  put_fused new (item ∷ items) =
      if item.chunk.chunk_id == new.chunk.chunk_id then new ∷ items else item ∷ put_fused new items

  -- The results without those whose id has been seen.
  unfoldable pub unique_from : List Text → List (RetrievedChunk S) → List (RetrievedChunk S)
  unique_from seen [] = []
  unique_from seen (r ∷ rs) =
      let skipped = unique_from seen rs in
      let kept = unique_from (r.chunk_id ∷ seen) rs in
      if contains r.chunk_id seen then skipped else r ∷ kept

module _ {S : Type 0} (floats : Floats S) where
  -- `_valid_weight`
  unfoldable pub valid_weight : S → Bool
  valid_weight weight = floats.is_finite weight && floats.less (floats.of_nat 0) weight

  -- `__init__`; the error is the message of a `FusionError`.
  unfoldable pub init : ℤ → S → S → Result String (RrFusion S)
  unfolding valid_weight
  init rrf_k dense_weight sparse_weight =
      if nonpositive rrf_k
      then err "rrf_k must be greater than zero"
      else if not (valid_weight dense_weight) || not (valid_weight sparse_weight)
      then err "fusion weights must be finite and greater than zero"
      else ok (record {
        rrf_k = magnitude rrf_k;
        dense_weight = dense_weight;
        sparse_weight = sparse_weight;
      })

  abbrev pub all_finite : List (RetrievedChunk S) → Bool
  all_finite [] = true
  all_finite (r ∷ rs) = floats.is_finite r.score && all_finite rs

  -- `min(scores)` and `max(scores)`, from the first score on
  abbrev pub minimum : S → List (RetrievedChunk S) → S
  minimum m [] = m
  minimum m (r ∷ rs) = minimum (if floats.less r.score m then r.score else m) rs

  abbrev pub maximum : S → List (RetrievedChunk S) → S
  maximum m [] = m
  maximum m (r ∷ rs) = maximum (if floats.less m r.score then r.score else m) rs

  abbrev pub normalized : S → S → S → S
  normalized least denominator score =
      if floats.equal denominator (floats.of_nat 0)
      then floats.of_nat 1
      else floats.div (floats.sub score least) denominator

  -- `enumerate(…, 1)`
  unfoldable pub ranked_from : ℕ → S → S → List (RetrievedChunk S) → List (RankedCandidate S)
  ranked_from rank least denominator [] = []
  ranked_from rank least denominator (r ∷ rs) =
      record { chunk = r; rank = rank; normalized_score = normalized least denominator r.score }
      ∷ ranked_from (suc rank) least denominator rs

  abbrev pub rank_unique : List (RetrievedChunk S) → Result String (List (RankedCandidate S))
  rank_unique [] = ok []
  rank_unique (r ∷ rs) =
      if not (all_finite (r ∷ rs))
      then err "retrieval scores must be finite"
      else ok (
          ranked_from 1 (minimum r.score rs) (floats.sub (maximum r.score rs) (minimum r.score rs))
            (r ∷ rs))

  -- `_rank_candidates`
  unfoldable pub rank_candidates :
      List (RetrievedChunk S) → Result String (List (RankedCandidate S))
  unfolding unique_from ranked_from
  rank_candidates results = rank_unique (unique_from [] results)

  -- The key of `sorted`: the higher score first, then the lower id.
  unfoldable pub key_less : FusedRetrieval S → FusedRetrieval S → Bool
  unfolding text_less
  key_less a b =
      if floats.equal a.fusion_score b.fusion_score
      then text_less a.chunk.chunk_id b.chunk.chunk_id
      else floats.less b.fusion_score a.fusion_score

  -- `sorted`, which is stable
  unfoldable pub insert_item : FusedRetrieval S → List (FusedRetrieval S) → List (FusedRetrieval S)
  unfolding key_less
  insert_item x [] = x ∷ []
  insert_item x (y ∷ ys) = if key_less y x then y ∷ insert_item x ys else x ∷ y ∷ ys

  unfoldable pub sort_items : List (FusedRetrieval S) → List (FusedRetrieval S)
  unfolding insert_item
  sort_items [] = []
  sort_items (x ∷ xs) = insert_item x (sort_items xs)

  module _ (self : RrFusion S) where
    abbrev pub reciprocal : S → ℕ → S
    reciprocal weight rank = floats.div weight (floats.of_nat (self.rrf_k + rank))

    -- The item of a dense candidate.
    unfoldable pub dense_item : RankedCandidate S → FusedRetrieval S
    dense_item c = record {
      chunk = c.chunk;
      fusion_score = reciprocal self.dense_weight c.rank;
      dense_score = some c.chunk.score;
      sparse_score = none;
      dense_normalized_score = some c.normalized_score;
      sparse_normalized_score = none;
      dense_rank = some c.rank;
      sparse_rank = none;
    }

    -- The item of a sparse candidate, on its own or joined to the item that is there.
    unfoldable pub sparse_item : RankedCandidate S → Option (FusedRetrieval S) → FusedRetrieval S
    unfolding merge_chunks
    sparse_item c none = record {
      chunk = c.chunk;
      fusion_score = reciprocal self.sparse_weight c.rank;
      dense_score = none;
      sparse_score = some c.chunk.score;
      dense_normalized_score = none;
      sparse_normalized_score = some c.normalized_score;
      dense_rank = none;
      sparse_rank = some c.rank;
    }
    sparse_item c (some existing) = record {
      chunk = merge_chunks existing.chunk c.chunk;
      fusion_score = floats.add existing.fusion_score (reciprocal self.sparse_weight c.rank);
      dense_score = existing.dense_score;
      sparse_score = some c.chunk.score;
      dense_normalized_score = existing.dense_normalized_score;
      sparse_normalized_score = some c.normalized_score;
      dense_rank = existing.dense_rank;
      sparse_rank = some c.rank;
    }

    unfoldable pub add_dense :
        List (RankedCandidate S) → List (FusedRetrieval S) → List (FusedRetrieval S)
    unfolding put_fused dense_item
    add_dense [] items = items
    add_dense (c ∷ cs) items = add_dense cs (put_fused (dense_item c) items)

    unfoldable pub add_sparse :
        List (RankedCandidate S) → List (FusedRetrieval S) → List (FusedRetrieval S)
    unfolding put_fused get_fused sparse_item
    add_sparse [] items = items
    add_sparse (c ∷ cs) items =
        add_sparse cs (put_fused (sparse_item c (get_fused items c.chunk.chunk_id)) items)

    -- `fuse`
    unfoldable pub fuse :
        List (RetrievedChunk S)
        → List (RetrievedChunk S)
        → ℤ
        → Result String (List (FusedRetrieval S))
    unfolding rank_candidates add_dense add_sparse sort_items
    fuse dense_results sparse_results top_k = do
      raise_if (nonpositive top_k) "top_k must be greater than zero"
      dense ← rank_candidates dense_results
      sparse ← rank_candidates sparse_results
      ok (take (magnitude top_k) (sort_items (add_sparse sparse (add_dense dense []))))
