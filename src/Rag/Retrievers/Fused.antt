-- ===== src/Rag/Retrievers/Fused.antt =====
-- The chunks of a hybrid retrieval.
use ai_agent_hub.Common.{
  ◌≤◌, ◌≡◌, refl, sym, ap, ◌∙◌, subst, String, false, Option, List, [], ◌∷◌, map, arith, ◌==◌,
  text_eq, All, All-over_map, length, length-map,
}
use ai_agent_hub.Common.Int.{ℤ, magnitude, nonpositive}
use ai_agent_hub.Common.Result.{Result, ok, err}
use ai_agent_hub.Common.Exec.{bind-eq-ok}
use ai_agent_hub.Common.Text.{Text, is_blank}
use ai_agent_hub.Rag.Contracts.{Uuid, RetrievedChunk}
use ai_agent_hub.Rag.Fusion.{Floats, FusedRetrieval, RrFusion, fuse}
use ai_agent_hub.Rag.Fusion.Items.{Distinct, item_key}
use ai_agent_hub.Rag.Fusion.Merged.{IsFusion, fuse-IsFusion}
use ai_agent_hub.Rag.Retrievers.{
  HybridRetrievedChunk, Retriever, int_ltb, raise_when, lift_fusion, to_hybrid_result,
  retrieve_hybrid,
}
use ai_agent_hub.Rag.Retrievers.Filtered.{raise_when-passed, raise_when-same}

abbrev pub hybrid_key : {S : Type 0} → HybridRetrievedChunk S → Text
hybrid_key h = h.chunk.chunk_id

module _ {S : Type 0} where
  Distinct-to_hybrid :
      (items : List (FusedRetrieval S))
      → Distinct item_key items
      → Distinct hybrid_key (map to_hybrid_result items)
  Distinct-to_hybrid [] h = tt
  Distinct-to_hybrid (i ∷ items) h = (
    All-over_map
        (λ (y : HybridRetrievedChunk S). (hybrid_key y == hybrid_key (to_hybrid_result i)) ≡ false)
        to_hybrid_result items (unfold to_hybrid_result in h.0),
    Distinct-to_hybrid items h.1,
  )

  ids_of :
      (items : List (FusedRetrieval S))
      → map hybrid_key (map to_hybrid_result items) ≡ map item_key items
  unfolding to_hybrid_result
  ids_of [] = refl
  ids_of (i ∷ items) = ap (λ ids. i.chunk.chunk_id ∷ ids) (ids_of items)

  scores_of :
      (items : List (FusedRetrieval S))
      → map (λ h. h.fusion_score) (map to_hybrid_result items) ≡ map (λ i. i.fusion_score) items
  unfolding to_hybrid_result
  scores_of [] = refl
  scores_of (i ∷ items) = ap (λ scores. i.fusion_score ∷ scores) (scores_of items)

  -- The score that a hybrid chunk is listed with is the one of the fusion.
  abbrev ShowsFusion : HybridRetrievedChunk S → Type 0
  ShowsFusion h = h.chunk.score ≡ h.fusion_score

  shows_fusion : (items : List (FusedRetrieval S)) → All ShowsFusion (map to_hybrid_result items)
  unfolding to_hybrid_result
  shows_fusion [] = tt
  shows_fusion (i ∷ items) = (refl, shows_fusion items)

-- What a hybrid retrieval returns: the fusion of what the two retrievers return for `candidate_k`,
-- the sparse one asked in the state that the dense one leaves, as chunks.
pub record IsHybrid {X S : Type 0} (floats : Floats S) (dense sparse : Retriever X S)
    (fusion : RrFusion S) (knowledge_base : Uuid) (query : Text) (top_k candidate_k : ℤ)
    (dense_threshold sparse_threshold : Option S) (x : X) (chunks : List (HybridRetrievedChunk S))
    : Type 0 where
  pub dense_results : List (RetrievedChunk S)
  pub sparse_results : List (RetrievedChunk S)
  pub between : X
  pub after : X
  pub asks_dense :
      dense knowledge_base query candidate_k dense_threshold x ≡ (ok dense_results, between)
  pub asks_sparse :
      sparse knowledge_base query candidate_k sparse_threshold between ≡ (ok sparse_results, after)
  pub fused : List (FusedRetrieval S)
  pub merged : fuse floats fusion dense_results sparse_results top_k ≡ ok fused
  pub ids : map hybrid_key chunks ≡ map item_key fused
  pub scores : map (λ h. h.fusion_score) chunks ≡ map (λ i. i.fusion_score) fused
  pub is_fusion : IsFusion floats fusion top_k fused
  pub same : chunks ≡ map to_hybrid_result fused
  pub shown : All ShowsFusion chunks
  pub distinct : Distinct hybrid_key chunks
  pub at_most : length chunks ≤ magnitude top_k
  pub enough : int_ltb candidate_k top_k ≡ false

module _ {X S : Type 0} (floats : Floats S) (dense sparse : Retriever X S)
    (fusion : RrFusion S) where
  -- A hybrid retrieval that succeeds was asked for at least `top_k` candidates, and returns at most
  -- `top_k` chunks, with different ids, each listed with the score of the fusion. They are, in its
  -- order, the items of the fusion of what the dense and then the sparse retriever return for the
  -- query and `candidate_k`.
  pub retrieve_hybrid-IsHybrid :
      (knowledge_base : Uuid) (query : Text) (top_k candidate_k : ℤ)
      (dense_threshold sparse_threshold : Option S) (x : X) (chunks : List (HybridRetrievedChunk S))
      → (retrieve_hybrid floats dense sparse fusion knowledge_base query top_k candidate_k
          dense_threshold sparse_threshold x).0
        ≡ ok chunks
      → IsHybrid floats dense sparse fusion knowledge_base query top_k candidate_k dense_threshold
          sparse_threshold x chunks
  unfolding retrieve_hybrid
  retrieve_hybrid-IsHybrid knowledge_base query top_k candidate_k dense_threshold sparse_threshold x
        chunks h =
      let (_, x1, e1, h1) = bind-eq-ok (raise_when (is_blank query) _) _ x h in
      let (_, x2, e2, h2) = bind-eq-ok (raise_when (nonpositive top_k) _) _ x1 h1 in
      let (_, x3, e3, h3) = bind-eq-ok (raise_when (int_ltb candidate_k top_k) _) _ x2 h2 in
      let (ds, x4, e4, h4) =
        bind-eq-ok (dense knowledge_base query candidate_k dense_threshold) _ x3 h3 in
      let (ss, x5, e5, h5) =
        bind-eq-ok (sparse knowledge_base query candidate_k sparse_threshold) _ x4 h4 in
      let (items, x6, e6, h6) = bind-eq-ok (lift_fusion (fuse floats fusion ds ss top_k)) _ x5 h5 in
      let same : map to_hybrid_result items ≡ chunks = cc in
      let is_fusion =
        fuse-IsFusion floats fusion ds ss top_k items
          (lifted (fuse floats fusion ds ss top_k) items x5 x6 e6) in
      let start : x3 ≡ x =
        raise_when-same _ _ x2 x3 _ e3
        ∙ raise_when-same _ _ x1 x2 _ e2
        ∙ raise_when-same _ _ x x1 _ e1 in
      record {
        dense_results = ds;
        sparse_results = ss;
        between = x4;
        after = x5;
        asks_dense =
            ap (λ y. dense knowledge_base query candidate_k dense_threshold y) (sym start) ∙ e4;
        asks_sparse = e5;
        fused = items;
        merged = lifted (fuse floats fusion ds ss top_k) items x5 x6 e6;
        ids = ap (map hybrid_key) (sym same) ∙ ids_of items;
        scores = ap (map (λ h. h.fusion_score)) (sym same) ∙ scores_of items;
        is_fusion = is_fusion;
        same = sym same;
        shown = subst (All ShowsFusion) same (shows_fusion items);
        distinct = subst (Distinct hybrid_key) same (Distinct-to_hybrid items is_fusion.distinct);
        at_most =
            rw (sym same) (omega (arith, length-map to_hybrid_result items, is_fusion.at_most));
        enough = raise_when-passed (int_ltb candidate_k top_k) _ x2 x3 _ e3;
      }
    where
      lifted :
          (r : Result String (List (FusedRetrieval S))) (items : List (FusedRetrieval S))
          (x1 x2 : X)
          → lift_fusion r x1 ≡ (ok items, x2)
          → r ≡ ok items
      lifted (ok a) items x1 x2 e = cc
      lifted (err m) items x1 x2 e = cc
