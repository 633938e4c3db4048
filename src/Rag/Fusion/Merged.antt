-- ===== src/Rag/Fusion/Merged.antt =====
-- The items of a fusion: one for each chunk, with the score that its ranks give.
use ai_agent_hub.Common.{
  ℕ, suc, ◌≤◌, ◌≡◌, refl, sym, subst, String, Bool, true, false, not, Option, none, some, List, [],
  ◌∷◌, arith, ◌==◌, text_eq, if◌then◌else◌, ==_false_sym, All, All-map, All-take, length, take,
  length-take,
}
use ai_agent_hub.Common.Int.{ℤ, magnitude, nonpositive}
use ai_agent_hub.Common.Result.{Result, ok, err, ◌>>=◌, ◌>>◌, raise_if}
use ai_agent_hub.Rag.Contracts.{RetrievedChunk}
use ai_agent_hub.Rag.Fusion.{
  Floats, FusedRetrieval, RankedCandidate, RrFusion, merge_chunks, get_fused, put_fused,
  unique_from, ranked_from, rank_unique, rank_candidates, all_finite, sort_items, reciprocal,
  dense_item, sparse_item, add_dense, add_sparse, fuse,
}
use ai_agent_hub.Rag.Fusion.Items.{
  Distinct, Distinct-take, chunk_key, candidate_key, item_key, unique_from-Distinct, All-put_fused,
  Distinct-put_fused, get_fused-put_fused, All-get_fused, get_fused-key, All-sort_items,
  Distinct-sort_items,
}

module _ {S : Type 0} (floats : Floats S) (self : RrFusion S) where
  -- The score of an item by its ranks: the sum of the reciprocals that it has.
  pub data IsScored (i : FusedRetrieval S) : Type 0 where
    dense_only :
        (d : ℕ)
        → i.dense_rank ≡ some d
        → i.sparse_rank ≡ none
        → i.fusion_score ≡ reciprocal floats self self.dense_weight d
        → IsScored i
    sparse_only :
        (s : ℕ)
        → i.dense_rank ≡ none
        → i.sparse_rank ≡ some s
        → i.fusion_score ≡ reciprocal floats self self.sparse_weight s
        → IsScored i
    in_both :
        (d s : ℕ)
        → i.dense_rank ≡ some d
        → i.sparse_rank ≡ some s
        → i.fusion_score
          ≡ floats.add
              (reciprocal floats self self.dense_weight d)
              (reciprocal floats self self.sparse_weight s)
        → IsScored i

  ranked_from-All :
      (P : RetrievedChunk S → Type 0) (rank : ℕ) (least denominator : S)
      (rs : List (RetrievedChunk S))
      → All P rs
      → All (λ c. P c.chunk) (ranked_from floats rank least denominator rs)
  unfolding ranked_from
  ranked_from-All P rank least denominator [] h = tt
  ranked_from-All P rank least denominator (r ∷ rs) h =
      (h.0, ranked_from-All P (suc rank) least denominator rs h.1)

  ranked_from-Distinct :
      (rank : ℕ) (least denominator : S) (rs : List (RetrievedChunk S))
      → Distinct chunk_key rs
      → Distinct candidate_key (ranked_from floats rank least denominator rs)
  unfolding ranked_from
  ranked_from-Distinct rank least denominator [] h = tt
  ranked_from-Distinct rank least denominator (r ∷ rs) h = (
    ranked_from-All _ (suc rank) least denominator rs h.0,
    ranked_from-Distinct (suc rank) least denominator rs h.1,
  )

  rank_unique-Distinct :
      (rs : List (RetrievedChunk S)) (cs : List (RankedCandidate S))
      → Distinct chunk_key rs
      → rank_unique floats rs ≡ ok cs
      → Distinct candidate_key cs
  rank_unique-Distinct [] [] d h = tt
  rank_unique-Distinct [] (c ∷ cs) d h = cc
  rank_unique-Distinct (r ∷ rs) cs d h =
      by_test (all_finite floats (r ∷ rs)) _ _ h (ranked_from-Distinct 1 _ _ (r ∷ rs) d)
    where
      by_test :
          (b : Bool) (e : String) (cs' : List (RankedCandidate S))
          → if◌then◌else◌ {A = Result String (List (RankedCandidate S))} (not b) (err e) (ok cs')
            ≡ ok cs
          → Distinct candidate_key cs'
          → Distinct candidate_key cs
      by_test false e cs' h d = cc
      by_test true e cs' h d = (let same : cs' ≡ cs = cc in rw (sym same) d)

  rank_candidates-Distinct :
      (rs : List (RetrievedChunk S)) (cs : List (RankedCandidate S))
      → rank_candidates floats rs ≡ ok cs
      → Distinct candidate_key cs
  unfolding rank_candidates
  rank_candidates-Distinct rs cs h =
      rank_unique-Distinct (unique_from [] rs) cs (unique_from-Distinct [] rs) h

  -- Items that came from the dense list only.
  abbrev IsDense : FusedRetrieval S → Type 0
  IsDense i = IsScored i × (i.sparse_rank ≡ none)

  add_dense-IsDense :
      (cs : List (RankedCandidate S)) (items : List (FusedRetrieval S))
      → All IsDense items
      → Distinct item_key items
      → All IsDense (add_dense floats self cs items)
        × Distinct item_key (add_dense floats self cs items)
  unfolding add_dense
  add_dense-IsDense [] items h d = (h, d)
  add_dense-IsDense (c ∷ cs) items h d =
      add_dense-IsDense cs (put_fused (dense_item floats self c) items)
        (All-put_fused IsDense (dense_item floats self c) items
          (unfold dense_item in (dense_only c.rank refl refl refl, refl)) h)
        (Distinct-put_fused (dense_item floats self c) items d)

  -- A candidate whose id has no sparse rank yet.
  abbrev NotSparse : Option (FusedRetrieval S) → Type 0
  NotSparse none = Unit
  NotSparse (some i) = i.sparse_rank ≡ none

  sparse_item-IsScored :
      (c : RankedCandidate S) (items : List (FusedRetrieval S))
      (existing : Option (FusedRetrieval S))
      → get_fused items c.chunk.chunk_id ≡ existing
      → All IsScored items
      → NotSparse existing
      → IsScored (sparse_item floats self c existing)
  unfolding sparse_item
  sparse_item-IsScored c items none e h n = sparse_only c.rank refl refl refl
  sparse_item-IsScored c items (some i) e h n =
      elim (All-get_fused IsScored items c.chunk.chunk_id i h e) [
        | dense_only d dr sr score ↦ in_both d c.rank dr refl (rw score refl)
        | sparse_only s dr sr score ↦ absurd (cc)
        | in_both d s dr sr score ↦ absurd (cc)
      ]

  sparse_item-key :
      (c : RankedCandidate S) (existing : Option (FusedRetrieval S))
      (items : List (FusedRetrieval S))
      → get_fused items c.chunk.chunk_id ≡ existing
      → item_key (sparse_item floats self c existing) ≡ c.chunk.chunk_id
  unfolding sparse_item
  sparse_item-key c none items e = refl
  sparse_item-key c (some i) items e =
      unfold merge_chunks in get_fused-key items c.chunk.chunk_id i e

  -- The candidates that are left have no sparse rank among the items.
  abbrev Free : List (FusedRetrieval S) → RankedCandidate S → Type 0
  Free items c = NotSparse (get_fused items c.chunk.chunk_id)

  Free-put_fused :
      (new : FusedRetrieval S) (items : List (FusedRetrieval S)) (cs : List (RankedCandidate S))
      → All (λ c. (c.chunk.chunk_id == item_key new) ≡ false) cs
      → All (Free items) cs
      → All (Free (put_fused new items)) cs
  Free-put_fused new items [] d f = tt
  Free-put_fused new items (c ∷ cs) d f = (
    subst NotSparse
        (sym (
          get_fused-put_fused new items c.chunk.chunk_id
            (==_false_sym c.chunk.chunk_id (item_key new) d.0)))
        f.0,
    Free-put_fused new items cs d.1 f.1,
  )

  add_sparse-IsScored :
      (cs : List (RankedCandidate S)) (items : List (FusedRetrieval S))
      → Distinct candidate_key cs
      → All (Free items) cs
      → All IsScored items
      → Distinct item_key items
      → All IsScored (add_sparse floats self cs items)
        × Distinct item_key (add_sparse floats self cs items)
  unfolding add_sparse
  add_sparse-IsScored [] items dc f h d = (h, d)
  add_sparse-IsScored (c ∷ cs) items dc f h d =
      let existing = get_fused items c.chunk.chunk_id in
      let new = sparse_item floats self c existing in
      let key : item_key new ≡ c.chunk.chunk_id = sparse_item-key c existing items refl in
      add_sparse-IsScored cs (put_fused new items) dc.1
        (Free-put_fused new items cs
          (subst (λ k. All (λ c. (c.chunk.chunk_id == k) ≡ false) cs) (sym key) dc.0) f.1)
        (All-put_fused IsScored new items (sparse_item-IsScored c items existing refl h f.0) h)
        (Distinct-put_fused new items d)

  dense-Free :
      (items : List (FusedRetrieval S)) (cs : List (RankedCandidate S))
      → All IsDense items
      → All (Free items) cs
  dense-Free items [] h = tt
  dense-Free items (c ∷ cs) h =
      (free (get_fused items c.chunk.chunk_id) refl, dense-Free items cs h)
    where
      free :
          (found : Option (FusedRetrieval S))
          → get_fused items c.chunk.chunk_id ≡ found
          → NotSparse found
      free none e = tt
      free (some i) e = (All-get_fused IsDense items c.chunk.chunk_id i h e).1

  -- What a fusion returns.
  pub record IsFusion (top_k : ℤ) (items : List (FusedRetrieval S)) : Type 0 where
    pub scored : All IsScored items
    pub distinct : Distinct item_key items
    pub at_most : length items ≤ magnitude top_k

  pub fuse-IsFusion :
      (dense_results sparse_results : List (RetrievedChunk S)) (top_k : ℤ)
      (items : List (FusedRetrieval S))
      → fuse floats self dense_results sparse_results top_k ≡ ok items
      → IsFusion top_k items
  unfolding fuse
  fuse-IsFusion dense_results sparse_results top_k items h = positive (nonpositive top_k) h
    where
      merged :
          (dense sparse : List (RankedCandidate S))
          → Distinct candidate_key sparse
          → take
              (magnitude top_k)
              (sort_items floats (add_sparse floats self sparse (add_dense floats self dense [])))
            ≡ items
          → IsFusion top_k items
      merged dense sparse d e =
          let (all_dense, dense_distinct) = add_dense-IsDense dense [] tt tt in
          let start = add_dense floats self dense [] in
          let (scored, distinct) =
            add_sparse-IsScored sparse start d (dense-Free start sparse all_dense)
              (All-map (λ i h. h.0) start all_dense) dense_distinct in
          let all = add_sparse floats self sparse start in
          rw (sym e) (record {
            scored =
                All-take IsScored (magnitude top_k) (sort_items floats all)
                  (All-sort_items floats IsScored all scored);
            distinct =
                Distinct-take item_key (magnitude top_k) (sort_items floats all)
                  (Distinct-sort_items floats all distinct);
            at_most = omega (arith, length-take (magnitude top_k) (sort_items floats all));
          })

      sparse_ranked :
          (dense : List (RankedCandidate S)) (r : Result String (List (RankedCandidate S)))
          → rank_candidates floats sparse_results ≡ r
          → (r >>= λ sparse. ok (
              take (magnitude top_k) (
                sort_items floats
                  (add_sparse floats self sparse (add_dense floats self dense [])))))
            ≡ ok items
          → IsFusion top_k items
      sparse_ranked dense (err e) r h = cc
      sparse_ranked dense (ok sparse) r h =
          merged dense sparse (rank_candidates-Distinct sparse_results sparse r) cc

      dense_ranked :
          (r : Result String (List (RankedCandidate S)))
          → (r >>= λ dense. rank_candidates floats sparse_results >>= λ sparse. ok (
              take (magnitude top_k) (
                sort_items floats
                  (add_sparse floats self sparse (add_dense floats self dense [])))))
            ≡ ok items
          → IsFusion top_k items
      dense_ranked (err e) h = cc
      dense_ranked (ok dense) h = sparse_ranked dense (rank_candidates floats sparse_results) refl h

      positive :
          (b : Bool)
          → (raise_if b "top_k must be greater than zero"
              >> (rank_candidates floats dense_results >>= λ dense.
                  rank_candidates floats sparse_results >>= λ sparse. ok (
                    take (magnitude top_k) (
                      sort_items floats
                        (add_sparse floats self sparse (add_dense floats self dense []))))))
            ≡ ok items
          → IsFusion top_k items
      positive true h = cc
      positive false h = dense_ranked (rank_candidates floats dense_results) h
