-- ===== src/Rag/Fusion/Ordered.antt =====
-- The order of the items of a fusion.
use ai_agent_hub.Common.{
  ℕ, zero, suc, ◌≡◌, refl, sym, Bool, true, false, List, [], ◌∷◌, arith, nat_eq, if◌then◌else◌, ◌⊎◌,
  Bool-cases, inl, inr, take, String,
}
use ai_agent_hub.Common.Int.{ℤ, magnitude, nonpositive}
use ai_agent_hub.Common.Result.{Result, ok, err, ◌>>=◌, ◌>>◌, raise_if}
use ai_agent_hub.Common.Text.{Text}
use ai_agent_hub.Rag.Contracts.{RetrievedChunk}
use ai_agent_hub.Rag.Fusion.{
  Floats, FusedRetrieval, RankedCandidate, RrFusion, text_less, key_less, insert_item, sort_items,
  rank_candidates, add_dense, add_sparse, fuse,
}

text_less_asym : (a b : Text) → text_less a b ≡ true → text_less b a ≡ false
unfolding text_less
text_less_asym [] [] h = refl
text_less_asym [] (y ∷ ys) h = refl
text_less_asym (x ∷ xs) [] h = cc
text_less_asym (x ∷ xs) (y ∷ ys) h = ground (arith, h, text_less_asym xs ys)

module _ {S : Type 0} (floats : Floats S) where
  -- No item stands before one that it is to follow.
  abbrev Sorted : List (FusedRetrieval S) → Type 0
  Sorted [] = Unit
  Sorted (x ∷ []) = Unit
  Sorted (x ∷ y ∷ ys) = (key_less floats y x ≡ false) × Sorted (y ∷ ys)

  -- Two neighbours: their scores are equal and the ids do not fall, or they differ and the first is
  -- not below the second.
  abbrev Falls : FusedRetrieval S → FusedRetrieval S → Type 0
  Falls x y =
      ((floats.equal y.fusion_score x.fusion_score ≡ true)
        × (text_less y.chunk.chunk_id x.chunk.chunk_id ≡ false))
      ⊎ ((floats.equal y.fusion_score x.fusion_score ≡ false)
          × (floats.less x.fusion_score y.fusion_score ≡ false))

  abbrev pub Falling : List (FusedRetrieval S) → Type 0
  Falling [] = Unit
  Falling (x ∷ []) = Unit
  Falling (x ∷ y ∷ ys) = Falls x y × Falling (y ∷ ys)

  key_less-Falls : (x y : FusedRetrieval S) → key_less floats y x ≡ false → Falls x y
  unfolding key_less
  key_less-Falls x y h = elim (Bool-cases (floats.equal y.fusion_score x.fusion_score)) [
    | inl same ↦ let h1 = rw same at h in inl (same, h1)
    | inr other ↦ let h1 = rw other at h in inr (other, h1)
  ]

  Sorted-Falling : (items : List (FusedRetrieval S)) → Sorted items → Falling items
  Sorted-Falling [] h = tt
  Sorted-Falling (x ∷ []) h = tt
  Sorted-Falling (x ∷ y ∷ ys) h = (key_less-Falls x y h.0, Sorted-Falling (y ∷ ys) h.1)

  Sorted-take : (n : ℕ) (items : List (FusedRetrieval S)) → Sorted items → Sorted (take n items)
  Sorted-take zero items h = tt
  Sorted-take (suc n) [] h = tt
  Sorted-take (suc n) (x ∷ []) h = Sorted-one n
    where
      Sorted-one : (n : ℕ) → Sorted (x ∷ take n [])
      Sorted-one zero = tt
      Sorted-one (suc n) = tt
  Sorted-take (suc zero) (x ∷ y ∷ ys) h = tt
  Sorted-take (suc (suc n)) (x ∷ y ∷ ys) h = (h.0, Sorted-take (suc n) (y ∷ ys) h.1)

  module _ (less_asym : (a b : S) → floats.less a b ≡ true → floats.less b a ≡ false)
      (equal_sym : (a b : S) → floats.equal a b ≡ floats.equal b a) where
    key_less_asym :
        (a b : FusedRetrieval S) → key_less floats a b ≡ true → key_less floats b a ≡ false
    unfolding key_less
    key_less_asym a b h = elim (Bool-cases (floats.equal b.fusion_score a.fusion_score)) [
      | inl same ↦ rw same (
          text_less_asym a.chunk.chunk_id b.chunk.chunk_id (
            by_ids (floats.equal a.fusion_score b.fusion_score)
              (rw (equal_sym a.fusion_score b.fusion_score) same) h))
      | inr other ↦ rw other (
          less_asym b.fusion_score a.fusion_score (
            by_scores (floats.equal a.fusion_score b.fusion_score)
              (rw (equal_sym a.fusion_score b.fusion_score) other) h))
    ]
      where
        by_ids :
            (b' : Bool)
            → b' ≡ true
            → (if b'
                then text_less a.chunk.chunk_id b.chunk.chunk_id
                else floats.less b.fusion_score a.fusion_score)
              ≡ true
            → text_less a.chunk.chunk_id b.chunk.chunk_id ≡ true
        by_ids true e h = h
        by_ids false e h = cc

        by_scores :
            (b' : Bool)
            → b' ≡ false
            → (if b'
                then text_less a.chunk.chunk_id b.chunk.chunk_id
                else floats.less b.fusion_score a.fusion_score)
              ≡ true
            → floats.less b.fusion_score a.fusion_score ≡ true
        by_scores false e h = h
        by_scores true e h = cc

    Sorted-insert_item :
        (x : FusedRetrieval S) (items : List (FusedRetrieval S))
        → Sorted items
        → Sorted (insert_item floats x items)
    unfolding insert_item
    Sorted-insert_item x [] h = tt
    Sorted-insert_item x (y ∷ []) h = elim (Bool-cases (key_less floats y x)) [
      | inl before ↦ rw before (key_less_asym y x before, tt)
      | inr after ↦ rw after (after, tt)
    ]
    Sorted-insert_item x (y ∷ z ∷ zs) h = elim (Bool-cases (key_less floats y x)) [
      | inr after ↦ rw after (after, h)
      | inl before ↦
          rw before (behind (key_less floats z x) before (Sorted-insert_item x (z ∷ zs) h.1))
    ]
      where
        behind :
            (b : Bool)
            → key_less floats y x ≡ true
            → Sorted (if b then z ∷ insert_item floats x zs else x ∷ z ∷ zs)
            → Sorted (y ∷ (if b then z ∷ insert_item floats x zs else x ∷ z ∷ zs))
        behind true before rest = (h.0, rest)
        behind false before rest = (key_less_asym y x before, rest)

    Sorted-sort_items : (items : List (FusedRetrieval S)) → Sorted (sort_items floats items)
    unfolding sort_items
    Sorted-sort_items [] = tt
    Sorted-sort_items (x ∷ xs) = Sorted-insert_item x (sort_items floats xs) (Sorted-sort_items xs)

    -- Where `<` is asymmetric and `==` symmetric, which floats are, a fusion returns its items so that
    -- of two neighbours with different scores the first score is not below the second, and of two with
    -- equal scores the second id is not below the first.
    pub fuse-Sorted :
        (self : RrFusion S) (dense_results sparse_results : List (RetrievedChunk S)) (top_k : ℤ)
        (items : List (FusedRetrieval S))
        → fuse floats self dense_results sparse_results top_k ≡ ok items
        → Falling items
    unfolding fuse
    fuse-Sorted self dense_results sparse_results top_k items h = Sorted-Falling items (
        positive (nonpositive top_k) (rank_candidates floats dense_results)
          (rank_candidates floats sparse_results) h)
      where
        positive :
            (b : Bool) (dense sparse : Result String (List (RankedCandidate S)))
            → (raise_if b "top_k must be greater than zero"
                >> (dense >>= λ d. sparse >>= λ s. ok (
                    take
                      (magnitude top_k)
                      (sort_items floats (add_sparse floats self s (add_dense floats self d []))))))
              ≡ ok items
            → Sorted items
        positive true dense sparse h = cc
        positive false (err e) sparse h = cc
        positive false (ok d) (err e) h = cc
        positive false (ok d) (ok s) h =
            let merged = add_sparse floats self s (add_dense floats self d []) in
            let all = sort_items floats merged in
            let same : take (magnitude top_k) all ≡ items = cc in
            rw (sym same) (Sorted-take (magnitude top_k) all (Sorted-sort_items merged))
