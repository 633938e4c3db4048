-- ===== src/Services/RetrievalDebug/Shown.antt =====
-- What a retrieval shows, and its lists of rows.
use ai_agent_hub.Common.{
  ℕ, zero, suc, ◌≡◌, refl, ap, subst, inl, inr, none, some, List, [], ◌∷◌, map, ◌==◌, text_eq,
  ==_refl, Bool-cases, find, length, get_elem?, All, All-map,
}
use ai_agent_hub.Common.Exec.{Exec}
use ai_agent_hub.Common.Result.{Result, ok, err}
use ai_agent_hub.Common.Text.{Text}
use ai_agent_hub.Rag.Contracts.{RetrievedChunk}
use ai_agent_hub.Rag.Reranker.{RerankedChunk}
use ai_agent_hub.Rag.Retrievers.{HybridRetrievedChunk}
use ai_agent_hub.Services.RetrievalDebug.{DebugItem, DebugFailure, enumerate, by_id, lifting}

-- The rows of a list of results, pair by pair, ranked from `first` on.
abbrev pub Rows :
    {A S : Type 0} → (A → ℕ → DebugItem S → Type 0) → ℕ → List A → List (DebugItem S) → Type 0
Rows R first [] [] = Unit
Rows R first [] (i ∷ items) = ⊥
Rows R first (x ∷ xs) [] = ⊥
Rows R first (x ∷ xs) (i ∷ items) = R x first i × Rows R (suc first) xs items

module _ {S : Type 0} where
  -- The row of a chunk, with its place in the list.
  abbrev IsRow : RetrievedChunk S → ℕ → DebugItem S → Type 0
  IsRow c rank i = (i.chunk_id ≡ c.chunk_id) × (i.snippet ≡ c.text) × (i.final_rank ≡ rank)

  -- The scores of a row, by the mode of the retrieval.
  abbrev pub DenseRow : RetrievedChunk S → ℕ → DebugItem S → Type 0
  DenseRow c rank i =
      IsRow c rank i
      × (i.dense_score ≡ some c.score)
      × (i.sparse_score ≡ none)
      × (i.fusion_score ≡ none)
      × (i.rerank_score ≡ none)

  abbrev pub SparseRow : RetrievedChunk S → ℕ → DebugItem S → Type 0
  SparseRow c rank i =
      IsRow c rank i
      × (i.dense_score ≡ none)
      × (i.sparse_score ≡ some c.score)
      × (i.fusion_score ≡ none)
      × (i.rerank_score ≡ none)

  abbrev Fused : HybridRetrievedChunk S → DebugItem S → Type 0
  Fused h i =
      (i.dense_score ≡ h.dense_score)
      × (i.sparse_score ≡ h.sparse_score)
      × (i.fusion_score ≡ some h.fusion_score)

  abbrev pub HybridRow : HybridRetrievedChunk S → ℕ → DebugItem S → Type 0
  HybridRow h rank i = IsRow h.chunk rank i × Fused h i × (i.rerank_score ≡ none)

  -- A reranked row also has the scores of the candidate with its id.
  abbrev pub RerankedRow :
      List (HybridRetrievedChunk S) → RerankedChunk S → ℕ → DebugItem S → Type 0
  RerankedRow chunks r rank i =
      IsRow r.chunk rank i
      × (i.rerank_score ≡ r.rerank_score)
      × (h : HybridRetrievedChunk S) × (find (λ g. g.chunk.chunk_id == r.chunk.chunk_id) chunks
          ≡ some h)
      × Fused h i

module _ {A S : Type 0} (f : A → ℕ → DebugItem S) (R : A → ℕ → DebugItem S → Type 0) where
  pub Rows-enumerate :
      (P : A → Type 0)
      → ((x : A) (rank : ℕ) → P x → R x rank (f x rank))
      → (first : ℕ) (xs : List A) → All P xs
      → Rows R first xs (enumerate f first xs)
  Rows-enumerate P step first [] h = tt
  Rows-enumerate P step first (x ∷ xs) h =
      (step x first h.0, Rows-enumerate P step (suc first) xs h.1)

  pub length-Rows :
      (first : ℕ) (xs : List A) (items : List (DebugItem S))
      → Rows R first xs items
      → length items ≡ length xs
  length-Rows first [] [] h = refl
  length-Rows first [] (i ∷ items) h = absurd h
  length-Rows first (x ∷ xs) [] h = absurd h
  length-Rows first (x ∷ xs) (i ∷ items) h = ap suc (length-Rows (suc first) xs items h.1)

pub everything : {A : Type 0} (xs : List A) → All (λ x. Unit {0}) xs
everything [] = tt
everything (x ∷ xs) = (tt, everything xs)

pub lifting-eq :
    {X E A : Type 0} (f : E → DebugFailure) (m : Exec X E A) (x x' : X) (a : A)
    → lifting f m x ≡ (ok a, x')
    → m x ≡ (ok a, x')
lifting-eq {X} {E} {A} f m x x' a h = by_end (m x) h
  where
    by_end : (p : Result E A × X) → lifting f (λ _. p) x ≡ (ok a, x') → p ≡ (ok a, x')
    by_end (ok b, y) e = cc
    by_end (err b, y) e = cc

module _ {S : Type 0} where
  -- An id that the hybrid retrieval has.
  abbrev pub IsKnown : List (HybridRetrievedChunk S) → Text → Type 0
  IsKnown chunks id = (h : HybridRetrievedChunk S) × (by_id chunks id ≡ some h)

  IsKnown-cons :
      (h : HybridRetrievedChunk S) (chunks : List (HybridRetrievedChunk S)) (id : Text)
      → IsKnown chunks id
      → IsKnown (h ∷ chunks) id
  unfolding by_id find
  IsKnown-cons h chunks id (g, e) = elim (Bool-cases (h.chunk.chunk_id == id)) [
    | inl here ↦ rw here (h, refl)
    | inr there ↦ rw there (g, e)
  ]

  head-IsKnown :
      (h : HybridRetrievedChunk S) (chunks : List (HybridRetrievedChunk S))
      → IsKnown (h ∷ chunks) h.chunk.chunk_id
  unfolding by_id find
  head-IsKnown h chunks = rw (==_refl h.chunk.chunk_id) (h, refl)

  pub chunks-IsKnown :
      (chunks : List (HybridRetrievedChunk S))
      → All (λ (c : RetrievedChunk S). IsKnown chunks c.chunk_id) (map (λ h. h.chunk) chunks)
  chunks-IsKnown [] = tt
  chunks-IsKnown (h ∷ chunks) = (
    head-IsKnown h chunks,
    All-map (λ c k. IsKnown-cons h chunks c.chunk_id k) (map (λ h. h.chunk) chunks)
        (chunks-IsKnown chunks),
  )

  pub All-get_elem? :
      (P : RetrievedChunk S → Type 0) (xs : List (RetrievedChunk S)) (n : ℕ) (c : RetrievedChunk S)
      → All P xs
      → get_elem? xs n ≡ some c
      → P c
  All-get_elem? P [] n c h e = cc
  All-get_elem? P (x ∷ xs) zero c h e = let same : x ≡ c = cc in subst P same h.0
  All-get_elem? P (x ∷ xs) (suc n) c h e = All-get_elem? P xs n c h.1 e
