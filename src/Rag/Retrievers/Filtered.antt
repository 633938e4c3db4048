-- ===== src/Rag/Retrievers/Filtered.antt =====
-- The chunks of a dense retrieval.
use ai_agent_hub.Common.{
  ℕ, zero, suc, ◌-◌, ◌≤◌, ◌<◌, ◌≡◌, refl, sym, String, Bool, true, false, Option, List, [], ◌∷◌,
  arith, ◌==◌, text_eq, leb, Bool-cases, inl, inr, ==_false_sym, All, All-map, contains, length,
}
use ai_agent_hub.Common.Int.{ℤ, pos, negsuc, nonpositive, magnitude}
use ai_agent_hub.Common.Result.{ok}
use ai_agent_hub.Common.Exec.{bind-eq-ok}
use ai_agent_hub.Common.Text.{Text, is_blank}
use ai_agent_hub.Rag.Contracts.{Uuid, RetrievedChunk}
use ai_agent_hub.Rag.Fusion.{Floats}
use ai_agent_hub.Rag.Fusion.Items.{Distinct, chunk_key, neither}
use ai_agent_hub.Rag.Retrievers.{
  SearchResult, VectorSearch, raise_when, normalize, result_id, is_below, out_of_range, collect,
  retrieve_dense,
}

module _ {S : Type 0} (floats : Floats S) (threshold : Option S) (top_k : ℕ) where
  -- A chunk whose score is not below the threshold.
  abbrev Kept : RetrievedChunk S → Type 0
  Kept c = is_below floats threshold c.score ≡ false

  collect-Kept :
      (seen : List Text) (count : ℕ) (rs : List (SearchResult S))
      → All Kept (collect floats threshold top_k seen count rs)
  unfolding collect
  collect-Kept seen count [] = tt
  collect-Kept seen count (r ∷ rs) = elim (Bool-cases (is_below floats threshold r.score)) [
    | inl below ↦ rw below (collect-Kept seen count rs)
    | inr kept ↦ elim (Bool-cases (contains (result_id r) seen)) [
      | inl old ↦ rw (kept, old) (collect-Kept seen count rs)
      | inr new ↦ elim (Bool-cases (leb top_k (suc count))) [
        | inl full ↦ rw (kept, new, full) (unfold normalize in kept, tt)
        | inr room ↦
            rw (kept, new, room)
              (unfold normalize in kept, collect-Kept (result_id r ∷ seen) (suc count) rs)
      ]
    ]
  ]

  collect-fresh :
      (seen : List Text) (count : ℕ) (rs : List (SearchResult S))
      → All
          (λ (c : RetrievedChunk S). contains c.chunk_id seen ≡ false)
          (collect floats threshold top_k seen count rs)
  unfolding collect
  collect-fresh seen count [] = tt
  collect-fresh seen count (r ∷ rs) = elim (Bool-cases (is_below floats threshold r.score)) [
    | inl below ↦ rw below (collect-fresh seen count rs)
    | inr kept ↦ elim (Bool-cases (contains (result_id r) seen)) [
      | inl old ↦ rw (kept, old) (collect-fresh seen count rs)
      | inr new ↦ elim (Bool-cases (leb top_k (suc count))) [
        | inl full ↦ rw (kept, new, full) (unfold normalize in new, tt)
        | inr room ↦
            rw (kept, new, room)
              (
                unfold normalize in new,
                All-map
                    (λ c h. (neither (result_id r == c.chunk_id) (contains c.chunk_id seen) h).1)
                    (collect floats threshold top_k (result_id r ∷ seen) (suc count) rs)
                    (collect-fresh (result_id r ∷ seen) (suc count) rs),
              )
      ]
    ]
  ]

  collect-Distinct :
      (seen : List Text) (count : ℕ) (rs : List (SearchResult S))
      → Distinct chunk_key (collect floats threshold top_k seen count rs)
  unfolding collect
  collect-Distinct seen count [] = tt
  collect-Distinct seen count (r ∷ rs) = elim (Bool-cases (is_below floats threshold r.score)) [
    | inl below ↦ rw below (collect-Distinct seen count rs)
    | inr kept ↦ elim (Bool-cases (contains (result_id r) seen)) [
      | inl old ↦ rw (kept, old) (collect-Distinct seen count rs)
      | inr new ↦ elim (Bool-cases (leb top_k (suc count))) [
        | inl full ↦ rw (kept, new, full) (tt, tt)
        | inr room ↦
            rw (kept, new, room)
              (
                All-map
                    (λ (c : RetrievedChunk S) h.
                      unfold normalize in
                      ==_false_sym (result_id r) c.chunk_id
                        (neither (result_id r == c.chunk_id) (contains c.chunk_id seen) h).0)
                    (collect floats threshold top_k (result_id r ∷ seen) (suc count) rs)
                    (collect-fresh (result_id r ∷ seen) (suc count) rs),
                collect-Distinct (result_id r ∷ seen) (suc count) rs,
              )
      ]
    ]
  ]

  length-collect :
      (seen : List Text) (count : ℕ) (rs : List (SearchResult S))
      → count < top_k
      → length (collect floats threshold top_k seen count rs) ≤ top_k - count
  unfolding collect
  length-collect seen count [] h = omega arith
  length-collect seen count (r ∷ rs) h = elim (Bool-cases (is_below floats threshold r.score)) [
    | inl below ↦ rw below (length-collect seen count rs h)
    | inr kept ↦ elim (Bool-cases (contains (result_id r) seen)) [
      | inl old ↦ rw (kept, old) (length-collect seen count rs h)
      | inr new ↦ elim (Bool-cases (leb top_k (suc count))) [
        | inl full ↦ rw (kept, new, full) (omega arith)
        | inr room ↦
            rw (kept, new, room)
              (let smaller : suc count < top_k = ground arith in
                omega (arith, length-collect (result_id r ∷ seen) (suc count) rs smaller))
      ]
    ]
  ]

-- What a dense retrieval returns.
pub record IsRetrieved {S : Type 0} (floats : Floats S) (threshold : Option S) (top_k : ℤ)
    (chunks : List (RetrievedChunk S)) : Type 0 where
  pub kept : All (Kept floats threshold (magnitude top_k)) chunks
  pub distinct : Distinct chunk_key chunks
  pub at_most : length chunks ≤ magnitude top_k

-- A check that has not raised found nothing.
pub raise_when-passed :
    {X : Type 0} (b : Bool) (message : String) (x1 x2 : X) (a : Unit {0})
    → raise_when b message x1 ≡ (ok a, x2)
    → b ≡ false
raise_when-passed true message x1 x2 a e = cc
raise_when-passed false message x1 x2 a e = refl

-- A check that has not raised changes nothing.
pub raise_when-same :
    {X : Type 0} (b : Bool) (message : String) (x1 x2 : X) (a : Unit {0})
    → raise_when b message x1 ≡ (ok a, x2)
    → x2 ≡ x1
raise_when-same true message x1 x2 a e = cc
raise_when-same false message x1 x2 a e = cc

positive_magnitude : (z : ℤ) → nonpositive z ≡ false → 0 < magnitude z
positive_magnitude (pos zero) h = cc
positive_magnitude (pos (suc n)) h = omega arith
positive_magnitude (negsuc n) h = cc

module _ {X S Vector : Type 0} (floats : Floats S) (service : VectorSearch X S Vector) where
  -- A dense retrieval that succeeds returns at most `top_k` chunks, with different ids, none of
  -- them with a score below the threshold.
  pub retrieve_dense-IsRetrieved :
      (knowledge_base : Uuid) (query : Text) (top_k : ℤ) (threshold : Option S) (x : X)
      (chunks : List (RetrievedChunk S))
      → (retrieve_dense floats service knowledge_base query top_k threshold x).0 ≡ ok chunks
      → IsRetrieved floats threshold top_k chunks
  unfolding retrieve_dense
  retrieve_dense-IsRetrieved knowledge_base query top_k threshold x chunks h =
      let (_, x1, _, h1) = bind-eq-ok (raise_when (is_blank query) _) _ x h in
      let (_, x2, e2, h2) = bind-eq-ok (raise_when (nonpositive top_k) _) _ x1 h1 in
      let (_, x3, _, h3) = bind-eq-ok (raise_when (out_of_range floats threshold) _) _ x2 h2 in
      let (vector, x4, _, h4) = bind-eq-ok (service.embed query) _ x3 h3 in
      let (results, x5, _, h5) =
        bind-eq-ok (service.search knowledge_base vector (magnitude top_k)) _ x4 h4 in
      let same : collect floats threshold (magnitude top_k) [] 0 results ≡ chunks = cc in
      let k = magnitude top_k in
      let positive : 0 < k =
        positive_magnitude top_k (raise_when-passed (nonpositive top_k) _ x1 x2 _ e2) in
      rw (sym same) (record {
        kept = collect-Kept floats threshold k [] 0 results;
        distinct = collect-Distinct floats threshold k [] 0 results;
        at_most = omega (arith, length-collect floats threshold k [] 0 results positive);
      })
