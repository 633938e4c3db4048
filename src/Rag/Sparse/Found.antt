-- ===== src/Rag/Sparse/Found.antt =====
-- The chunks of a sparse retrieval: backend/app/rag/retrievers/sparse.py, `retrieve`.
use ai_agent_hub.Common.{
  ℕ, suc, ◌≤◌, ◌≡◌, refl, sym, ap, ◌∙◌, subst, Bool, true, false, ◌&&◌, ◌==◌, nat_eq, inl, inr,
  Option, some, List, [], ◌∷◌, filter, take, arith, Bool-cases, All, All-take, All-map, length,
  length-take, get_elem?,
}
use ai_agent_hub.Common.Int.{ℤ, nonpositive, magnitude}
use ai_agent_hub.Common.Exec.{bind-eq-ok}
use ai_agent_hub.Common.Result.{ok}
use ai_agent_hub.Common.Sort.{insert_by, sort_by}
use ai_agent_hub.Common.Text.{Text, strip, is_blank}
use ai_agent_hub.Rag.Contracts.{Uuid, RetrievedChunk}
use ai_agent_hub.Rag.Fusion.{Floats}
use ai_agent_hub.Rag.Retrievers.{raise_when, is_below}
use ai_agent_hub.Rag.Retrievers.Filtered.{raise_when-same}
use ai_agent_hub.Rag.Sparse.{
  SearchRow, FullTextSearch, is_negative, above, ranks_before, selected, statement, retrieve_sparse,
  length-above_le,
}

and_parts : (a b c : Bool) → (a && (b && c)) ≡ true → (a ≡ true) × (b ≡ true) × (c ≡ true)
and_parts true true true h = (refl, refl, refl)
and_parts true true false h = cc
and_parts true false c h = cc
and_parts false b c h = cc

module _ {A : Type 0} (P : A → Type 0) (less : A → A → Bool) where
  All-insert_by : (a : A) (xs : List A) → P a → All P xs → All P (insert_by less a xs)
  unfolding insert_by
  All-insert_by a [] p h = (p, tt)
  All-insert_by a (x ∷ xs) p h = elim (Bool-cases (less x a)) [
    | inl before ↦ rw before (h.0, All-insert_by a xs p h.1)
    | inr after ↦ rw after (p, h)
  ]

  All-sort_by : (xs : List A) → All P xs → All P (sort_by less xs)
  unfolding sort_by
  All-sort_by [] h = tt
  All-sort_by (x ∷ xs) h = All-insert_by x (sort_by less xs) h.0 (All-sort_by xs h.1)

module _ {X S : Type 0} (floats : Floats S) (search : FullTextSearch X S) (knowledge_base : Uuid)
    (query : Text) where
  -- A chunk of a completed document of the knowledge base that matches the query, with its rank.
  pub record IsHit (rows : List (SearchRow S)) (c : RetrievedChunk S) : Type 0 where
    pub place : ℕ
    pub row : SearchRow S
    pub at : get_elem? rows place ≡ some row
    pub owned : row.knowledge_base_id ≡ knowledge_base
    pub completed : row.is_completed ≡ true
    pub matches : search.matches row.chunk.text query ≡ true
    pub ranked : c ≡ record row.chunk { score = search.rank row.chunk.text query }

  behind :
      (row : SearchRow S) (rows : List (SearchRow S)) (c : RetrievedChunk S)
      → IsHit rows c
      → IsHit (row ∷ rows) c
  behind row rows c h = record {
    place = suc h.place;
    row = h.row;
    at = h.at;
    owned = h.owned;
    completed = h.completed;
    matches = h.matches;
    ranked = h.ranked;
  }

  selected-IsHit :
      (rows : List (SearchRow S))
      → All (IsHit rows) (selected floats search knowledge_base query rows)
  unfolding selected filter
  selected-IsHit [] = tt
  selected-IsHit (row ∷ rows) =
      let rest : All (IsHit (row ∷ rows)) (selected floats search knowledge_base query rows) =
        All-map (behind row rows) (selected floats search knowledge_base query rows)
          (selected-IsHit rows) in
      elim (Bool-cases (
        (row.knowledge_base_id == knowledge_base)
        && (row.is_completed && search.matches row.chunk.text query))) [
          | inr other ↦ rw other rest
          | inl hit ↦
              let (own, completed, matches) =
                and_parts (row.knowledge_base_id == knowledge_base) row.is_completed
                  (search.matches row.chunk.text query) hit in
              rw hit (
                record {
                  place = 0;
                  row = row;
                  at = refl;
                  owned = ground (arith, own);
                  completed = completed;
                  matches = matches;
                  ranked = refl;
                },
                rest,
              )
        ]

  -- What a sparse retrieval returns, in the state that it starts in.
  pub record IsFound (top_k : ℤ) (threshold : Option S) (x : X) (chunks : List (RetrievedChunk S))
      : Type 0 where
    pub rows : List (SearchRow S)
    pub after : X
    pub reads : search.joined x ≡ (ok rows, after)
    pub hits : All (IsHit rows) chunks
    pub kept : All (λ c. is_below floats threshold c.score ≡ false) chunks
    pub at_most : length chunks ≤ magnitude top_k

  All-above :
      (P : RetrievedChunk S → Type 0) (threshold : Option S) (cs : List (RetrievedChunk S))
      → All P cs
      → All P (above floats threshold cs)
        × All (λ c. is_below floats threshold c.score ≡ false) (above floats threshold cs)
  unfolding above
  All-above P threshold [] h = (tt, tt)
  All-above P threshold (c ∷ cs) h =
      let (hits, kept) = All-above P threshold cs h.1 in
      elim (Bool-cases (is_below floats threshold c.score)) [
        | inl low ↦ rw low (hits, kept)
        | inr high ↦ rw high ((h.0, hits), (high, kept))
      ]

  statement-IsFound :
      (top_k : ℤ) (threshold : Option S) (x x' : X) (rows : List (SearchRow S))
      → search.joined x ≡ (ok rows, x')
      → IsFound top_k threshold x (
          above floats threshold
            (statement floats search knowledge_base query (magnitude top_k) rows))
  unfolding statement
  statement-IsFound top_k threshold x x' rows e =
      let k = magnitude top_k in
      let all = selected floats search knowledge_base query rows in
      let ordered = sort_by (ranks_before floats) all in
      let hits =
        All-take (IsHit rows) k ordered
          (All-sort_by (IsHit rows) (ranks_before floats) all (selected-IsHit rows)) in
      let (kept_hits, kept) = All-above (IsHit rows) threshold (take k ordered) hits in
      record {
        rows = rows;
        after = x';
        reads = e;
        hits = kept_hits;
        kept = kept;
        at_most =
            omega (arith, length-above_le floats threshold (take k ordered), length-take k ordered);
      }

module _ {X S : Type 0} (floats : Floats S) (search : FullTextSearch X S) where
  -- A sparse retrieval that succeeds returns at most `top_k` chunks, all of completed documents of the
  -- knowledge base, whose text matches the stripped query, each with the rank of its text, and none
  -- below the threshold.
  pub retrieve_sparse-IsFound :
      (knowledge_base : Uuid) (query : Text) (top_k : ℤ) (threshold : Option S) (x : X)
      (chunks : List (RetrievedChunk S))
      → (retrieve_sparse floats search knowledge_base query top_k threshold x).0 ≡ ok chunks
      → IsFound floats search knowledge_base (strip query) top_k threshold x chunks
  unfolding retrieve_sparse
  retrieve_sparse-IsFound knowledge_base query top_k threshold x chunks h =
      let (_, x1, e1, h1) = bind-eq-ok (raise_when (is_blank query) _) _ x h in
      let (_, x2, e2, h2) = bind-eq-ok (raise_when (nonpositive top_k) _) _ x1 h1 in
      let (_, x3, e3, h3) = bind-eq-ok (raise_when (is_negative floats threshold) _) _ x2 h2 in
      let (rows, x4, e4, h4) = bind-eq-ok search.joined _ x3 h3 in
      let start : x3 ≡ x =
        raise_when-same _ _ x2 x3 _ e3
        ∙ raise_when-same _ _ x1 x2 _ e2
        ∙ raise_when-same _ _ x x1 _ e1 in
      let reads : search.joined x ≡ (ok rows, x4) = ap (λ y. search.joined y) (sym start) ∙ e4 in
      let same : above floats threshold
            (statement floats search knowledge_base (strip query) (magnitude top_k) rows)
          ≡ chunks =
        cc in
      subst (IsFound floats search knowledge_base (strip query) top_k threshold x) same (
        statement-IsFound floats search knowledge_base (strip query) top_k threshold x x4 rows
          reads)
