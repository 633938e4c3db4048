-- ===== src/Rag/Context/Cited.antt =====
-- Every citation of a context stands for one of the chunks.
use ai_agent_hub.Common.{
  ℕ, ◌*◌, ◌≡◌, refl, sym, ap, ◌∙◌, subst, Bool, true, inl, inr, List, [], ◌∷◌, ◌++◌, reverse,
  append-nil, append_assoc, ltb, Bool-cases, length, take, drop, All, All-append, take-append-drop,
}
use mathlib.Core.List.{reverse-append, reverse-reverse}
use ai_agent_hub.Common.Text.{Text, drop_while, rstrip, strip, is_space}
use ai_agent_hub.Rag.Contracts.{RetrievedChunk}
use ai_agent_hub.Rag.Context.{
  Citation, ContextBuilder, Progress, Round, skip, stop, add, cut, available, header_for,
  snippet_for, citation_for, round, extend, build_loop, start, build,
}
use ai_agent_hub.Rag.Context.Built.{Ends, round-Ends}

-- What `drop_while` has dropped.
dropped {ℓ} :
    {A : Type ℓ} (p : A → Bool) (xs : List A) → (front : List A) × (xs ≡ front ++ drop_while p xs)
unfolding drop_while
dropped p [] = ([], refl)
dropped p (x ∷ xs) = elim (Bool-cases (p x)) [
  | inl yes_ ↦ let (front, e) = dropped p xs in rw yes_ (x ∷ front, ap (λ l. x ∷ l) e)
  | inr no_ ↦ rw no_ ([], refl)
]

-- `rstrip` only drops from the end.
pub rstrip_prefix : (t : Text) → (rest : Text) × (t ≡ rstrip t ++ rest)
unfolding rstrip
rstrip_prefix t =
    let (front, e) = dropped is_space (reverse t) in
    (
      reverse front,
      sym (reverse-reverse t)
          ∙ ap reverse e
          ∙ reverse-append front (drop_while is_space (reverse t)),
    )

-- The citation names the chunk, and its snippet is a beginning of the text of the chunk.
pub record Names {ℓ} {Score : Type ℓ} (chunk : RetrievedChunk Score) (c : Citation) : Type 0 where
  pub chunk_id : c.chunk_id ≡ chunk.chunk_id
  pub document_id : c.document_id ≡ chunk.document_id
  pub filename : c.filename ≡ chunk.filename
  pub page_number : c.page_number ≡ chunk.page_number
  pub rest : Text
  pub snippet : strip chunk.text ≡ c.snippet ++ rest

-- The citation names one of the chunks.
pub record IsCited {ℓ} {Score : Type ℓ} (chunks : List (RetrievedChunk Score)) (c : Citation)
    : Type ℓ where
  pub chunk : RetrievedChunk Score
  pub front : List (RetrievedChunk Score)
  pub back : List (RetrievedChunk Score)
  pub stands : chunks ≡ front ++ chunk ∷ back
  pub names : Names chunk c

cut_prefix :
    (self : ContextBuilder) (t : Text) (n : ℕ) → (rest : Text) × (t ≡ (cut self t n).0 ++ rest)
unfolding cut
cut_prefix self t n = elim (Bool-cases (ltb n (length t))) [
  | inr short ↦ rw short ([], sym (append-nil t))
  | inl long ↦
      let (rest, e) = rstrip_prefix (take n t) in
      rw long (
        rest ++ drop n t,
        sym (take-append-drop n t)
            ∙ ap (λ l. l ++ drop n t) e
            ∙ append_assoc (rstrip (take n t)) rest (drop n t),
      )
]

module _ {ℓ} {Score : Type ℓ} (self : ContextBuilder) where
  citation_for-Names :
      (chunk : RetrievedChunk Score) (p : Progress) → Names chunk (citation_for self chunk p)
  unfolding snippet_for
  citation_for-Names chunk p =
      let (rest, e) =
        cut_prefix self (strip chunk.text)
          (available self (header_for self chunk p) p * self.chars_per_token) in
      record {
        chunk_id = refl;
        document_id = refl;
        filename = refl;
        page_number = refl;
        rest = rest;
        snippet = e;
      }

  build_loop-IsCited :
      (chunks front rest : List (RetrievedChunk Score)) (p : Progress)
      → chunks ≡ front ++ rest
      → All (IsCited chunks) p.citations
      → All (IsCited chunks) (build_loop self rest p).citations
  unfolding build_loop
  build_loop-IsCited chunks front [] p e h = h
  build_loop-IsCited chunks front (chunk ∷ rest) p e h =
      finish
        (λ q.
          build_loop-IsCited chunks (front ++ chunk ∷ []) rest q
            (e ∙ sym (append_assoc front (chunk ∷ []) rest)))
        (round self chunk p) (round-Ends self chunk p)
    where
      finish :
          ((q : Progress)
            → All (IsCited chunks) q.citations
            → All (IsCited chunks) (build_loop self rest q).citations)
          → (r : Round) → Ends self chunk p r
          → All
              (IsCited chunks)
              (elim r as (λ _. Progress) [
                | skip ↦ build_loop self rest p
                | stop ↦ record p { truncated = true }
                | add entry citation entry_tokens shortened ↦
                    build_loop self rest (extend self p entry citation entry_tokens shortened)
              ]).citations
      finish go skip a = go p h
      finish go stop a = h
      finish go (add entry citation tokens shortened) a =
          go (extend self p entry citation tokens shortened) (
            All-append (IsCited chunks) p.citations (citation ∷ []) h (
              record {
                chunk = chunk;
                front = front;
                back = rest;
                stands = e;
                names = subst (Names chunk) (sym a.identity) (citation_for-Names chunk p);
              },
              tt,
            ))

  -- Every citation of a context names one of the chunks, and its snippet is a beginning of the text
  -- of that chunk.
  pub build-IsCited :
      (chunks : List (RetrievedChunk Score)) → All (IsCited chunks) (build self chunks).citations
  unfolding build
  build-IsCited chunks = build_loop-IsCited chunks [] chunks (start self) refl tt
