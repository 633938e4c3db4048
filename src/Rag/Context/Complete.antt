-- ===== src/Rag/Context/Complete.antt =====
-- A context that is not marked truncated has lost nothing.
use ai_agent_hub.Common.{
  ℕ, ◌≡◌, sym, ap, ◌∙◌, Bool, true, false, List, [], ◌∷◌, ◌++◌, map, append-nil, append_assoc,
  arith, if◌then◌else◌,
}
use mathlib.Core.List.{map-append}
use ai_agent_hub.Common.Text.{Text, strip, is_blank}
use ai_agent_hub.Rag.Contracts.{RetrievedChunk}
use ai_agent_hub.Rag.Context.{
  Citation, ContextBuilder, Progress, Round, skip, stop, add, snippet_for, round, extend, start,
  build_loop, build,
}
use ai_agent_hub.Rag.Context.Built.{Added, Ends, round-Ends}

module _ {ℓ} {Score : Type ℓ} where
  -- The chunks that have text, each with its text without the white space around it.
  pub visible : List (RetrievedChunk Score) → List (Text × Text)
  visible [] = []
  visible (c ∷ cs) = (if is_blank c.text then [] else (c.chunk_id, strip c.text) ∷ []) ++ visible cs

abbrev pub shown : Citation → Text × Text
shown c = (c.chunk_id, c.snippet)

module _ {ℓ} {Score : Type ℓ} (self : ContextBuilder) where
  -- A cut marks the context.
  uncut :
      (chunk : RetrievedChunk Score) (p : Progress)
      → (snippet_for self chunk p).1 ≡ false
      → (snippet_for self chunk p).0 ≡ strip chunk.text
  unfolding snippet_for
  uncut chunk p h = ground arith

  not_truncated_at_start :
      (chunks : List (RetrievedChunk Score)) (p : Progress)
      → (build_loop self chunks p).truncated ≡ false
      → p.truncated ≡ false
  unfolding build_loop
  not_truncated_at_start [] p h = h
  not_truncated_at_start (chunk ∷ rest) p h =
      finish (λ q. not_truncated_at_start rest q) (round self chunk p) h
    where
      finish :
          ((q : Progress) → (build_loop self rest q).truncated ≡ false → q.truncated ≡ false)
          → (r : Round)
          → (let q : Progress = elim r [
            | skip ↦ build_loop self rest p
            | stop ↦ record p { truncated = true }
            | add entry citation tokens shortened ↦
                build_loop self rest (extend self p entry citation tokens shortened)
          ] in
              q.truncated)
            ≡ false
          → p.truncated ≡ false
      finish next skip e = next p e
      finish next stop e = cc
      finish next (add entry citation tokens shortened) e = ground (arith, next _ e)

  extend-shown :
      (chunk : RetrievedChunk Score) (p : Progress) (entry : Text) (citation : Citation)
      (tokens : ℕ) (shortened : Bool)
      → Added self chunk p entry citation tokens shortened
      → (extend self p entry citation tokens shortened).truncated ≡ false
      → map shown (p.citations ++ citation ∷ [])
        ≡ map shown p.citations ++ (chunk.chunk_id, strip chunk.text) ∷ []
  extend-shown chunk p entry citation tokens shortened a h =
      map-append shown p.citations (citation ∷ [])
      ∙ ap (λ c. map shown p.citations ++ shown c ∷ []) a.identity
      ∙ ap (λ t. map shown p.citations ++ (chunk.chunk_id, t) ∷ [])
          (uncut chunk p (sym a.whole ∙ ground arith))

  build_loop-shown :
      (chunks : List (RetrievedChunk Score)) (p : Progress)
      → (build_loop self chunks p).truncated ≡ false
      → map shown (build_loop self chunks p).citations ≡ map shown p.citations ++ visible chunks
  unfolding build_loop visible
  build_loop-shown [] p h = sym (append-nil (map shown p.citations))
  build_loop-shown (chunk ∷ rest) p h =
      finish (λ q. build_loop-shown rest q) (round self chunk p) (round-Ends self chunk p) h
    where
      finish :
          ((q : Progress)
            → (build_loop self rest q).truncated ≡ false
            → map shown (build_loop self rest q).citations ≡ map shown q.citations ++ visible rest)
          → (r : Round) → Ends self chunk p r
          → (let q : Progress = elim r [
            | skip ↦ build_loop self rest p
            | stop ↦ record p { truncated = true }
            | add entry citation tokens shortened ↦
                build_loop self rest (extend self p entry citation tokens shortened)
          ] in
              q.truncated)
            ≡ false
          → (let q : Progress = elim r [
            | skip ↦ build_loop self rest p
            | stop ↦ record p { truncated = true }
            | add entry citation tokens shortened ↦
                build_loop self rest (extend self p entry citation tokens shortened)
          ] in
              map shown q.citations)
            ≡ map shown p.citations ++ visible (chunk ∷ rest)
      finish next skip e h' = rw e (next p h')
      finish next stop e h' = cc
      finish next (add entry citation tokens shortened) e h' =
          let q = extend self p entry citation tokens shortened in
          rw e.visible (
            next q h'
            ∙ ap (λ l. l ++ visible rest)
                (extend-shown chunk p entry citation tokens shortened e
                  (not_truncated_at_start rest q h'))
            ∙ append_assoc (map shown p.citations) ((chunk.chunk_id, strip chunk.text) ∷ [])
                (visible rest))

  -- A context that is not marked truncated cites every chunk that has text, in the order of the
  -- chunks, with its whole text less the white space around it.
  pub build_complete :
      (chunks : List (RetrievedChunk Score))
      → (build self chunks).truncated ≡ false
      → map shown (build self chunks).citations ≡ visible chunks
  unfolding build
  build_complete chunks h = build_loop-shown chunks (start self) h
