-- ===== src/Rag/Context/Built.antt =====
-- The invariant of the loop: entries are the printed citations, numbered from 1, and their price
-- is what has been used.
use ai_agent_hub.Common.{
  ℕ, suc, ◌+◌, ◌≤◌, ◌≡◌, refl, sym, ap, ◌∙◌, Bool, true, false, inl, inr, List, [], ◌∷◌, ◌++◌, map,
  arith, ltb, leb, Bool-cases, length,
}
use mathlib.Core.List.{map-append}
use ai_agent_hub.Common.Text.{Text, is_blank}
use ai_agent_hub.Rag.Contracts.{RetrievedChunk}
use ai_agent_hub.Rag.Context.{
  Citation, ContextBuilder, Progress, Round, skip, stop, add, entry_of, estimate_tokens, separator,
  available, header_for, snippet_for, citation_for, round, extend, start, build_loop,
}

-- The citations are numbered from `first` on.
abbrev pub Numbered : ℕ → List Citation → Type 0
Numbered first [] = Unit
Numbered first (c ∷ cs) = (c.citation_id ≡ first) × Numbered (suc first) cs

Numbered-append :
    (first : ℕ) (cs : List Citation) (c : Citation)
    → Numbered first cs
    → c.citation_id ≡ first + length cs
    → Numbered first (cs ++ c ∷ [])
Numbered-append first [] c h e = (omega (arith, e), tt)
Numbered-append first (x ∷ xs) c h e =
    (h.0, Numbered-append (suc first) xs c h.1 (omega (arith, e)))

module _ (self : ContextBuilder) where
  -- The tokens of entries that are joined by separators.
  abbrev pub price : List Text → ℕ
  price [] = 0
  price (e ∷ []) = estimate_tokens self e
  price (e ∷ f ∷ es) = estimate_tokens self e + 1 + price (f ∷ es)

  price-append :
      (es : List Text) (e : Text)
      → price (es ++ e ∷ []) ≡ price es + (estimate_tokens self e + separator self es)
  price-append [] e = omega arith
  price-append (x ∷ []) e = omega arith
  price-append (x ∷ y ∷ es) e = omega (arith, price-append (y ∷ es) e)

  pub record IsBuilt (p : Progress) : Type 0 where
    pub bounded : p.used_tokens ≤ self.token_budget
    pub numbered : Numbered 1 p.citations
    pub printed : p.entries ≡ map entry_of p.citations
    pub priced : p.used_tokens ≡ price p.entries

  pub start-IsBuilt : IsBuilt (start self)
  start-IsBuilt = record { bounded = omega arith; numbered = tt; printed = refl; priced = refl }

module _ {ℓ} {Score : Type ℓ} (self : ContextBuilder) where
  -- What a round that adds has added.
  pub record Added (chunk : RetrievedChunk Score) (p : Progress) (entry : Text)
      (citation : Citation) (tokens : ℕ) (shortened : Bool) : Type 0 where
    pub visible : is_blank chunk.text ≡ false
    pub identity : citation ≡ citation_for self chunk p
    pub whole : shortened ≡ (snippet_for self chunk p).1
    pub print : entry ≡ entry_of citation
    pub cost : tokens ≡ estimate_tokens self entry + separator self p.entries
    pub fits : p.used_tokens + tokens ≤ self.token_budget

  -- The shape of a round, for each of its ends.
  abbrev pub Ends : RetrievedChunk Score → Progress → Round → Type 0
  Ends chunk p skip = is_blank chunk.text ≡ true
  Ends chunk p stop = is_blank chunk.text ≡ false
  Ends chunk p (add entry citation tokens shortened) = Added chunk p entry citation tokens shortened

  pub round-Ends : (chunk : RetrievedChunk Score) (p : Progress) → Ends chunk p (round self chunk p)
  unfolding round
  round-Ends chunk p = elim (Bool-cases (is_blank chunk.text)) [
    | inl blank ↦ rw blank blank
    | inr visible ↦
        rw visible (elim (Bool-cases (leb (available self (header_for self chunk p) p) 0)) [
          | inl none ↦ rw none visible
          | inr room ↦ rw room (
              let tokens : ℕ =
                estimate_tokens self (entry_of (citation_for self chunk p))
                + separator self p.entries in
              elim (Bool-cases (ltb self.token_budget (p.used_tokens + tokens))) [
                | inl over ↦ rw over visible
                | inr fits ↦ rw fits (record {
                  visible = visible;
                  identity = refl;
                  whole = refl;
                  print = refl;
                  cost = refl;
                  fits = ground arith;
                })
              ])
        ])
  ]

  extend-IsBuilt :
      (chunk : RetrievedChunk Score) (p : Progress) (entry : Text) (citation : Citation)
      (tokens : ℕ) (shortened : Bool)
      → Added chunk p entry citation tokens shortened
      → IsBuilt self p
      → IsBuilt self (extend self p entry citation tokens shortened)
  extend-IsBuilt chunk p entry citation tokens shortened a b = record {
    bounded = a.fits;
    numbered =
        Numbered-append 1 p.citations citation b.numbered
          (ap (λ (c : Citation). c.citation_id) a.identity ∙ omega arith);
    printed =
        ap (λ l. l ++ entry ∷ []) b.printed
        ∙ ap (λ e. map entry_of p.citations ++ e ∷ []) a.print
        ∙ sym (map-append entry_of p.citations (citation ∷ []));
    priced = omega (arith, a.cost, b.priced, price-append self p.entries entry);
  }

  pub build_loop-IsBuilt :
      (chunks : List (RetrievedChunk Score)) (p : Progress)
      → IsBuilt self p
      → IsBuilt self (build_loop self chunks p)
  unfolding build_loop
  build_loop-IsBuilt [] p b = b
  build_loop-IsBuilt (chunk ∷ rest) p b =
      finish (λ q. build_loop-IsBuilt rest q) (round self chunk p) (round-Ends chunk p)
    where
      finish :
          ((q : Progress) → IsBuilt self q → IsBuilt self (build_loop self rest q))
          → (r : Round) → Ends chunk p r
          → IsBuilt self (elim r [
            | skip ↦ build_loop self rest p
            | stop ↦ record p { truncated = true }
            | add entry citation tokens shortened ↦
                build_loop self rest (extend self p entry citation tokens shortened)
          ])
      finish next skip e = next p b
      finish next stop e = record {
        bounded = b.bounded;
        numbered = b.numbered;
        printed = b.printed;
        priced = b.priced;
      }
      finish next (add entry citation tokens shortened) e =
          next _ (extend-IsBuilt chunk p entry citation tokens shortened e b)
