-- ===== src/Rag/Context/Budget.antt =====
-- The context keeps within its token budget, by its own estimate of the text that it returns.
use ai_agent_hub.Common.{
  ◌+◌, ◌≤◌, ◌<◌, max, ◌≡◌, ap, List, [], ◌∷◌, ◌++◌, map, arith, length, length-append,
}
use ai_agent_hub.Common.Ceil.{ceil_div, ceil_div-le, ceil_div-add}
use ai_agent_hub.Common.Text.{Text, codes, join}
use ai_agent_hub.Rag.Contracts.{RetrievedChunk}
use ai_agent_hub.Rag.Context.{
  ContextBuilder, IsValid, estimate_tokens, entry_of, start, build_loop, build,
}
use ai_agent_hub.Rag.Context.Built.{Numbered, price, IsBuilt, start-IsBuilt, build_loop-IsBuilt}

module _ {ℓ} {Score : Type ℓ} (self : ContextBuilder) (chunks : List (RetrievedChunk Score)) where
  built : IsBuilt self (build_loop self chunks (start self))
  built = build_loop-IsBuilt self chunks (start self) (start-IsBuilt self)

  -- The tokens used are within the budget; the text is the citations printed in their order and
  -- joined by empty lines; and the citations are numbered 1, 2, 3, ….
  pub build-citations :
      ((build self chunks).used_tokens ≤ self.token_budget)
      × ((build self chunks).text
          ≡ join (codes "\n\n") (map entry_of (build self chunks).citations))
      × Numbered 1 (build self chunks).citations
  unfolding build
  build-citations = let b = built in (b.bounded, ap (join (codes "\n\n")) b.printed, b.numbered)

module _ (self : ContextBuilder) (wide : 2 ≤ self.chars_per_token) where
  join-le-price :
      (e : Text) (es : List Text)
      → ceil_div (length (join (codes "\n\n") (e ∷ es))) self.chars_per_token ≤ price self (e ∷ es)
  unfolding join estimate_tokens
  join-le-price e [] = omega arith
  join-le-price e (f ∷ es) =
      let some : 0 < self.chars_per_token = omega arith in
      let later = join (codes "\n\n") (f ∷ es) in
      let sum : length (e ++ (codes "\n\n" ++ later)) ≡ length e + (2 + length later) =
        omega
          (arith, length-append e (codes "\n\n" ++ later), length-append (codes "\n\n") later) in
      let split : ceil_div (length (e ++ (codes "\n\n" ++ later))) self.chars_per_token
          ≡ ceil_div (length e + (2 + length later)) self.chars_per_token =
        ap (λ n. ceil_div n self.chars_per_token) sum in
      omega (
        arith,
        split,
        ceil_div-add some (length e) (2 + length later),
        ceil_div-add some 2 (length later),
        ceil_div-le some 2 1 (omega arith),
        join-le-price f es,
      )

  estimate-join :
      (es : List Text) → estimate_tokens self (join (codes "\n\n") es) ≤ max 1 (price self es)
  unfolding estimate_tokens
  estimate-join [] =
      unfold join in omega (arith, ceil_div-le {d = self.chars_per_token} (omega arith) 0 0)
  estimate-join (e ∷ es) = omega (arith, join-le-price e es)

  -- With two characters or more to a token, the estimate for the text that is returned is at most
  -- what was counted, so it too is within the budget.
  pub estimate-build-le_budget {ℓ} :
      {Score : Type ℓ} (chunks : List (RetrievedChunk Score))
      → IsValid self
      → (estimate_tokens self (build self chunks).text ≤ max 1 (build self chunks).used_tokens)
        × (estimate_tokens self (build self chunks).text ≤ self.token_budget)
  unfolding build
  estimate-build-le_budget chunks valid =
      let b = built self chunks in
      let counted = estimate-join (build_loop self chunks (start self)).entries in
      let some = valid.some_tokens in (omega (arith, b.priced), omega (arith, b.priced, b.bounded))
