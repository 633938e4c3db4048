-- ===== src/Rag/Context.antt =====
-- backend/app/rag/context/builder.py: the context that fits a token budget, with its citations.
pub mod Built
pub mod Budget
pub mod Complete
pub mod Cited
mod Tests
use ai_agent_hub.Common.{
  ℕ, zero, suc, ◌+◌, ◌-◌, ◌*◌, ◌<◌, max, Bool, true, false, ◌||◌, String, List, [], ◌∷◌, ◌++◌, ltb,
  leb, if◌then◌else◌, length, take, is_empty,
}
use ai_agent_hub.Common.Ceil.{ceil_div}
use ai_agent_hub.Common.Int.{ℤ, nonpositive, magnitude}
use ai_agent_hub.Common.Result.{Result, ok, err}
use ai_agent_hub.Common.Text.{Text, codes, strip, rstrip, is_blank, join, decimal}
use ai_agent_hub.Rag.Contracts.{RetrievedChunk}

pub record Citation : Type 0 where
  pub citation_id : ℕ
  pub document_id : Text
  pub filename : Text
  pub chunk_id : Text
  pub page_number : ℕ
  pub snippet : Text

pub record ContextResult : Type 0 where
  pub text : Text
  pub citations : List Citation
  pub used_tokens : ℕ
  pub truncated : Bool

pub record ContextBuilder : Type 0 where
  pub token_budget : ℕ
  pub chars_per_token : ℕ

-- `__init__`; the error is the message of a `ValueError`.
unfoldable pub init : (token_budget chars_per_token : ℤ) → Result String ContextBuilder
init token_budget chars_per_token =
    if nonpositive token_budget
    then err "token_budget must be greater than zero"
    else if nonpositive chars_per_token
    then err "chars_per_token must be greater than zero"
    else ok (record {
      token_budget = magnitude token_budget;
      chars_per_token = magnitude chars_per_token;
    })

pub record IsValid (b : ContextBuilder) : Type 0 where
  pub some_tokens : 0 < b.token_budget
  pub some_chars : 0 < b.chars_per_token

-- The variables of the loop.
pub record Progress : Type 0 where
  pub entries : List Text
  pub citations : List Citation
  pub used_tokens : ℕ
  pub truncated : Bool

-- How a round of the loop ends.
pub data Round : Type 0 where
  skip : Round
  stop : Round
  add : Text → Citation → ℕ → Bool → Round

-- `f"[{citation_id}] {filename} (page {page_number})"`
unfoldable pub header_of : ℕ → Text → ℕ → Text
header_of citation_id filename page_number =
    codes "["
    ++ (decimal citation_id
        ++ (codes "] " ++ (filename ++ (codes " (page " ++ (decimal page_number ++ codes ")")))))

-- `f"{header}\n{snippet}"`
unfoldable pub entry_of : Citation → Text
unfolding header_of
entry_of c = header_of c.citation_id c.filename c.page_number ++ (codes "\n" ++ c.snippet)

module _ {ℓ} {Score : Type ℓ} where
  -- The citation of a chunk with a snippet.
  abbrev pub cite : ℕ → RetrievedChunk Score → Text → Citation
  cite citation_id chunk snippet = record {
    citation_id = citation_id;
    document_id = chunk.document_id;
    filename = chunk.filename;
    chunk_id = chunk.chunk_id;
    page_number = chunk.page_number;
    snippet = snippet;
  }

module _ (self : ContextBuilder) where
  unfoldable pub estimate_tokens : Text → ℕ
  estimate_tokens text = max 1 (ceil_div (length text) self.chars_per_token)

  -- `separator_tokens`
  abbrev pub separator : List Text → ℕ
  separator entries = if is_empty entries then 0 else 1

  -- The text of a chunk, cut to what is available, and whether it was cut.
  unfoldable pub cut : Text → ℕ → Text × Bool
  cut text max_chars =
      if ltb max_chars (length text) then (rstrip (take max_chars text), true) else (text, false)

  -- `available_tokens`; a difference that is negative in the source is 0 here, and takes the same
  -- branch.
  abbrev pub available : Text → Progress → ℕ
  available header p =
      self.token_budget - p.used_tokens - (estimate_tokens header + separator p.entries)

  -- `header` and `snippet` of a round, and whether the snippet was cut.
  abbrev pub header_for {ℓ} : {Score : Type ℓ} → RetrievedChunk Score → Progress → Text
  header_for chunk p = header_of (length p.citations + 1) chunk.filename chunk.page_number

  unfoldable pub snippet_for {ℓ} : {Score : Type ℓ} → RetrievedChunk Score → Progress → Text × Bool
  unfolding cut
  snippet_for chunk p =
      cut (strip chunk.text) (available (header_for chunk p) p * self.chars_per_token)

  abbrev pub citation_for {ℓ} : {Score : Type ℓ} → RetrievedChunk Score → Progress → Citation
  citation_for chunk p = cite (length p.citations + 1) chunk (snippet_for chunk p).0

  unfoldable pub round {ℓ} : {Score : Type ℓ} → RetrievedChunk Score → Progress → Round
  unfolding snippet_for estimate_tokens entry_of
  round chunk p =
      let entry = entry_of (citation_for chunk p) in
      let entry_tokens = estimate_tokens entry + separator p.entries in
      if is_blank chunk.text
      then skip
      else if leb (available (header_for chunk p) p) 0
      then stop
      else if ltb self.token_budget (p.used_tokens + entry_tokens)
      then stop
      else add entry (citation_for chunk p) entry_tokens (snippet_for chunk p).1

  -- What the loop does at the end of a round; a `break` sets `truncated`.
  abbrev pub extend : Progress → Text → Citation → ℕ → Bool → Progress
  extend p entry citation entry_tokens shortened = record {
    entries = p.entries ++ entry ∷ [];
    citations = p.citations ++ citation ∷ [];
    used_tokens = p.used_tokens + entry_tokens;
    truncated = p.truncated || shortened;
  }

  unfoldable pub build_loop {ℓ} :
      {Score : Type ℓ} → List (RetrievedChunk Score) → Progress → Progress
  unfolding round
  build_loop [] p = p
  build_loop (chunk ∷ rest) p = elim (round chunk p) [
    | skip ↦ build_loop rest p
    | stop ↦ record p { truncated = true }
    | add entry citation entry_tokens shortened ↦
        build_loop rest (extend p entry citation entry_tokens shortened)
  ]

  abbrev pub start : Progress
  start = record { entries = []; citations = []; used_tokens = 0; truncated = false }

  unfoldable pub build {ℓ} : {Score : Type ℓ} → List (RetrievedChunk Score) → ContextResult
  unfolding build_loop
  build chunks =
      let p = build_loop chunks start in
      record {
        text = join (codes "\n\n") p.entries;
        citations = p.citations;
        used_tokens = p.used_tokens;
        truncated = p.truncated;
      }
