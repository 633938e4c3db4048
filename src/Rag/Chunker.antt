-- ===== src/Rag/Chunker.antt =====
-- backend/app/rag/chunkers/fixed.py: `FixedCharacterChunker`.
pub mod Windows
pub mod Coverage
mod Tests
use ai_agent_hub.Common.{
  ℕ, zero, suc, ◌+◌, ◌-◌, ◌<◌, min, Bool, true, false, ◌||◌, List, [], ◌∷◌, ◌++◌, leb, ltb, ◌==◌,
  nat_eq, if◌then◌else◌, length, slice, is_empty,
}
use ai_agent_hub.Common.Int.{ℤ, nonpositive, negative, magnitude}
use ai_agent_hub.Common.Result.{Result, ok, err}
use ai_agent_hub.Rag.Contracts.{DocumentProcessingError, ParsedDocument, ParsedPage, Chunk, Uuid}

pub record FixedCharacterChunker : Type 0 where
  pub chunk_size : ℕ
  pub chunk_overlap : ℕ

-- `__init__`
unfoldable pub init : ℤ → ℤ → Result DocumentProcessingError FixedCharacterChunker
init chunk_size chunk_overlap =
    if nonpositive chunk_size
    then err
        (record { code = "INVALID_CHUNK_SIZE"; message = "chunk_size must be greater than zero" })
    else if negative chunk_overlap || leb (magnitude chunk_size) (magnitude chunk_overlap)
    then err (record {
      code = "INVALID_CHUNK_OVERLAP";
      message = "chunk_overlap must be non-negative and smaller than chunk_size";
    })
    else ok (record { chunk_size = magnitude chunk_size; chunk_overlap = magnitude chunk_overlap })

pub record IsValid (c : FixedCharacterChunker) : Type 0 where
  pub positive : 0 < c.chunk_size
  pub smaller : c.chunk_overlap < c.chunk_size

-- The parameter is `uuid4`: the id that the n-th chunk gets.
module _ (uuid4 : ℕ → Uuid) (self : FixedCharacterChunker) (document : ParsedDocument) where
  -- The chunk that the loop appends as the n-th one.
  abbrev pub chunk_at : ParsedPage → (start end n : ℕ) → Chunk
  chunk_at page start end n = record {
    text = slice start end page.text;
    metadata = record {
      document_id = document.document_id;
      filename = document.filename;
      page_number = page.page_number;
      start_char = start;
      end_char = end;
    };
    chunk_id = uuid4 n;
  }

  -- The `while` loop on one page, on fuel, from `start`, when `n` chunks have been made.
  unfoldable pub windows : ℕ → ParsedPage → (start n : ℕ) → List Chunk
  windows zero page start n = []
  windows (suc fuel) page start n =
      let end = min (start + self.chunk_size) (length page.text) in
      let rest = windows fuel page (end - self.chunk_overlap) (n + 1) in
      if ltb start (length page.text)
      then chunk_at page start end n ∷ (if end == length page.text then [] else rest)
      else []

  -- A window moves on by one character at least, so the length of the page is enough fuel.
  unfoldable pub split_page : ParsedPage → ℕ → List Chunk
  unfolding windows
  split_page page n = if is_empty page.text then [] else windows (length page.text) page 0 n

  unfoldable pub split_pages : List ParsedPage → ℕ → List Chunk
  unfolding split_page
  split_pages [] n = []
  split_pages (page ∷ pages) n =
      let chunks = split_page page n in chunks ++ split_pages pages (n + length chunks)

  unfoldable pub split : List Chunk
  unfolding split_pages
  split = split_pages document.pages 0
