-- ===== src/Rag/Contracts.antt =====
-- backend/app/rag/contracts.py and errors.py: what parsers, cleaners and chunkers exchange, and
-- the chunk that retrievers return (backend/app/rag/retrievers/base.py).
use ai_agent_hub.Common.{ℕ, String, List}
use ai_agent_hub.Common.Text.{Text}

-- UUIDs are opaque numbers.
abbrev pub Uuid : Type 0
Uuid = ℕ

pub record DocumentProcessingError : Type 0 where
  pub code : String
  pub message : String

pub record ParsedPage : Type 0 where
  pub page_number : ℕ
  pub text : Text

pub record ParsedDocument : Type 0 where
  pub document_id : Uuid
  pub filename : Text
  pub content_type : String
  pub pages : List ParsedPage

pub record ChunkMetadata : Type 0 where
  pub document_id : Uuid
  pub filename : Text
  pub page_number : ℕ
  pub start_char : ℕ
  pub end_char : ℕ

pub record Chunk : Type 0 where
  pub text : Text
  pub metadata : ChunkMetadata
  pub chunk_id : Uuid

-- `Score` is the type of the scores, Python's float.
pub record RetrievedChunk {ℓ} (Score : Type ℓ) : Type ℓ where
  pub chunk_id : Text
  pub document_id : Text
  pub filename : Text
  pub page_number : ℕ
  pub text : Text
  pub score : Score
  pub start_char : ℕ
  pub end_char : ℕ
