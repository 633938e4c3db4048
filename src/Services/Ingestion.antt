-- ===== src/Services/Ingestion.antt =====
-- backend/app/services/ingestion.py, with backend/app/models/document.py and
-- backend/app/repositories/documents.py and document_chunks.py.
-- The session has the committed rows and those of the open transaction. The object storage, the
-- vector store, the embedder and the pipeline, which the constructor takes, are parameters.
pub mod Settled
mod Tests
use Prim.Native.String.{◌++◌}
use ai_agent_hub.Common.{
  ℕ, String, Bool, true, false, not, ◌&&◌, Option, none, some, List, [], ◌∷◌, ◌++◌ as append, map,
  ◌==◌, nat_eq, if◌then◌else◌, find, change, filter, length, is_empty,
}
use ai_agent_hub.Common.Exec.{Exec, pure, raise, ◌>>=◌, ◌>>◌, continue_with}
use ai_agent_hub.Common.Result.{Result, ok, err}
use ai_agent_hub.Common.Text.{Text}
use ai_agent_hub.Rag.Contracts.{DocumentProcessingError, Chunk}
use ai_agent_hub.Services.Store.{AppError}

pub data DocumentStatus : Type 0 where
  uploaded processing completed failed : DocumentStatus

pub record KnowledgeBase : Type 0 where
  pub id : ℕ
  pub user_id : ℕ

pub record Document : Type 0 where
  pub id : ℕ
  pub user_id : ℕ
  pub knowledge_base_id : ℕ
  pub filename : Text
  pub content_type : String
  pub size_bytes : ℕ
  pub storage_key : String
  pub status : DocumentStatus
  pub chunk_count : ℕ
  pub failure_reason : Option String

pub record DocumentChunk : Type 0 where
  pub id : ℕ
  pub document_id : ℕ
  pub knowledge_base_id : ℕ
  pub page_number : ℕ
  pub start_char : ℕ
  pub end_char : ℕ
  pub text : Text

pub record Rows : Type 0 where
  pub knowledge_bases : List KnowledgeBase
  pub documents : List Document
  pub chunks : List DocumentChunk

pub record Session (X : Type 0) : Type 0 where
  pub committed : Rows
  pub working : Rows
  pub external : X

-- What the `try` block may raise: an `AppError`, a `DocumentProcessingError`, or another exception.
pub data IngestionError : Type 0 where
  app_error : AppError → IngestionError
  processing_error : DocumentProcessingError → IngestionError
  other_error : IngestionError

-- The services outside of the database; `Vector` is the type of the embeddings.
pub record Backends (X Vector : Type 0) : Type 0 where
  pub get_object_bytes : String → Exec X IngestionError (List ℕ)
  pub run_pipeline : List ℕ → ℕ → Text → Exec X IngestionError (List Chunk)
  pub delete_document : ℕ → ℕ → Exec X IngestionError (Unit {0})
  pub embed : List Text → Exec X IngestionError (List Vector)
  pub upsert_chunks : ℕ → List Chunk → List Vector → Exec X IngestionError (Unit {0})

abbrev pub app : String → String → ℕ → AppError
app code message status_code = record { code = code; message = message; status_code = status_code }

-- `_failure_reason`
unfoldable pub failure_reason : IngestionError → String
failure_reason (processing_error e) = e.code ++ (": " ++ e.message)
failure_reason _ = "INGESTION_FAILED: document processing failed"

-- The condition of `get_owned` and `get_owned_for_update`
abbrev pub is_owned : ℕ → ℕ → ℕ → Document → Bool
is_owned document_id user_id knowledge_base_id d =
    (d.id == document_id) && ((d.user_id == user_id) && (d.knowledge_base_id == knowledge_base_id))

-- A row of `replace_for_document`
abbrev pub chunk_row : ℕ → ℕ → Chunk → DocumentChunk
chunk_row document_id knowledge_base_id chunk = record {
  id = chunk.chunk_id;
  document_id = document_id;
  knowledge_base_id = knowledge_base_id;
  page_number = chunk.metadata.page_number;
  start_char = chunk.metadata.start_char;
  end_char = chunk.metadata.end_char;
  text = chunk.text;
}

-- `DocumentChunkRepository.replace_for_document`
unfoldable pub replace_for_document : ℕ → ℕ → List Chunk → List DocumentChunk → List DocumentChunk
unfolding filter
replace_for_document document_id knowledge_base_id chunks rows =
    append (filter (λ r. not (r.document_id == document_id)) rows)
      (map (chunk_row document_id knowledge_base_id) chunks)

-- The assignments of `process` to the row of the document.
abbrev pub start_processing : Document → Document
start_processing d = record d { status = DocumentStatus.processing; failure_reason = none }

abbrev pub complete : ℕ → Document → Document
complete chunk_count d = record d {
  status = DocumentStatus.completed;
  chunk_count = chunk_count;
  failure_reason = none;
}

abbrev pub fail : String → Document → Document
fail reason d = record d {
  status = DocumentStatus.failed;
  chunk_count = 0;
  failure_reason = some reason;
}

module _ {X Vector : Type 0} (backends : Backends X Vector) where
  -- `commit` and `rollback`
  unfoldable pub commit : Session X → Session X
  commit s = record s { committed = s.working }

  unfoldable pub rollback : Session X → Session X
  rollback s = record s { working = s.committed }

  abbrev pub on_external :
      {A : Type 0} → Exec X IngestionError A → Exec (Session X) IngestionError A
  on_external m s = let (r, x) = m s.external in (r, record s { external = x })

  -- A statement of the open transaction.
  abbrev pub on_rows : (Rows → Rows) → Session X → Session X
  on_rows f s = record s { working = f s.working }

  module _ (user_id knowledge_base_id document_id : ℕ) where
    abbrev pub change_document : (Document → Document) → Rows → Rows
    change_document f rows = record rows {
      documents = change (is_owned document_id user_id knowledge_base_id) f rows.documents;
    }

    abbrev pub owned_document : Rows → Option Document
    owned_document rows = find (is_owned document_id user_id knowledge_base_id) rows.documents

    abbrev pub owned_knowledge_base : Rows → Option KnowledgeBase
    owned_knowledge_base rows =
        find (λ k. (k.id == knowledge_base_id) && (k.user_id == user_id)) rows.knowledge_bases

    -- The vectors of a document that has chunks.
    abbrev pub store_vectors : List Chunk → Exec X IngestionError (Unit {0})
    store_vectors [] = pure tt
    store_vectors (c ∷ cs) = do
      vectors ← backends.embed (map (λ d. d.text) (c ∷ cs))
      backends.upsert_chunks knowledge_base_id (c ∷ cs) vectors

    -- The part of the `try` block that works outside of the database.
    unfoldable pub prepare_chunks : Document → Exec X IngestionError (List Chunk)
    prepare_chunks d = do
      content ← backends.get_object_bytes d.storage_key
      chunks ← backends.run_pipeline content document_id d.filename
      backends.delete_document knowledge_base_id document_id
      store_vectors chunks
      pure chunks

    -- The end of the `try` block, where the row is looked up again.
    abbrev pub finish_with :
        List Chunk → Option Document → Session X → Result IngestionError Document × Session X
    finish_with chunks none s =
        (err (app_error (app "DOCUMENT_NOT_FOUND" "Document was not found" 404)), s)
    finish_with chunks (some d) s = (
      ok (complete (length chunks) d),
      commit (on_rows (change_document (complete (length chunks))) s),
    )

    abbrev pub with_chunks : List Chunk → Rows → Rows
    with_chunks chunks rows = record rows {
      chunks = replace_for_document document_id knowledge_base_id chunks rows.chunks;
    }

    unfoldable pub finish : List Chunk → Exec (Session X) IngestionError Document
    unfolding replace_for_document commit find change
    finish chunks s =
        let s' = on_rows (with_chunks chunks) s in finish_with chunks (owned_document s'.working) s'

    -- The row after a failure, if it is still there.
    abbrev pub mark_failed : String → Option Document → Session X → Session X
    mark_failed reason none s = s
    mark_failed reason (some d) s = commit (on_rows (change_document (fail reason)) s)

    -- The `except` clauses.
    unfoldable pub recover :
        Result IngestionError Document × Session X → Result AppError Document × Session X
    unfolding rollback commit failure_reason find change
    recover (ok d, s) = (ok d, s)
    recover (err (app_error e), s) = (err e, s)
    recover (err e, s) =
        let s' = rollback s in
        (
          err (app "DOCUMENT_PROCESSING_FAILED" "Document processing failed" 422),
          mark_failed (failure_reason e) (owned_document s'.working) s',
        )

    -- The document, from the status `processing` on.
    unfoldable pub ingest : Document → Session X → Result AppError Document × Session X
    unfolding commit prepare_chunks finish recover change
    ingest d s =
        let s' = commit (on_rows (change_document start_processing) s) in
        recover ((on_external (prepare_chunks d) >>= finish) s')

    abbrev pub process_by :
        Document → DocumentStatus → Session X → Result AppError Document × Session X
    process_by d DocumentStatus.completed s = (ok d, s)
    process_by d DocumentStatus.processing s =
        (err (app "DOCUMENT_ALREADY_PROCESSING" "Document is already processing" 409), s)
    process_by d _ s = ingest d s

    abbrev pub process_found :
        Option KnowledgeBase → Option Document → Session X → Result AppError Document × Session X
    process_found none document s =
        (err (app "KNOWLEDGE_BASE_NOT_FOUND" "Knowledge base was not found" 404), s)
    process_found (some k) none s = (err (app "DOCUMENT_NOT_FOUND" "Document was not found" 404), s)
    process_found (some k) (some d) s = process_by d d.status s

    -- `process`
    unfoldable pub process : Session X → Result AppError Document × Session X
    unfolding find ingest
    process s = process_found (owned_knowledge_base s.working) (owned_document s.working) s
