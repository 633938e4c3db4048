-- ===== src/Services/Ingestion/Settled.antt =====
-- How the processing of a document ends.
use ai_agent_hub.Common.{
  ℕ, ◌≡◌, ◌⊎◌, refl, true, Option, some, List, find, change, find-change, find-passes, length, inl,
  inr,
}
use ai_agent_hub.Common.Exec.{continue_with}
use ai_agent_hub.Common.Result.{Result, ok, err}
use ai_agent_hub.Rag.Contracts.{Chunk}
use ai_agent_hub.Services.Store.{AppError}
use ai_agent_hub.Services.Ingestion.{
  DocumentStatus, KnowledgeBase, Document, Session, IngestionError, app_error, processing_error,
  other_error, Backends, app, failure_reason, is_owned, replace_for_document, start_processing,
  complete, fail, commit, rollback, on_rows, change_document, owned_document, owned_knowledge_base,
  prepare_chunks, finish, recover, ingest, process_by, process,
}

module _ {X Vector : Type 0} (backends : Backends X Vector)
    (user_id knowledge_base_id document_id : ℕ) where
  -- The committed row of the document.
  abbrev pub committed_document : Session X → Option Document
  committed_document s = owned_document backends user_id knowledge_base_id document_id s.committed

  -- How the processing of the document `d` may end, from the session `s`.
  pub data Settled (d : Document) (s : Session X) (p : Result AppError Document × Session X)
      : Type 0 where
    -- Everything outside of the database succeeded: the row is completed, with the number of its
    -- chunks, which replace the old ones.
    completed :
        (chunks : List Chunk)
        → (prepare_chunks backends user_id knowledge_base_id document_id d s.external).0 ≡ ok chunks
        → p.0 ≡ ok (complete (length chunks) (start_processing d))
        → committed_document p.1 ≡ some (complete (length chunks) (start_processing d))
        → p.1.committed.chunks
          ≡ replace_for_document document_id knowledge_base_id chunks s.working.chunks
        → Settled d s p
    -- Something failed: the row says why, and the chunks are the old ones.
    failed :
        (e : IngestionError)
        → (prepare_chunks backends user_id knowledge_base_id document_id d s.external).0 ≡ err e
        → p.0 ≡ err (app "DOCUMENT_PROCESSING_FAILED" "Document processing failed" 422)
        → committed_document p.1 ≡ some (fail (failure_reason e) (start_processing d))
        → p.1.committed.chunks ≡ s.working.chunks
        → Settled d s p
    -- An `AppError` passes through, and the row is left processing.
    passed_on :
        (e : AppError)
        → (prepare_chunks backends user_id knowledge_base_id document_id d s.external).0
          ≡ err (app_error e)
        → p.0 ≡ err e
        → committed_document p.1 ≡ some (start_processing d)
        → Settled d s p

  module _ (d : Document) (s : Session X)
      (found : owned_document backends user_id knowledge_base_id document_id s.working
        ≡ some d) where
    passes : is_owned document_id user_id knowledge_base_id d ≡ true
    passes =
        find-passes (is_owned document_id user_id knowledge_base_id) s.working.documents d found

    started :
        find (is_owned document_id user_id knowledge_base_id) (
          change
            (is_owned document_id user_id knowledge_base_id)
            start_processing
            s.working.documents)
        ≡ some (start_processing d)
    started =
        find-change (is_owned document_id user_id knowledge_base_id) start_processing
          s.working.documents d found passes

    again :
        (f : Document → Document)
        → is_owned document_id user_id knowledge_base_id (f (start_processing d)) ≡ true
        → find (is_owned document_id user_id knowledge_base_id) (
            change (is_owned document_id user_id knowledge_base_id) f (
              change
                (is_owned document_id user_id knowledge_base_id)
                start_processing
                s.working.documents))
          ≡ some (f (start_processing d))
    again f =
        find-change (is_owned document_id user_id knowledge_base_id) f
          (change (is_owned document_id user_id knowledge_base_id) start_processing
            s.working.documents)
          (start_processing d) started

    ingest-Settled : Settled d s (ingest backends user_id knowledge_base_id document_id d s)
    unfolding ingest commit
    ingest-Settled =
        by_result (prepare_chunks backends user_id knowledge_base_id document_id d s.external) refl
      where
        by_result :
            (p : Result IngestionError (List Chunk) × X)
            → prepare_chunks backends user_id knowledge_base_id document_id d s.external ≡ p
            → Settled d s (
                recover backends user_id knowledge_base_id document_id (
                  continue_with (finish backends user_id knowledge_base_id document_id) (
                    p.0,
                    record (commit backends (
                        on_rows backends
                          (change_document backends user_id knowledge_base_id document_id
                            start_processing)
                          s)) { external = p.1 },
                  )))
        by_result (ok chunks, x) e =
            unfold finish recover commit in
            rw started
              (completed chunks (rw e refl) refl (again (complete (length chunks)) passes) refl)
        by_result (err (app_error a), x) e = unfold recover in passed_on a (rw e refl) refl started
        by_result (err (processing_error a), x) e =
            unfold recover rollback commit in
            rw started (failed (processing_error a) (rw e refl) refl (again (fail _) passes) refl)
        by_result (err other_error, x) e =
            unfold recover rollback commit in
            rw started (failed other_error (rw e refl) refl (again (fail _) passes) refl)

  -- Processing a document of the user that is uploaded or failed ends in one of three ways. All of
  -- the outside work succeeds, and the committed row is completed, with the number of its chunks,
  -- which replace the old ones. Or some of it fails, the answer is DOCUMENT_PROCESSING_FAILED, the
  -- committed row is failed with the reason, and the chunks are the old ones. Or the outside work
  -- raises an `AppError`, which is the answer, and the row is left processing.
  pub process-Settled :
      (k : KnowledgeBase) (d : Document) (s : Session X)
      → owned_knowledge_base backends user_id knowledge_base_id document_id s.working ≡ some k
      → owned_document backends user_id knowledge_base_id document_id s.working ≡ some d
      → (d.status ≡ DocumentStatus.uploaded) ⊎ (d.status ≡ DocumentStatus.failed)
      → Settled d s (process backends user_id knowledge_base_id document_id s)
  unfolding process
  process-Settled k d s base document h = rw (base, document) (by_status d.status h)
    where
      by_status :
          (status : DocumentStatus)
          → (status ≡ DocumentStatus.uploaded) ⊎ (status ≡ DocumentStatus.failed)
          → Settled d s (process_by backends user_id knowledge_base_id document_id d status s)
      by_status DocumentStatus.uploaded h = ingest-Settled d s document
      by_status DocumentStatus.failed h = ingest-Settled d s document
      by_status DocumentStatus.completed (inl e) = cc
      by_status DocumentStatus.completed (inr e) = cc
      by_status DocumentStatus.processing (inl e) = cc
      by_status DocumentStatus.processing (inr e) = cc

  -- A document that is completed or being processed is left alone.
  pub process-unchanged :
      (k : KnowledgeBase) (d : Document) (s : Session X)
      → owned_knowledge_base backends user_id knowledge_base_id document_id s.working ≡ some k
      → owned_document backends user_id knowledge_base_id document_id s.working ≡ some d
      → (d.status ≡ DocumentStatus.completed) ⊎ (d.status ≡ DocumentStatus.processing)
      → (process backends user_id knowledge_base_id document_id s).1 ≡ s
  unfolding process
  process-unchanged k d s base document (inl done) = rw (base, document, done) refl
  process-unchanged k d s base document (inr busy) = rw (base, document, busy) refl
