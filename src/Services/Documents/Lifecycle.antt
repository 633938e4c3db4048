-- ===== src/Services/Documents/Lifecycle.antt =====
-- The life of a document through the upload, the processing of Services.Ingestion and the deletion.
use ai_agent_hub.Common.{ℕ, ◌≡◌, Option, none, List, nat_eq}
use ai_agent_hub.Common.Result.{Result}
use ai_agent_hub.Common.Text.{Text}
use ai_agent_hub.Services.Ingestion.{
  Session, Backends, complete, fail, start_processing, process, process_found,
}
use ai_agent_hub.Services.Ingestion as Ingestion
use ai_agent_hub.Services.Ingestion.Settled.{Settled}
use ai_agent_hub.Services.Documents.{DocumentBackends, owned_document, upload}
use ai_agent_hub.Services.Documents.Manage.{delete_document}
use ai_agent_hub.Services.Documents.Life.{Call, uploading, processing, deleting}

module _ {X Vector : Type 0} (b : DocumentBackends X) (backends : Backends X Vector)
    (user_id knowledge_base_id : ℕ) where
  -- The calls of the services for a document, on a session that holds nothing uncommitted. An
  -- upload has a new id.
  pub data ServiceStep (document_id : ℕ) (s : Session X) : Call → Session X → Type 0 where
    uploads :
        (filename : Option Text) (content : List ℕ)
        → owned_document b document_id user_id knowledge_base_id s.committed ≡ none
        → ServiceStep document_id s uploading
            (upload b user_id knowledge_base_id document_id filename content s).1
    processes :
        ServiceStep document_id s processing
          (process backends user_id knowledge_base_id document_id s).1
    deletes :
        ServiceStep document_id s deleting
          (delete_document b user_id knowledge_base_id document_id s).1
