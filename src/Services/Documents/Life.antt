-- ===== src/Services/Documents/Life.antt =====
-- The life of a document, as a specification, and the upload of backend/app/services/documents.py.
use ai_agent_hub.Common.{
  ℕ, ◌≡◌, refl, true, Option, none, some, List, [], ◌∷◌, nat_eq, ◌⊎◌, inl, inr,
}
use ai_agent_hub.Common.Result.{Result, ok, err}
use ai_agent_hub.Common.Text.{Text}
use ai_agent_hub.Services.Store.{AppError}
use ai_agent_hub.Services.Ingestion.{
  DocumentStatus, KnowledgeBase, Document, Rows, Session, is_owned,
}
use ai_agent_hub.Services.Documents.{
  DocumentBackends, Accepted, mark_uploaded, mark_failed, owned_document, new_document, add_row,
  upload_accepted, upload_checked, upload_in, upload, validate_file,
}
use ai_agent_hub.Services.Documents.NewRow.{new_document-owned}
use ai_agent_hub.Services.Documents.Landing.{Lands, upload-Lands}

abbrev pub status_in : Option Document → Option DocumentStatus
status_in none = none
status_in (some d) = some d.status

pub data Call : Type 0 where
  uploading processing deleting : Call

-- A document is processed once it is uploaded, and again when that has failed.
abbrev pub MayStart : DocumentStatus → Type 0
MayStart status = (status ≡ DocumentStatus.uploaded) ⊎ (status ≡ DocumentStatus.failed)

-- The specification: what one call may make of the committed status of its document; `none` is no
-- document. An upload that is cut off leaves the row processing, and so does a cut off processing.
pub data Moves : Call → Option DocumentStatus → Option DocumentStatus → Type 0 where
  unchanged : (call : Call) (status : Option DocumentStatus) → Moves call status status
  cut_off : Moves uploading none (some DocumentStatus.processing)
  stored_object : Moves uploading none (some DocumentStatus.uploaded)
  broken : Moves uploading none (some DocumentStatus.failed)
  stopped :
      (status : DocumentStatus)
      → MayStart status
      → Moves processing (some status) (some DocumentStatus.processing)
  indexed :
      (status : DocumentStatus)
      → MayStart status
      → Moves processing (some status) (some DocumentStatus.completed)
  rejected :
      (status : DocumentStatus)
      → MayStart status
      → Moves processing (some status) (some DocumentStatus.failed)
  removed : (status : DocumentStatus) → Moves deleting (some status) none

module _ {X : Type 0} (b : DocumentBackends X) (user_id knowledge_base_id : ℕ) where
  -- The committed status of a document.
  unfoldable pub status_of : ℕ → Session X → Option DocumentStatus
  unfolding owned_document
  status_of document_id s =
      status_in (owned_document b document_id user_id knowledge_base_id s.committed)

  abbrev pub status_in_rows : ℕ → Rows → Option DocumentStatus
  status_in_rows document_id rows =
      status_in (owned_document b document_id user_id knowledge_base_id rows)

  module _ (d : Document) (owned : is_owned d.id user_id knowledge_base_id d ≡ true)
      (new : d.status ≡ DocumentStatus.processing) (rows : Rows)
      (fresh : owned_document b d.id user_id knowledge_base_id rows ≡ none) where
    added-status :
        (f : Document → Document)
        → is_owned d.id user_id knowledge_base_id (f d) ≡ true
        → status_in_rows d.id (add_row b user_id knowledge_base_id (f d) rows) ≡ some (f d).status
    unfolding owned_document
    added-status f mine = rw mine refl

    landed :
        (c : Rows)
        → Lands b user_id knowledge_base_id d owned rows fresh c
        → Moves uploading none (status_in_rows d.id c)
    landed c (inl old) = rw (old, fresh) (unchanged uploading none)
    landed c (inr (inl e)) = rw (e, added-status (λ d. d) owned, new) cut_off
    landed c (inr (inr (inl e))) = rw (e, added-status mark_failed owned) broken
    landed c (inr (inr (inr e))) = rw (e, added-status mark_uploaded owned) stored_object

  pub same_status :
      (call : Call) (document_id : ℕ) (s s' : Session X)
      → s'.committed ≡ s.committed
      → Moves call (status_of document_id s) (status_of document_id s')
  unfolding status_of
  same_status call document_id s s' e = rw e (unchanged call _)

  module _ (document_id : ℕ) (s : Session X) (clean : s.working ≡ s.committed) where
    module _
        (fresh : owned_document b document_id user_id knowledge_base_id s.committed ≡ none) where
      accepted-Moves :
          (content : List ℕ) (file : Accepted)
          → Moves uploading (status_of document_id s) (
              status_of document_id
                (upload_accepted b user_id knowledge_base_id document_id content file s).1)
      unfolding upload_accepted status_of new_document
      accepted-Moves content file =
          let d = new_document b user_id knowledge_base_id document_id file content in
          let owned = new_document-owned b user_id knowledge_base_id document_id file content in
          rw fresh (
            landed d owned refl s.committed fresh _ (
              upload-Lands b user_id knowledge_base_id d owned s.committed fresh content s refl
                clean))

      checked-Moves :
          (content : List ℕ) (checked : Result AppError Accepted)
          → Moves uploading (status_of document_id s) (
              status_of document_id
                (upload_checked b user_id knowledge_base_id document_id content checked s).1)
      checked-Moves content (err e) = unchanged uploading _
      checked-Moves content (ok file) = accepted-Moves content file

      in-Moves :
          (filename : Text) (content : List ℕ) (found : Option KnowledgeBase)
          → Moves uploading (status_of document_id s) (
              status_of document_id
                (upload_in b user_id knowledge_base_id document_id filename content found s).1)
      in-Moves filename content none = unchanged uploading _
      in-Moves filename content (some k) =
          checked-Moves content (validate_file b.max_document_size_bytes filename content)

      pub upload-Moves :
          (filename : Option Text) (content : List ℕ)
          → Moves uploading (status_of document_id s) (
              status_of document_id
                (upload b user_id knowledge_base_id document_id filename content s).1)
      unfolding upload
      upload-Moves none content = unchanged uploading _
      upload-Moves (some []) content = unchanged uploading _
      upload-Moves (some (c ∷ cs)) content = in-Moves (c ∷ cs) content _
