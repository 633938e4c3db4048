-- ===== src/Services/Documents.antt =====
-- backend/app/services/documents.py, over the session and the rows of Services.Ingestion: upload, list,
-- get and delete. The object storage, the vector store and the commit of the database are
-- parameters; each of them may raise. Logging is not modelled.
pub mod Manage
mod NewRow
mod Landing
pub mod Uploaded
pub mod Life
pub mod Lifecycle
mod Tests
use Prim.Native.String.{◌++◌}
use ai_agent_hub.Common.{
  ℕ, ◌-◌, ◌*◌, String, Bool, true, false, not, ◌&&◌, Option, none, some, List, [], ◌∷◌, ◌==◌,
  nat_eq, text_eq, if◌then◌else◌, ltb, find, change, filter, length, is_empty, take, drop,
}
use ai_agent_hub.Common.Exec.{Exec, pure, raise, ◌>>=◌, ◌>>◌, continue_with}
use ai_agent_hub.Common.FilePath.{name_of, suffix_of, lower}
use ai_agent_hub.Common.Result.{Result, ok, err}
use ai_agent_hub.Common.Text.{Text, codes}
use ai_agent_hub.Services.Store.{AppError}
use ai_agent_hub.Services.Ingestion.{
  DocumentStatus, KnowledgeBase, Document, DocumentChunk, Rows, Session, app, is_owned,
}

-- What a call outside of the service raises.
pub data Failure : Type 0 where
  app_error : AppError → Failure
  other_error : Failure

-- The storage of objects, the vector store, the commit of the database and `str` of a UUID.
pub record DocumentBackends (X : Type 0) : Type 0 where
  pub ensure_bucket : Exec X Failure (Unit {0})
  pub put_object : String → List ℕ → String → Exec X Failure (Unit {0})
  pub remove_object : String → Exec X Failure (Unit {0})
  pub delete_document : ℕ → ℕ → Exec X Failure (Unit {0})
  pub try_commit : Exec X Failure (Unit {0})
  pub show_uuid : ℕ → String
  pub max_document_size_bytes : ℕ

-- `ALLOWED_EXTENSIONS`: the extension and its content type
abbrev pub allowed : Text → Option (String × String)
allowed extension =
    if extension == codes ".pdf"
    then some (".pdf", "application/pdf")
    else if extension == codes ".txt"
    then some (".txt", "text/plain")
    else if extension == codes ".md"
    then some (".md", "text/markdown")
    else if extension == codes ".markdown"
    then some (".markdown", "text/markdown")
    else none

-- The name, the extension and the content type of a file that is accepted.
pub record Accepted : Type 0 where
  pub safe_filename : Text
  pub extension : String
  pub content_type : String

abbrev pub unknown_knowledge_base : AppError
unknown_knowledge_base = app "KNOWLEDGE_BASE_NOT_FOUND" "Knowledge base was not found" 404

abbrev pub unknown_document : AppError
unknown_document = app "DOCUMENT_NOT_FOUND" "Document was not found" 404

abbrev pub upload_failed : AppError
upload_failed = app "DOCUMENT_UPLOAD_FAILED" "Document upload failed" 502

abbrev pub delete_failed : AppError
delete_failed = app "DOCUMENT_STORAGE_DELETE_FAILED" "Document deletion failed" 502

abbrev pub invalid_filename : AppError
invalid_filename = app "INVALID_FILENAME" "A document filename is required" 400

-- `_validate_file`
unfoldable pub check_content :
    ℕ → Text → List ℕ → Option (String × String) → Result AppError Accepted
check_content max_size name content none =
    err (app "UNSUPPORTED_DOCUMENT_TYPE" "Only PDF, TXT, and Markdown files are supported" 415)
check_content max_size name content (some (extension, content_type)) =
    if length content == 0
    then err (app "EMPTY_DOCUMENT" "The uploaded document is empty" 400)
    else if ltb max_size (length content)
    then err (app "DOCUMENT_TOO_LARGE" "The uploaded document is too large" 413)
    else ok (record { safe_filename = name; extension = extension; content_type = content_type })

unfoldable pub validate_file : ℕ → Text → List ℕ → Result AppError Accepted
unfolding check_content name_of suffix_of lower
validate_file max_size filename content =
    check_content max_size (name_of filename) content
      (allowed (lower (suffix_of (name_of filename))))

-- The assignments of `upload` to its row.
abbrev pub mark_uploaded : Document → Document
mark_uploaded d = record d { status = DocumentStatus.uploaded; failure_reason = none }

abbrev pub mark_failed : Document → Document
mark_failed d = record d {
  status = DocumentStatus.failed;
  failure_reason = some "object storage upload failed";
}

module _ {X : Type 0} (b : DocumentBackends X) where
  abbrev pub outside : {A : Type 0} → Exec X Failure A → Exec (Session X) Failure A
  outside m s = let (r, x) = m s.external in (r, record s { external = x })

  -- `commit`, where the database accepts it
  unfoldable pub commit : Exec (Session X) Failure (Unit {0})
  commit = outside b.try_commit >>= λ _ s. (ok tt, record s { committed = s.working })

  unfoldable pub rollback : Session X → Session X
  rollback s = record s { working = s.committed }

  abbrev pub on_rows : (Rows → Rows) → Session X → Session X
  on_rows f s = record s { working = f s.working }

  -- `KnowledgeBaseRepository.get_owned`
  unfoldable pub owned_base : ℕ → ℕ → Rows → Option KnowledgeBase
  unfolding find
  owned_base user_id knowledge_base_id rows =
      find (λ k. (k.id == knowledge_base_id) && (k.user_id == user_id)) rows.knowledge_bases

  -- `DocumentRepository.get_owned`
  unfoldable pub owned_document : ℕ → ℕ → ℕ → Rows → Option Document
  unfolding find
  owned_document document_id user_id knowledge_base_id rows =
      find (is_owned document_id user_id knowledge_base_id) rows.documents

  -- Rows of a user in a knowledge base, the newest first.
  unfoldable pub owned_documents : ℕ → ℕ → Rows → List Document
  unfolding filter
  owned_documents user_id knowledge_base_id rows =
      filter (λ d. (d.user_id == user_id) && (d.knowledge_base_id == knowledge_base_id))
        rows.documents

  module _ (user_id knowledge_base_id : ℕ) where
    -- `f"documents/{user_id}/{knowledge_base_id}/{document_id}{suffix}"`
    unfoldable pub storage_key : ℕ → String → String
    storage_key document_id extension =
        "documents/"
        ++ (b.show_uuid user_id
            ++ ("/"
                ++ (b.show_uuid knowledge_base_id
                    ++ ("/" ++ (b.show_uuid document_id ++ extension)))))

    -- The row that `create` adds, with its key.
    unfoldable pub new_document : ℕ → Accepted → List ℕ → Document
    unfolding storage_key
    new_document new_id file content = record {
      id = new_id;
      user_id = user_id;
      knowledge_base_id = knowledge_base_id;
      filename = file.safe_filename;
      content_type = file.content_type;
      size_bytes = length content;
      storage_key = storage_key new_id file.extension;
      status = DocumentStatus.processing;
      chunk_count = 0;
      failure_reason = none;
    }

    abbrev pub change_row : ℕ → (Document → Document) → Rows → Rows
    unfolding change
    change_row document_id f rows = record rows {
      documents = change (is_owned document_id user_id knowledge_base_id) f rows.documents;
    }

    abbrev pub add_row : Document → Rows → Rows
    add_row d rows = record rows { documents = d ∷ rows.documents }

    -- The `try` block up to the end of `put_object`.
    unfoldable pub store_object : Document → List ℕ → Exec (Session X) Failure (Unit {0})
    unfolding commit
    store_object d content = do
      commit
      outside b.ensure_bucket
      outside (b.put_object d.storage_key content d.content_type)

    -- The rest of the `try` block, when the object is uploaded.
    unfoldable pub finish_upload : Document → Exec (Session X) Failure (Unit {0})
    unfolding commit change
    finish_upload d s = commit (on_rows (change_row d.id mark_uploaded) s)

    -- An error while the orphan is removed is only logged.
    abbrev pub remove_orphan : Bool → String → Session X → Session X
    remove_orphan true key s = (outside (b.remove_object key) s).1
    remove_orphan false key s = s

    -- What the handler raises after its own commit; an error of that commit comes out instead.
    abbrev pub after_marking :
        Result Failure (Unit {0}) × Session X → Result Failure Document × Session X
    after_marking (ok _, s) = (err (app_error upload_failed), s)
    after_marking (err e, s) = (err e, s)

    unfoldable pub mark_row : ℕ → Option Document → Session X → Result Failure Document × Session X
    unfolding commit change
    mark_row document_id none s = (err (app_error upload_failed), s)
    mark_row document_id (some d) s =
        after_marking (commit (on_rows (change_row document_id mark_failed) s))

    -- `except Exception`
    unfoldable pub recover_upload :
        Document → Bool → Session X → Result Failure Document × Session X
    unfolding rollback owned_document mark_row
    recover_upload d object_uploaded s =
        let s1 = remove_orphan object_uploaded d.storage_key (rollback s) in
        mark_row d.id (owned_document d.id user_id knowledge_base_id s1.working) s1

    -- The `except` clauses, by what the block has raised.
    unfoldable pub handle :
        Document → Bool → Failure → Session X → Result Failure Document × Session X
    unfolding recover_upload
    handle d object_uploaded (app_error e) s = (err (app_error e), s)
    handle d object_uploaded other_error s = recover_upload d object_uploaded s

    unfoldable pub finished :
        Document → Result Failure (Unit {0}) × Session X → Result Failure Document × Session X
    unfolding handle
    finished d (ok _, s) = (ok (mark_uploaded d), s)
    finished d (err e, s) = handle d true e s

    unfoldable pub stored :
        Document → Result Failure (Unit {0}) × Session X → Result Failure Document × Session X
    unfolding handle finish_upload finished
    stored d (ok _, s) = finished d (finish_upload d s)
    stored d (err e, s) = handle d false e s

    unfoldable pub upload_accepted :
        ℕ → List ℕ → Accepted → Session X → Result Failure Document × Session X
    unfolding new_document store_object stored
    upload_accepted new_id content file s =
        let d = new_document new_id file content in
        stored d (store_object d content (on_rows (add_row d) s))

    abbrev pub upload_checked :
        ℕ → List ℕ → Result AppError Accepted → Session X → Result Failure Document × Session X
    upload_checked new_id content (err e) s = (err (app_error e), s)
    upload_checked new_id content (ok file) s = upload_accepted new_id content file s

    abbrev pub upload_in :
        ℕ → Text → List ℕ → Option KnowledgeBase → Session X → Result Failure Document × Session X
    upload_in new_id filename content none s = (err (app_error unknown_knowledge_base), s)
    upload_in new_id filename content (some k) s =
        upload_checked new_id content (validate_file b.max_document_size_bytes filename content) s

    unfoldable pub upload_named :
        ℕ → Option Text → List ℕ → Session X → Result Failure Document × Session X
    unfolding owned_base
    upload_named new_id none content s = (err (app_error invalid_filename), s)
    upload_named new_id (some []) content s = (err (app_error invalid_filename), s)
    upload_named new_id (some (c ∷ cs)) content s =
        upload_in new_id (c ∷ cs) content (owned_base user_id knowledge_base_id s.working) s

    -- `upload`; the new id is the one that uuid4 makes.
    unfoldable pub upload :
        ℕ → Option Text → List ℕ → Session X → Result Failure Document × Session X
    unfolding upload_accepted validate_file upload_named
    upload new_id filename content s = upload_named new_id filename content s
