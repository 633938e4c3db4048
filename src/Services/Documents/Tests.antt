-- ===== src/Services/Documents/Tests.antt =====
-- Uploads, lists and deletions; the world is the list of stored keys.
use ai_agent_hub.Common.{
  ℕ, ◌≡◌, refl, String, Bool, true, false, some, List, [], ◌∷◌, map, if◌then◌else◌,
}
use ai_agent_hub.Common.FilePath.{name_of, suffix_of, lower}
use ai_agent_hub.Common.Result.{Result, ok, err}
use ai_agent_hub.Common.Text.{Text, codes}
use ai_agent_hub.Services.Ingestion.{
  DocumentStatus, Document, Rows, Session, Backends, app, process,
}
use ai_agent_hub.Services.Documents.{
  Failure, app_error, other_error, DocumentBackends, upload_failed, delete_failed, unknown_document,
  upload,
}
use ai_agent_hub.Services.Documents.Manage.{list_documents, get_document, delete_document}
use ai_agent_hub.Services.Documents.Uploaded.{Commits, RaisesNoAppError, Uploaded, upload-Uploaded}
use ai_agent_hub.Services.Documents.Life.{uploading}
use ai_agent_hub.Services.Documents.Lifecycle.{ServiceStep, uploads}

abbrev or_fail : Bool → Result Failure (Unit {0})
or_fail true = ok tt
or_fail false = err other_error

-- A storage that takes objects or not, and a database that takes commits or not.
abbrev backends : Bool → Bool → DocumentBackends (List String)
backends takes commits = record {
  ensure_bucket = λ x. (ok tt, x);
  put_object = λ key content content_type x. (or_fail takes, if takes then key ∷ x else x);
  remove_object = λ key x. (or_fail takes, []);
  delete_document = λ base document x. (ok tt, x);
  try_commit = λ x. (or_fail commits, x);
  show_uuid = λ n. "u";
  max_document_size_bytes = 4;
}

abbrev rows : Rows
rows = record {
  knowledge_bases = (record { id = 3; user_id = 7 }) ∷ [];
  documents = [];
  chunks = [];
}

abbrev session : Session (List String)
session = record { committed = rows; working = rows; external = [] }

program : Unit {0}
unfolding upload list_documents get_document delete_document process name_of suffix_of lower
program = tt

abbrev upload_with : Bool → Bool → Text → List ℕ → Result Failure Document × Session (List String)
upload_with takes commits name content =
    upload (backends takes commits) 7 3 9 (some name) content session

abbrev statuses : Session (List String) → List DocumentStatus
statuses s = map (λ d. d.status) s.committed.documents

uploads_file :
    statuses (upload_with true true (codes "a/Notes.TXT") (1 ∷ 2 ∷ [])).1
    ≡ DocumentStatus.uploaded ∷ []
unfolding program
uploads_file = refl

key_of_file :
    (upload_with true true (codes "a/Notes.TXT") (1 ∷ 2 ∷ [])).1.external
    ≡ "documents/u/u/u.txt" ∷ []
unfolding program
key_of_file = refl

storage_is_down : (upload_with false true (codes "n.md") (1 ∷ [])).0 ≡ err (app_error upload_failed)
unfolding program
storage_is_down = refl

failure_is_kept :
    statuses (upload_with false true (codes "n.md") (1 ∷ [])).1 ≡ DocumentStatus.failed ∷ []
unfolding program
failure_is_kept = refl

nothing_is_committed : statuses (upload_with true false (codes "n.md") (1 ∷ [])).1 ≡ []
unfolding program
nothing_is_committed = refl

wrong_kind : upload_with true true (codes "n.exe") (1 ∷ []) ≡ (
  err (
      app_error
        (app "UNSUPPORTED_DOCUMENT_TYPE" "Only PDF, TXT, and Markdown files are supported" 415)),
  session,
)
unfolding program
wrong_kind = refl

too_large :
    (upload_with true true (codes "n.md") (1 ∷ 2 ∷ 3 ∷ 4 ∷ 5 ∷ [])).0
    ≡ err (app_error (app "DOCUMENT_TOO_LARGE" "The uploaded document is too large" 413))
unfolding program
too_large = refl

empty :
    (upload_with true true (codes "n.md") []).0
    ≡ err (app_error (app "EMPTY_DOCUMENT" "The uploaded document is empty" 400))
unfolding program
empty = refl

abbrev after : Session (List String)
unfolding program
after = (upload_with true true (codes "n.md") (1 ∷ [])).1

deletes : statuses (delete_document (backends true true) 7 3 9 after).1 ≡ []
unfolding program
deletes = refl

keeps_row : (delete_document (backends false true) 7 3 9 after).0 ≡ err (app_error delete_failed)
unfolding program
keeps_row = refl

other_document : get_document (backends true true) 7 3 8 after ≡ err (app_error unknown_document)
unfolding program
other_document = refl

commits : Commits (backends false true)
commits x = refl

plain : RaisesNoAppError (backends false true)
plain = record { bucket = λ x e h. cc; object = λ key content content_type x e h. cc }

upload-Uploaded_example :
    Uploaded
      (backends false true)
      7
      3
      9
      (some (codes "n.md"))
      (1 ∷ [])
      session
      (upload (backends false true) 7 3 9 (some (codes "n.md")) (1 ∷ []) session)
upload-Uploaded_example =
    upload-Uploaded (backends false true) commits plain 7 3 9 (some (codes "n.md")) (1 ∷ []) session

abbrev indexing : Backends (List String) ℕ
indexing = record {
  get_object_bytes = λ key x. (ok (1 ∷ []), x);
  run_pipeline = λ content document name x. (ok [], x);
  delete_document = λ base document x. (ok tt, x);
  embed = λ texts x. (ok [], x);
  upsert_chunks = λ base chunks vectors x. (ok tt, x);
}

abbrev step :
    ServiceStep
      (backends true false)
      indexing
      7
      3
      9
      session
      uploading
      (upload (backends true false) 7 3 9 (some (codes "n.md")) (1 ∷ []) session).1
unfolding program
step = uploads (some (codes "n.md")) (1 ∷ []) refl
