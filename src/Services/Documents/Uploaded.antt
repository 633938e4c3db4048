-- ===== src/Services/Documents/Uploaded.antt =====
-- How an upload ends.
use ai_agent_hub.Common.{
  ℕ, ◌≤◌, ◌<◌, ◌≡◌, refl, ap, subst, String, Bool, true, false, Option, none, some, List, [], ◌∷◌,
  ◌==◌, nat_eq, text_eq, ltb, arith, length, ◌⊎◌, Bool-cases, inl, inr,
}
use ai_agent_hub.Common.Exec.{continue_with}
use ai_agent_hub.Common.Result.{Result, ok, err}
use ai_agent_hub.Common.Text.{Text}
use ai_agent_hub.Common.FilePath.{name_of, suffix_of, lower}
use ai_agent_hub.Services.Store.{AppError}
use ai_agent_hub.Services.Ingestion.{KnowledgeBase, Document, Rows, Session, is_owned}
use ai_agent_hub.Services.Documents.{
  Failure, app_error, other_error, DocumentBackends, allowed, Accepted, upload_failed,
  check_content, validate_file, mark_uploaded, mark_failed, outside, commit, rollback, owned_base,
  new_document, add_row, store_object, finish_upload, mark_row, recover_upload, handle, finished,
  stored, upload_accepted, upload_checked, upload_in, upload,
}
use ai_agent_hub.Services.Documents.NewRow.{found_new, changed, new_document-owned}

-- A file that is accepted has a kind of the list, and a size within the limit.
pub record IsAcceptable (max_size : ℕ) (filename : Text) (content : List ℕ) (file : Accepted)
    : Type 0 where
  pub name : file.safe_filename ≡ name_of filename
  pub kind :
      allowed (lower (suffix_of (name_of filename))) ≡ some (file.extension, file.content_type)
  pub some_bytes : 0 < length content
  pub not_too_many : length content ≤ max_size

check_content-IsAcceptable :
    (max_size : ℕ) (filename : Text) (content : List ℕ) (found : Option (String × String))
    (file : Accepted)
    → allowed (lower (suffix_of (name_of filename))) ≡ found
    → check_content max_size (name_of filename) content found ≡ ok file
    → IsAcceptable max_size filename content file
unfolding check_content
check_content-IsAcceptable max_size filename content none file e h = cc
check_content-IsAcceptable max_size filename content (some (extension, content_type)) file e h =
    elim (Bool-cases (length content == 0)) [
      | inl empty ↦ let h1 = rw empty at h in cc
      | inr full ↦
          let h1 = rw full at h in
          elim (Bool-cases (ltb max_size (length content))) [
            | inl large ↦ let h2 = rw large at h1 in cc
            | inr fits ↦
                let h2 = rw fits at h1 in
                let made : Accepted = record {
                  safe_filename = name_of filename;
                  extension = extension;
                  content_type = content_type;
                } in
                let same : made ≡ file = cc in
                subst (IsAcceptable max_size filename content) same (record {
                  name = refl;
                  kind = e;
                  some_bytes = ground arith;
                  not_too_many = ground arith;
                })
          ]
    ]

pub validate_file-IsAcceptable :
    (max_size : ℕ) (filename : Text) (content : List ℕ) (file : Accepted)
    → validate_file max_size filename content ≡ ok file
    → IsAcceptable max_size filename content file
unfolding validate_file
validate_file-IsAcceptable max_size filename content file h =
    check_content-IsAcceptable max_size filename content
      (allowed (lower (suffix_of (name_of filename)))) file refl h

module _ {X : Type 0} (b : DocumentBackends X) where
  -- The database takes every commit.
  abbrev pub Commits : Type 0
  Commits = (x : X) → (b.try_commit x).0 ≡ ok tt

  -- The storage raises no `AppError`: its adapter raises an `IntegrationError`.
  pub record RaisesNoAppError : Type 0 where
    pub bucket : (x : X) (e : AppError) → (b.ensure_bucket x).0 ≡ err (app_error e) → ⊥
    pub object :
        (key : String) (content : List ℕ) (content_type : String) (x : X) (e : AppError)
        → (b.put_object key content content_type x).0 ≡ err (app_error e)
        → ⊥

  -- The object of a document is sent, and is not, from a world.
  abbrev Sends : Document → List ℕ → X → Result Failure (Unit {0}) → Type 0
  Sends d content x r =
      ((b.ensure_bucket x).0 ≡ ok tt)
      × ((b.put_object d.storage_key content d.content_type (b.ensure_bucket x).1).0 ≡ r)

  -- The two ends of an upload that is accepted: the new row stands before the old ones, uploaded or
  -- failed. `x` is the world in which the object is sent.
  pub data Ends (user_id knowledge_base_id : ℕ) (d : Document) (rows : Rows) (content : List ℕ)
      (x : X) (p : Result Failure Document × Session X) : Type 0 where
    is_stored :
        Sends d content x (ok tt)
        → p.0 ≡ ok (mark_uploaded d)
        → p.1.committed ≡ add_row b user_id knowledge_base_id (mark_uploaded d) rows
        → Ends user_id knowledge_base_id d rows content x p
    is_failed :
        ((b.ensure_bucket x).0 ≡ err other_error) ⊎ Sends d content x (err other_error)
        → p.0 ≡ err (app_error upload_failed)
        → p.1.committed ≡ add_row b user_id knowledge_base_id (mark_failed d) rows
        → Ends user_id knowledge_base_id d rows content x p

  -- How an upload may end.
  pub data Uploaded (user_id knowledge_base_id new_id : ℕ) (filename : Option Text)
      (content : List ℕ) (s : Session X) (p : Result Failure Document × Session X) : Type 0 where
    rejected :
        (e : AppError)
        → p ≡ (err (app_error e), s)
        → Uploaded user_id knowledge_base_id new_id filename content s p
    accepted :
        (k : KnowledgeBase) (name : Text) (file : Accepted)
        → filename ≡ some name
        → owned_base b user_id knowledge_base_id s.working ≡ some k
        → IsAcceptable b.max_document_size_bytes name content file
        → Ends user_id knowledge_base_id
            (new_document b user_id knowledge_base_id new_id file content)
            s.working
            content
            (b.try_commit s.external).1
            p
        → Uploaded user_id knowledge_base_id new_id filename content s p

  returned : (p : Result Failure (Unit {0}) × X) → p.0 ≡ ok tt → p ≡ (ok tt, p.1)
  returned (ok tt, x) h = refl
  returned (err e, x) h = cc

  module _ (commits : Commits) where
    commit_lem :
        (s : Session X)
        → commit b s
          ≡ (ok tt, record s { committed = s.working; external = (b.try_commit s.external).1 })
    unfolding commit
    commit_lem s = rw (returned (b.try_commit s.external) (commits s.external)) refl

    module _ (user_id knowledge_base_id : ℕ) (d : Document)
        (owned : is_owned d.id user_id knowledge_base_id d ≡ true) (rows : Rows) where
      abbrev added : Rows
      added = add_row b user_id knowledge_base_id d rows

      -- The handler, when the row of the upload is committed.
      recovered :
          (object_uploaded : Bool) (w : Rows) (x : X)
          → ((recover_upload b user_id knowledge_base_id d object_uploaded
                (record { committed = added; working = w; external = x })).0
              ≡ err (app_error upload_failed))
            × ((recover_upload b user_id knowledge_base_id d object_uploaded
                  (record { committed = added; working = w; external = x })).1.committed
                ≡ add_row b user_id knowledge_base_id (mark_failed d) rows)
      unfolding recover_upload rollback mark_row
      recovered true w x =
          rw (found_new b user_id knowledge_base_id d owned rows, commit_lem)
            (refl, changed b user_id knowledge_base_id d owned rows mark_failed)
      recovered false w x =
          rw (found_new b user_id knowledge_base_id d owned rows, commit_lem)
            (refl, changed b user_id knowledge_base_id d owned rows mark_failed)

      module _ (plain : RaisesNoAppError) (content : List ℕ) where
        put-Ends :
            (x x1 : X) (p : Result Failure (Unit {0}) × X)
            → b.ensure_bucket x ≡ (ok tt, x1)
            → b.put_object d.storage_key content d.content_type x1 ≡ p
            → Ends user_id knowledge_base_id d rows content x (
                stored b user_id knowledge_base_id d
                  (p.0, record { committed = added; working = added; external = p.1 }))
        unfolding stored handle finish_upload finished
        put-Ends x x1 (ok tt, x') bucket e = rw commit_lem (
            is_stored (ap (λ p. p.0) bucket, rw bucket (ap (λ p. p.0) e)) refl
              (changed b user_id knowledge_base_id d owned rows mark_uploaded))
        put-Ends x x1 (err (app_error a), x') bucket e =
            absurd (plain.object d.storage_key content d.content_type x1 a (ap (λ p. p.0) e))
        put-Ends x x1 (err other_error, x') bucket e =
            let (r, c) = recovered false added x' in
            is_failed (inr (ap (λ p. p.0) bucket, rw bucket (ap (λ p. p.0) e))) r c

        bucket-Ends :
            (p : Result Failure (Unit {0}) × X) (x : X)
            → b.ensure_bucket x ≡ p
            → Ends user_id knowledge_base_id d rows content x (
                stored b user_id knowledge_base_id d (
                  continue_with
                    (λ _. outside b (b.put_object d.storage_key content d.content_type))
                    (p.0, record { committed = added; working = added; external = p.1 })))
        unfolding stored handle
        bucket-Ends (ok tt, x') x e =
            put-Ends x x' (b.put_object d.storage_key content d.content_type x') e refl
        bucket-Ends (err (app_error a), x') x e = absurd (plain.bucket x a (ap (λ p. p.0) e))
        bucket-Ends (err other_error, x') x e =
            let (r, c) = recovered false added x' in is_failed (inl (ap (λ p. p.0) e)) r c

    module _ (plain : RaisesNoAppError) (user_id knowledge_base_id new_id : ℕ) where
      accepted-Ends :
          (content : List ℕ) (file : Accepted) (s : Session X)
          → Ends user_id knowledge_base_id
              (new_document b user_id knowledge_base_id new_id file content)
              s.working
              content
              (b.try_commit s.external).1
              (upload_accepted b user_id knowledge_base_id new_id content file s)
      unfolding upload_accepted store_object
      accepted-Ends content file s =
          let d = new_document b user_id knowledge_base_id new_id file content in
          let owned = new_document-owned b user_id knowledge_base_id new_id file content in
          let x = (b.try_commit s.external).1 in
          rw commit_lem (
            bucket-Ends user_id knowledge_base_id d owned s.working plain content
              (b.ensure_bucket x) x refl)

      checked-Uploaded :
          (k : KnowledgeBase) (name : Text) (content : List ℕ) (s : Session X)
          (checked : Result AppError Accepted)
          → owned_base b user_id knowledge_base_id s.working ≡ some k
          → validate_file b.max_document_size_bytes name content ≡ checked
          → Uploaded user_id knowledge_base_id new_id
              (some name)
              content
              s
              (upload_checked b user_id knowledge_base_id new_id content checked s)
      checked-Uploaded k name content s (err e) base h = rejected e refl
      checked-Uploaded k name content s (ok file) base h =
          accepted k name file refl base
            (validate_file-IsAcceptable b.max_document_size_bytes name content file h)
            (accepted-Ends content file s)

      found-Uploaded :
          (name : Text) (content : List ℕ) (s : Session X) (found : Option KnowledgeBase)
          → owned_base b user_id knowledge_base_id s.working ≡ found
          → Uploaded user_id knowledge_base_id new_id
              (some name)
              content
              s
              (upload_in b user_id knowledge_base_id new_id name content found s)
      found-Uploaded name content s none base = rejected _ refl
      found-Uploaded name content s (some k) base =
          checked-Uploaded k name content s (validate_file b.max_document_size_bytes name content)
            base refl

      -- Where the database takes every commit and the storage raises no `AppError`, an upload is
      -- rejected, and nothing changes; or the file has a kind of the list and a size from 1 to the
      -- limit, the knowledge base is the user's, and the committed rows are the old ones and a new one:
      -- uploaded, and returned, where the bucket is there and the object is put into it, and failed, with
      -- the answer DOCUMENT_UPLOAD_FAILED, where one of these two calls fails.
      pub upload-Uploaded :
          (filename : Option Text) (content : List ℕ) (s : Session X)
          → Uploaded user_id knowledge_base_id new_id filename content s
              (upload b user_id knowledge_base_id new_id filename content s)
      unfolding upload
      upload-Uploaded none content s = rejected _ refl
      upload-Uploaded (some []) content s = rejected _ refl
      upload-Uploaded (some (c ∷ cs)) content s =
          found-Uploaded (c ∷ cs) content s (owned_base b user_id knowledge_base_id s.working) refl
