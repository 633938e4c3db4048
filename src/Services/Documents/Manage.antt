-- ===== src/Services/Documents/Manage.antt =====
-- backend/app/services/documents.py: list, get and delete.
use ai_agent_hub.Common.{
  ℕ, ◌-◌, ◌*◌, not, Option, none, some, List, ◌==◌, nat_eq, filter, length, take, drop,
}
use ai_agent_hub.Common.Exec.{Exec, ◌>>◌}
use ai_agent_hub.Common.Result.{Result, ok, err}
use ai_agent_hub.Services.Ingestion.{KnowledgeBase, Document, Rows, Session}
use ai_agent_hub.Services.Documents.{
  Failure, app_error, DocumentBackends, unknown_knowledge_base, unknown_document, delete_failed,
  outside, commit, on_rows, owned_base, owned_document, owned_documents,
}

pub record DocumentList : Type 0 where
  pub items : List Document
  pub total : ℕ
  pub page : ℕ
  pub page_size : ℕ

module _ {X : Type 0} (b : DocumentBackends X) (user_id knowledge_base_id : ℕ) where
  -- `list_owned` of the repository: a page of the rows.
  unfoldable pub page_of : ℕ → ℕ → Rows → List Document
  unfolding owned_documents
  page_of offset limit rows =
      take limit (drop offset (owned_documents b user_id knowledge_base_id rows))

  abbrev pub list_in : ℕ → ℕ → Option KnowledgeBase → Session X → Result Failure DocumentList
  list_in page page_size none s = err (app_error unknown_knowledge_base)
  list_in page page_size (some k) s = ok (record {
    items = page_of ((page - 1) * page_size) page_size s.working;
    total = length (owned_documents b user_id knowledge_base_id s.working);
    page = page;
    page_size = page_size;
  })

  -- `list`; pages count from 1.
  unfoldable pub list_documents : ℕ → ℕ → Session X → Result Failure DocumentList
  unfolding page_of owned_documents owned_base
  list_documents page page_size s =
      list_in page page_size (owned_base b user_id knowledge_base_id s.working) s

  abbrev pub get_in : Option KnowledgeBase → Option Document → Result Failure Document
  get_in none document = err (app_error unknown_knowledge_base)
  get_in (some k) none = err (app_error unknown_document)
  get_in (some k) (some d) = ok d

  -- `get`
  unfoldable pub get_document : ℕ → Session X → Result Failure Document
  unfolding owned_base owned_document
  get_document document_id s =
      get_in (owned_base b user_id knowledge_base_id s.working)
        (owned_document b document_id user_id knowledge_base_id s.working)

  -- The rows without a document; the database deletes the chunks with their document.
  unfoldable pub without_document : ℕ → Rows → Rows
  unfolding filter
  without_document document_id rows = record rows {
    documents = filter (λ d. not (d.id == document_id)) rows.documents;
    chunks = filter (λ c. not (c.document_id == document_id)) rows.chunks;
  }

  -- The `try` block of `delete`
  unfoldable pub delete_outside : Document → Exec (Session X) Failure (Unit {0})
  delete_outside d = do
    outside b (b.delete_document knowledge_base_id d.id)
    outside b (b.remove_object d.storage_key)

  unfoldable pub deleted :
      Document → Result Failure (Unit {0}) × Session X → Result Failure (Unit {0}) × Session X
  unfolding without_document commit
  deleted d (err e, s) = (err (app_error delete_failed), s)
  deleted d (ok _, s) = commit b (on_rows b (without_document d.id) s)

  unfoldable pub delete_found :
      Result Failure Document → Session X → Result Failure (Unit {0}) × Session X
  unfolding delete_outside deleted
  delete_found (err e) s = (err e, s)
  delete_found (ok d) s = deleted d (delete_outside d s)

  -- `delete`
  unfoldable pub delete_document : ℕ → Session X → Result Failure (Unit {0}) × Session X
  unfolding get_document delete_found
  delete_document document_id s = delete_found (get_document document_id s) s
