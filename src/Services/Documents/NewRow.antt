-- ===== src/Services/Documents/NewRow.antt =====
-- The row of an upload among the rows.
use ai_agent_hub.Common.{ℕ, ◌≡◌, refl, true, some, List, nat_eq, ==_refl, change}
use ai_agent_hub.Services.Ingestion.{Document, Rows, is_owned}
use ai_agent_hub.Services.Documents.{
  DocumentBackends, Accepted, owned_document, new_document, change_row, add_row,
}

module _ {X : Type 0} (b : DocumentBackends X) (user_id knowledge_base_id : ℕ) where
  module _ (d : Document) (owned : is_owned d.id user_id knowledge_base_id d ≡ true)
      (rows : Rows) where
    pub found_new :
        owned_document b d.id user_id knowledge_base_id (add_row b user_id knowledge_base_id d rows)
        ≡ some d
    unfolding owned_document
    found_new = rw owned refl

    pub changed :
        (f : Document → Document)
        → change_row b user_id knowledge_base_id d.id f (add_row b user_id knowledge_base_id d rows)
          ≡ add_row b user_id knowledge_base_id (f d) rows
    unfolding change
    changed f = rw owned refl

  pub new_document-owned :
      (new_id : ℕ) (file : Accepted) (content : List ℕ)
      → is_owned
          (new_document b user_id knowledge_base_id new_id file content).id
          user_id
          knowledge_base_id
          (new_document b user_id knowledge_base_id new_id file content)
        ≡ true
  unfolding new_document
  new_document-owned new_id file content =
      rw (==_refl new_id, ==_refl user_id, ==_refl knowledge_base_id) refl
