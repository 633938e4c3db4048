-- ===== src/Services/KnowledgeBases.antt =====
-- backend/app/services/knowledge_bases.py over repositories/knowledge_bases.py: create, get, update
-- and delete. The times of a row, and the documents that the database deletes with a knowledge base,
-- are not modelled. A new id is an argument, since uuid4 makes it.
pub mod Isolation
mod Tests
use ai_agent_hub.Common.{
  ℕ, String, Bool, not, ◌&&◌, Option, none, some, List, ◌∷◌, ◌==◌, nat_eq, find, change, filter,
}
use ai_agent_hub.Common.Result.{Result, ok, err}
use ai_agent_hub.Services.Owned
use ai_agent_hub.Services.Owned.{Table, store_row, delete_row}
use ai_agent_hub.Services.Store.{AppError}

pub record KnowledgeBase : Type 0 where
  pub id : ℕ
  pub user_id : ℕ
  pub name : String
  pub description : Option String

-- The fields of a `KnowledgeBaseUpdate` that the request sets; both may be set to null.
pub record KnowledgeBaseUpdate : Type 0 where
  pub name : Option (Option String)
  pub description : Option (Option String)

-- What an operation raises: an `AppError`, or the IntegrityError of a name that is null.
pub data KnowledgeBaseError : Type 0 where
  app_error : AppError → KnowledgeBaseError
  integrity_error : KnowledgeBaseError

-- The rows are those of a table whose rows belong to users.
abbrev pub table : Table KnowledgeBase
table = record { id_of = λ row. row.id; user_of = λ row. row.user_id }

-- `get_owned` of the repository
unfoldable pub get_owned : ℕ → ℕ → List KnowledgeBase → Option KnowledgeBase
unfolding Owned.get_owned
get_owned id user rows = Owned.get_owned table id user rows

-- The `where` of `list_owned` and `count_owned`: all rows of a user, of which the callers take a page
unfoldable pub list_owned : ℕ → List KnowledgeBase → List KnowledgeBase
unfolding Owned.list_owned
list_owned user rows = Owned.list_owned table user rows

abbrev pub not_found : KnowledgeBaseError
not_found = app_error record {
  code = "KNOWLEDGE_BASE_NOT_FOUND";
  message = "Knowledge base was not found";
  status_code = 404;
}

unfoldable pub create_knowledge_base :
    ℕ
    → ℕ
    → String
    → Option String
    → List KnowledgeBase
    → Result KnowledgeBaseError KnowledgeBase × List KnowledgeBase
create_knowledge_base new_id user name description rows =
    let row : KnowledgeBase = record {
      id = new_id;
      user_id = user;
      name = name;
      description = description;
    } in
    (ok row, row ∷ rows)

abbrev pub owned_or_raise : Option KnowledgeBase → Result KnowledgeBaseError KnowledgeBase
owned_or_raise none = err not_found
owned_or_raise (some row) = ok row

-- `get` of the service
unfoldable pub get_knowledge_base :
    ℕ → ℕ → List KnowledgeBase → Result KnowledgeBaseError KnowledgeBase
unfolding get_owned
get_knowledge_base user id rows = owned_or_raise (get_owned id user rows)

abbrev pub described : Option (Option String) → KnowledgeBase → KnowledgeBase
described none row = row
described (some description) row = record row { description = description }

-- The row with the new values, where the database takes them.
abbrev pub updated : KnowledgeBaseUpdate → KnowledgeBase → Option KnowledgeBase
updated payload row = renamed payload.name
  where
    renamed : Option (Option String) → Option KnowledgeBase
    renamed none = some (described payload.description row)
    renamed (some none) = none
    renamed (some (some name)) = some (described payload.description (record row { name = name }))

unfoldable pub store_update :
    Option KnowledgeBase
    → List KnowledgeBase
    → Result KnowledgeBaseError KnowledgeBase × List KnowledgeBase
unfolding store_row
store_update none rows = (err integrity_error, rows)
store_update (some row) rows = (ok row, store_row table row rows)

unfoldable pub update_found :
    KnowledgeBaseUpdate
    → Result KnowledgeBaseError KnowledgeBase
    → List KnowledgeBase
    → Result KnowledgeBaseError KnowledgeBase × List KnowledgeBase
unfolding store_update
update_found payload (err e) rows = (err e, rows)
update_found payload (ok row) rows = store_update (updated payload row) rows

unfoldable pub update_knowledge_base :
    ℕ
    → ℕ
    → KnowledgeBaseUpdate
    → List KnowledgeBase
    → Result KnowledgeBaseError KnowledgeBase × List KnowledgeBase
unfolding get_knowledge_base update_found
update_knowledge_base user id payload rows =
    update_found payload (get_knowledge_base user id rows) rows

unfoldable pub delete_found :
    Result KnowledgeBaseError KnowledgeBase
    → List KnowledgeBase
    → Result KnowledgeBaseError (Unit {0}) × List KnowledgeBase
unfolding delete_row
delete_found (err e) rows = (err e, rows)
delete_found (ok row) rows = (ok tt, delete_row table row.id rows)

unfoldable pub delete_knowledge_base :
    ℕ → ℕ → List KnowledgeBase → Result KnowledgeBaseError (Unit {0}) × List KnowledgeBase
unfolding get_knowledge_base delete_found
delete_knowledge_base user id rows = delete_found (get_knowledge_base user id rows) rows
