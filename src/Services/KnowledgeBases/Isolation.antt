-- ===== src/Services/KnowledgeBases/Isolation.antt =====
-- What an operation on knowledge bases may do: the steps of Services.Owned.
use ai_agent_hub.Common.{
  ℕ, ◌≡◌, refl, sym, subst, ◌∙◌, String, true, false, ◌&&◌, Option, none, some, List, ◌==◌, nat_eq,
  find-passes, ==-eq, arith, filter, All,
}
use ai_agent_hub.Common.Result.{ok}
use ai_agent_hub.Services.Owned
use ai_agent_hub.Services.Owned.{
  IsKeyed, has_id, is_owned, store_row, delete_row, OwnedStep, keeps, inserts, replaces, deletes,
}
use ai_agent_hub.Services.Owned.Isolation.{list_owned-OwnedStep}
use ai_agent_hub.Services.KnowledgeBases.{
  KnowledgeBase, KnowledgeBaseUpdate, table, get_owned, list_owned, create_knowledge_base,
  get_knowledge_base, owned_or_raise, described, store_update, update_found, update_knowledge_base,
  delete_found, delete_knowledge_base,
}

-- An operation of a user, from the rows before it to the rows after it.
pub data UserStep (user : ℕ) (rows : List KnowledgeBase) : List KnowledgeBase → Type 0 where
  creates :
      (new_id : ℕ) (name : String) (description : Option String)
      → UserStep user rows (create_knowledge_base new_id user name description rows).1
  updates :
      (id : ℕ) (payload : KnowledgeBaseUpdate)
      → UserStep user rows (update_knowledge_base user id payload rows).1
  removes : (id : ℕ) → UserStep user rows (delete_knowledge_base user id rows).1

-- A new row has a new id.
abbrev pub HasNewId :
    {user : ℕ} {rows after : List KnowledgeBase} → UserStep user rows after → Type 0
HasNewId {rows = rows} (creates new_id name description) =
    All (λ other. has_id table new_id other ≡ false) rows
HasNewId (updates id payload) = Unit
HasNewId (removes id) = Unit

described-same :
    (d : Option (Option String)) (row : KnowledgeBase)
    → ((described d row).id ≡ row.id) × ((described d row).user_id ≡ row.user_id)
described-same none row = (refl, refl)
described-same (some d) row = (refl, refl)

module _ (user : ℕ) (rows : List KnowledgeBase) where
  -- What is found is the user's, under its id.
  found-owned :
      (id : ℕ) (row : KnowledgeBase)
      → Owned.get_owned table id user rows ≡ some row
      → (row.id ≡ id) × (row.user_id ≡ user)
  unfolding Owned.get_owned
  found-owned id row e =
      let passes : (has_id table id row && is_owned table user row) ≡ true =
        find-passes _ rows row e in
      (==-eq row.id id (ground arith), ==-eq row.user_id user (ground arith))

  store_update-OwnedStep :
      (id : ℕ) (row new : KnowledgeBase)
      → Owned.get_owned table id user rows ≡ some row
      → new.id ≡ row.id
      → new.user_id ≡ row.user_id
      → OwnedStep table user rows (store_update (some new) rows).1
  unfolding store_update
  store_update-OwnedStep id row new e same_id same_user =
      let (is_id, is_user) = found-owned id row e in
      replaces row new
        (subst (λ n. Owned.get_owned table n user rows ≡ some row) (sym (same_id ∙ is_id)) e)
        (same_user ∙ is_user)

  update_found-OwnedStep :
      (id : ℕ) (payload : KnowledgeBaseUpdate) (found : Option KnowledgeBase)
      → Owned.get_owned table id user rows ≡ found
      → OwnedStep table user rows (update_found payload (owned_or_raise found) rows).1
  unfolding update_found store_update
  update_found-OwnedStep id payload none e = keeps
  update_found-OwnedStep id payload (some row) e = by_name payload.name
    where
      by_name :
          (name : Option (Option String))
          → OwnedStep table user rows
              (update_found (record payload { name = name }) (ok row) rows).1
      by_name none =
          let (i, u) = described-same payload.description row in
          store_update-OwnedStep id row (described payload.description row) e i u
      by_name (some none) = keeps
      by_name (some (some name)) =
          let (i, u) = described-same payload.description (record row { name = name }) in
          store_update-OwnedStep id row (described payload.description (record row { name = name }))
            e i u

  delete_found-OwnedStep :
      (id : ℕ) (found : Option KnowledgeBase)
      → Owned.get_owned table id user rows ≡ found
      → OwnedStep table user rows (delete_found (owned_or_raise found) rows).1
  unfolding delete_found
  delete_found-OwnedStep id none e = keeps
  delete_found-OwnedStep id (some row) e =
      let (is_id, is_user) = found-owned id row e in
      deletes row.id row (subst (λ n. Owned.get_owned table n user rows ≡ some row) (sym is_id) e)

  -- Every operation of the service is a step of the specification of owned rows: with a new id, a
  -- creation adds a row of the user; an update changes one row of the user, or nothing; a deletion
  -- takes one row of the user away, or nothing.
  pub UserStep-OwnedStep :
      (after : List KnowledgeBase) (step : UserStep user rows after)
      → HasNewId step
      → OwnedStep table user rows after
  unfolding create_knowledge_base update_knowledge_base delete_knowledge_base get_knowledge_base
      get_owned
  UserStep-OwnedStep _ (creates new_id name description) new = inserts _ refl new
  UserStep-OwnedStep _ (updates id payload) new = update_found-OwnedStep id payload _ refl
  UserStep-OwnedStep _ (removes id) new = delete_found-OwnedStep id _ refl

  -- Where ids are unique, what a user creates, updates or deletes leaves the knowledge bases of any
  -- other user as they were.
  pub list_owned-UserStep :
      (other : ℕ)
      → (user == other) ≡ false
      → IsKeyed table rows
      → (after : List KnowledgeBase) → UserStep user rows after
      → list_owned other after ≡ list_owned other rows
  unfolding list_owned Owned.list_owned create_knowledge_base filter
  list_owned-UserStep other apart keyed _ (creates new_id name description) = rw apart refl
  list_owned-UserStep other apart keyed _ (updates id payload) =
      list_owned-OwnedStep table user other rows _ apart keyed
        (UserStep-OwnedStep _ (updates id payload) tt)
  list_owned-UserStep other apart keyed _ (removes id) =
      list_owned-OwnedStep table user other rows _ apart keyed
        (UserStep-OwnedStep _ (removes id) tt)
