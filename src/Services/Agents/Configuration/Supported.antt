-- ===== src/Services/Agents/Configuration/Supported.antt =====
-- What the configuration of agents may do to the rows, and the tools that they name.
use ai_agent_hub.Common.{
  ℕ, ◌≡◌, refl, sym, subst, ◌∙◌, String, true, false, ◌&&◌, Option, none, some, List, [], ◌∷◌,
  nat_eq, string_eq, inl, inr, Bool-cases, find-passes, ==-eq, arith, filter, change, contains, All,
}
use ai_agent_hub.Common.Result.{Result, ok, err}
use ai_agent_hub.Common.Strings.{string_leb}
use ai_agent_hub.Services.KnowledgeBases.{KnowledgeBase}
use ai_agent_hub.Services.Owned
use ai_agent_hub.Services.Owned.{
  has_id, is_owned, store_row, delete_row, OwnedStep, keeps, inserts, replaces, deletes,
}
use ai_agent_hub.Services.Store.{Agent}
use ai_agent_hub.Tools.Registry.{insert_name}
use ai_agent_hub.Services.Agents.Configuration.{
  AgentCreate, AgentUpdate, ConfigurationError, table, is_supported, unsupported, refuse_tools,
  validate_tools, validate_base, validate_configuration, create_valid, create_agent, value_or,
  assigned, assigned_row, updated, store_update, update_valid, update_found, update_agent,
  delete_found, delete_agent,
}

-- Every tool of the agent is a supported one.
abbrev pub IsSupported : Agent → Type 0
IsSupported agent = All (λ name. is_supported name ≡ true) agent.tool_names

contains_nil : (name : String) (rest : List String) → contains name rest ≡ true → rest ≡ [] → ⊥
contains_nil name [] h e = cc
contains_nil name (x ∷ xs) h e = cc

insert_name_ne : (name : String) (rest : List String) → insert_name name rest ≡ [] → ⊥
unfolding insert_name
insert_name_ne name [] e = cc
insert_name_ne name (x ∷ xs) e = elim (Bool-cases (string_leb name x)) [
  | inl first ↦ let h = rw first at e in cc
  | inr later ↦ let h = rw later at e in cc
]

unsupported-All :
    (names : List String) → unsupported names ≡ [] → All (λ name. is_supported name ≡ true) names
unfolding unsupported
unsupported-All [] e = tt
unsupported-All (name ∷ names) e = elim (Bool-cases (is_supported name)) [
  | inl known ↦ (known, unsupported-All names (let rest = rw known at e in rest))
  | inr unknown ↦ elim (Bool-cases (contains name (unsupported names))) [
    | inl seen ↦ absurd (contains_nil name _ seen (let rest = rw (unknown, seen) at e in rest))
    | inr new ↦ absurd (insert_name_ne name _ (let rest = rw (unknown, new) at e in rest))
  ]
]

-- What the validation has found.
abbrev Validated : Option (List String) → Type 0
Validated tools =
    (names : List String) × (tools ≡ some names) × All (λ name. is_supported name ≡ true) names

refuse_tools-ok : (names : List String) → refuse_tools names ≡ ok tt → names ≡ []
refuse_tools-ok [] e = refl
refuse_tools-ok (name ∷ names) e = cc

validate_tools-Validated :
    (tools : Option (List String)) → validate_tools tools ≡ ok tt → Validated tools
validate_tools-Validated none e = cc
validate_tools-Validated (some names) e =
    (names, refl, unsupported-All names (refuse_tools-ok (unsupported names) e))

validate_base-Validated :
    (base : Option KnowledgeBase) (tools : Option (List String))
    → validate_base base tools ≡ ok tt
    → Validated tools
validate_base-Validated none tools e = cc
validate_base-Validated (some base) tools e = validate_tools-Validated tools e

validate_configuration-Validated :
    (bases : List KnowledgeBase) (user : ℕ) (id : Option ℕ) (tools : Option (List String))
    → validate_configuration bases user id tools ≡ ok tt
    → Validated tools
unfolding validate_configuration
validate_configuration-Validated bases user none tools e = validate_tools-Validated tools e
validate_configuration-Validated bases user (some id) tools e = validate_base-Validated _ tools e

assigned-value_or :
    (tools : Option (Option (List String))) (old new : List String)
    → assigned tools old ≡ ok new
    → value_or tools (some old) ≡ some new
assigned-value_or none old new e = cc
assigned-value_or (some none) old new e = cc
assigned-value_or (some (some value)) old new e = cc

-- The update of a row keeps its key and its owner, and takes the tools that were validated.
abbrev Same : AgentUpdate → Agent → Agent → Type 0
Same payload agent new =
    (new.id ≡ agent.id)
    × (new.user_id ≡ agent.user_id)
    × (value_or payload.tool_names (some agent.tool_names) ≡ some new.tool_names)

Same-to :
    (payload : AgentUpdate) (agent : Agent) (made new : Agent)
    → ◌≡◌ {A = Result ConfigurationError Agent} (ok made) (ok new)
    → Same payload agent made
    → Same payload agent new
Same-to payload agent made new e h = let same : made ≡ new = cc in subst (Same payload agent) same h

assigned_row-Same :
    (payload : AgentUpdate) (agent new : Agent) (name model : Result ConfigurationError String)
    (steps time : Result ConfigurationError ℕ) (tools : Result ConfigurationError (List String))
    → assigned payload.tool_names agent.tool_names ≡ tools
    → assigned_row payload agent name model steps time tools ≡ ok new
    → Same payload agent new
assigned_row-Same payload agent new (ok n) (ok m) (ok x) (ok t) (ok l) el e =
    Same-to payload agent _ new e
      (refl, refl, assigned-value_or payload.tool_names agent.tool_names l el)
assigned_row-Same payload agent new _ _ _ _ _ el e = cc

updated-Same :
    (payload : AgentUpdate) (agent new : Agent)
    → updated payload agent ≡ ok new
    → Same payload agent new
unfolding updated
updated-Same payload agent new e = assigned_row-Same payload agent new _ _ _ _ _ refl e

store_row-All :
    (new : Agent) (rows : List Agent)
    → IsSupported new
    → All IsSupported rows
    → All IsSupported (store_row table new rows)
unfolding store_row change
store_row-All new [] n h = tt
store_row-All new (row ∷ rows) n h = elim (Bool-cases (has_id table new.id row)) [
  | inl here ↦ rw here (n, h.1)
  | inr there ↦ rw there (h.0, store_row-All new rows n h.1)
]

delete_row-All :
    (id : ℕ) (rows : List Agent) → All IsSupported rows → All IsSupported (delete_row table id rows)
unfolding delete_row filter
delete_row-All id [] h = tt
delete_row-All id (row ∷ rows) h = elim (Bool-cases (has_id table id row)) [
  | inl here ↦ rw here (delete_row-All id rows h.1)
  | inr there ↦ rw there (h.0, delete_row-All id rows h.1)
]

-- An operation of a user on agents, from the rows before it to the rows after it.
pub data AgentStep (bases : List KnowledgeBase) (user : ℕ) (rows : List Agent)
    : List Agent → Type 0 where
  creates :
      (new_id : ℕ) (payload : AgentCreate)
      → All (λ other. has_id table new_id other ≡ false) rows
      → AgentStep bases user rows (create_agent bases new_id user payload rows).1
  changes :
      (id : ℕ) (payload : AgentUpdate)
      → AgentStep bases user rows (update_agent bases user id payload rows).1
  removes : (id : ℕ) → AgentStep bases user rows (delete_agent user id rows).1

module _ (bases : List KnowledgeBase) (user : ℕ) (rows : List Agent)
    (known : All IsSupported rows) where
  -- A step of the specification that leaves supported agents.
  abbrev Configured : List Agent → Type 0
  Configured after = OwnedStep table user rows after × All IsSupported after

  create_valid-Configured :
      (new_id : ℕ) (payload : AgentCreate) (valid : Result ConfigurationError (Unit {0}))
      → validate_configuration bases user payload.knowledge_base_id (some payload.tool_names)
        ≡ valid
      → All (λ other. has_id table new_id other ≡ false) rows
      → Configured (create_valid new_id user payload valid rows).1
  create_valid-Configured new_id payload (err e) v fresh = (keeps, known)
  create_valid-Configured new_id payload (ok _) v fresh =
      let (names, same, supported) =
        validate_configuration-Validated bases user payload.knowledge_base_id
          (some payload.tool_names) v in
      let names_same : names ≡ payload.tool_names = cc in
      (
        inserts _ refl fresh,
        (subst (λ t. All (λ name. is_supported name ≡ true) t) names_same supported, known),
      )

  module _ (id : ℕ) (agent : Agent) (e : Owned.get_owned table id user rows ≡ some agent) where
    found-owned : (agent.id ≡ id) × (agent.user_id ≡ user)
    unfolding Owned.get_owned
    found-owned =
        let passes : (has_id table id agent && is_owned table user agent) ≡ true =
          find-passes _ rows agent e in
        (==-eq agent.id id (ground arith), ==-eq agent.user_id user (ground arith))

    store_update-Configured :
        (payload : AgentUpdate) (new : Result ConfigurationError Agent)
        → updated payload agent ≡ new
        → Validated (value_or payload.tool_names (some agent.tool_names))
        → Configured (store_update new rows).1
    store_update-Configured payload (err x) u valid = (keeps, known)
    store_update-Configured payload (ok new) u (names, same, supported) =
        let (same_id, same_user, same_tools) = updated-Same payload agent new u in
        let (is_id, is_user) = found-owned in
        let tools : names ≡ new.tool_names = cc in
        (
          replaces agent new
              (subst (λ n. Owned.get_owned table n user rows ≡ some agent) (sym (same_id ∙ is_id))
                e)
              (same_user ∙ is_user),
          store_row-All new rows
              (subst (λ t. All (λ name. is_supported name ≡ true) t) tools supported) known,
        )

    update_valid-Configured :
        (payload : AgentUpdate) (valid : Result ConfigurationError (Unit {0}))
        → validate_configuration bases user
            (value_or payload.knowledge_base_id agent.knowledge_base_id)
            (value_or payload.tool_names (some agent.tool_names))
          ≡ valid
        → Configured (update_valid payload agent valid rows).1
    update_valid-Configured payload (err x) v = (keeps, known)
    update_valid-Configured payload (ok _) v =
        store_update-Configured payload (updated payload agent) refl
          (validate_configuration-Validated bases user _ _ v)

    delete-Configured : Configured (delete_found (some agent) rows).1
    delete-Configured =
        let (is_id, is_user) = found-owned in
        (
          deletes agent.id agent
              (subst (λ n. Owned.get_owned table n user rows ≡ some agent) (sym is_id) e),
          delete_row-All agent.id rows known,
        )

  update_found-Configured :
      (id : ℕ) (payload : AgentUpdate) (found : Option Agent)
      → Owned.get_owned table id user rows ≡ found
      → Configured (update_found bases user payload found rows).1
  update_found-Configured id payload none e = (keeps, known)
  update_found-Configured id payload (some agent) e =
      update_valid-Configured id agent e payload _ refl

  delete_found-Configured :
      (id : ℕ) (found : Option Agent)
      → Owned.get_owned table id user rows ≡ found
      → Configured (delete_found found rows).1
  delete_found-Configured id none e = (keeps, known)
  delete_found-Configured id (some agent) e = delete-Configured id agent e

  -- Where the agents name supported tools only, every operation of a user on them is a step of the
  -- specification of owned rows: an agent of the user is added under a new id, or one of the user's is
  -- changed or removed, or nothing happens; and the agents name supported tools only after it.
  pub AgentStep-Configured :
      (after : List Agent)
      → AgentStep bases user rows after
      → OwnedStep table user rows after × All IsSupported after
  unfolding create_agent update_agent delete_agent
  AgentStep-Configured _ (creates new_id payload fresh) =
      create_valid-Configured new_id payload _ refl fresh
  AgentStep-Configured _ (changes id payload) = update_found-Configured id payload _ refl
  AgentStep-Configured _ (removes id) = delete_found-Configured id _ refl
