-- ===== src/Tools/Sql/Guarded.antt =====
-- backend/app/tools/sql.py: what the statements that reach the database have in common.
use ai_agent_hub.Common.{
  ℕ, ◌≤◌, ◌≡◌, refl, ◌∙◌, subst, arith, ◌⊎◌, inl, inr, String, true, Bool-cases, Option, none, some,
  List, [], ◌∷◌, All, contains, string_eq, ltb,
}
use ai_agent_hub.Common.Exec.{Exec}
use ai_agent_hub.Common.Result.{Result, ok, err, ◌>>=◌, ◌>>◌}
use ai_agent_hub.Common.Strings.{trim, string_empty}
use ai_agent_hub.Agents.State.{Json, Fields}
use ai_agent_hub.Tools.Contracts.{
  ToolError, ToolFailure, tool_error, timed_out, unexpected, interrupted,
}
use ai_agent_hub.Tools.Schema.{lookup}
use ai_agent_hub.Tools.Sql.{
  SqlTable, Limit, number, other_limit, SqlGlot, SqlRow, SqlSettings, may_read, known_names,
  check_tables, limited, printed, prepare_statement, prepare_parsed, prepare_query, validated,
  queried, run_validated, execute_argument, execute_sql,
}

module _ (lower : String → String) {St : Type 0} (sqlglot : SqlGlot St) (self : SqlSettings) where
  -- Setting the limit of a statement sets it, and changes neither its kind nor its tables.
  pub record KeepsStatements : Type 0 where
    pub limit :
        (n : ℕ) (st : St) → sqlglot.limit_of (sqlglot.with_limit n st) ≡ some (number (some n))
    pub kind :
        (n : ℕ) (st : St) → sqlglot.is_select (sqlglot.with_limit n st) ≡ sqlglot.is_select st
    pub names :
        (n : ℕ) (st : St) → sqlglot.cte_names (sqlglot.with_limit n st) ≡ sqlglot.cte_names st
    pub sources : (n : ℕ) (st : St) → sqlglot.tables (sqlglot.with_limit n st) ≡ sqlglot.tables st

  -- A table of a statement that is on the list, or has the name of one of its own expressions.
  abbrev pub Readable : St → SqlTable → Type 0
  Readable st table =
      (contains (lower table.name) self.allowed_tables ≡ true)
      ⊎ (contains (lower table.name) (known_names lower sqlglot self st) ≡ true)

  -- One statement that selects from readable tables, at most as many rows as the limit.
  pub record IsGuarded (safe : String) (sent : St) : Type 0 where
    pub selects : sqlglot.is_select sent ≡ true
    pub readable : All (Readable sent) (sqlglot.tables sent)
    pub count : ℕ
    pub limits : sqlglot.limit_of sent ≡ some (number (some count))
    pub bounded : count ≤ self.row_limit
    pub shows : sqlglot.to_sql sent ≡ some safe

  may_read-Readable :
      (st : St) (table : SqlTable)
      → may_read lower sqlglot self (known_names lower sqlglot self st) table ≡ true
      → Readable st table
  may_read-Readable st table e =
      elim (Bool-cases (contains (lower table.name) self.allowed_tables)) [
        | inl listed ↦ inl listed
        | inr unlisted ↦ inr (ground (arith, e, unlisted))
      ]

  check_tables-Readable :
      (st : St) (tables : List SqlTable)
      → check_tables lower sqlglot self (known_names lower sqlglot self st) tables ≡ ok tt
      → All (Readable st) tables
  unfolding check_tables
  check_tables-Readable st [] e = tt
  check_tables-Readable st (table ∷ tables) e =
      elim (Bool-cases (may_read lower sqlglot self (known_names lower sqlglot self st) table)) [
        | inl listed ↦
            let rest = rw listed at e in
            (may_read-Readable st table listed, check_tables-Readable st tables rest)
        | inr unlisted ↦ let h = rw unlisted at e in cc
      ]

  module _ (keeps : KeepsStatements) where
    known_names-with_limit :
        (st : St)
        → known_names lower sqlglot self st
          ≡ known_names lower sqlglot self (sqlglot.with_limit self.row_limit st)
    unfolding known_names
    known_names-with_limit st = rw (keeps.names self.row_limit st) refl

    with_limit-IsGuarded :
        (st : St) (safe : String)
        → sqlglot.is_select st ≡ true
        → All (Readable st) (sqlglot.tables st)
        → sqlglot.to_sql (sqlglot.with_limit self.row_limit st) ≡ some safe
        → IsGuarded safe (sqlglot.with_limit self.row_limit st)
    with_limit-IsGuarded st safe selects readable shows = record {
      selects = keeps.kind self.row_limit st ∙ selects;
      readable = rw (keeps.sources self.row_limit st) (
          subst
            (λ names.
              All
                (λ t.
                  (contains (lower t.name) self.allowed_tables ≡ true)
                  ⊎ (contains (lower t.name) names ≡ true))
                (sqlglot.tables st))
            (known_names-with_limit st) readable);
      count = self.row_limit;
      limits = keeps.limit self.row_limit st;
      bounded = omega arith;
      shows = shows;
    }

    printed-ok :
        (query : Option String) (safe : String)
        → printed lower sqlglot self query ≡ ok safe
        → query ≡ some safe
    printed-ok none safe h = cc
    printed-ok (some query) safe h = cc

    limited-IsGuarded :
        (st : St) (limit : Option Limit) (safe : String)
        → sqlglot.limit_of st ≡ limit
        → sqlglot.is_select st ≡ true
        → All (Readable st) (sqlglot.tables st)
        → (limited lower sqlglot self st limit >>= λ sent.
            printed lower sqlglot self (sqlglot.to_sql sent))
          ≡ ok safe
        → (sent : St) × IsGuarded safe sent
    unfolding limited
    limited-IsGuarded st none safe el selects readable h =
        (_, with_limit-IsGuarded st safe selects readable (printed-ok _ safe h))
    limited-IsGuarded st (some other_limit) safe el selects readable h =
        (_, with_limit-IsGuarded st safe selects readable (printed-ok _ safe h))
    limited-IsGuarded st (some (number none)) safe el selects readable h = cc
    limited-IsGuarded st (some (number (some n))) safe el selects readable h =
        elim (Bool-cases (ltb self.row_limit n)) [
          | inl above ↦
              let shows = rw above at h in
              (_, with_limit-IsGuarded st safe selects readable (printed-ok _ safe shows))
          | inr within ↦
              let shows = rw within at h in
              (
                st,
                record {
                  selects = selects;
                  readable = readable;
                  count = n;
                  limits = el;
                  bounded = ground arith;
                  shows = printed-ok _ safe shows;
                },
              )
        ]

    checked-IsGuarded :
        (st : St) (safe : String) (checked : Result ToolFailure (Unit {0}))
        → check_tables lower sqlglot self (known_names lower sqlglot self st) (sqlglot.tables st)
          ≡ checked
        → sqlglot.is_select st ≡ true
        → (checked
            >> (limited lower sqlglot self st (sqlglot.limit_of st) >>= λ sent.
                printed lower sqlglot self (sqlglot.to_sql sent)))
          ≡ ok safe
        → (sent : St) × IsGuarded safe sent
    checked-IsGuarded st safe (err e) c selects h = cc
    checked-IsGuarded st safe (ok u) c selects h =
        limited-IsGuarded st (sqlglot.limit_of st) safe refl selects
          (check_tables-Readable st (sqlglot.tables st) c) h

    statement-IsGuarded :
        (st : St) (safe : String)
        → prepare_statement lower sqlglot self st ≡ ok safe
        → (sent : St) × IsGuarded safe sent
    unfolding prepare_statement
    statement-IsGuarded st safe h = elim (Bool-cases (sqlglot.is_select st)) [
      | inl selects ↦ let chain = rw selects at h in checked-IsGuarded st safe _ refl selects chain
      | inr other ↦ let refused = rw other at h in cc
    ]

    parsed-IsGuarded :
        (parsed : Option (List St)) (safe : String)
        → prepare_parsed lower sqlglot self parsed ≡ ok safe
        → (sent : St) × IsGuarded safe sent
    parsed-IsGuarded none safe h = cc
    parsed-IsGuarded (some []) safe h = cc
    parsed-IsGuarded (some (st ∷ [])) safe h = statement-IsGuarded st safe h
    parsed-IsGuarded (some (st ∷ st' ∷ rest)) safe h = cc

  module _ {V : Type 0} (run_query : ℕ → String → Exec V ToolFailure (List SqlRow))
      (arguments : Fields) (v : V) where
    -- How a call ends: refused before the database is asked, or by the answer of the database to one
    -- guarded statement.
    pub data Queried : Result ToolFailure Json × V → Type 0 where
      refused : (e : ToolError) → Queried (err (tool_error e), v)
      ran :
          (query safe : String) (sent : St)
          → lookup arguments "query" ≡ some (Json.str query)
          → IsGuarded safe sent
          → Queried (
            queried lower sqlglot self safe (run_query self.timeout_seconds safe v).0,
            (run_query self.timeout_seconds safe v).1,
          )

    module _ (keeps : KeepsStatements) where
      run-Queried :
          (query : String) (prepared : Result ToolFailure String)
          → lookup arguments "query" ≡ some (Json.str query)
          → prepare_query lower sqlglot self query ≡ prepared
          → Queried
              (run_validated lower sqlglot self run_query (validated lower sqlglot self prepared) v)
      unfolding prepare_query
      run-Queried query (ok safe) el e =
          let (sent, guarded) = parsed-IsGuarded keeps (sqlglot.parse query) safe e in
          ran query safe sent el guarded
      run-Queried query (err (tool_error t)) el e = refused t
      run-Queried query (err timed_out) el e = refused _
      run-Queried query (err unexpected) el e = refused _
      run-Queried query (err interrupted) el e = refused _

      argument-Queried :
          (argument : Option Json)
          → lookup arguments "query" ≡ argument
          → Queried (execute_argument lower sqlglot self run_query argument v)
      argument-Queried (some (Json.str query)) el = elim (Bool-cases (string_empty (trim query))) [
        | inl blank ↦ rw blank (refused _)
        | inr text ↦ rw text (run-Queried query _ el refl)
      ]
      argument-Queried _ el = refused _

      -- Where setting a limit sets it and changes neither the kind nor the tables of a statement, the
      -- SQL tool asks the database nothing, and refuses with a `ToolError`, or asks it for one SELECT
      -- statement, within the time limit, with a limit of at most `row_limit` rows. Its tables have
      -- names on the list, or names of the statement's own table expressions.
      pub execute_sql-Queried : Queried (execute_sql lower sqlglot self run_query arguments v)
      unfolding execute_sql
      execute_sql-Queried = argument-Queried (lookup arguments "query") refl
