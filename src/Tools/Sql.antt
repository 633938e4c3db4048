-- ===== src/Tools/Sql.antt =====
-- backend/app/tools/sql.py: the SQL tool over the statements of sqlglot. `St` is the type of its
-- statements, by the questions that the code asks them; the database and `str.lower` are parameters.
pub mod Guarded
mod Tests
use Prim.Native.String.{◌++◌}
use ai_agent_hub.Common.{
  ℕ, String, Bool, true, false, not, ◌||◌, Option, none, some, List, [], ◌∷◌, map, filter, contains,
  string_eq, if◌then◌else◌, ltb, leb, length,
}
use ai_agent_hub.Common.Exec.{Exec}
use ai_agent_hub.Common.Int.{ℤ, pos, nonpositive, magnitude}
use ai_agent_hub.Common.Result.{Result, ok, err, ◌>>=◌, ◌>>◌}
use ai_agent_hub.Common.Strings.{trim, string_empty}
use ai_agent_hub.Agents.State.{Json, Items, Fields}
use ai_agent_hub.Tools.Contracts.{
  ToolError, ToolFailure, tool_error, timed_out, unexpected, interrupted,
}
use ai_agent_hub.Tools.Schema.{lookup}

-- A table of a statement, by the schema that it is written with, if any, and its name.
pub record SqlTable : Type 0 where
  pub schema : Option String
  pub name : String

-- The `limit` of a statement: a numeric literal with its `int`, which raises for some, or another
-- expression.
pub data Limit : Type 0 where
  number : Option ℕ → Limit
  other_limit : Limit

-- What the code uses of sqlglot. `parse` and `to_sql` give none where they raise; `cte_names` and
-- `tables` are those that `find_all` finds anywhere in the statement.
pub record SqlGlot (St : Type 0) : Type 0 where
  pub parse : String → Option (List St)
  pub is_select : St → Bool
  pub cte_names : St → List String
  pub tables : St → List SqlTable
  pub limit_of : St → Option Limit
  pub with_limit : ℕ → St → St
  pub to_sql : St → Option String

-- A value of a row: one that JSON has, a moment by its `isoformat`, any other by its `str`.
mutual
  pub data SqlValue : Type 0 where
    null : SqlValue
    bool : Bool → SqlValue
    int : ℤ → SqlValue
    float : ℕ → SqlValue
    str : String → SqlValue
    moment : String → SqlValue
    shown : String → SqlValue
    list : SqlItems → SqlValue
    dict : SqlRow → SqlValue

  pub data SqlItems : Type 0 where
    nil : SqlItems
    cons : SqlValue → SqlItems → SqlItems

  pub data SqlRow : Type 0 where
    end : SqlRow
    column : String → SqlValue → SqlRow → SqlRow

-- `_json_value` and `_json_object`
unfoldable mutual
  pub json_value : SqlValue → Json
  json_value SqlValue.null = Json.null
  json_value (SqlValue.bool b) = Json.bool b
  json_value (SqlValue.int i) = Json.int i
  json_value (SqlValue.float f) = Json.float f
  json_value (SqlValue.str s) = Json.str s
  json_value (moment s) = Json.str s
  json_value (shown s) = Json.str s
  json_value (list items) = Json.arr (json_items items)
  json_value (dict row) = Json.obj (json_object row)

  pub json_items : SqlItems → Items
  json_items SqlItems.nil = Items.nil
  json_items (SqlItems.cons v items) = Items.cons (json_value v) (json_items items)

  pub json_object : SqlRow → Fields
  json_object SqlRow.end = Fields.end
  json_object (column name v row) = Fields.field name (json_value v) (json_object row)

-- `list(rows[0]) if rows else []`
unfoldable pub column_names : Fields → Items
column_names Fields.end = Items.nil
column_names (Fields.field name v rest) = Items.cons (Json.str name) (column_names rest)

abbrev pub columns_of : List Fields → Items
columns_of [] = Items.nil
columns_of (row ∷ rows) = column_names row

abbrev pub rows_json : List Fields → Items
rows_json [] = Items.nil
rows_json (row ∷ rows) = Items.cons (Json.obj row) (rows_json rows)

pub record SqlSettings : Type 0 where
  pub allowed_tables : List String
  pub timeout_seconds : ℕ
  pub row_limit : ℕ

abbrev pub sql_error : String → String → ToolFailure
sql_error code message = tool_error (record { code = code; message = message })

module _ (lower : String → String) where
  -- `__init__`, when the settings have filled in what is missing; a time is a whole number of units.
  unfoldable pub sql_tool : List String → ℤ → ℤ → Result String SqlSettings
  sql_tool allowed_tables timeout_seconds row_limit =
      if nonpositive timeout_seconds
      then err "SQL timeout must be greater than zero"
      else if nonpositive row_limit
      then err "SQL row limit must be greater than zero"
      else ok (record {
        allowed_tables = map lower allowed_tables;
        timeout_seconds = magnitude timeout_seconds;
        row_limit = magnitude row_limit;
      })

  module _ {St : Type 0} (sqlglot : SqlGlot St) (self : SqlSettings) where
    -- The names of the common table expressions that have one.
    unfoldable pub known_names : St → List String
    unfolding filter
    known_names statement =
        map lower (filter (λ name. not (string_empty name)) (sqlglot.cte_names statement))

    abbrev pub may_read : List String → SqlTable → Bool
    may_read cte_names table =
        contains (lower table.name) cte_names || contains (lower table.name) self.allowed_tables

    unfoldable pub check_tables : List String → List SqlTable → Result ToolFailure (Unit {0})
    check_tables cte_names [] = ok tt
    check_tables cte_names (table ∷ tables) =
        let rest = check_tables cte_names tables in
        if may_read cte_names table
        then rest
        else err
            (sql_error "SQL_TABLE_NOT_ALLOWED" ("Table is not whitelisted: " ++ lower table.name))

    -- The statement with a limit; `int` may raise.
    unfoldable pub limited : St → Option Limit → Result ToolFailure St
    limited statement none = ok (sqlglot.with_limit self.row_limit statement)
    limited statement (some other_limit) = ok (sqlglot.with_limit self.row_limit statement)
    limited statement (some (number none)) = err unexpected
    limited statement (some (number (some n))) =
        if ltb self.row_limit n
        then ok (sqlglot.with_limit self.row_limit statement)
        else ok statement

    abbrev pub printed : Option String → Result ToolFailure String
    printed none = err unexpected
    printed (some query) = ok query

    unfoldable pub prepare_statement : St → Result ToolFailure String
    unfolding known_names check_tables limited
    prepare_statement statement =
        if sqlglot.is_select statement
        then (do
          check_tables (known_names statement) (sqlglot.tables statement)
          safe ← limited statement (sqlglot.limit_of statement)
          printed (sqlglot.to_sql safe))
        else err (sql_error "SQL_FORBIDDEN" "Only SELECT statements are allowed")

    abbrev pub prepare_parsed : Option (List St) → Result ToolFailure String
    prepare_parsed none = err unexpected
    prepare_parsed (some (statement ∷ [])) = prepare_statement statement
    prepare_parsed (some _) = err (sql_error "SQL_FORBIDDEN" "Only one SQL statement is allowed")

    -- `_prepare_query`
    unfoldable pub prepare_query : String → Result ToolFailure String
    unfolding prepare_statement
    prepare_query query = prepare_parsed (sqlglot.parse query)

    -- The first `try` of `execute`: a `ToolError` passes.
    abbrev pub validated : Result ToolFailure String → Result ToolFailure String
    validated (ok query) = ok query
    validated (err (tool_error e)) = err (tool_error e)
    validated (err _) = err (sql_error "SQL_INVALID_QUERY" "SQL query could not be validated")

    -- The answer, from the rows.
    unfoldable pub answer_of : String → List Fields → Json
    unfolding column_names
    answer_of query rows = Json.obj (
        Fields.field "query" (Json.str query) (
          Fields.field "columns" (Json.arr (columns_of rows)) (
            Fields.field "rows" (Json.arr (rows_json rows)) (
              Fields.field "row_count" (Json.int (pos (length rows))) (
                Fields.field "truncated" (Json.bool (leb self.row_limit (length rows)))
                  Fields.end)))))

    -- The second `try`; the cancellation of the task is no `Exception`.
    abbrev pub queried : String → Result ToolFailure (List SqlRow) → Result ToolFailure Json
    queried query (ok rows) = ok (answer_of query (map json_object rows))
    queried query (err timed_out) = err (sql_error "SQL_TIMEOUT" "SQL query timed out")
    queried query (err interrupted) = err interrupted
    queried query (err _) = err (sql_error "SQL_EXECUTION_FAILED" "SQL query execution failed")

    module _ {V : Type 0} (run_query : ℕ → String → Exec V ToolFailure (List SqlRow)) where
      abbrev pub run_validated : Result ToolFailure String → Exec V ToolFailure Json
      run_validated (err e) v = (err e, v)
      run_validated (ok query) v =
          let (r, v') = run_query self.timeout_seconds query v in (queried query r, v')

      abbrev pub execute_argument : Option Json → Exec V ToolFailure Json
      execute_argument (some (Json.str query)) v =
          if string_empty (trim query)
          then (err (sql_error "SQL_INVALID_INPUT" "SQL query is required"), v)
          else run_validated (validated (prepare_query query)) v
      execute_argument _ v = (err (sql_error "SQL_INVALID_INPUT" "SQL query is required"), v)

      -- `execute`
      unfoldable pub execute_sql : Fields → Exec V ToolFailure Json
      unfolding lookup trim answer_of json_object prepare_query
      execute_sql arguments v = execute_argument (lookup arguments "query") v
