-- ===== src/Tools/Sql/Tests.antt =====
-- Statements as records, a parser that knows the texts of a few, and a database that has one row
-- and counts its queries.
use ai_agent_hub.Common.{
  ℕ, suc, ◌≡◌, refl, String, Bool, true, false, Option, none, some, List, [], ◌∷◌, ◌==◌, string_eq,
  if◌then◌else◌,
}
use ai_agent_hub.Common.Exec.{Exec}
use ai_agent_hub.Common.Int.{pos, negsuc}
use ai_agent_hub.Common.Result.{Result, ok, err}
use ai_agent_hub.Agents.State.{Json, Items, Fields}
use ai_agent_hub.Tools.Contracts.{ToolFailure, timed_out}
use ai_agent_hub.Tools.Sql.{
  SqlTable, Limit, number, SqlGlot, SqlRow, shown, column, SqlSettings, sql_error, sql_tool,
  prepare_query, execute_sql, answer_of,
}
use ai_agent_hub.Tools.Sql.Guarded.{KeepsStatements, Queried, execute_sql-Queried}

record Statement : Type 0 where
  select : Bool
  ctes : List String
  sources : List SqlTable
  limit : Option Limit
  shows : String

abbrev table : String → SqlTable
table name = record { schema = none; name = name }

abbrev orders : Statement
orders = record {
  select = true;
  ctes = [];
  sources = table "orders" ∷ [];
  limit = none;
  shows = "SELECT id FROM orders";
}

-- `WITH users AS (SELECT 1) SELECT email FROM public.users`
abbrev shadowed : Statement
shadowed = record {
  select = true;
  ctes = "users" ∷ [];
  sources = record { schema = some "public"; name = "users" } ∷ [];
  limit = some (number (some 2));
  shows = "shadowed";
}

abbrev parse : String → Option (List Statement)
parse query =
    if query == "orders"
    then some (orders ∷ [])
    else if query == "shadowed"
    then some (shadowed ∷ [])
    else if query == "users"
    then some (record orders { sources = table "users" ∷ [] } ∷ [])
    else if query == "two"
    then some (orders ∷ orders ∷ [])
    else none

abbrev sqlglot : SqlGlot Statement
sqlglot = record {
  parse = parse;
  is_select = λ s. s.select;
  cte_names = λ s. s.ctes;
  tables = λ s. s.sources;
  limit_of = λ s. s.limit;
  with_limit = λ n s. record s { limit = some (number (some n)) };
  to_sql = λ s. some s.shows;
}

abbrev self : SqlSettings
self = record { allowed_tables = "orders" ∷ []; timeout_seconds = 5; row_limit = 2 }

abbrev same : String → String
same s = s

abbrev row : SqlRow
row = column "id" (shown "7") SqlRow.end

abbrev database : Bool → ℕ → String → Exec ℕ ToolFailure (List SqlRow)
database slow limit query n = (if slow then err timed_out else ok (row ∷ []), suc n)

abbrev asking : String → Fields
asking query = Fields.field "query" (Json.str query) Fields.end

abbrev run : Bool → String → Result ToolFailure Json × ℕ
run slow query = execute_sql same sqlglot self (database slow) (asking query) 0

program : Unit {0}
unfolding execute_sql prepare_query sql_tool answer_of
program = tt

answers : run false "orders" ≡ (
  ok (
      Json.obj (
        Fields.field "query" (Json.str "SELECT id FROM orders") (
          Fields.field "columns" (Json.arr (Items.cons (Json.str "id") Items.nil)) (
            Fields.field "rows"
              (Json.arr
                (Items.cons (Json.obj (Fields.field "id" (Json.str "7") Fields.end)) Items.nil))
              (Fields.field "row_count"
                (Json.int (pos 1))
                (Fields.field "truncated" (Json.bool false) Fields.end)))))),
  1,
)
unfolding program
answers = refl

slow_times_out : run true "orders" ≡ (err (sql_error "SQL_TIMEOUT" "SQL query timed out"), 1)
unfolding program
slow_times_out = refl

other_table_is_refused :
    run false "users"
    ≡ (err (sql_error "SQL_TABLE_NOT_ALLOWED" "Table is not whitelisted: users"), 0)
unfolding program
other_table_is_refused = refl

two_are_refused : (run false "two").1 ≡ 0
unfolding program
two_are_refused = refl

unreadable_is_refused :
    run false "?" ≡ (err (sql_error "SQL_INVALID_QUERY" "SQL query could not be validated"), 0)
unfolding program
unreadable_is_refused = refl

-- A table of another schema is read when a table expression has its name.
shadowed_is_read : prepare_query same sqlglot self "shadowed" ≡ ok "shadowed"
unfolding program
shadowed_is_read = refl

no_rows_is_refused :
    sql_tool same [] (pos 5) (negsuc 0) ≡ err "SQL row limit must be greater than zero"
unfolding program
no_rows_is_refused = refl

keeps : KeepsStatements same sqlglot self
keeps = record {
  limit = λ n st. refl;
  kind = λ n st. refl;
  names = λ n st. refl;
  sources = λ n st. refl;
}

execute_sql-Queried_example :
    Queried same sqlglot self
      (database false)
      (asking "orders")
      0
      (execute_sql same sqlglot self (database false) (asking "orders") 0)
execute_sql-Queried_example =
    execute_sql-Queried same sqlglot self (database false) (asking "orders") 0 keeps
