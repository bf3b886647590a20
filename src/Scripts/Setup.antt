-- ===== src/Scripts/Setup.antt =====
-- js-scripts/app.js: the making of the database that is tested, and of its tables.
use Prim.Native.String.{◌++◌}
use Prim.Native.Char.{Char}
use wwfsdb.Base.{
  String, Bool, true, false, not, Option, none, some, List, [], ◌∷◌, map, filter, ◌==◌,
  if◌then◌else◌,
}
use wwfsdb.Js.Value.{Value, null, Exn, type_error, error, get, ok}
use wwfsdb.Js.Convert.{truthy, to_text}
use wwfsdb.Js.Runtime.{Runtime}
use wwfsdb.Js.Action.{Action, pure, raise, lift, catch, ◌>>=◌, ◌>>◌}
use wwfsdb.Js.Trim.{trim, between, word_after}
use wwfsdb.Scripts.{Node, Script, TestState, update, send_query}
use wwfsdb.Scripts.Checks.{count}
use wwfsdb.Scripts.Suite.{succeeds, no_options, run_test}

abbrev schema : String
schema =
    "\n    CREATE TABLE suppliers (supplier_id VARCHAR(255), name VARCHAR(255), contact_email VARCHAR(255), rating INT);\n    CREATE TABLE products (product_id VARCHAR(255), name VARCHAR(255), description VARCHAR(255), unit_cost FLOAT, supplier_id VARCHAR(255));\n    CREATE TABLE data_types_test (id INT, label VARCHAR(50), price FLOAT, is_active BOOLEAN);\n  "

abbrev start_with : Char → List String → List String
start_with c [] = String.◌∷◌ c String.[] ∷ []
start_with c (t ∷ ts) = String.◌∷◌ c t ∷ ts

-- `s.split(';')`
abbrev split_semicolons : String → List String
split_semicolons String.[] = "" ∷ []
split_semicolons (String.◌∷◌ c s) =
    let rest = split_semicolons s in if between 59 59 c then "" ∷ rest else start_with c rest

-- `schema.split(';').filter(s => s.trim().length > 0)`, each with `statement.trim() + ';'`
unfoldable pub table_statements : List String
table_statements =
    map (λ s. trim s ++ ";") (filter (λ s. not (trim s == "")) (split_semicolons schema))

module _ {R : Runtime} (N : Node R) where
  open R use {Num, json_parse}

  -- `testState.passed++` or `testState.failed++`
  unfoldable pub tally : Bool → Action (Script R (TestState Num)) (Unit {0})
  tally success = update (λ s. ok (count success s))

  -- The `try` that keeps the key of the new database.
  unfoldable pub keep_key : Value Num → Action (Script R (TestState Num)) (Unit {0})
  unfolding tally
  keep_key res = do
    result ← lift (get "result" res)
    text ← lift (get "result" result)
    created ← lift (json_parse (to_text R text))
    key ← lift (get "private_key" created)
    update (λ s. ok (record s { private_key = key }))
    tally true

  unfoldable pub no_key : Exn → Action (Script R (TestState Num)) (Unit {0})
  unfolding tally
  no_key e = do tally false; raise (error "Could not parse private key, cannot proceed.")

  unfoldable pub create_database : (db_name : String) → Action (Script R (TestState Num)) (Unit {0})
  unfolding tally keep_key no_key
  create_database db_name = do
    res ← send_query N "" ("CREATE DATABASE " ++ db_name) null null
    err ← lift (get "error" res)
    if truthy R err
        then (do tally false; raise (error "Database creation failed, cannot proceed."))
        else catch (keep_key res) no_key

  -- `query.match(/CREATE TABLE (\w+)/)[1]` throws where there is no match
  unfoldable pub create_table :
      (db_name query : String) → Option String → Action (Script R (TestState Num)) (Unit {0})
  create_table db_name query none = raise type_error
  create_table db_name query (some name) = run_test N db_name (succeeds query no_options)

  unfoldable pub create_tables :
      (db_name : String) → List String → Action (Script R (TestState Num)) (Unit {0})
  unfolding create_table
  create_tables db_name [] = pure tt
  create_tables db_name (query ∷ queries) = do
    create_table db_name query (word_after (λ s. s) "CREATE TABLE " query)
    create_tables db_name queries

  -- `setupDatabase`
  unfoldable pub setup_database : (db_name : String) → Action (Script R (TestState Num)) (Unit {0})
  unfolding create_database create_tables table_statements
  setup_database db_name = do create_database db_name; create_tables db_name table_statements
