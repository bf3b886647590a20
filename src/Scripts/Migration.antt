-- ===== src/Scripts/Migration.antt =====
-- js-scripts/migrate_ssql_example.js: the migration of the database asset_marketplace.
pub mod Steps
pub mod Outcome
use text.Mathlib.Text.{starts_with}
use Prim.Native.String.{◌++◌}
use Prim.Native.Char.{Char}
use wwfsdb.Base.{
  ℕ, ◌+◌, String, Bool, true, false, ◌||◌, Option, none, some, List, [], ◌∷◌, if◌then◌else◌, ltb,
}
use wwfsdb.Js.Value.{Value, null, str, Exn, Result, ok, get}
use wwfsdb.Js.Convert.{truthy}
use wwfsdb.Js.Runtime.{Runtime}
use wwfsdb.Js.Trim.{between, word_after}
use wwfsdb.Js.Action.{Action, World, pure, lift, catch, log, ◌>>=◌, ◌>>◌}
use wwfsdb.Scripts.{Node, Script, update, read_counters, sleep}

abbrev pub migrated_db : String
migrated_db = "asset_marketplace"

abbrev pub migration_key : String
migration_key = "b691c4637be697542d54a73555136d2b5f4864eed8820f5f7c916acd08b6fc9c"

-- `migrationState`; its `requestId` stands in `Script`
pub record MigrationState : Type 0 where
  pub completed : ℕ
  pub failed : ℕ

abbrev pub schema_statements : List String
schema_statements =
    "CREATE TABLE users (\n    user_id VARCHAR(255),\n    username VARCHAR(100),\n    email VARCHAR(255),\n    password_hash VARCHAR(255),\n    created_at INT,\n    is_verified BOOLEAN,\n    bio VARCHAR(1000)\n);"
    ∷ "CREATE TABLE asset_types (\n    type_id VARCHAR(255),\n    type_name VARCHAR(100),\n    description VARCHAR(500)\n);"
    ∷ "CREATE TABLE assets (\n    asset_id VARCHAR(255),\n    creator_id VARCHAR(255),\n    type_id VARCHAR(255),\n    name VARCHAR(255),\n    description VARCHAR(4000),\n    base_price FLOAT,\n    upload_date INT,\n    last_updated INT,\n    file_url VARCHAR(500),\n    thumbnail_url VARCHAR(500),\n    is_published BOOLEAN,\n    poly_count INT,\n    file_size_kb INT\n);"
    ∷ "CREATE TABLE tags (\n    tag_id VARCHAR(255),\n    tag_name VARCHAR(100)\n);"
    ∷ "CREATE TABLE asset_tags (\n    asset_id VARCHAR(255),\n    tag_id VARCHAR(255)\n);"
    ∷ "CREATE TABLE reviews (\n    review_id VARCHAR(255),\n    asset_id VARCHAR(255),\n    user_id VARCHAR(255),\n    rating INT,\n    comment VARCHAR(2000),\n    created_at INT\n);"
    ∷ "CREATE TABLE licenses (\n    license_id VARCHAR(255),\n    license_name VARCHAR(100),\n    description VARCHAR(2000)\n);"
    ∷ "CREATE TABLE asset_licenses (\n    asset_license_id VARCHAR(255),\n    asset_id VARCHAR(255),\n    license_id VARCHAR(255),\n    price_multiplier FLOAT\n);"
    ∷ "CREATE TABLE orders (\n    order_id VARCHAR(255),\n    user_id VARCHAR(255),\n    order_date INT,\n    total_amount FLOAT\n);"
    ∷ "CREATE TABLE order_items (\n    order_item_id VARCHAR(255),\n    order_id VARCHAR(255),\n    asset_license_id VARCHAR(255),\n    purchase_price FLOAT\n);"
    ∷ "CREATE TABLE collections (\n    collection_id VARCHAR(255),\n    user_id VARCHAR(255),\n    name VARCHAR(255),\n    description VARCHAR(1000),\n    is_public BOOLEAN,\n    created_at INT\n);"
    ∷ "CREATE TABLE collection_items (\n    collection_id VARCHAR(255),\n    asset_id VARCHAR(255)\n);"
    ∷ "CREATE INDEX ON assets (creator_id);" ∷ "CREATE INDEX ON assets (type_id);"
    ∷ "CREATE INDEX ON asset_tags (asset_id);" ∷ "CREATE INDEX ON asset_tags (tag_id);"
    ∷ "CREATE INDEX ON reviews (asset_id);" ∷ "CREATE INDEX ON orders (user_id);" ∷ []

-- A statement that the loop passes over.
abbrev pub is_skipped : String → Bool
is_skipped statement = starts_with statement "--" || starts_with statement "/*"

-- `statement.substring(0, Math.min(60, statement.indexOf(' ')))`: up to the first space, which is at
-- most the 60 characters; without a space the index is -1, and the text is empty
abbrev first_word : ℕ → String → Option String
first_word n String.[] = none
first_word n (String.◌∷◌ c s) =
    let rest = first_word (n + 1) s in
    if between 32 32 c
    then some ""
    else elim rest [ none ↦ none | some w ↦ some (if ltb n 60 then String.◌∷◌ c w else w) ]

abbrev text_or_empty : Option String → String
text_or_empty none = ""
text_or_empty (some s) = s

abbrev or_named : (step : String) → String → Option String → String
or_named step default none = default
or_named step default (some name) = "Step " ++ step ++ ": Creating table \"" ++ name ++ "\""

module _ (upper : String → String) where
  -- What the console calls a step.
  unfoldable pub description : (step statement : String) → String
  description step statement =
      let default = "Step " ++ step ++ ": " ++ text_or_empty (first_word 0 statement) ++ "..." in
      if starts_with (upper statement) "CREATE TABLE"
      then or_named step default (word_after upper "CREATE TABLE " statement)
      else if starts_with (upper statement) "CREATE INDEX"
      then "Step " ++ step ++ ": Creating index"
      else default

abbrev pub tallied : Bool → MigrationState → MigrationState
tallied success s =
    if success then record s { completed = s.completed + 1 } else record s { failed = s.failed + 1 }

-- `migrationState.failed === 0`
abbrev pub none_failed : MigrationState → Bool
none_failed s = if ltb 0 s.failed then false else true

module _ {R : Runtime} (N : Node R) where
  open R use {Num, of_ℕ, num_to_string}
  open N use {upper}

  -- `sendQuery`, the same as in app.js
  unfoldable pub send_query :
      (db_name query : String) (session key : Value Num)
      → Action (Script R MigrationState) (Value Num)
  send_query = wwfsdb.Scripts.send_query N

  -- The first of the lines that the console gets on a step, and its count.
  unfoldable pub conclude :
      (success : Bool) (title : String) → Action (Script R MigrationState) Bool
  conclude success title = do
    log (if success then "  ✅ " ++ title else "  ❌ " ++ title)
    update (λ s. ok (tallied success s))
    pure success

  -- `executeMigrationStep`
  unfoldable pub execute_migration_step :
      (query title : String) → Action (Script R MigrationState) Bool
  unfolding send_query conclude
  execute_migration_step query title =
      catch
        (do
          res ← send_query migrated_db query null (str migration_key)
          err ← lift (get "error" res)
          if truthy R err then conclude false title else conclude true title)
        (λ e. conclude false title)

  -- The loop of `runMigration`
  unfoldable pub run_steps : ℕ → List String → Action (Script R MigrationState) (Unit {0})
  unfolding execute_migration_step description
  run_steps step [] = pure tt
  run_steps step (statement ∷ statements) =
      let next_step = (do
        execute_migration_step statement (description upper (num_to_string (of_ℕ step)) statement)
        run_steps (step + 1) statements) in
      let same_step = run_steps step statements in
      if is_skipped statement then same_step else next_step

  -- `runMigration`
  unfoldable pub run_migration : Action (Script R MigrationState) Bool
  unfolding run_steps
  run_migration = do run_steps 1 schema_statements; read_counters none_failed

  -- `main`: the code that the process exits with
  unfoldable pub migrate : Action (Script R MigrationState) ℕ
  unfolding run_migration
  migrate = do
    sleep N 1000
    catch (do success ← run_migration; pure (if success then 0 else 1)) (λ e. pure 1)

abbrev pub unmigrated : {R : Runtime} → R.Server → World (Script R MigrationState)
unmigrated server = record {
  server = record {
    counters = record { completed = 0; failed = 0 };
    request_id = 1;
    posted = [];
    server = server;
  };
  sent = [];
  console = [];
}
