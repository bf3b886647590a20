-- ===== src/Scripts/CreateDb.antt =====
-- js-scripts/createdb.js: a new database, and what the console is told of it.
pub mod Report
use text.Mathlib.Text.{starts_with}
use Prim.Native.String.{◌++◌}
use wwfsdb.Base.{ℕ, String, Bool, true, false, Option, none, some, List, [], ◌∷◌, if◌then◌else◌}
use wwfsdb.Js.Value.{Value, str, Exn, error, Result, ok, throw, get, object, is_undefined}
use wwfsdb.Js.Convert.{truthy, to_text}
use wwfsdb.Js.Runtime.{Runtime}
use wwfsdb.Js.Action.{Action, World, pure, raise, lift, catch, ◌>>=◌}
use wwfsdb.Js.Trim.{between}
use wwfsdb.Scripts.{Node, Script, post_params}

-- `process.argv.find(a => a.startsWith('--db-name='))`
abbrev pub find_argument : List String → Option String
find_argument [] = none
find_argument (a ∷ rest) =
    let later = find_argument rest in if starts_with a "--db-name=" then some a else later

abbrev before_equals : String → String
before_equals String.[] = String.[]
before_equals (String.◌∷◌ c s) =
    let rest = before_equals s in if between 61 61 c then String.[] else String.◌∷◌ c rest

-- `arg.split('=')[1]`: what stands between the first and the second `=`
abbrev pub named_database : String → String
named_database String.[] = String.[]
named_database (String.◌∷◌ c s) =
    let rest = named_database s in if between 61 61 c then before_equals s else rest

module _ {R : Runtime} (N : Node R) where
  open R use {Num, json_parse}

  -- What `JSON.stringify` keeps of `{ db_name, private_key }`: a key that is `undefined` is left out.
  abbrev printed : (db_name : String) → Value Num → Value Num
  printed db_name key =
      if is_undefined key
      then object (("db_name", str db_name) ∷ [])
      else object (("db_name", str db_name) ∷ ("private_key", key) ∷ [])

  -- `sendQuery`
  unfoldable pub send_query : (db_name query : String) → Action (Script R (Unit {0})) (Value Num)
  send_query db_name query =
      post_params N (object (("db_name", str db_name) ∷ ("query", str query) ∷ []))

  -- What is printed of the answer.
  unfoldable pub read_key :
      (db_name : String) → Value Num → Action (Script R (Unit {0})) (Value Num)
  read_key db_name res = do
    result ← lift (get "result" res)
    text ← lift (get "result" result)
    created ← lift (json_parse (to_text R text))
    key ← lift (get "private_key" created)
    pure (printed db_name key)

  -- `createDatabase`
  unfoldable pub create_database : (db_name : String) → Action (Script R (Unit {0})) (Value Num)
  unfolding send_query read_key
  create_database db_name = do
    res ← send_query "" ("CREATE DATABASE " ++ db_name)
    err ← lift (get "error" res)
    if truthy R err
        then raise (error "Database creation failed, cannot proceed.")
        else catch (read_key db_name res)
            (λ e. raise (error "Could not parse private key, cannot proceed."))

  -- `main` behind its argument: the exit code, and what is printed
  unfoldable pub run_found : Option String → Action (Script R (Unit {0})) (ℕ × Option (Value Num))
  unfolding create_database
  run_found none = pure (1, none)
  run_found (some argument) =
      catch (do printed ← create_database (named_database argument); pure (0, some printed))
        (λ e. pure (1, none))

  -- `main`
  unfoldable pub run : List String → Action (Script R (Unit {0})) (ℕ × Option (Value Num))
  unfolding run_found
  run arguments = run_found (find_argument arguments)
