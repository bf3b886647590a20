-- ===== src/Scripts/CreateDb/Report.antt =====
-- What one run of createdb.js posts and prints.
use Prim.Native.String.{◌++◌}
use wwfsdb.Base.{◌≡◌, false, ◌⊎◌, ℕ, String, Option, none, some, [], ◌∷◌}
use wwfsdb.Js.Value.{Value, undefined, str, Exn, error, Result, ok, get, object}
use wwfsdb.Js.Convert.{truthy, to_text}
use wwfsdb.Js.Runtime.{Runtime}
use wwfsdb.Js.Action.{Action, World, raise}
use wwfsdb.Scripts.{Node, Script, post_data}
use wwfsdb.Scripts.CreateDb.{named_database, send_query}

-- The one request, for the database that the argument names.
abbrev pub creation : (R : Runtime) → String → ℕ → Value R.Num
creation R name id =
    post_data R (object (("db_name", str "") ∷ ("query", str ("CREATE DATABASE " ++ name)) ∷ [])) id

-- What is printed: the name, and the key if there is one.
abbrev shown_of : {N : Type 0} → String → Value N → Value N
shown_of name undefined = object (("db_name", str name) ∷ [])
shown_of name key = object (("db_name", str name) ∷ ("private_key", key) ∷ [])

module _ {R : Runtime} (N : Node R) (name : String) where
  open R use {Num, json_parse}

  -- The answer to the request, which has no error, holds a JSON text; what is printed is the name with
  -- the text's member `private_key`.
  pub record IsPrinted (w : World (Script R (Unit {0}))) (shown : Value Num) : Type 0 where
    pub res : Value Num
    pub answered : (send_query N "" ("CREATE DATABASE " ++ name) w).0 ≡ ok res
    pub err : Value Num
    pub error_of : get "error" res ≡ ok err
    pub no_error : truthy R err ≡ false
    pub result : Value Num
    pub result_of : get "result" res ≡ ok result
    pub text : Value Num
    pub text_of : get "result" result ≡ ok text
    pub created : Value Num
    pub parsed : json_parse (to_text R text) ≡ ok created
    pub key : Value Num
    pub key_of : get "private_key" created ≡ ok key
    pub same : shown ≡ shown_of name key

  abbrev failing : Exn → Action (Script R (Unit {0})) (Value Num)
  failing e = raise (error "Could not parse private key, cannot proceed.")

-- The exit code 0 with what is printed, or 1 with nothing printed.
abbrev Printed :
    {R : Runtime}
    → Node R
    → String
    → World (Script R (Unit {0}))
    → Result (ℕ × Option (Value R.Num))
    → Type 0
Printed {R} N name w r =
    ((shown : Value R.Num) × IsPrinted N name w shown × (r ≡ ok (0, some shown)))
    ⊎ (r ≡ ok (1, none))

-- Without the argument nothing is posted; with it, the one request.
abbrev pub Report :
    {R : Runtime}
    → Node R
    → Option String
    → World (Script R (Unit {0}))
    → Result (ℕ × Option (Value R.Num)) × World (Script R (Unit {0}))
    → Type 0
Report N none w (r, w') = (r ≡ ok (1, none)) × (w' ≡ w)
Report {R} N (some argument) w (r, w') =
    Printed N (named_database argument) w r
    × (w'.server.posted
        ≡ creation R (named_database argument) w.server.request_id ∷ w.server.posted)

abbrev finished :
    {R : Runtime} → Value R.Num → Action (Script R (Unit {0})) (ℕ × Option (Value R.Num))
finished printed w = (ok (0, some printed), w)

abbrev refused : {R : Runtime} → Exn → Action (Script R (Unit {0})) (ℕ × Option (Value R.Num))
refused e w = (ok (1, none), w)
