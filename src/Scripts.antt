-- ===== src/Scripts.antt =====
-- js-scripts/app.js: the client of the test script. The scripts in js-scripts each have their own copy
-- of it; what differs is the record of counters, so that is a parameter.
pub mod Compare
pub mod Matching
pub mod Checks
pub mod Counts
pub mod Suite
pub mod Suites
pub mod Setup
pub mod Transactions
pub mod Main
pub mod Passing
pub mod Reports
pub mod Numbering
pub mod Requests
pub mod Migration
pub mod CreateDb
use text.Mathlib.Text.{starts_with}
use Prim.Native.String.{◌++◌}
use wwfsdb.Base.{
  ℕ, ◌+◌, String, Bool, not, ◌&&◌, Option, none, some, List, [], ◌∷◌, ◌==◌, if◌then◌else◌,
}
use wwfsdb.Js.Value.{Value, str, num, error, Result, ok, throw, object, array}
use wwfsdb.Js.Convert.{truthy}
use wwfsdb.Js.Runtime.{Runtime}
use wwfsdb.Js.Action.{Action, lift, observe, outside, outside_value, ◌>>=◌}
use wwfsdb.Js.Trim.{trim}

-- What comes of an HTTP request: the text of the answer, or the message of the request's error.
pub data Reply : Type 0 where
  received unreachable : String → Reply

-- What the scripts use of the run time besides: `toUpperCase`, the signature of node:crypto in
-- hexadecimal (nothing where it has thrown), `http.request` to a path of the server, and a time-out.
pub record Node (R : Runtime) : Type 0 where
  pub upper : String → String
  pub sign_with : Value R.Num → String → Option String
  pub exchange : String → Value R.Num → R.Server → Reply × R.Server
  pub wait : ℕ → R.Server → R.Server

-- A script as it runs: its counters, its next identifier, what it has posted (newest first), and the
-- outside.
pub record Script (R : Runtime) (C : Type 0) : Type 0 where
  pub counters : C
  pub request_id : ℕ
  pub posted : List (Value R.Num)
  pub server : R.Server

-- `testState`; its `requestId` stands in `Script`
pub record TestState (N : Type 0) : Type 0 where
  pub passed : ℕ
  pub failed : ℕ
  pub private_key : Value N

-- `query.trim().toUpperCase().startsWith(word)`
abbrev pub begins_with : (String → String) → String → String → Bool
begins_with upper word query = starts_with (upper (trim query)) word

abbrev pub updated_with :
    {R : Runtime} {C : Type 0} → Script R C → Result C → Result (Unit {0}) × Script R C
updated_with s (ok c) = (ok tt, record s { counters = c })
updated_with s (throw e) = (throw e, s)

module _ {R : Runtime} {C : Type 0} where
  -- Code that reads and sets the counters, and may throw.
  unfoldable pub update : (C → Result C) → Action (Script R C) (Unit {0})
  update f = outside (λ s. updated_with s (f s.counters))

  unfoldable pub read_counters : {A : Type 0} → (C → A) → Action (Script R C) A
  read_counters f = observe (λ s. ok (f s.counters))

module _ (R : Runtime) where
  abbrev pub post_data : Value R.Num → ℕ → Value R.Num
  post_data params id = object (
      ("jsonrpc", str "2.0")
      ∷ ("method", str "wwfs.ExecuteQuery")
      ∷ ("params", array (params ∷ []))
      ∷ ("id", num (R.of_ℕ id))
      ∷ [])

module _ {R : Runtime} (N : Node R) where
  open R use {Num, json_parse}
  open N use {upper, sign_with, exchange, wait}

  -- Whether the query is signed.
  abbrev pub is_signed : String → Value Num → Bool
  is_signed query key =
      truthy R key
      && not (begins_with upper "SELECT" query)
      && not (begins_with upper "BEGIN" query)

  abbrev pub query_fields :
      (db_name query : String) → Value Num → List (String × Value Num) → List (String × Value Num)
  query_fields db_name query session rest =
      if truthy R session
      then ("db_name", str db_name) ∷ ("query", str query) ∷ ("session_id", session) ∷ rest
      else ("db_name", str db_name) ∷ ("query", str query) ∷ rest

  -- `params`, or the rejection of a query that cannot be signed; a signature of no characters is none
  unfoldable pub query_params :
      (db_name query : String) (session key : Value Num) → Result (Value Num)
  query_params db_name query session key =
      if is_signed query key
      then elim (sign_with key (db_name ++ ":" ++ query)) [
        | none ↦ throw (error "Failed to sign the query.")
        | some signature ↦
            if signature == ""
            then throw (error "Failed to sign the query.")
            else ok
                (object (query_fields db_name query session (("signature", str signature) ∷ [])))
      ]
      else ok (object (query_fields db_name query session []))

  abbrev parsed_response : String → Result (Value Num) → Result (Value Num)
  parsed_response text (ok response) = ok response
  parsed_response text (throw e) = throw (error ("Failed to parse server response: " ++ text))

  -- What the promise of `sendQuery` comes to.
  abbrev response : Reply → Result (Value Num)
  response (received text) = parsed_response text (json_parse text)
  response (unreachable message) = throw (error ("API request error: " ++ message))

  module _ {C : Type 0} where
    abbrev posting : Value Num → Script R C → Result (Value Num) × Script R C
    posting params s =
        let call = post_data R params s.request_id in
        let (reply, server') = exchange "/rpc" call s.server in
        (
          response reply,
          record s { request_id = s.request_id + 1; posted = call ∷ s.posted; server = server' },
        )

    unfoldable pub post_params : Value Num → Action (Script R C) (Value Num)
    post_params params = outside (posting params)

    -- `sendQuery`
    unfoldable pub send_query :
        (db_name query : String) (session key : Value Num) → Action (Script R C) (Value Num)
    unfolding query_params
    send_query db_name query session key = do
      params ← lift (query_params db_name query session key)
      post_params params

    -- `await new Promise(resolve => setTimeout(resolve, milliseconds))`
    unfoldable pub sleep : ℕ → Action (Script R C) (Unit {0})
    sleep milliseconds = outside_value (λ s. (tt, record s { server = wait milliseconds s.server }))
