-- ===== src/Scripts/Suite.antt =====
-- js-scripts/app.js: the calls of the four kinds of checks, one after the other. A check's message is
-- for the console only, and is left out.
use wwfsdb.Base.{String, Option, none, some, List, [], ◌∷◌}
use wwfsdb.Js.Value.{Value, null, num, Result, ok}
use wwfsdb.Js.Runtime.{Runtime}
use wwfsdb.Js.Action.{Action, pure, ◌>>=◌, ◌>>◌}
use wwfsdb.Scripts.{Node, Script, TestState, read_counters, update, send_query}
use wwfsdb.Scripts.Checks.{
  query_result_checked, ordered_result_checked, command_success_checked, command_failure_checked,
}

-- The last argument of a check: `{ sessionID = null, privateKey = <its default> }`.
pub record Options (N : Type 0) : Type 0 where
  pub session : Value N
  pub key : Option (Value N)

-- `assertQueryResult`, `assertOrderedQueryResult`, `assertCommandSuccess`, `assertCommandFailure`
pub data Kind (N : Type 0) : Type 0 where
  query_result ordered_result : Value N → Kind N
  command_success command_failure : Kind N

pub record Test (N : Type 0) : Type 0 where
  pub kind : Kind N
  pub query : String
  pub options : Options N

module _ {N : Type 0} where
  abbrev pub no_options : Options N
  no_options = record { session = null; key = none }

  abbrev pub without_key : Options N
  without_key = record { session = null; key = some null }

  abbrev pub with_key : Value N → Options N
  with_key key = record { session = null; key = some key }

  abbrev pub in_session : Value N → Options N
  in_session session = record { session = session; key = none }

  abbrev pub expect : String → Value N → Options N → Test N
  expect query rows options = record { kind = query_result rows; query = query; options = options }

  abbrev pub expect_ordered : String → Value N → Options N → Test N
  expect_ordered query rows options = record {
    kind = ordered_result rows;
    query = query;
    options = options;
  }

  abbrev pub succeeds : String → Options N → Test N
  succeeds query options = record { kind = command_success; query = query; options = options }

  abbrev pub fails : String → Options N → Test N
  fails query options = record { kind = command_failure; query = query; options = options }

  -- The default of `privateKey`
  abbrev default_key : Kind N → TestState N → Value N
  default_key command_failure s = null
  default_key _ s = s.private_key

  abbrev key_or : Option (Value N) → Value N → Value N
  key_or none default = default
  key_or (some key) default = key

  abbrev key_of : Test N → TestState N → Value N
  key_of t s = key_or t.options.key (default_key t.kind s)

module _ {R : Runtime} (N : Node R) where
  open R use {Num}
  open N use {upper}

  abbrev pub verdict : Kind Num → String → Value Num → TestState Num → Result (TestState Num)
  verdict (query_result rows) query res = query_result_checked R upper rows (ok res)
  verdict (ordered_result rows) query res = ordered_result_checked R upper rows (ok res)
  verdict command_success query res = command_success_checked R upper query (ok res)
  verdict command_failure query res = command_failure_checked R upper (ok res)

  -- One call `await assert…(…)`
  unfoldable pub run_test :
      (db_name : String) → Test Num → Action (Script R (TestState Num)) (Unit {0})
  run_test db_name t = do
    key ← read_counters (key_of t)
    res ← send_query N db_name t.query t.options.session key
    update (verdict t.kind t.query res)

  -- One after the other
  unfoldable pub run_tests :
      (db_name : String) → List (Test Num) → Action (Script R (TestState Num)) (Unit {0})
  unfolding run_test
  run_tests db_name [] = pure tt
  run_tests db_name (t ∷ ts) = do run_test db_name t; run_tests db_name ts

-- A numeric literal of the program.
abbrev pub literal : (R : Runtime) → String → Value R.Num
literal R text = num (R.number_of_text text)
