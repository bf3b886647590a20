-- ===== src/Scripts/Transactions.antt =====
-- js-scripts/app.js: the checks of transactions, which go with the session of their BEGIN.
pub mod Asked
pub mod Sessions
use wwfsdb.Base.{String, true, false, List, [], ◌∷◌, if◌then◌else◌}
use wwfsdb.Js.Value.{Value, null, bool, str, object, array, get}
use wwfsdb.Js.Convert.{truthy}
use wwfsdb.Js.Runtime.{Runtime}
use wwfsdb.Js.Action.{Action, lift, ◌>>=◌, ◌>>◌}
use wwfsdb.Scripts.{Node, Script, TestState, read_counters, send_query}
use wwfsdb.Scripts.Suite.{
  Test, in_session, no_options, without_key, expect, succeeds, fails, literal, run_tests,
}
use wwfsdb.Scripts.Setup.{tally}

module _ (R : Runtime) where
  open R use {Num}

  -- The checks from the first BEGIN to the second.
  unfoldable pub committed_tests : (session : Value Num) → List (Test Num)
  committed_tests session =
      succeeds "INSERT INTO data_types_test VALUES (100, 'Transacted Item', 100.00, true);"
        (in_session session)
      ∷ succeeds "UPDATE data_types_test SET price = 150.00 WHERE id = 100;" (in_session session)
      ∷ expect "SELECT * FROM data_types_test WHERE id = 100" (array []) without_key
      ∷ succeeds "COMMIT;" (in_session session)
      ∷ expect "SELECT * FROM data_types_test WHERE id = 100"
          (array (
            object (
              ("data_types_test.id", literal R "100")
              ∷ ("data_types_test.label", str "Transacted Item")
              ∷ ("data_types_test.price", literal R "150.00")
              ∷ ("data_types_test.is_active", bool true)
              ∷ [])
            ∷ []))
          without_key
      ∷ []

  -- The checks from the second BEGIN on.
  unfoldable pub rolled_back_tests : (session : Value Num) → List (Test Num)
  rolled_back_tests session =
      succeeds "INSERT INTO data_types_test VALUES (101, 'Rollback Item', 200.00, false);"
        (in_session session)
      ∷ succeeds "UPDATE data_types_test SET price = 250.00 WHERE id = 101;" (in_session session)
      ∷ expect "SELECT * FROM data_types_test WHERE id = 101" (array []) without_key
      ∷ succeeds "ROLLBACK;" (in_session session)
      ∷ expect "SELECT * FROM data_types_test WHERE id = 101" (array []) without_key
      ∷ fails "COMMIT;" no_options
      ∷ fails "ROLLBACK;" no_options
      ∷ []

module _ {R : Runtime} (N : Node R) where
  open R use {Num}

  -- A BEGIN and what follows it, unless it is answered with an error.
  unfoldable pub begin_then :
      (db_name : String)
      → (Value Num → Action (Script R (TestState Num)) (Unit {0}))
      → Action (Script R (TestState Num)) (Unit {0})
  begin_then db_name rest = do
    key ← read_counters (λ s. s.private_key)
    res ← send_query N db_name "BEGIN" null key
    err ← lift (get "error" res)
    if truthy R err then tally N false else (do
      result ← lift (get "result" res)
      session ← lift (get "session_id" result)
      tally N true
      rest session)

  -- `runTransactionTests`
  unfoldable pub run_transaction_tests :
      (db_name : String) → Action (Script R (TestState Num)) (Unit {0})
  unfolding begin_then
  run_transaction_tests db_name = begin_then db_name λ session. do
    run_tests N db_name (committed_tests R session)
    begin_then db_name λ later. run_tests N db_name (rolled_back_tests R later)
