-- ===== src/Scripts/Main.antt =====
-- js-scripts/app.js: the whole run.
use wwfsdb.Base.{ℕ, String, false, List, [], if◌then◌else◌, ltb}
use wwfsdb.Js.Value.{null, Exn}
use wwfsdb.Js.Runtime.{Runtime}
use wwfsdb.Js.Action.{Action, World, catch, ◌>>◌}
use wwfsdb.Scripts.{Node, Script, TestState, read_counters, sleep}
use wwfsdb.Scripts.Suite.{Test, run_tests}
use wwfsdb.Scripts.Setup.{setup_database, tally}
use wwfsdb.Scripts.Transactions.{run_transaction_tests}
use wwfsdb.Scripts.Suites.Auth.{auth_tests}
use wwfsdb.Scripts.Suites.DataTypes.{data_type_tests}
use wwfsdb.Scripts.Suites.Regression.{regression_tests}
use wwfsdb.Scripts.Suites.Indexing.{indexing_tests}
use wwfsdb.Scripts.Suites.Joins.{join_tests}
use wwfsdb.Scripts.Suites.AlterTable.{alter_table_tests}
use wwfsdb.Scripts.Suites.Queries.{advanced_query_tests}
use wwfsdb.Scripts.Suites.Whitespace.{whitespace_and_comment_tests}
use wwfsdb.Scripts.Suites.Literals.{advanced_literal_tests}

abbrev pub exit_code : {N : Type 0} → TestState N → ℕ
exit_code s = if ltb 0 s.failed then 1 else 0

-- `db_name` is `'testdb' + Date.now()`.
module _ {R : Runtime} (N : Node R) (db_name : String) where
  open R use {Num}

  unfoldable pub suite : List (Test Num) → Action (Script R (TestState Num)) (Unit {0})
  suite ts = run_tests N db_name ts

  -- The `try` of `main`
  unfoldable pub all_tests : Action (Script R (TestState Num)) (Unit {0})
  unfolding suite
  all_tests = do
    sleep N 1000
    setup_database N db_name
    suite (auth_tests R)
    suite (data_type_tests R)
    suite (regression_tests R)
    suite (indexing_tests R)
    run_transaction_tests N db_name
    suite (alter_table_tests R)
    suite (join_tests R)
    suite (advanced_query_tests R)
    suite (whitespace_and_comment_tests R)
    suite (advanced_literal_tests R)

  -- Its `catch`
  unfoldable pub count_error : Exn → Action (Script R (TestState Num)) (Unit {0})
  count_error e = tally N false

  -- `main`: the code that the process exits with
  unfoldable pub main : Action (Script R (TestState Num)) ℕ
  unfolding all_tests count_error suite
  main = do catch all_tests count_error; read_counters (λ s. if ltb 0 s.failed then 1 else 0)

abbrev pub start : {R : Runtime} → R.Server → World (Script R (TestState R.Num))
start server = record {
  server = record {
    counters = record { passed = 0; failed = 0; private_key = null };
    request_id = 1;
    posted = [];
    server = server;
  };
  sent = [];
  console = [];
}
