-- ===== src/Examples/Sessions.antt =====
-- The checks of transactions against a server that keeps them apart.
use text.Mathlib.Text.{starts_with}
use wwfsdb.Base.{
  ◌≡◌, refl, ap, arith, String, Bool, true, false, [], ◌∷◌, ◌==◌, some, if◌then◌else◌,
}
use wwfsdb.Base.Int.{pos}
use wwfsdb.Js.Value.{Value, bool, num, str, syntax_error, Result, ok, throw, object, array, own}
use wwfsdb.Js.Convert.{truthy, first_row, to_text}
use wwfsdb.Js.Runtime.{Runtime}
use wwfsdb.Js.Action.{World, ◌>>=◌}
use wwfsdb.Scripts.{
  Node, Script, TestState, Reply, received, send_query, query_params, read_counters, post_params,
  update,
}
use wwfsdb.Scripts.Compare.{matches, safe_parse_result}
use wwfsdb.Scripts.Checks.{
  query_result_checked, command_success_checked, command_failure_checked, tells_affected,
}
use wwfsdb.Scripts.Suite.{run_tests}
use wwfsdb.Scripts.Setup.{tally}
use wwfsdb.Scripts.Transactions.{run_transaction_tests, committed_tests, rolled_back_tests}
use wwfsdb.Scripts.Transactions.Sessions.{GoesBySessions, run_transaction_tests-GoesBySessions}
use wwfsdb.Examples.Bank.{Coins, Accounts, zero, hundred, toy}

abbrev result : Value Coins → Value Coins
result v = object (("result", object (("result", v) ∷ [])) ∷ [])

-- The texts of the answers.
abbrev parsed : String → Result (Value Coins)
parsed text =
    if text == "begun"
    then ok (object (("result", object (("session_id", str "s") ∷ [])) ∷ []))
    else if text == "done"
    then ok (result (str "Done."))
    else if text == "updated"
    then ok (result (str "UPDATE successful. 1 rows affected."))
    else if text == "no rows"
    then ok (result (str "[]"))
    else if text == "[]"
    then ok (array [])
    else if text == "one row"
    then ok (result (str "[{}]"))
    else if text == "[{}]"
    then ok (
        array (
          object (
            ("data_types_test.id", num hundred)
            ∷ ("data_types_test.label", str "Transacted Item")
            ∷ ("data_types_test.price", num zero)
            ∷ ("data_types_test.is_active", bool true)
            ∷ [])
          ∷ []))
    else if text == "refused"
    then ok (object (("error", str "no transaction") ∷ []))
    else throw syntax_error

abbrev tester : Runtime
tester = record toy { json_parse = parsed }

-- `lenient` says that the first transaction is committed.
abbrev answered : (query : String) → (in_session : Bool) → Accounts → Reply × Accounts
answered query in_session s =
    if query == "BEGIN"
    then (received "begun", s)
    else if starts_with query "INSERT"
    then (received "done", s)
    else if starts_with query "UPDATE"
    then (received "updated", s)
    else if starts_with query "SELECT"
    then (
      received (
          if query == "SELECT * FROM data_types_test WHERE id = 100"
          then if s.lenient then "one row" else "no rows"
          else "no rows"),
      s,
    )
    else if in_session
    then (received "done", record s { lenient = true })
    else (received "refused", s)

abbrev tested : Node tester
tested = record {
  upper = λ s. s;
  sign_with = λ key message. some "s";
  exchange = λ path request s.
      let params = first_row tester (own "params" request) in
      answered (to_text tester (own "query" params)) (truthy tester (own "session_id" params)) s;
  wait = λ n s. s;
}

abbrev set_up : World (Script tester (TestState Coins))
set_up = record {
  server = record {
    counters = record { passed = 0; failed = 0; private_key = str "k" };
    request_id = 1;
    posted = [];
    server = record { a = pos 0; b = pos 0; lenient = false };
  };
  sent = [];
  console = [];
}

all_pass :
    ((run_transaction_tests tested "testdb1" set_up).0 ≡ ok tt)
    × ((run_transaction_tests tested "testdb1" set_up).1.server.counters
        ≡ record { passed = 14; failed = 0; private_key = str "k" })
unfolding run_transaction_tests run_tests send_query query_params committed_tests rolled_back_tests
    query_result_checked command_success_checked command_failure_checked tells_affected matches
    safe_parse_result to_text ◌>>=◌ read_counters post_params tally update
all_pass = (refl, refl)

run_transaction_tests-GoesBySessions_example :
    GoesBySessions tested "testdb1" set_up (run_transaction_tests tested "testdb1" set_up).1
run_transaction_tests-GoesBySessions_example =
    run_transaction_tests-GoesBySessions tested "testdb1" set_up all_pass.0
      (omega (arith, ap (λ s. s.failed) all_pass.1))
