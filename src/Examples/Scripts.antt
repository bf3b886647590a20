-- ===== src/Examples/Scripts.antt =====
-- The test script's checks at concrete inputs.
use wwfsdb.Base.{◌≡◌, refl, ◌+◌, some, true, false, String, List, [], ◌∷◌, length}
use wwfsdb.Js.Value.{Value, null, str, arr, Items, ok, object, array_items, items}
use wwfsdb.Scripts.{TestState, Node, Script, Reply, received}
use wwfsdb.Scripts.Compare.{matches}
use wwfsdb.Scripts.Checks.{command_failure_checked, command_success_checked}
use wwfsdb.Scripts.Matching.{IsMatching, matches-IsMatching}
use wwfsdb.Scripts.Counts.{Check, command_failure, command_success, run_checks, run_checks-total}
use wwfsdb.Base.Int.{pos}
use wwfsdb.Js.Action.{World}
use wwfsdb.Scripts.Main.{main, start}
use wwfsdb.Scripts.Reports.{Outcome, main-Outcome}
use wwfsdb.Scripts.Migration.{migrate, unmigrated, schema_statements}
use wwfsdb.Scripts.Migration.Steps.{requests, recorded}
use wwfsdb.Scripts.Migration.Outcome.{Verdict, migrate-Verdict, migrate-requests}
use wwfsdb.Scripts.CreateDb.Report.{Report}
use wwfsdb.Examples.Bank.{Coins, Accounts, toy, answer}

abbrev row : String → Value Coins
row name = object (("name", str name) ∷ [])

-- The rows come in another order than they are expected in.
abbrev shown_rows : Items Coins
shown_rows = array_items (row "a" ∷ row "b" ∷ [])

abbrev expected_rows : Items Coins
expected_rows = array_items (row "b" ∷ row "a" ∷ [])

accepted : matches toy (arr shown_rows) (arr expected_rows) ≡ ok true
unfolding matches
accepted = refl

matches-IsMatching_example : IsMatching (matches toy) (items shown_rows) (items expected_rows)
matches-IsMatching_example = matches-IsMatching toy shown_rows expected_rows accepted

abbrev fresh : TestState Coins
fresh = record { passed = 0; failed = 0; private_key = null }

abbrev course : List (Check Coins)
course = command_failure (answer "done") ∷ command_success "INSERT" (answer "done") ∷ []

abbrev after : TestState Coins
after = record fresh { passed = 1; failed = 1 }

counted : run_checks toy (λ s. s) course fresh ≡ ok after
unfolding command_failure_checked command_success_checked
counted = refl

counted_twice : after.passed + after.failed ≡ fresh.passed + fresh.failed + length course
counted_twice = run_checks-total toy (λ s. s) course fresh after counted

-- A server that gives everything the same answer.
abbrev replies : String → Value Coins → Accounts → Reply × Accounts
replies path call s = (received "sender", s)

abbrev toy_node : Node toy
toy_node = record {
  upper = λ s. s;
  sign_with = λ key message. some "s";
  exchange = replies;
  wait = λ n s. s;
}

abbrev outside : Accounts
outside = record { a = pos 100; b = pos 5; lenient = false }

main-Outcome_example :
    Outcome toy_node "testdb1"
      (main toy_node "testdb1" (start outside)).0
      (main toy_node "testdb1" (start outside)).1.server.counters
main-Outcome_example = main-Outcome toy_node "testdb1" outside

migrate-Verdict_example :
    Verdict toy_node outside
      (migrate toy_node (unmigrated outside)).0
      (migrate toy_node (unmigrated outside)).1.server.counters
migrate-Verdict_example = migrate-Verdict toy_node outside

migrate-requests_example :
    recorded toy_node (migrate toy_node (unmigrated outside)).1
    ≡ requests toy_node schema_statements ([], 1)
migrate-requests_example = migrate-requests toy_node outside

abbrev fresh_run : World (Script toy (Unit {0}))
fresh_run = record {
  server = record { counters = tt; request_id = 1; posted = []; server = outside };
  sent = [];
  console = [];
}
