-- ===== src/Scripts/Reports.antt =====
-- What the exit code of the test script says.
use wwfsdb.Base.{
  ◌≡◌, ◌≢◌, refl, ap, subst, ℕ, ◌+◌, ◌<◌, ◌⊎◌, inl, inr, String, true, false, List, [], ◌∷◌, length,
  arith, if◌then◌else◌, ltb, Option, none, some, Bool-cases,
}
use wwfsdb.Js.Value.{Value, Exn, Result, ok, throw}
use wwfsdb.Js.Convert.{truthy}
use wwfsdb.Js.Runtime.{Runtime}
use wwfsdb.Js.Action.{World, Action, raise, lift, observe, outside, catch, ◌>>=◌}
use wwfsdb.Scripts.{Node, Script, TestState, update, read_counters}
use wwfsdb.Scripts.Checks.{count}
use wwfsdb.Scripts.Setup.{
  tally, keep_key, no_key, create_database, create_table, create_tables, setup_database,
  table_statements,
}
use wwfsdb.Scripts.Transactions.{
  begin_then, run_transaction_tests, committed_tests, rolled_back_tests,
}
use wwfsdb.Scripts.Main.{suite, all_tests, count_error, main, exit_code, start}
use wwfsdb.Scripts.Passing.{
  Adds, Passes, count-Adds, failed-Adds, Passes-set, Passes-catch, Passes-pure, Passes-raise,
  Passes-lift, Passes-read, Passes-if, Passes-bind, Passes-after, Passes-send, Passes-sleep,
  Passes-run_test, Passes-run_tests,
}
use wwfsdb.Scripts.Suites.Auth.{auth_tests}
use wwfsdb.Scripts.Suites.DataTypes.{data_type_tests}
use wwfsdb.Scripts.Suites.Regression.{regression_tests}
use wwfsdb.Scripts.Suites.Indexing.{indexing_tests}
use wwfsdb.Scripts.Suites.Joins.{join_tests}
use wwfsdb.Scripts.Suites.AlterTable.{alter_table_tests}
use wwfsdb.Scripts.Suites.Queries.{advanced_query_tests}
use wwfsdb.Scripts.Suites.Whitespace.{whitespace_and_comment_tests}
use wwfsdb.Scripts.Suites.Literals.{advanced_literal_tests}

module _ {R : Runtime} (N : Node R) where
  open R use {Num}

  Passes-success : Passes {R = R} 1 (tally N true)
  unfolding tally
  Passes-success = Passes-set N 1 (count true) (count-Adds true)

  Passes-failure : (n : ℕ) → Passes {R = R} n (tally N false)
  unfolding tally
  Passes-failure n = Passes-set N n (count false) (failed-Adds n)

  Passes-keep_key : (res : Value Num) → Passes {R = R} 1 (keep_key N res)
  unfolding keep_key
  Passes-keep_key res = Passes-after 1 _ _ (Passes-lift _) λ result.
      Passes-after 1 _ _ (Passes-lift _) λ text. Passes-after 1 _ _ (Passes-lift _) λ created.
        Passes-after 1 _ _ (Passes-lift _) λ key.
          Passes-after 1 _ _
            (Passes-set N 0 (λ s. record s { private_key = key })
              (λ s. record { fails = omega arith; passes = λ _. omega arith }))
            λ _. Passes-success

  no_key-throws :
      (e : Exn) (w : World (Script R (TestState Num))) (a : Unit {0}) → (no_key N e w).0 ≢ ok a
  unfolding no_key tally update outside raise ◌>>=◌
  no_key-throws e w a h = ground arith

  Passes-create_database : (db_name : String) → Passes {R = R} 1 (create_database N db_name)
  unfolding create_database
  Passes-create_database db_name = Passes-after 1 _ _ (Passes-send N _ _ _ _) λ res.
      Passes-after 1 _ _ (Passes-lift _) λ err.
        Passes-if 1 (truthy R err) _ _
          (Passes-bind 1 0 _ _ (Passes-failure 1) (λ _. Passes-raise 0 _))
          (Passes-catch N 1 _ _ (Passes-keep_key res) no_key-throws)

  Passes-create_table :
      (db_name query : String) (name : Option String)
      → Passes {R = R} 1 (create_table N db_name query name)
  unfolding create_table
  Passes-create_table db_name query none = Passes-raise 1 _
  Passes-create_table db_name query (some name) = Passes-run_test N db_name _

  Passes-create_tables :
      (db_name : String) (queries : List String)
      → Passes {R = R} (length queries) (create_tables N db_name queries)
  unfolding create_tables
  Passes-create_tables db_name [] = Passes-pure tt
  Passes-create_tables db_name (query ∷ queries) =
      subst (λ n. Passes n (create_tables N db_name (query ∷ queries))) (omega arith)
        (Passes-bind 1 (length queries) _ _ (Passes-create_table db_name query _)
          (λ _. Passes-create_tables db_name queries))

  three_tables : length table_statements ≡ 3
  unfolding table_statements
  three_tables = refl

  Passes-setup_database : (db_name : String) → Passes {R = R} 4 (setup_database N db_name)
  unfolding setup_database
  Passes-setup_database db_name = Passes-bind 1 3 _ _ (Passes-create_database db_name) λ _.
      subst (λ n. Passes n (create_tables N db_name table_statements)) three_tables
        (Passes-create_tables db_name table_statements)

  Passes-begin_then :
      (n : ℕ) (db_name : String) (rest : Value Num → Action (Script R (TestState Num)) (Unit {0}))
      → ((session : Value Num) → Passes {R = R} n (rest session))
      → Passes {R = R} (1 + n) (begin_then N db_name rest)
  unfolding begin_then
  Passes-begin_then n db_name rest pr = Passes-after (1 + n) _ _ (Passes-read _) λ key.
      Passes-after (1 + n) _ _ (Passes-send N _ _ _ _) λ res.
        Passes-after (1 + n) _ _ (Passes-lift _) λ err.
          Passes-if (1 + n) (truthy R err) _ _ (Passes-failure (1 + n)) (
            Passes-after (1 + n) _ _ (Passes-lift _) λ result.
              Passes-after (1 + n) _ _ (Passes-lift _)
                λ session. Passes-bind 1 n _ _ Passes-success λ _. pr session)

  Passes-transactions : (db_name : String) → Passes {R = R} 14 (run_transaction_tests N db_name)
  unfolding run_transaction_tests committed_tests rolled_back_tests
  Passes-transactions db_name = Passes-begin_then 13 db_name _ λ session.
      Passes-bind 5 8 _ _ (Passes-run_tests N db_name (committed_tests R session)) λ _.
        Passes-begin_then 7 db_name _
          λ later. Passes-run_tests N db_name (rolled_back_tests R later)

module _ {R : Runtime} (N : Node R) (db_name : String) where
  open R use {Num}

  -- All the checks of the `try`.
  Passes-all_tests : Passes {R = R} 144 (all_tests N db_name)
  unfolding all_tests suite auth_tests data_type_tests regression_tests indexing_tests join_tests
      alter_table_tests advanced_query_tests whitespace_and_comment_tests advanced_literal_tests
  Passes-all_tests = Passes-after 144 _ _ (Passes-sleep N 1000) λ _.
      Passes-bind 4 140 _ _ (Passes-setup_database N db_name) λ _.
        Passes-bind 4 136 _ _ (Passes-run_tests N db_name (auth_tests R)) λ _.
          Passes-bind 24 112 _ _ (Passes-run_tests N db_name (data_type_tests R)) λ _.
            Passes-bind 11 101 _ _ (Passes-run_tests N db_name (regression_tests R)) λ _.
              Passes-bind 11 90 _ _ (Passes-run_tests N db_name (indexing_tests R)) λ _.
                Passes-bind 14 76 _ _ (Passes-transactions N db_name) λ _.
                  Passes-bind 13 63 _ _ (Passes-run_tests N db_name (alter_table_tests R)) λ _.
                    Passes-bind 12 51 _ _ (Passes-run_tests N db_name (join_tests R)) λ _.
                      Passes-bind 23 28 _ _ (Passes-run_tests N db_name (advanced_query_tests R))
                        λ _.
                          Passes-bind 13 15 _ _
                            (Passes-run_tests N db_name (whitespace_and_comment_tests R))
                            λ _. Passes-run_tests N db_name (advanced_literal_tests R)

  abbrev pub Outcome : Result ℕ → TestState Num → Type 0
  Outcome code s =
      ((code ≡ ok 0) × (s.failed ≡ 0) × (s.passed ≡ 144)) ⊎ ((code ≡ ok 1) × (0 < s.failed))

  exits :
      (w : World (Script R (TestState Num)))
      → Adds 144 (start {R = R} w.server.server).server.counters w.server.counters
      → Outcome (ok (exit_code w.server.counters)) w.server.counters
  exits w a = elim (Bool-cases (ltb 0 w.server.counters.failed)) [
    | inl e ↦ inr (ap (λ b. ok (if b then 1 else 0)) e, ground (arith, e))
    | inr e ↦
        let none_failed : w.server.counters.failed ≡ 0 = ground (arith, e) in
        inl
          (ap (λ b. ok (if b then 1 else 0)) e, none_failed, a.passes (omega (arith, none_failed)))
  ]

-- The test script always exits, with the code 0 or 1, whatever the server answers and even where a
-- query cannot be sent, signed or read. It exits with 0 only when all of its 144 checks were made and
-- have passed: no check is skipped in silence. Otherwise it has counted a failure.
pub main-Outcome :
    {R : Runtime} (N : Node R) (db_name : String) (o : R.Server)
    → Outcome N db_name (main N db_name (start o)).0 (main N db_name (start o)).1.server.counters
unfolding main read_counters observe catch lift ◌>>=◌ count_error tally update outside
main-Outcome {R} N db_name o =
    let (r, w) = all_tests N db_name (start o) in
    go r w (λ a h. (Passes-all_tests N db_name).adds (start o) a h)
  where
    go :
        (r : Result (Unit {0})) (w : World (Script R (TestState R.Num)))
        → ((a : Unit {0}) → r ≡ ok a → Adds 144 (start {R = R} o).server.counters w.server.counters)
        → let after = (catch (lift r) (count_error N db_name) >>= λ _. read_counters exit_code) w in
          Outcome N db_name after.0 after.1.server.counters
    go (ok a) w adds = exits N db_name w (adds a refl)
    go (throw e) w adds = inr (ground arith, omega arith)
