-- ===== src/Scripts/Transactions/Sessions.antt =====
-- Which requests of the checks of transactions go with which session.
use wwfsdb.Base.{
  ◌≡◌, refl, ap, ◌∙◌, ◌+◌, ◌≤◌, String, true, false, ◌∷◌, map, arith, Bool-cases, inl, inr,
}
use wwfsdb.Js.Value.{Value, undefined, null, ok, get}
use wwfsdb.Js.Convert.{truthy}
use wwfsdb.Js.Runtime.{Runtime}
use wwfsdb.Js.Action.{World, Action, lift, observe, outside}
use wwfsdb.Js.Action.Inversion.{>>=-eq-ok}
use wwfsdb.Rpc.Outcome.{bind}
use wwfsdb.Scripts.{Node, Script, TestState, send_query, update, read_counters}
use wwfsdb.Scripts.Suite.{run_tests}
use wwfsdb.Scripts.Passing.{Passes-run_tests}
use wwfsdb.Scripts.Setup.{tally}
use wwfsdb.Scripts.Transactions.{
  committed_tests, rolled_back_tests, begin_then, run_transaction_tests,
}
use wwfsdb.Scripts.Transactions.Asked.{
  session_of, attached, sessions, Asked, send_query-Asked, with_sessions, run_tests-sessions,
}

module _ {R : Runtime} (N : Node R) where
  open R use {Num}

  -- Where a session comes from: in `before`, BEGIN was posted without a session, and its answer gave this
  -- one; `started` is the world in which the script goes on, with nothing else posted.
  pub record IsOpened (session : Value Num) (before started : World (Script R (TestState Num)))
      : Type 0 where
    pub res : Value Num
    pub after : World (Script R (TestState Num))
    pub begin : Asked N "BEGIN" null res before after
    pub given : bind (get "result" res) (get "session_id") ≡ ok session
    pub posted : started.server.posted ≡ after.server.posted
    pub outside : started.server.server ≡ after.server.server

  -- A BEGIN without a session that was answered with one, and the world in which the rest then runs.
  pub record Begun (rest : Value Num → Action (Script R (TestState Num)) (Unit {0}))
      (w : World (Script R (TestState Num))) (after : World (Script R (TestState Num)))
      : Type 0 where
    pub session : Value Num
    pub inside : World (Script R (TestState Num))
    pub opened : IsOpened session w inside
    pub failed : inside.server.counters.failed ≡ w.server.counters.failed
    pub returned : (rest session inside).0 ≡ ok tt
    pub end : after ≡ (rest session inside).1

  tally-failed :
      (w : World (Script R (TestState Num)))
      → (tally N false w).1.server.counters.failed ≡ w.server.counters.failed + 1
  unfolding tally update outside
  tally-failed w = refl

  tally-passed :
      (w : World (Script R (TestState Num)))
      → ((tally N true w).1.server.counters.failed ≡ w.server.counters.failed)
        × ((tally N true w).1.server.posted ≡ w.server.posted)
        × ((tally N true w).1.server.server ≡ w.server.server)
  unfolding tally update outside
  tally-passed w = (refl, refl, refl)

  begin_then-Begun :
      (db_name : String) (rest : Value Num → Action (Script R (TestState Num)) (Unit {0}))
      (w : World (Script R (TestState Num)))
      → (begin_then N db_name rest w).0 ≡ ok tt
      → (begin_then N db_name rest w).1.server.counters.failed ≤ w.server.counters.failed
      → Begun rest w (begin_then N db_name rest w).1
  unfolding begin_then read_counters observe lift
  begin_then-Begun db_name rest w h fine =
      let a = >>=-eq-ok _ _ w h in
      let b = >>=-eq-ok _ _ _ a.then_result in
      let asked = send_query-Asked N db_name "BEGIN" null a.value b.value w b.first in
      let c = >>=-eq-ok _ _ _ b.then_result in
      let whole = a.world ∙ b.world ∙ c.world in
      let sent = (send_query N db_name "BEGIN" null a.value w).1 in
      elim (Bool-cases (truthy R c.value)) [
        | inl bad ↦
            let m = rw bad at whole in
            absurd (
              omega (
                arith,
                fine,
                ap (λ v. v.server.counters.failed) m,
                tally-failed sent,
                ap (λ s. s.failed) asked.counters,
              ))
        | inr good ↦
            let d = >>=-eq-ok _ _ _ (rw good at c.then_result) in
            let e = >>=-eq-ok _ _ _ d.then_result in
            let f = >>=-eq-ok _ _ _ e.then_result in
            let (same_failed, same_posted, same_outside) = tally-passed sent in
            record {
              session = e.value;
              inside = (tally N true sent).1;
              opened = record {
                res = b.value;
                after = sent;
                begin = asked;
                given = ap (λ r. bind r (get "session_id")) d.first ∙ e.first;
                posted = same_posted;
                outside = same_outside;
              };
              failed = same_failed ∙ ap (λ s. s.failed) asked.counters;
              returned = f.then_result;
              end = (rw good at whole) ∙ d.world ∙ e.world ∙ f.world;
            }
      ]

  -- The first transaction is opened in `w`, its checks lead to `between`, where the second is opened, and
  -- the checks of that lead to `after`; and, newest first, the sessions of all the requests.
  pub record GoesBySessions (db_name : String) (w after : World (Script R (TestState Num)))
      : Type 0 where
    pub first : Value Num
    pub started : World (Script R (TestState Num))
    pub first_opened : IsOpened first w started
    pub between : World (Script R (TestState Num))
    pub committed : between ≡ (run_tests N db_name (committed_tests R first) started).1
    pub second : Value Num
    pub resumed : World (Script R (TestState Num))
    pub second_opened : IsOpened second between resumed
    pub rolled_back : after ≡ (run_tests N db_name (rolled_back_tests R second) resumed).1
    pub order :
        sessions N after
        ≡ undefined
          ∷ undefined
          ∷ undefined
          ∷ attached N second
          ∷ undefined
          ∷ attached N second
          ∷ attached N second
          ∷ undefined
          ∷ undefined
          ∷ attached N first
          ∷ undefined
          ∷ attached N first
          ∷ attached N first
          ∷ undefined
          ∷ sessions N w

  begin-sessions :
      {rest : Value Num → Action (Script R (TestState Num)) (Unit {0})}
      {w after : World (Script R (TestState Num))} (b : Begun rest w after)
      → sessions N b.inside ≡ undefined ∷ sessions N w
  begin-sessions {w = w} b =
      ap (map (session_of N)) (b.opened.posted ∙ b.opened.begin.posted)
      ∙ ap (λ v. v ∷ sessions N w) b.opened.begin.goes_with

-- When the checks of transactions come to their end without a failure, the statements of each transaction,
-- its COMMIT or ROLLBACK included, were posted with the session that the answer to its own BEGIN gave, the
-- one posted right before it, in this run; both BEGIN, the checks from outside and the last two statements
-- were posted without a session.
pub run_transaction_tests-GoesBySessions :
    {R : Runtime} (N : Node R) (db_name : String) (w : World (Script R (TestState R.Num)))
    → (run_transaction_tests N db_name w).0 ≡ ok tt
    → (run_transaction_tests N db_name w).1.server.counters.failed ≤ w.server.counters.failed
    → GoesBySessions N db_name w (run_transaction_tests N db_name w).1
unfolding run_transaction_tests committed_tests rolled_back_tests
run_transaction_tests-GoesBySessions {R} N db_name w h fine =
    let one = begin_then-Begun N db_name _ w h fine in
    let a = >>=-eq-ok _ _ one.inside one.returned in
    let w2 = (run_tests N db_name (committed_tests R one.session) one.inside).1 in
    let grown =
      (Passes-run_tests N db_name (committed_tests R one.session)).adds one.inside tt a.first in
    let two = begin_then-Begun N db_name _ w2 a.then_result (
      omega (
        arith,
        fine,
        grown.fails,
        one.failed,
        ap (λ v. v.server.counters.failed) (one.end ∙ a.world),
      )) in
    record {
      first = one.session;
      started = one.inside;
      first_opened = one.opened;
      between = w2;
      committed = refl;
      second = two.session;
      resumed = two.inside;
      second_opened = two.opened;
      rolled_back = one.end ∙ a.world ∙ two.end;
      order =
          ap (sessions N) (one.end ∙ a.world ∙ two.end)
          ∙ run_tests-sessions N db_name (rolled_back_tests R two.session) two.inside two.returned
          ∙ ap (with_sessions N (rolled_back_tests R two.session)) (
              begin-sessions N two
              ∙ ap (λ vs. undefined ∷ vs)
                  (run_tests-sessions N db_name (committed_tests R one.session) one.inside a.first
                    ∙ ap (with_sessions N (committed_tests R one.session)) (begin-sessions N one)));
    }
