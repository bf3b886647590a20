-- ===== src/Scripts/Transactions/Asked.antt =====
-- Which session a query of the test script is posted with.
use wwfsdb.Base.{
  ◌≡◌, refl, ap, sym, subst, ◌∙◌, String, Option, none, some, List, [], ◌∷◌, map, if◌then◌else◌,
  Bool-cases, inl, inr,
}
use wwfsdb.Js.Value.{Value, undefined, str, Result, ok, throw, own, object}
use wwfsdb.Js.Convert.{truthy, first_row}
use wwfsdb.Js.Runtime.{Runtime}
use wwfsdb.Js.Action.{World, pure, lift, observe, outside}
use wwfsdb.Js.Action.Inversion.{>>=-eq-ok}
use wwfsdb.Scripts.{
  Node, Script, TestState, query_fields, post_data, post_params, send_query, update, updated_with,
  read_counters, response,
}
use wwfsdb.Scripts.Numbering.{optional, query_params-eq-ok}
use wwfsdb.Scripts.Suite.{Test, run_test, run_tests}

module _ {R : Runtime} (N : Node R) where
  open R use {Num}

  -- The session that a request goes with.
  abbrev pub session_of : Value Num → Value Num
  session_of request = own "session_id" (first_row R (own "params" request))

  -- `if (sessionID) …`
  abbrev pub attached : Value Num → Value Num
  attached session = if truthy R session then session else undefined

  abbrev pub sessions : World (Script R (TestState Num)) → List (Value Num)
  sessions w = map session_of w.server.posted

  query_fields-session :
      (db_name query : String) (session : Value Num) (signature : Option String)
      → own "session_id"
          (object (query_fields N db_name query session (optional "signature" str signature)))
        ≡ attached session
  query_fields-session db_name query session none = elim (Bool-cases (truthy R session)) [
    | inl e ↦ rw e refl
    | inr e ↦ rw e refl
  ]
  query_fields-session db_name query session (some s) = elim (Bool-cases (truthy R session)) [
    | inl e ↦ rw e refl
    | inr e ↦ rw e refl
  ]

  -- The text of the query in a request.
  abbrev pub query_of : Value Num → Value Num
  query_of request = own "query" (first_row R (own "params" request))

  query_fields-query :
      (db_name query : String) (session : Value Num) (signature : Option String)
      → own "query"
          (object (query_fields N db_name query session (optional "signature" str signature)))
        ≡ str query
  query_fields-query db_name query session signature = elim (Bool-cases (truthy R session)) [
    | inl e ↦ rw e refl
    | inr e ↦ rw e refl
  ]

  -- A query that was answered: its request, and the answer that the outside gave as it was then.
  pub record Asked (query : String) (session : Value Num) (res : Value Num)
      (w w' : World (Script R (TestState Num))) : Type 0 where
    pub request : Value Num
    pub asks : query_of request ≡ str query
    pub answer : response N (N.exchange "/rpc" request w.server.server).0 ≡ ok res
    pub outside : w'.server.server ≡ (N.exchange "/rpc" request w.server.server).1
    pub goes_with : session_of request ≡ attached session
    pub posted : w'.server.posted ≡ request ∷ w.server.posted
    pub counters : w'.server.counters ≡ w.server.counters

  post_params-eq-ok :
      (query : String) (session p res : Value Num) (w : World (Script R (TestState Num)))
      → own "query" p ≡ str query
      → own "session_id" p ≡ attached session
      → (post_params N p w).0 ≡ ok res
      → Asked query session res w (post_params N p w).1
  unfolding post_params outside
  post_params-eq-ok query session p res w q e h = record {
    request = post_data R p w.server.request_id;
    asks = q;
    outside = refl;
    answer = h;
    goes_with = e;
    posted = refl;
    counters = refl;
  }

  pub send_query-Asked :
      (db_name query : String) (session key res : Value Num) (w : World (Script R (TestState Num)))
      → (send_query N db_name query session key w).0 ≡ ok res
      → Asked query session res w (send_query N db_name query session key w).1
  unfolding send_query lift
  send_query-Asked db_name query session key res w h =
      let ran = >>=-eq-ok _ _ w h in
      let (signature, same) = query_params-eq-ok N db_name query session key ran.first in
      let e =
        subst (λ p. own "session_id" p ≡ attached session) same
          (query_fields-session db_name query session signature) in
      let q =
        subst (λ p. own "query" p ≡ str query) same
          (query_fields-query db_name query session signature) in
      subst (Asked query session res w) (sym ran.world)
        (post_params-eq-ok query session ran.value res w q e ran.then_result)

  -- The sessions of the checks, newest first, before those that were there.
  abbrev pub with_sessions : List (Test Num) → List (Value Num) → List (Value Num)
  with_sessions [] vs = vs
  with_sessions (t ∷ ts) vs = with_sessions ts (attached t.options.session ∷ vs)

  update-posted :
      (f : TestState Num → Result (TestState Num)) (w : World (Script R (TestState Num)))
      → (update f w).1.server.posted ≡ w.server.posted
  unfolding update outside
  update-posted f w = go w.server (f w.server.counters)
    where
      go :
          (s : Script R (TestState Num)) (r : Result (TestState Num))
          → (updated_with s r).1.posted ≡ s.posted
      go s (ok c) = refl
      go s (throw e) = refl

  run_test-sessions :
      (db_name : String) (t : Test Num) (w : World (Script R (TestState Num)))
      → (run_test N db_name t w).0 ≡ ok tt
      → sessions (run_test N db_name t w).1 ≡ attached t.options.session ∷ sessions w
  unfolding run_test read_counters observe
  run_test-sessions db_name t w h =
      let a = >>=-eq-ok _ _ w h in
      let b = >>=-eq-ok _ _ _ a.then_result in
      let asked = send_query-Asked db_name t.query t.options.session a.value b.value w b.first in
      ap sessions (a.world ∙ b.world)
      ∙ ap (map session_of) (update-posted _ _ ∙ asked.posted)
      ∙ ap (λ v. v ∷ sessions w) asked.goes_with

  pub run_tests-sessions :
      (db_name : String) (ts : List (Test Num)) (w : World (Script R (TestState Num)))
      → (run_tests N db_name ts w).0 ≡ ok tt
      → sessions (run_tests N db_name ts w).1 ≡ with_sessions ts (sessions w)
  unfolding run_tests pure
  run_tests-sessions db_name [] w h = refl
  run_tests-sessions db_name (t ∷ ts) w h =
      let a = >>=-eq-ok _ _ w h in
      ap sessions a.world
      ∙ run_tests-sessions db_name ts _ a.then_result
      ∙ ap (with_sessions ts) (run_test-sessions db_name t w a.first)
