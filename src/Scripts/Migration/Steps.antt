-- ===== src/Scripts/Migration/Steps.antt =====
-- What the migration comes to, whatever the server answers.
use wwfsdb.Base.{
  ◌≡◌, refl, ap, sym, ◌∙◌, ℕ, ◌+◌, inl, inr, String, Bool, true, false, List, [], ◌∷◌, arith,
  length, if◌then◌else◌, Bool-cases, filter, not,
}
use wwfsdb.Js.Value.{Value, null, str, Result, ok, throw, get}
use wwfsdb.Js.Convert.{truthy}
use wwfsdb.Js.Runtime.{Runtime}
use wwfsdb.Js.Action.{World, Action, pure, lift, outside, catch, ◌>>=◌}
use wwfsdb.Scripts.{
  Node, Script, query_params, post_data, post_params, update, read_counters, sleep, response,
}
use wwfsdb.Scripts.Migration.{
  MigrationState, migrated_db, migration_key, tallied, description, send_query, conclude,
  execute_migration_step, run_steps, is_skipped,
}

-- The statements that are executed.
abbrev steps_of : List String → List String
steps_of statements = filter (λ s. not (is_skipped s)) statements

tallied-total :
    (b : Bool) (s : MigrationState)
    → (tallied b s).completed + (tallied b s).failed ≡ s.completed + s.failed + 1
tallied-total true s = omega arith
tallied-total false s = omega arith

module _ {R : Runtime} (N : Node R) where
  open R use {Num, of_ℕ, num_to_string}
  open N use {upper}

  -- What is on record with a query that could be signed, and the next identifier.
  abbrev with_request : Result (Value Num) → List (Value Num) × ℕ → List (Value Num) × ℕ
  with_request (ok p) (posted, id) = (post_data R p id ∷ posted, id + 1)
  with_request (throw e) (posted, id) = (posted, id)

  -- One statement after the other, without a look at any answer.
  abbrev pub requests : List String → List (Value Num) × ℕ → List (Value Num) × ℕ
  requests [] r = r
  requests (q ∷ qs) r =
      requests qs (with_request (query_params N migrated_db q null (str migration_key)) r)

  abbrev pub recorded : World (Script R MigrationState) → List (Value Num) × ℕ
  recorded w = (w.server.posted, w.server.request_id)

  -- What a query comes to, by its parameters: the answer, and what is left outside.
  abbrev answer_to : Result (Value Num) → ℕ → R.Server → Result (Value Num) × R.Server
  answer_to (ok p) id o =
      let (reply, o') = N.exchange "/rpc" (post_data R p id) o in (response N reply, o')
  answer_to (throw e) id o = (throw e, o)

  abbrev no_error : Result (Value Num) → Bool
  no_error (ok err) = not (truthy R err)
  no_error (throw e) = false

  -- An answer came, and holds no error.
  abbrev went_well : Result (Value Num) → Bool
  went_well (ok res) = no_error (get "error" res)
  went_well (throw e) = false

  -- How many of the statements are answered well, asked one after the other.
  pub completions : List String → List (Value Num) × ℕ → R.Server → ℕ
  completions [] r o = 0
  completions (q ∷ qs) r o =
      let p = query_params N migrated_db q null (str migration_key) in
      let fate = answer_to p r.1 o in
      let later = completions qs (with_request p r) fate.1 in
      if went_well fate.0 then later + 1 else later

  abbrev fate_of : String → World (Script R MigrationState) → Result (Value Num) × R.Server
  fate_of query w =
      answer_to (query_params N migrated_db query null (str migration_key)) w.server.request_id
        w.server.server

  -- A step: it returns, counts itself once, as completed exactly if its statement is answered well, and
  -- has posted its statement if it could be signed.
  record Stepped (query : String) (w : World (Script R MigrationState))
      (after : Result Bool × World (Script R MigrationState)) : Type 0 where
    success : Bool
    result : after.0 ≡ ok success
    counters : after.1.server.counters ≡ tallied success w.server.counters
    record_kept : recorded after.1 ≡ requests (query ∷ []) (recorded w)
    well : success ≡ went_well (fate_of query w).0
    outside_left : after.1.server.server ≡ (fate_of query w).1

  concluded :
      (query title : String) (success : Bool) (w w' : World (Script R MigrationState))
      → w'.server.counters ≡ w.server.counters
      → recorded w' ≡ requests (query ∷ []) (recorded w)
      → success ≡ went_well (fate_of query w).0
      → w'.server.server ≡ (fate_of query w).1
      → Stepped query w (conclude N success title w')
  unfolding conclude update outside ◌>>=◌
  concluded query title success w w' c p s o = record {
    success = success;
    result = refl;
    counters = ap (tallied success) c;
    record_kept = p;
    well = s;
    outside_left = o;
  }

  judge : (title : String) (res : Value Num) → Action (Script R MigrationState) Bool
  judge title res = lift (get "error" res) >>= λ err.
      if truthy R err then conclude N false title else conclude N true title

  guarded :
      (title : String)
      → Action (Script R MigrationState) Bool
      → Action (Script R MigrationState) Bool
  guarded title m = catch m (λ e. conclude N false title)

  module _ (query title : String) (w : World (Script R MigrationState)) where
    judged :
        (b : Bool) (w' : World (Script R MigrationState))
        → w'.server.counters ≡ w.server.counters
        → recorded w' ≡ requests (query ∷ []) (recorded w)
        → went_well (fate_of query w).0 ≡ not b
        → w'.server.server ≡ (fate_of query w).1
        → Stepped query w
            (guarded title (if b then conclude N false title else conclude N true title) w')
    unfolding guarded catch conclude update outside ◌>>=◌
    judged true w' c p s o = concluded query title false w w' c p (sym s) o
    judged false w' c p s o = concluded query title true w w' c p (sym s) o

    asked :
        (g : Result (Value Num)) (w' : World (Script R MigrationState))
        → w'.server.counters ≡ w.server.counters
        → recorded w' ≡ requests (query ∷ []) (recorded w)
        → went_well (fate_of query w).0 ≡ no_error g
        → w'.server.server ≡ (fate_of query w).1
        → Stepped query w (
            guarded title
              (lift g >>= λ err.
                if truthy R err then conclude N false title else conclude N true title)
              w')
    unfolding guarded catch ◌>>=◌
    asked (throw e) w' c p s o = concluded query title false w w' c p (sym s) o
    asked (ok err) w' c p s o = judged (truthy R err) w' c p s o

    answered :
        (a : Result (Value Num)) (w' : World (Script R MigrationState))
        → w'.server.counters ≡ w.server.counters
        → recorded w' ≡ requests (query ∷ []) (recorded w)
        → (fate_of query w).0 ≡ a
        → w'.server.server ≡ (fate_of query w).1
        → Stepped query w (guarded title (lift a >>= judge title) w')
    unfolding guarded catch ◌>>=◌ judge
    answered (throw e) w' c p s o = concluded query title false w w' c p (sym (ap went_well s)) o
    answered (ok res) w' c p s o = asked (get "error" res) w' c p (ap went_well s) o

    fate :
        {r : Result (Value Num)}
        → query_params N migrated_db query null (str migration_key) ≡ r
        → fate_of query w ≡ answer_to r w.server.request_id w.server.server
    fate h = ap (λ r. answer_to r w.server.request_id w.server.server) h

    sent_off :
        (r : Result (Value Num))
        → query_params N migrated_db query null (str migration_key) ≡ r
        → Stepped query w (guarded title ((lift r >>= post_params N) >>= judge title) w)
    unfolding guarded catch ◌>>=◌ post_params outside
    sent_off (throw e) h =
        concluded query title false w w refl (ap (λ r. with_request r (recorded w)) (sym h))
          (sym (ap went_well (ap (λ x. x.0) (fate h)))) (sym (ap (λ x. x.1) (fate h)))
    sent_off (ok p) h =
        answered _ _ refl (ap (λ r. with_request r (recorded w)) (sym h)) (ap (λ x. x.0) (fate h))
          (sym (ap (λ x. x.1) (fate h)))

    step-Stepped : Stepped query w (execute_migration_step N query title w)
    unfolding execute_migration_step send_query wwfsdb.Scripts.send_query guarded judge
    step-Stepped = sent_off (query_params N migrated_db query null (str migration_key)) refl

  -- The loop: it returns, counts each statement that is not passed over once, and posts them in order.
  pub record Finished (statements : List String) (w : World (Script R MigrationState))
      (after : Result (Unit {0}) × World (Script R MigrationState)) : Type 0 where
    pub result : after.0 ≡ ok tt
    pub total :
        after.1.server.counters.completed + after.1.server.counters.failed
        ≡ w.server.counters.completed + w.server.counters.failed + length (steps_of statements)
    pub record_kept : recorded after.1 ≡ requests (steps_of statements) (recorded w)
    pub done :
        after.1.server.counters.completed
        ≡ w.server.counters.completed
          + completions (steps_of statements) (recorded w) w.server.server

  after_step :
      (m : Action (Script R MigrationState) Bool)
      (f : Bool → Action (Script R MigrationState) (Unit {0})) (w : World (Script R MigrationState))
      (b : Bool)
      → (m w).0 ≡ ok b
      → (m >>= f) w ≡ f b (m w).1
  unfolding ◌>>=◌
  after_step m f w b h = let (r, w') = m w in go r w' h
    where
      go :
          (r : Result Bool) (w' : World (Script R MigrationState))
          → r ≡ ok b
          → (lift r >>= f) w' ≡ f b w'
      go (ok a) w' h = let same : a ≡ b = ground arith in ap (λ c. f c w') same
      go (throw e) w' h = absurd (ground arith)

  pub run_steps-Finished :
      (n : ℕ) (statements : List String) (w : World (Script R MigrationState))
      → Finished statements w (run_steps N n statements w)
  unfolding run_steps pure completions
  run_steps-Finished n [] w = record {
    result = refl;
    total = omega arith;
    record_kept = refl;
    done = omega arith;
  }
  run_steps-Finished n (q ∷ qs) w = elim (Bool-cases (is_skipped q)) [
    | inl e ↦
        let rest = run_steps-Finished n qs w in
        record {
          result = rw e rest.result;
          total = rw e rest.total;
          record_kept = rw e rest.record_kept;
          done = rw e rest.done;
        }
    | inr e ↦
        let title = description upper (num_to_string (of_ℕ n)) q in
        let s = step-Stepped q title w in
        let w1 = (execute_migration_step N q title w).1 in
        let rest = run_steps-Finished (n + 1) qs w1 in
        let same =
          after_step (execute_migration_step N q title) (λ _. run_steps N (n + 1) qs) w s.success
            s.result in
        record {
          result = rw (e, same) rest.result;
          total =
              rw (e, same)
                (omega (
                  arith,
                  rest.total,
                  ap (λ c. c.completed + c.failed) s.counters,
                  tallied-total s.success w.server.counters,
                ));
          record_kept = rw (e, same) (rest.record_kept ∙ ap (requests (steps_of qs)) s.record_kept);
          done =
              rw (e, same)
                (ground (
                  arith,
                  rest.done,
                  ap (λ c. c.completed) s.counters,
                  s.well,
                  ap (λ r. completions (steps_of qs) r w1.server.server) s.record_kept,
                  ap (λ o. completions (steps_of qs) (requests (q ∷ []) (recorded w)) o)
                      s.outside_left,
                ));
        }
  ]
