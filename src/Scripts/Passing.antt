-- ===== src/Scripts/Passing.antt =====
-- What the counters of the test script say of the checks that were made.
use wwfsdb.Base.{
  ◌≡◌, refl, ◌∙◌, ◌≢◌, sym, subst, ℕ, ◌+◌, ◌≤◌, String, Bool, true, false, List, [], ◌∷◌, length,
  arith, if◌then◌else◌,
}
use wwfsdb.Js.Value.{Value, Exn, Result, ok, throw}
use wwfsdb.Js.Runtime.{Runtime}
use wwfsdb.Js.Action.{
  World, Action, pure, raise, lift, observe, outside, outside_value, catch, ◌>>=◌,
}
use wwfsdb.Js.Action.Inversion.{>>=-eq-ok}
use wwfsdb.Scripts.{
  Node, Script, TestState, update, updated_with, read_counters, post_params, send_query, sleep,
}
use wwfsdb.Scripts.Checks.{count}
use wwfsdb.Scripts.Suite.{Test, Kind, run_test, run_tests, verdict}
use wwfsdb.Scripts.Counts.{Check, checked, checked-Counted}

-- From `s` to `t`, either more has failed or exactly `n` more have passed.
pub record Adds {N : Type 0} (n : ℕ) (s t : TestState N) : Type 0 where
  pub fails : s.failed ≤ t.failed
  pub passes : t.failed ≤ s.failed → t.passed ≡ s.passed + n

module _ {N : Type 0} where
  Adds-refl : (s : TestState N) → Adds 0 s s
  Adds-refl s = record { fails = omega arith; passes = λ h. omega arith }

  Adds-trans : {m n : ℕ} {s t u : TestState N} → Adds m s t → Adds n t u → Adds (m + n) s u
  Adds-trans a b = record {
    fails = omega (arith, a.fails, b.fails);
    passes = λ h.
        let second = b.passes (omega (arith, h, a.fails, b.fails)) in
        let first = a.passes (omega (arith, h, a.fails, b.fails)) in omega (arith, first, second);
  }

  pub failed-Adds : (n : ℕ) (s : TestState N) → Adds n s (count false s)
  failed-Adds n s = record { fails = omega arith; passes = λ h. absurd (omega (arith, h)) }

  pub count-Adds : (b : Bool) (s : TestState N) → Adds 1 s (count b s)
  count-Adds true s = record { fails = omega arith; passes = λ h. omega arith }
  count-Adds false s = record { fails = omega arith; passes = λ h. absurd (omega (arith, h)) }

module _ {R : Runtime} {A : Type 0} where
  open R use {Num}

  -- When `m` returns, more has failed or exactly `n` more have passed.
  pub record Passes (n : ℕ) (m : Action (Script R (TestState Num)) A) : Type 0 where
    pub adds :
        (w : World (Script R (TestState Num))) (a : A)
        → (m w).0 ≡ ok a
        → Adds n w.server.counters (m w).1.server.counters

  pub Passes-pure : (a : A) → Passes 0 (pure a)
  unfolding pure
  Passes-pure a = record { adds = λ w _ _. Adds-refl w.server.counters }

  pub Passes-raise : (n : ℕ) (e : Exn) → Passes n (raise e)
  unfolding raise
  Passes-raise n e = record { adds = λ w _ h. absurd (ground arith) }

  pub Passes-lift : (r : Result A) → Passes 0 (lift r)
  unfolding lift
  Passes-lift r = record { adds = λ w _ _. Adds-refl w.server.counters }

  pub Passes-read : (f : TestState Num → A) → Passes 0 (read_counters f)
  unfolding read_counters observe
  Passes-read f = record { adds = λ w _ _. Adds-refl w.server.counters }

  pub Passes-if :
      (n : ℕ) (b : Bool) (m k : Action (Script R (TestState Num)) A)
      → Passes n m
      → Passes n k
      → Passes n (if b then m else k)
  Passes-if n true m k pm pk = pm
  Passes-if n false m k pm pk = pk

module _ {R : Runtime} {A B : Type 0} where
  open R use {Num}

  pub Passes-bind :
      (n k : ℕ) (m : Action (Script R (TestState Num)) A)
      (f : A → Action (Script R (TestState Num)) B)
      → Passes n m
      → ((a : A) → Passes k (f a))
      → Passes (n + k) (m >>= f)
  Passes-bind n k m f pm pf = record {
    adds = λ w b h.
        let ran = >>=-eq-ok m f w h in
        subst (λ v. Adds (n + k) w.server.counters v.server.counters) (sym ran.world)
          (Adds-trans (pm.adds w ran.value ran.first)
            ((pf ran.value).adds (m w).1 b ran.then_result));
  }

  -- A first part that counts nothing.
  pub Passes-after :
      (k : ℕ) (m : Action (Script R (TestState Num)) A)
      (f : A → Action (Script R (TestState Num)) B)
      → Passes 0 m
      → ((a : A) → Passes k (f a))
      → Passes k (m >>= f)
  Passes-after k m f pm pf =
      subst (λ n. Passes n (m >>= f)) (omega arith) (Passes-bind 0 k m f pm pf)

abbrev checking : {N : Type 0} → Kind N → String → Result (Value N) → Check N
checking (Kind.query_result rows) query = Check.query_result rows
checking (Kind.ordered_result rows) query = Check.ordered_result rows
checking Kind.command_success query = Check.command_success query
checking Kind.command_failure query = Check.command_failure

module _ {R : Runtime} (N : Node R) where
  open R use {Num}

  verdict-checked :
      (k : Kind Num) (query : String) (res : Value Num) (s : TestState Num)
      → verdict N k query res s ≡ checked R N.upper (checking k query (ok res)) s
  verdict-checked (Kind.query_result rows) query res s = refl
  verdict-checked (Kind.ordered_result rows) query res s = refl
  verdict-checked Kind.command_success query res s = refl
  verdict-checked Kind.command_failure query res s = refl

  verdict-Adds :
      (k : Kind Num) (query : String) (res : Value Num) (s t : TestState Num)
      → verdict N k query res s ≡ ok t
      → Adds 1 s t
  verdict-Adds k query res s t h =
      let (b, same) =
        checked-Counted R N.upper (checking k query (ok res)) s
          (sym (verdict-checked k query res s) ∙ h) in
      subst (Adds 1 s) (sym same) (count-Adds b s)

  Passes-update :
      (n : ℕ) (f : TestState Num → Result (TestState Num))
      → ((s t : TestState Num) → f s ≡ ok t → Adds n s t)
      → Passes {R = R} n (update f)
  unfolding update outside
  Passes-update n f af = record { adds = λ w a h. go w (f w.server.counters) a refl h }
    where
      go :
          (w : World (Script R (TestState Num))) (r : Result (TestState Num)) (a : Unit {0})
          → f w.server.counters ≡ r
          → (updated_with w.server r).0 ≡ ok a
          → Adds n w.server.counters (updated_with w.server r).1.counters
      go w (ok t) a e h = af w.server.counters t e
      go w (throw x) a e h = absurd (ground arith)

  Passes-post : (params : Value Num) → Passes {R = R} 0 (post_params N params)
  unfolding post_params outside
  Passes-post params = record { adds = λ w a h. Adds-refl w.server.counters }

  pub Passes-send :
      (db_name query : String) (session key : Value Num)
      → Passes {R = R} 0 (send_query N db_name query session key)
  unfolding send_query
  Passes-send db_name query session key =
      Passes-after 0 _ _ (Passes-lift _) (λ params. Passes-post params)

  pub Passes-sleep : (n : ℕ) → Passes {R = R} 0 (sleep N n)
  unfolding sleep outside_value
  Passes-sleep n = record { adds = λ w a h. Adds-refl w.server.counters }

  pub Passes-run_test : (db_name : String) (t : Test Num) → Passes {R = R} 1 (run_test N db_name t)
  unfolding run_test
  Passes-run_test db_name t = Passes-after 1 _ _ (Passes-read _) λ key.
      Passes-after 1 _ _ (Passes-send db_name t.query t.options.session key)
        λ res. Passes-update 1 _ (verdict-Adds t.kind t.query res)

  pub Passes-run_tests :
      (db_name : String) (ts : List (Test Num))
      → Passes {R = R} (length ts) (run_tests N db_name ts)
  unfolding run_tests
  Passes-run_tests db_name [] = Passes-pure tt
  Passes-run_tests db_name (t ∷ ts) =
      subst (λ n. Passes n (run_tests N db_name (t ∷ ts))) (omega arith)
        (Passes-bind 1 (length ts) _ _ (Passes-run_test db_name t)
          (λ _. Passes-run_tests db_name ts))

  -- Code that sets the counters.
  pub Passes-set :
      (n : ℕ) (f : TestState Num → TestState Num)
      → ((s : TestState Num) → Adds n s (f s))
      → Passes {R = R} n (update (λ s. ok (f s)))
  Passes-set n f af =
      Passes-update n _ λ s t h. let same : f s ≡ t = ground arith in subst (Adds n s) same (af s)

  -- A `try` whose handler always throws.
  pub Passes-catch :
      {A : Type 0} (n : ℕ) (m : Action (Script R (TestState Num)) A)
      (h : Exn → Action (Script R (TestState Num)) A)
      → Passes n m
      → ((e : Exn) (w : World (Script R (TestState Num))) (a : A) → (h e w).0 ≢ ok a)
      → Passes n (catch m h)
  unfolding catch lift
  Passes-catch {A} n m h pm throws = record {
    adds = λ w a e. let (r, w') = m w in go w r w' a (pm.adds w) e;
  }
    where
      go :
          (w : World (Script R (TestState Num))) (r : Result A)
          (w' : World (Script R (TestState Num))) (a : A)
          → ((b : A) → r ≡ ok b → Adds n w.server.counters w'.server.counters)
          → (catch (lift r) h w').0 ≡ ok a
          → Adds n w.server.counters (catch (lift r) h w').1.server.counters
      go w (ok b) w' a adds e = adds b refl
      go w (throw x) w' a adds e = absurd (throws x w' a e)
