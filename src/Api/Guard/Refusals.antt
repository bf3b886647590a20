-- ===== src/Api/Guard/Refusals.antt =====
-- Handlers whose refusals write nothing, with one rule for each way to build a handler.
use wwfsdb.Base.{arith, ◌≡◌, Bool, true, false, not, ◌&&◌, String, if◌then◌else◌, ltb}
use wwfsdb.Js.Value.{Value, Exn, Result, ok, throw}
use wwfsdb.Js.Runtime.{Runtime}
use wwfsdb.Js.Action.{Action, World, pure, raise, lift, catch, ◌>>=◌}
use wwfsdb.Js.Action.Keeps.{Keeps}
use wwfsdb.Http.{Request, Response, json, failure}
use wwfsdb.Auth.Token.{Keeps-get_user_id}
use wwfsdb.Api.Guard.{Handler, try_or_500, with_user}
use wwfsdb.Api.Guard.Rules.{OnlyReads}

-- A status from 400 to 499: the caller is at fault.
abbrev pub is_refusal : {N : Type 0} → Response N → Bool
is_refusal r = not (ltb r.status 400) && ltb r.status 500

module _ {S N : Type 0} where
  -- Where `m` answers with a refusal, only reads have been sent.
  pub record RefusesCleanly (m : Action S (Response N)) : Type 0 where
    pub clean :
        (w : World S) (r : Response N)
        → OnlyReads w.sent
        → (m w).0 ≡ ok r
        → is_refusal r ≡ true
        → OnlyReads (m w).1.sent

  -- `m` answers with no refusal.
  pub record Accepts (m : Action S (Response N)) : Type 0 where
    pub accepts : (w : World S) (r : Response N) → (m w).0 ≡ ok r → is_refusal r ≡ false

  pub Accepts-json : (v : Value N) → Accepts (pure (json v))
  unfolding pure
  Accepts-json v = record { accepts = λ w r e. ground arith }

  pub Accepts-500 : (message : String) → Accepts (pure (failure 500 message))
  unfolding pure
  Accepts-500 message = record { accepts = λ w r e. ground arith }

  pub Accepts-raise : (e : Exn) → Accepts (raise e)
  unfolding raise
  Accepts-raise e = record { accepts = λ w r h. cc }

  pub Accepts-if :
      (b : Bool) (m n : Action S (Response N))
      → Accepts m
      → Accepts n
      → Accepts (if b then m else n)
  Accepts-if true m n am an = am
  Accepts-if false m n am an = an

  pub Accepts-bind :
      {A : Type 0} (m : Action S A) (f : A → Action S (Response N))
      → ((a : A) → Accepts (f a))
      → Accepts (m >>= f)
  unfolding ◌>>=◌
  Accepts-bind {A} m f af = record { accepts = λ w r e. let (x, w') = m w in go x w' r e }
    where
      go :
          (x : Result A) (w : World S) (r : Response N)
          → ((lift x >>= f) w).0 ≡ ok r
          → is_refusal r ≡ false
      go (ok a) w r e = (af a).accepts w r e
      go (throw x) w r e = cc

  pub RefusesCleanly-of_Keeps : (m : Action S (Response N)) → Keeps OnlyReads m → RefusesCleanly m
  RefusesCleanly-of_Keeps m k = record { clean = λ w r h e b. k.at w h }

  pub RefusesCleanly-of_Accepts : (m : Action S (Response N)) → Accepts m → RefusesCleanly m
  RefusesCleanly-of_Accepts m a = record { clean = λ w r h e b. let c = a.accepts w r e in cc }

  pub RefusesCleanly-if :
      (b : Bool) (m n : Action S (Response N))
      → RefusesCleanly m
      → RefusesCleanly n
      → RefusesCleanly (if b then m else n)
  RefusesCleanly-if true m n cm cn = cm
  RefusesCleanly-if false m n cm cn = cn

  pub RefusesCleanly-bind :
      {A : Type 0} (m : Action S A) (f : A → Action S (Response N))
      → Keeps OnlyReads m
      → ((a : A) → RefusesCleanly (f a))
      → RefusesCleanly (m >>= f)
  unfolding ◌>>=◌
  RefusesCleanly-bind {A} m f km cf = record {
    clean = λ w r h e b. let (x, w') = m w in go x w' r (km.at w h) e b;
  }
    where
      go :
          (x : Result A) (w : World S) (r : Response N)
          → OnlyReads w.sent
          → ((lift x >>= f) w).0 ≡ ok r
          → is_refusal r ≡ true
          → OnlyReads ((lift x >>= f) w).1.sent
      go (ok a) w r h e b = (cf a).clean w r h e b
      go (throw x) w r h e b = h

  pub RefusesCleanly-catch :
      (m : Action S (Response N)) (g : Exn → Action S (Response N))
      → RefusesCleanly m
      → ((e : Exn) → Accepts (g e))
      → RefusesCleanly (catch m g)
  unfolding catch lift
  RefusesCleanly-catch m g cm ag = record {
    clean = λ w r h e b.
        let (x, w') = m w in go x w' r (λ (y : Response N) p q. cm.clean w y h p q) e b;
  }
    where
      go :
          (x : Result (Response N)) (w : World S) (r : Response N)
          → ((y : Response N) → x ≡ ok y → is_refusal y ≡ true → OnlyReads w.sent)
          → (catch (lift x) g w).0 ≡ ok r
          → is_refusal r ≡ true
          → OnlyReads (catch (lift x) g w).1.sent
      go (ok y) w r h e b = h r e b
      go (throw x) w r h e b = let c = (ag x).accepts w r e in cc

  pub RefusesCleanly-pure : (r : Response N) → RefusesCleanly (pure r)
  unfolding pure
  RefusesCleanly-pure r = record { clean = λ w x h e b. h }

module _ (R : Runtime) where
  open R use {Num}

  pub RefusesCleanly-try_or_500 :
      (tag message : String) (body : Handler R)
      → RefusesCleanly body
      → RefusesCleanly (try_or_500 R tag message body)
  unfolding try_or_500
  RefusesCleanly-try_or_500 tag message body c =
      search (RefusesCleanly-catch, Accepts-bind, Accepts-500)

  pub RefusesCleanly-with_user :
      (request : Request Num) (rest : Value Num → Handler R)
      → ((user : Value Num) → RefusesCleanly (rest user))
      → RefusesCleanly (with_user R request rest)
  unfolding with_user
  RefusesCleanly-with_user request rest c =
      search (RefusesCleanly-bind, RefusesCleanly-if, RefusesCleanly-pure, Keeps-get_user_id R)
