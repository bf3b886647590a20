-- ===== src/Js/Action/Keeps.antt =====
-- Invariants of actions and actions that never throw, with one rule for each way to build an action.
use wwfsdb.Base.{◌≡◌, refl, Bool, true, false, if◌then◌else◌, String, List}
use wwfsdb.Js.Value.{Exn, Result, ok, throw}
use wwfsdb.Js.Runtime.{RpcRequest}
use wwfsdb.Js.Action.{
  World, Action, pure, raise, lift, observe, outside, outside_value, catch, log, ◌>>=◌,
}

-- What is on record as sent satisfies `P` after `m` if it did before, whether `m` returns or throws.
pub record Keeps {S A : Type 0} (P : List RpcRequest → Type 0) (m : Action S A) : Type 0 where
  pub at : (w : World S) → P w.sent → P (m w).1.sent

-- `m` returns: it does not throw.
pub record Answers {S A : Type 0} (m : Action S A) : Type 0 where
  pub answer : (w : World S) → (a : A) × ((m w).0 ≡ ok a)

module _ {S A : Type 0} {P : List RpcRequest → Type 0} where
  pub Keeps-pure : (a : A) → Keeps {S = S} P (pure a)
  unfolding pure
  Keeps-pure a = record { at = λ w h. h }

  pub Keeps-raise : (e : Exn) → Keeps {S = S} P (raise {A = A} e)
  unfolding raise
  Keeps-raise e = record { at = λ w h. h }

  pub Keeps-lift : (r : Result A) → Keeps {S = S} P (lift r)
  unfolding lift
  Keeps-lift r = record { at = λ w h. h }

  pub Keeps-observe : (f : S → Result A) → Keeps P (observe f)
  unfolding observe
  Keeps-observe f = record { at = λ w h. h }

  pub Keeps-outside : (f : S → Result A × S) → Keeps P (outside f)
  unfolding outside
  Keeps-outside f = record { at = λ w h. h }

  pub Keeps-outside_value : (f : S → A × S) → Keeps P (outside_value f)
  unfolding outside_value
  Keeps-outside_value f = record { at = λ w h. h }

  pub Keeps-if :
      (b : Bool) (m n : Action S A) → Keeps P m → Keeps P n → Keeps P (if b then m else n)
  Keeps-if true m n km kn = km
  Keeps-if false m n km kn = kn

  pub Keeps-catch :
      (m : Action S A) (h : Exn → Action S A)
      → Keeps P m
      → ((e : Exn) → Keeps P (h e))
      → Keeps P (catch m h)
  unfolding catch lift
  Keeps-catch m h km kh = record { at = λ w p. let (r, w') = m w in handled_keeps r w' (km.at w p) }
    where
      handled_keeps : (r : Result A) (w : World S) → P w.sent → P (catch (lift r) h w).1.sent
      handled_keeps (ok a) w p = p
      handled_keeps (throw e) w p = (kh e).at w p

module _ {S : Type 0} {P : List RpcRequest → Type 0} where
  pub Keeps-log : (tag : String) → Keeps {S = S} P (log tag)
  unfolding log
  Keeps-log tag = record { at = λ w h. h }

module _ {S A B : Type 0} {P : List RpcRequest → Type 0} where
  pub Keeps-bind :
      (m : Action S A) (f : A → Action S B)
      → Keeps P m
      → ((a : A) → Keeps P (f a))
      → Keeps P (m >>= f)
  unfolding ◌>>=◌
  Keeps-bind m f km kf = record { at = λ w h. let (r, w') = m w in continue_keeps r w' (km.at w h) }
    where
      continue_keeps : (r : Result A) (w : World S) → P w.sent → P ((lift r >>= f) w).1.sent
      continue_keeps (ok a) w p = (kf a).at w p
      continue_keeps (throw e) w p = p

module _ {S A : Type 0} where
  pub Answers-pure : (a : A) → Answers {S = S} (pure a)
  unfolding pure
  Answers-pure a = record { answer = λ w. (a, refl) }

  pub Answers-if :
      (b : Bool) (m n : Action S A) → Answers m → Answers n → Answers (if b then m else n)
  Answers-if true m n am an = am
  Answers-if false m n am an = an

  -- A handler that never throws makes the whole `try` never throw.
  pub Answers-catch :
      (m : Action S A) (h : Exn → Action S A) → ((e : Exn) → Answers (h e)) → Answers (catch m h)
  unfolding catch lift
  Answers-catch m h ah = record { answer = λ w. let (r, w') = m w in handled_answers r w' }
    where
      handled_answers : (r : Result A) (w : World S) → (a : A) × ((catch (lift r) h w).0 ≡ ok a)
      handled_answers (ok a) w = (a, refl)
      handled_answers (throw e) w = (ah e).answer w

module _ {S : Type 0} where
  pub Answers-log : (tag : String) → Answers {S = S} (log tag)
  unfolding log
  Answers-log tag = record { answer = λ w. (tt, refl) }

module _ {S A B : Type 0} where
  pub Answers-bind :
      (m : Action S A) (f : A → Action S B)
      → Answers m
      → ((a : A) → Answers (f a))
      → Answers (m >>= f)
  unfolding ◌>>=◌
  Answers-bind m f am af = record {
    answer = λ w. let (r, w') = m w in let (a, e) = am.answer w in continue_answers r w' a e;
  }
    where
      continue_answers :
          (r : Result A) (w : World S) (a : A) → r ≡ ok a → (b : B) × (((lift r >>= f) w).0 ≡ ok b)
      continue_answers (ok a) w _ _ = (af a).answer w
      continue_answers (throw e) w a h = cc

pub ruleset keeps_rules = (
  Keeps-pure, Keeps-raise, Keeps-lift, Keeps-observe, Keeps-outside, Keeps-outside_value, Keeps-if,
  Keeps-log, Keeps-catch, Keeps-bind,
)

pub ruleset answers_rules = (Answers-pure, Answers-if, Answers-catch, Answers-log, Answers-bind)
