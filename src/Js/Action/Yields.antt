-- ===== src/Js/Action/Yields.antt =====
-- What holds of every value that an action returns, with one rule for each way to build it.
use wwfsdb.Base.{◌≡◌, refl, subst, Bool, true, false, if◌then◌else◌}
use wwfsdb.Js.Value.{Exn, Result, ok, throw}
use wwfsdb.Js.Action.{World, Action, pure, raise, lift, catch, ◌>>=◌}

module _ {S A : Type 0} where
  pub record Yields (Q : A → Type 0) (m : Action S A) : Type 0 where
    pub yields : (w : World S) (a : A) → (m w).0 ≡ ok a → Q a

abbrev value_or : {A : Type 0} → Result A → A → A
value_or (ok a) _ = a
value_or (throw e) a = a

module _ {S A : Type 0} {Q : A → Type 0} where
  pub Yields-pure : (a : A) → Q a → Yields {S = S} Q (pure a)
  unfolding pure
  Yields-pure a q = record { yields = λ w b e. subst (λ r. Q (value_or r a)) e q }

  pub Yields-raise : (e : Exn) → Yields {S = S} Q (raise e)
  unfolding raise
  Yields-raise e = record { yields = λ w b h. cc }

  pub Yields-if :
      (b : Bool) (m n : Action S A) → Yields Q m → Yields Q n → Yields Q (if b then m else n)
  Yields-if true m n ym yn = ym
  Yields-if false m n ym yn = yn

  pub Yields-catch :
      (m : Action S A) (h : Exn → Action S A)
      → Yields Q m
      → ((e : Exn) → Yields Q (h e))
      → Yields Q (catch m h)
  unfolding catch lift
  Yields-catch m h ym yh = record {
    yields = λ w a e. let (r, w') = m w in go r w' a (ym.yields w) e;
  }
    where
      go :
          (r : Result A) (w : World S) (a : A)
          → ((b : A) → r ≡ ok b → Q b)
          → (catch (lift r) h w).0 ≡ ok a
          → Q a
      go (ok b) w a q e = q a e
      go (throw x) w a q e = (yh x).yields w a e

module _ {S A B : Type 0} {Q : B → Type 0} where
  pub Yields-bind :
      (m : Action S A) (f : A → Action S B) → ((a : A) → Yields Q (f a)) → Yields Q (m >>= f)
  unfolding ◌>>=◌
  Yields-bind m f yf = record { yields = λ w b e. let (r, w') = m w in go r w' b e }
    where
      go : (r : Result A) (w : World S) (b : B) → ((lift r >>= f) w).0 ≡ ok b → Q b
      go (ok a) w b e = (yf a).yields w b e
      go (throw x) w b e = cc

module _ {S A : Type 0} {Q : A → Type 0} where
  pub Yields-lift : (r : Result A) → ((a : A) → r ≡ ok a → Q a) → Yields {S = S} Q (lift r)
  unfolding lift
  Yields-lift r q = record { yields = λ w a e. q a e }

module _ {S A B : Type 0} {P : A → Type 0} {Q : B → Type 0} where
  -- A bind whose second part needs what the first one gives.
  pub Yields-then :
      (m : Action S A) (f : A → Action S B)
      → Yields P m
      → ((a : A) → P a → Yields Q (f a))
      → Yields Q (m >>= f)
  unfolding ◌>>=◌
  Yields-then m f ym yf = record {
    yields = λ w b e. let (r, w') = m w in go r w' b (ym.yields w) e;
  }
    where
      go :
          (r : Result A) (w : World S) (b : B)
          → ((a : A) → r ≡ ok a → P a)
          → ((lift r >>= f) w).0 ≡ ok b
          → Q b
      go (ok a) w b p e = (yf a (p a refl)).yields w b e
      go (throw x) w b p e = cc

pub ruleset yields_rules = (Yields-pure, Yields-raise, Yields-if, Yields-catch, Yields-bind)
