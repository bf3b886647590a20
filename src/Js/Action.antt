-- ===== src/Js/Action.antt =====
-- Code that awaits: a state and exception monad. The state comes back beside a throw too, since a
-- request that was sent stays sent. `sent` and `console` record, newest first, the requests to the
-- RPC server and the tags of what was logged.
pub mod Keeps
pub mod Inversion
pub mod Yields
use wwfsdb.Base.{String, List, ◌∷◌, ◌≡◌, refl}
use wwfsdb.Js.Value.{Value, Exn, Result, ok, throw}
use wwfsdb.Js.Runtime.{Runtime, RpcRequest}

pub record World (S : Type 0) : Type 0 where
  pub server : S
  pub sent : List RpcRequest
  pub console : List String

abbrev pub Action {ℓ} : Type 0 → Type ℓ → Type ℓ
Action S A = World S → Result A × World S

module _ {S A : Type 0} where
  unfoldable pub pure : A → Action S A
  pure a w = (ok a, w)

  unfoldable pub raise : Exn → Action S A
  raise e w = (throw e, w)

  -- Code that may throw and changes nothing.
  unfoldable pub lift : Result A → Action S A
  lift r w = (r, w)

  -- Code that only looks at the outside.
  unfoldable pub observe : (S → Result A) → Action S A
  observe f w = (f w.server, w)

  -- A package's call that moves the outside on: a random number, a hash.
  unfoldable pub outside : (S → Result A × S) → Action S A
  outside f w = let (r, s') = f w.server in (r, record w { server = s' })

  unfoldable pub outside_value : (S → A × S) → Action S A
  outside_value f w = let (a, s') = f w.server in (ok a, record w { server = s' })

  abbrev handled : Result A → (Exn → Action S A) → Action S A
  handled (ok a) h w = (ok a, w)
  handled (throw e) h w = h e w

  -- `try { m } catch (e) { h(e) }`
  unfoldable pub catch : Action S A → (Exn → Action S A) → Action S A
  catch m h w = let (r, w') = m w in handled r h w'

-- `console.error(tag, …)`
unfoldable pub log : {S : Type 0} → String → Action S (Unit {0})
log tag w = (ok tt, record w { console = tag ∷ w.console })

module _ {S A B : Type 0} where
  abbrev continue : Result A → (A → Action S B) → Action S B
  continue (ok a) f w = f a w
  continue (throw e) f w = (throw e, w)

  infixl 5 ◌>>=◌ ◌>>◌
  -- opening this opens the other operations too
  unfoldable pub ◌>>=◌ : Action S A → (A → Action S B) → Action S B
  unfolding pure raise lift observe outside outside_value catch log
  ◌>>=◌ m f w = let (r, w') = m w in continue r f w'

  abbrev pub ◌>>◌ : Action S A → Action S B → Action S B
  m >> n = m >>= λ _. n

-- `await axios.post(…)`: the request is on record whether or not it is answered.
module _ (R : Runtime) where
  unfoldable pub axios_post : RpcRequest → Action R.Server (Value R.Num)
  axios_post q w =
      let (r, s') = R.post q w.server in (r, record w { server = s'; sent = q ∷ w.sent })

module _ {S A B : Type 0} where
  pub pure-bind : (a : A) (f : A → Action S B) → (pure a >>= f) ≡ f a
  unfolding ◌>>=◌
  pure-bind a f = refl

  pub raise-bind : (e : Exn) (f : A → Action S B) → (raise e >>= f) ≡ raise e
  unfolding ◌>>=◌
  raise-bind e f = refl

  pub lift_ok-bind : (a : A) (f : A → Action S B) → (lift (ok a) >>= f) ≡ f a
  unfolding ◌>>=◌
  lift_ok-bind a f = refl

  pub lift_throw-bind : (e : Exn) (f : A → Action S B) → (lift (throw e) >>= f) ≡ raise e
  unfolding ◌>>=◌
  lift_throw-bind e f = refl
