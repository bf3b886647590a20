-- ===== src/Api/Guard/Bodies.antt =====
-- The bodies of the responses that are no errors.
use wwfsdb.Base.{◌≡◌, ltb, String, true, [], ◌∷◌, arith}
use wwfsdb.Js.Value.{Value, bool, object}
use wwfsdb.Js.Runtime.{Runtime}
use wwfsdb.Js.Action.Yields.{Yields, Yields-pure, Yields-bind, Yields-if, Yields-catch}
use wwfsdb.Http.{Request, Response}
use wwfsdb.Api.Guard.{Handler, try_or_500, answer_error, with_user}

module _ (R : Runtime) where
  open R use {Num}

  -- What a response holds whose status is below 300.
  abbrev pub Holds : String → (Value Num → Type 0) → Response Num → Type 0
  Holds name P r =
      ltb r.status 300 ≡ true
      → (v : Value Num) × P v × (r.body ≡ object (("success", bool true) ∷ (name, v) ∷ []))

  pub guarded-Yields :
      (tag message name : String) (P : Value Num → Type 0) (request : Request Num)
      (rest : Value Num → Handler R)
      → ((user : Value Num) → Yields (Holds name P) (rest user))
      → Yields (Holds name P) (try_or_500 R tag message (with_user R request rest))
  unfolding try_or_500 answer_error with_user
  guarded-Yields tag message name P request rest y =
      Yields-catch _ _
        (Yields-bind _ _
          λ user. Yields-if _ _ _ (Yields-pure _ (λ e. absurd (ground arith))) (y user))
        (λ e. Yields-bind _ _ λ _. Yields-pure _ (λ e. absurd (ground arith)))
