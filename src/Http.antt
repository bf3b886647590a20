-- ===== src/Http.antt =====
-- The part of next/server that the handlers use: a request's header and body, a response's status
-- and JSON body.
use wwfsdb.Base.{ℕ, String, Option, false, []}
use wwfsdb.Base.{◌∷◌}
use wwfsdb.Js.Value.{Value, bool, str, Result, object}

-- `body` is what `await request.json()` gives or throws; `params` holds the path's parameters.
pub record Request (N : Type 0) : Type 0 where
  pub authorization : Option String
  pub body : Result (Value N)
  pub loan_id : String

pub record Response (N : Type 0) : Type 0 where
  pub status : ℕ
  pub body : Value N

module _ {N : Type 0} where
  -- `NextResponse.json(body)` and `NextResponse.json(body, { status })`
  abbrev pub json : Value N → Response N
  json body = record { status = 200; body = body }

  -- `NextResponse.json({ success: false, message }, { status })`
  abbrev pub failure : ℕ → String → Response N
  failure status message = record {
    status = status;
    body = object (("success", bool false) ∷ ("message", str message) ∷ []);
  }

  abbrev pub unauthorized : Response N
  unauthorized = failure 401 "Unauthorized"
