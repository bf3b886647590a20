-- ===== src/Api/Guard.antt =====
-- What the route handlers share: the check of the user at the start, the `catch` at the end.
pub mod Refusals
pub mod Access
pub mod Rules
pub mod Success
pub mod Bodies
use wwfsdb.Base.{ℕ, String, true, false, not, [], ◌∷◌, List, if◌then◌else◌}
use wwfsdb.Js.Value.{Value, bool, Exn, Result, object, array, traverse}
use wwfsdb.Js.Convert.{truthy, or_else, elements}
use wwfsdb.Js.Runtime.{Runtime}
use wwfsdb.Js.Action.{Action, pure, lift, catch, log, ◌>>=◌, ◌>>◌}
use wwfsdb.Http.{Request, Response, json, failure, unauthorized}
use wwfsdb.Auth.{get_user_id_from_request}

-- `NextResponse.json({ success: true, [name]: value })`
abbrev pub success : {N : Type 0} → String → Value N → Response N
success name value = json (object (("success", bool true) ∷ (name, value) ∷ []))

module _ (R : Runtime) where
  open R use {Num, Server}

  abbrev pub Handler : Type 0
  Handler = Action Server (Response Num)

  -- `catch (error) { console.error(tag, error); return NextResponse.json({ … message }, 500) }`
  unfoldable pub answer_error : (tag message : String) → Exn → Handler
  answer_error tag message e = do log tag; pure (failure 500 message)

  -- `try { … } catch` with that handler
  unfoldable pub try_or_500 : (tag message : String) → Handler → Handler
  unfolding answer_error
  try_or_500 tag message body = catch body (answer_error tag message)

  -- `const userId = getUserIdFromRequest(request); if (!userId) return … 401`, then the rest
  unfoldable pub with_user : Request Num → (Value Num → Handler) → Handler
  with_user request rest = do
    user_id ← get_user_id_from_request R request
    if not (truthy R user_id) then pure unauthorized else rest user_id

  -- `rows || []`
  abbrev pub rows_or_empty : Value Num → Value Num
  rows_or_empty rows = or_else R rows (array [])

  -- `rows.map(f)`
  unfoldable pub map_rows :
      {B : Type 0} → (Value Num → Result B) → Value Num → Action Server (List B)
  map_rows f rows = do vs ← lift (elements R rows); lift (traverse f vs)
