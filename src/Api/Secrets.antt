-- ===== src/Api/Secrets.antt =====
-- Login and registration keep the password's hash to themselves.
use wwfsdb.Base.{◌≡◌, String, ◌==◌, eq_iff, arith, if◌then◌else◌}
use wwfsdb.Js.Value.{undefined, Fields, end, field, get_field, delete_field, own, ok}
use wwfsdb.Js.Runtime.{Runtime}
use wwfsdb.Js.Action.{World}
use wwfsdb.Js.Action.Yields.{Yields, yields_rules}
use wwfsdb.Http.{Request, Response}
use wwfsdb.Api.Guard.{try_or_500, answer_error}
use wwfsdb.Api.Login.{login_post}
use wwfsdb.Api.Register.{register_post}

get_field-delete_field :
    {N : Type 0} (k key : String) (fs : Fields N)
    → get_field k (delete_field key fs) ≡ (if key == k then undefined else get_field k fs)
get_field-delete_field k key end = ground arith
get_field-delete_field k key (field j v fs) =
    ground (arith, get_field-delete_field k key fs, eq_iff j key, eq_iff j k, eq_iff key k)

deleted :
    {N : Type 0} (key : String) (fs : Fields N) → get_field key (delete_field key fs) ≡ undefined
deleted key fs = ground (arith, get_field-delete_field key key fs, eq_iff key key)

-- The body shows no hash of a password in its `user`.
abbrev pub HidesHash : {N : Type 0} → Response N → Type 0
HidesHash r = own "password_hash" (own "user" r.body) ≡ undefined

module _ (R : Runtime) where
  open R use {Num}

  login-Yields : (request : Request Num) → Yields HidesHash (login_post R request)
  unfolding login_post try_or_500 answer_error
  login-Yields request = search (yields_rules, deleted) depth 20

  register-Yields : (request : Request Num) → Yields HidesHash (register_post R request)
  unfolding register_post try_or_500 answer_error
  register-Yields request = search yields_rules depth 40

-- No response of login has a password's hash in its `user`, whatever the row of the user holds.
pub login_post-HidesHash :
    (R : Runtime) (request : Request R.Num) (w : World R.Server) (r : Response R.Num)
    → (login_post R request w).0 ≡ ok r
    → own "password_hash" (own "user" r.body) ≡ undefined
login_post-HidesHash R request w r e = (login-Yields R request).yields w r e

-- No response of registration has a password's hash in its `user`.
pub register_post-HidesHash :
    (R : Runtime) (request : Request R.Num) (w : World R.Server) (r : Response R.Num)
    → (register_post R request w).0 ≡ ok r
    → own "password_hash" (own "user" r.body) ≡ undefined
register_post-HidesHash R request w r e = (register-Yields R request).yields w r e
