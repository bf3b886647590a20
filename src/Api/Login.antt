-- ===== src/Api/Login.antt =====
-- app/api/auth/login/route.ts
pub mod Checks
use Prim.Native.String.{◌++◌}
use wwfsdb.Base.{String, true, not, ◌||◌, [], ◌∷◌, if◌then◌else◌}
use wwfsdb.Js.Value.{Value, bool, str, obj, object, get, spread, delete_field}
use wwfsdb.Js.Convert.{truthy, to_text, no_rows, first_row}
use wwfsdb.Js.Runtime.{Runtime}
use wwfsdb.Js.Action.{pure, lift, observe, ◌>>=◌}
use wwfsdb.Http.{Request, json, failure}
use wwfsdb.Auth.{jwt_secret}
use wwfsdb.Rpc.{execute_query}
use wwfsdb.Api.Guard.{Handler, try_or_500}

module _ (R : Runtime) where
  open R use {Num, bcrypt_compare, jwt_sign, jwt_secret_env}

  abbrev pub user_query : Value Num → String
  user_query email = "SELECT * FROM users WHERE email = '" ++ to_text R email ++ "' LIMIT 1"

  -- `{ ...user }` without `password_hash`
  abbrev pub without_hash : Value Num → Value Num
  without_hash user = obj (delete_field "password_hash" (spread user))

  -- the part behind the search for the user
  check_password : (password user : Value Num) → Handler R
  check_password password user = do
    hash ← lift (get "password_hash" user)
    valid ← observe (λ s. bcrypt_compare password hash)
    if not valid then pure (failure 401 "Invalid credentials") else do
      user_id ← lift (get "user_id" user)
      token ←
          observe
            (λ s. jwt_sign s (object (("userId", user_id) ∷ [])) (jwt_secret jwt_secret_env) "7d")
      pure (
          json (
            object
              (("success", bool true) ∷ ("user", without_hash user) ∷ ("token", str token) ∷ [])))

  find_user : (email password : Value Num) → Handler R
  find_user email password = do
    users ← execute_query R (user_query email)
    if no_rows R users
        then pure (failure 401 "Invalid credentials")
        else check_password password (first_row R users)

  unfoldable pub login_post : Request Num → Handler R
  unfolding find_user check_password
  login_post request = try_or_500 R "[LOGIN_ERROR]" "Server error" (do
    body ← lift request.body
    email ← lift (get "email" body)
    password ← lift (get "password" body)
    if not (truthy R email) || not (truthy R password)
        then pure (failure 400 "Email and password are required")
        else find_user email password)
