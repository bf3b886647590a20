-- ===== src/Api/Register.antt =====
-- app/api/auth/register/route.ts
pub mod Statements
use Prim.Native.Char.{code}
use Prim.Native.Nat.{compare, Ordering}
use Prim.Native.String.{◌++◌}
use wwfsdb.Base.{String, true, not, ◌&&◌, ◌||◌, List, [], ◌∷◌, if◌then◌else◌}
use wwfsdb.Js.Value.{
  Value, bool, str, obj, Fields, Result, ok, throw, type_error, object, object_fields, get,
  delete_field,
}
use wwfsdb.Js.Convert.{truthy, to_text, or_else, has_rows}
use wwfsdb.Js.Runtime.{Runtime}
use wwfsdb.Js.Action.{Action, pure, lift, observe, outside, outside_value, ◌>>=◌, ◌>>◌}
use wwfsdb.Http.{Request, json, failure}
use wwfsdb.Auth.{jwt_secret}
use wwfsdb.Rpc.{execute_query, execute_write_query}
use wwfsdb.Api.Guard.{Handler, try_or_500}

-- `s.split("@")[0]`
unfoldable pub before_at : String → String
before_at String.[] = ""
before_at (String.◌∷◌ c s) = elim (compare (code c) b'@') [
  | Ordering.eq ↦ ""
  | _ ↦ String.◌∷◌ c (before_at s)
]

module _ (R : Runtime) where
  open R use {
    Num, Server, of_ℕ, num_mul, num_add, floor, num_to_string, random, uuid, now_iso, bcrypt_hash,
    jwt_sign, jwt_secret_env,
  }

  abbrev pub existing_query : Value Num → String
  existing_query email = "SELECT user_id FROM users WHERE email = '" ++ to_text R email ++ "'"

  -- `email.split("@")[0]`: only a text has the method
  abbrev pub local_part : Value Num → Result String
  local_part (str s) = ok (before_at s)
  local_part _ = throw type_error

  -- `Math.floor(Math.random() * range)`
  random_below : Num → Action Server Num
  random_below range = do r ← outside_value random; pure (floor (num_mul r range))

  -- the object `newUser`
  pub record NewUser : Type 0 where
    pub user_id : String
    pub username : String
    pub email : Value Num
    pub password_hash : String
    pub full_name : Value Num
    pub phone_number : Value Num
    pub created_at : String
    pub updated_at : String

  abbrev pub user_fields : NewUser → Fields Num
  user_fields u = object_fields (
      ("user_id", str u.user_id)
      ∷ ("username", str u.username)
      ∷ ("email", u.email)
      ∷ ("password_hash", str u.password_hash)
      ∷ ("full_name", u.full_name)
      ∷ ("phone_number", u.phone_number)
      ∷ ("address", str "")
      ∷ ("created_at", str u.created_at)
      ∷ ("updated_at", str u.updated_at)
      ∷ [])

  abbrev pub insert_user : NewUser → String
  insert_user u =
      "INSERT INTO users (user_id, username, password_hash, email, full_name, phone_number, "
      ++ "address, created_at, updated_at) \n        VALUES ('"
      ++ u.user_id
      ++ "', '"
      ++ u.username
      ++ "', '"
      ++ u.password_hash
      ++ "', '"
      ++ to_text R u.email
      ++ "', '"
      ++ to_text R u.full_name
      ++ "', '"
      ++ to_text R u.phone_number
      ++ "', '', '"
      ++ u.created_at
      ++ "', '"
      ++ u.updated_at
      ++ "');"

  abbrev pub insert_account : String → String → Num → String → String
  insert_account account_id user_id number created_at =
      "INSERT INTO accounts (account_id, user_id, account_number, account_type, balance, currency, "
      ++ "status, created_at) \n        VALUES ('"
      ++ account_id
      ++ "', '"
      ++ user_id
      ++ "', '"
      ++ num_to_string number
      ++ "', 'Checking', 0.00, 'USD', 'Active', '"
      ++ created_at
      ++ "');"

  make_user : (email password full_name phone : Value Num) → Action Server NewUser
  make_user email password full_name phone = do
    password_hash ← outside (bcrypt_hash password 10)
    user_id ← outside_value uuid
    name ← lift (local_part email)
    suffix ← random_below (of_ℕ 1000)
    created_at ← outside_value now_iso
    updated_at ← outside_value now_iso
    pure (record {
      user_id = user_id;
      username = name ++ num_to_string suffix;
      email = email;
      password_hash = password_hash;
      full_name = full_name;
      phone_number = or_else R phone (str "");
      created_at = created_at;
      updated_at = updated_at;
    })

  -- `for (const query of queries) await executeWriteQuery(query)`
  run_all : List String → Action Server (Unit {0})
  run_all [] = pure tt
  run_all (query ∷ queries) = do execute_write_query R query; run_all queries

  -- the part behind the check that the address is free
  create_user : (email password full_name phone : Value Num) → Handler R
  create_user email password full_name phone = do
    user ← make_user email password full_name phone
    account_id ← outside_value uuid
    scaled ← random_below (of_ℕ 9000000000)
    run_all (
        insert_user user
        ∷ insert_account account_id user.user_id (num_add scaled (of_ℕ 1000000000)) user.created_at
        ∷ [])
    token ← observe λ s.
        jwt_sign s (object (("userId", str user.user_id) ∷ [])) (jwt_secret jwt_secret_env) "7d"
    pure (
        json (
          object (
            ("success", bool true)
            ∷ ("user", obj (delete_field "password_hash" (user_fields user)))
            ∷ ("token", str token)
            ∷ [])))

  check_email : (email password full_name phone : Value Num) → Handler R
  check_email email password full_name phone = do
    existing ← execute_query R (existing_query email)
    if truthy R existing && has_rows R existing
        then pure (failure 409 "User with this email already exists")
        else create_user email password full_name phone

  unfoldable pub register_post : Request Num → Handler R
  unfolding check_email create_user make_user random_below run_all
  register_post request = try_or_500 R "[REGISTER_ERROR]" "Server error" (do
    body ← lift request.body
    email ← lift (get "email" body)
    password ← lift (get "password" body)
    full_name ← lift (get "full_name" body)
    phone ← lift (get "phone_number" body)
    if not (truthy R email) || not (truthy R password) || not (truthy R full_name)
        then pure (failure 400 "Missing required fields")
        else check_email email password full_name phone)
