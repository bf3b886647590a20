-- ===== src/Pages/Login.antt =====
-- app/(auth)/login/page.tsx, with the part of the browser that pages keep something in.
pub mod Session
use wwfsdb.Base.{String, Bool, true, false, not, Option, none, some, List, [], ◌∷◌, if◌then◌else◌}
use wwfsdb.Js.Value.{Value, str, Result, ok, throw, object, get}
use wwfsdb.Js.Convert.{truthy, to_text, or_else}
use wwfsdb.Js.Runtime.{Runtime}
use wwfsdb.Rpc.Outcome.{bind}
use wwfsdb.Pages.{FetchRequest}

-- `localStorage`'s items "token" and "user", and the paths that `router.push` was called with, the last
-- one first.
pub record Browser : Type 0 where
  pub token : Option String
  pub user : Option String
  pub pushed : List String

pub record LoginPage (N : Type 0) : Type 0 where
  pub email : String
  pub password : String
  pub show_password : Bool
  pub loading : Bool
  pub error : Value N

abbrev pub opened_login : {N : Type 0} → LoginPage N
opened_login = record {
  email = "";
  password = "";
  show_password = false;
  loading = false;
  error = str "";
}

module _ (R : Runtime) where
  open R use {Num}

  -- `setShowPassword(!showPassword)`
  abbrev pub toggle_password : (seen p : LoginPage Num) → LoginPage Num
  toggle_password seen p = record p { show_password = not seen.show_password }

  -- `handleLogin` up to its request
  unfoldable pub login_sent : LoginPage Num → LoginPage Num
  login_sent p = record p { loading = true; error = str "" }

  abbrev pub login_request : (seen : LoginPage Num) → FetchRequest Num
  login_request seen = record {
    url = "/api/auth/login";
    method = "POST";
    authorization = ok none;
    body = some (object (("email", str seen.email) ∷ ("password", str seen.password) ∷ []));
  }

  -- What both forms do with an answer that says success; `stringify` is `String(JSON.stringify(v))`.
  abbrev pub signed_in : (stringify : Value Num → String) → Value Num → Browser → Result Browser
  signed_in stringify body b = bind (get "token" body) λ token. bind (get "user" body) λ user.
      ok (record {
        token = some (to_text R token);
        user = some (stringify user);
        pushed = "/dashboard" ∷ b.pushed;
      })

  abbrev pub sign_in_result :
      (stringify : Value Num → String) (failed : String) (body : Value Num)
      → Browser
      → Value Num
      → Result (Browser × Value Num)
  sign_in_result stringify failed body b error = bind (get "success" body) λ success.
      if truthy R success
      then bind (signed_in stringify body b) (λ b'. ok (b', error))
      else bind (get "message" body) (λ message. ok (b, or_else R message (str failed)))

  -- What the form does with the answer: the browser, and the error that is shown.
  unfoldable pub sign_in :
      (stringify : Value Num → String) (failed : String)
      → Result (Value Num)
      → Browser
      → Value Num
      → Browser × Value Num
  sign_in stringify failed (throw e) b error = (b, str "An error occurred. Please try again.")
  sign_in stringify failed (ok body) b error = elim (sign_in_result stringify failed body b error) [
    | ok after ↦ after
    | throw e ↦ (b, str "An error occurred. Please try again.")
  ]

  -- `handleLogin` once it is answered, its `finally` included
  unfoldable pub login_answered :
      (stringify : Value Num → String)
      → Result (Value Num)
      → LoginPage Num × Browser
      → LoginPage Num × Browser
  unfolding sign_in
  login_answered stringify answer (p, b) =
      let (b', error) = sign_in stringify "Login failed" answer b p.error in
      (record p { error = error; loading = false }, b')
