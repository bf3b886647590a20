-- ===== src/Pages/Register.antt =====
-- app/(auth)/register/page.tsx
use wwfsdb.Base.{String, Bool, true, false, not, Option, none, some, [], ◌∷◌, ◌==◌, if◌then◌else◌}
use wwfsdb.Js.Value.{ok, Value, str, Result, object}
use wwfsdb.Js.Runtime.{Runtime}
use wwfsdb.Pages.{FetchRequest}
use wwfsdb.Pages.Login.{Browser, sign_in}

pub record RegisterForm : Type 0 where
  pub full_name : String
  pub email : String
  pub phone_number : String
  pub password : String
  pub confirm_password : String

pub record RegisterPage (N : Type 0) : Type 0 where
  pub form : RegisterForm
  pub show_password : Bool
  pub loading : Bool
  pub error : Value N

abbrev pub empty_registration : RegisterForm
empty_registration = record {
  full_name = "";
  email = "";
  phone_number = "";
  password = "";
  confirm_password = "";
}

abbrev pub opened_registration : {N : Type 0} → RegisterPage N
opened_registration = record {
  form = empty_registration;
  show_password = false;
  loading = false;
  error = str "";
}

-- `{ ...formData, [name]: value }` for the name of one of the five fields
unfoldable pub handle_change : (name value : String) → RegisterForm → RegisterForm
handle_change name value f =
    if name == "full_name"
    then record f { full_name = value }
    else if name == "email"
    then record f { email = value }
    else if name == "phone_number"
    then record f { phone_number = value }
    else if name == "password"
    then record f { password = value }
    else if name == "confirmPassword"
    then record f { confirm_password = value }
    else f

module _ (R : Runtime) where
  open R use {Num}

  abbrev pub register_request : RegisterForm → FetchRequest Num
  register_request f = record {
    url = "/api/auth/register";
    method = "POST";
    authorization = ok none;
    body = some (
        object (
          ("email", str f.email)
          ∷ ("password", str f.password)
          ∷ ("full_name", str f.full_name)
          ∷ ("phone_number", str f.phone_number)
          ∷ []));
  }

  -- `handleRegister` up to its request, which two different passwords prevent
  unfoldable pub register_sent :
      (seen p : RegisterPage Num) → RegisterPage Num × Option (FetchRequest Num)
  register_sent seen p =
      if not (seen.form.password == seen.form.confirm_password)
      then (record p { error = str "Passwords do not match"; loading = false }, none)
      else (record p { error = str ""; loading = true }, some (register_request seen.form))

  -- `handleRegister` once it is answered, its `finally` included
  unfoldable pub register_answered :
      (stringify : Value Num → String)
      → Result (Value Num)
      → RegisterPage Num × Browser
      → RegisterPage Num × Browser
  unfolding sign_in
  register_answered stringify answer (p, b) =
      let (b', error) = sign_in R stringify "Registration failed" answer b p.error in
      (record p { error = error; loading = false }, b')
