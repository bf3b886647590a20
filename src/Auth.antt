-- ===== src/Auth.antt =====
-- ssql_tests/mobile-banking-app/lib/auth.ts and lib/authFetch.ts: the bearer token of a request, as
-- the server reads it and as the pages attach it.
pub mod Token
pub mod Header
use Prim.Native.Char.{Char, code}
use Prim.Native.Nat.{compare, Ordering}
use Prim.Native.String
use Prim.Native.String.{String, [], ◌∷◌}
use text.Mathlib.Text.{starts_with}
use wwfsdb.Base.{
  ℕ, Bool, true, false, not, ◌&&◌, ◌||◌, Option, none, some, List, ◌==◌, if◌then◌else◌,
}
use mathlib.Core.List
use wwfsdb.Js.Value.{Value, null, Exn, Result, ok, throw, type_error, get}
use wwfsdb.Js.Trim.{between}
use wwfsdb.Js.Runtime.{Runtime}
use wwfsdb.Js.Action.{Action, pure, lift, observe, catch, log, ◌>>=◌, ◌>>◌}
use wwfsdb.Http.{Request}

-- `process.env.JWT_SECRET || "your-super-secret-key"`
abbrev pub jwt_secret : Option String → String
jwt_secret none = "your-super-secret-key"
jwt_secret (some s) = if s == "" then "your-super-secret-key" else s

abbrev pub is_space : Char → Bool
is_space c = elim (compare (code c) 32) [ Ordering.eq ↦ true | _ ↦ false ]

-- The text up to the next space, and what follows that space, if there is one.
unfoldable pub word : String → String
word [] = []
word (c ∷ s) = if is_space c then [] else c ∷ word s

unfoldable pub after_space : String → Option String
after_space [] = none
after_space (c ∷ s) = if is_space c then some s else after_space s

-- `s.split(" ")[1]`: `none` is `undefined`
unfoldable pub second_word : String → Option String
unfolding word after_space
second_word s = elim (after_space s) [ none ↦ none | some rest ↦ some (word rest) ]

-- The token that the header carries, or nothing where the function returns `null` early.
unfoldable pub bearer_token : Option String → Option String
unfolding second_word
bearer_token none = none
bearer_token (some header) =
    if header == ""
    then none
    else if not (starts_with header "Bearer ")
    then none
    else elim (second_word header) [
      | none ↦ none
      | some token ↦ if token == "" then none else some token
    ]

module _ (R : Runtime) where
  open R use {Num, Server, jwt_verify, jwt_secret_env}

  -- `jwt.verify(token, JWT_SECRET)`, then `decoded.userId`; a throw is logged and gives `null`
  verified : String → Action Server (Value Num)
  verified token =
      catch
        (do
          decoded ← observe (λ s. jwt_verify s token (jwt_secret jwt_secret_env))
          lift (get "userId" decoded))
        (λ e. do log "[JWT_VERIFY_ERROR]"; pure null)

  user_of_token : Option String → Action Server (Value Num)
  unfolding verified
  user_of_token none = pure null
  user_of_token (some token) = verified token

  unfoldable pub get_user_id_from_request : Request Num → Action Server (Value Num)
  unfolding user_of_token
  get_user_id_from_request request = user_of_token (bearer_token request.authorization)

-- White space of HTTP: a tab, a line feed, a carriage return, a space.
abbrev pub is_blank : Char → Bool
is_blank c = between 9 10 c || between 13 13 c || between 32 32 c

-- What a header may hold: Latin-1 without NUL and line ends.
abbrev pub is_header_char : Char → Bool
is_header_char c = between 1 9 c || between 11 12 c || between 14 255 c

-- `Headers.set` takes white space off the ends of a value (this one begins with a letter) and throws a
-- TypeError for a value that a header may not hold.
unfoldable pub trim_end : String → String
trim_end [] = []
trim_end (c ∷ s) = let rest = trim_end s in if is_blank c && (rest == "") then [] else c ∷ rest

unfoldable pub is_header_text : String → Bool
is_header_text [] = true
is_header_text (c ∷ s) = let rest = is_header_text s in is_header_char c && rest

-- The `Authorization` header that `authFetch` sets, or what `headers.set` throws:
-- `localStorage.getItem("token")` is the argument, `none` also where there is no `window`.
unfoldable pub auth_header : Option String → Result (Option String)
unfolding trim_end is_header_text
auth_header none = ok none
auth_header (some token) =
    let value = trim_end (String.◌++◌ "Bearer " token) in
    if token == ""
    then ok none
    else if is_header_text value
    then ok (some value)
    else throw type_error
