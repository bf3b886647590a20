-- ===== src/Examples/Logins.antt =====
-- The login and the page that keeps its token at concrete inputs.
use wwfsdb.Base.{some, false, ◌≡◌, refl, String, [], ◌∷◌, none, ◌==◌, if◌then◌else◌}
use wwfsdb.Base.Int.{pos}
use wwfsdb.Js.Value.{Value, null, num, str, axios_message, Result, ok, throw, object, array, get}
use wwfsdb.Js.Convert.{to_text}
use wwfsdb.Js.Runtime.{Runtime}
use wwfsdb.Js.Action.{World, axios_post, ◌>>=◌}
use wwfsdb.Http.{Request, Response}
use wwfsdb.Rpc.{execute_query, read_request}
use wwfsdb.Api.Guard.{try_or_500}
use wwfsdb.Api.Login.{login_post}
use wwfsdb.Api.Login.Checks.{IsLogin, login_post-IsLogin}
use wwfsdb.Pages.Login.{Browser, opened_login, login_answered}
use wwfsdb.Examples.Bank.{Coins, zero, Accounts, toy, answer}

-- Tokens are made for the user "u" only.
abbrev token_for : Value Coins → Result String
token_for (str s) = if s == "u" then ok "t" else throw axios_message
token_for _ = throw axios_message

abbrev token_of : Value Coins → Result String
token_of payload = elim (get "userId" payload) [ ok v ↦ token_for v | throw e ↦ throw e ]

-- What a token verifies to: the user, and the time that the package has added.
abbrev payload_of : Value Coins → Value Coins
payload_of time = object (("userId", str "u") ∷ ("iat", time) ∷ ("exp", time) ∷ [])

-- A server that has one user.
abbrev one_user : Runtime
one_user = record toy {
  post = λ q s. (answer "user", s);
  json_parse =
      λ text. ok (array (object (("user_id", str "u") ∷ ("password_hash", str "h") ∷ []) ∷ []));
  jwt_sign = λ s payload secret expires. token_of payload;
  jwt_verify =
      λ s token secret. if token == "t" then ok (payload_of (num zero)) else throw axios_message;
}

abbrev start : World Accounts
start = record {
  server = record { a = pos 100; b = pos 5; lenient = false };
  sent = [];
  console = [];
}

abbrev login_request : Request Coins
login_request = record {
  authorization = none;
  body = ok (object (("email", str "e") ∷ ("password", str "p") ∷ []));
  loan_id = "";
}

logged_in :
    (r : Response Coins) × ((login_post one_user login_request start).0 ≡ ok r) × (r.status ≡ 200)
unfolding login_post try_or_500 execute_query axios_post to_text read_request ◌>>=◌
logged_in = (_, refl, refl)

login_post-IsLogin_example : IsLogin one_user login_request start logged_in.0
login_post-IsLogin_example =
    login_post-IsLogin one_user login_request start logged_in.0 logged_in.1 logged_in.2

abbrev nobody : Browser
nobody = record { token = none; user = none; pushed = [] }

abbrev json_text : Value Coins → String
json_text v = "{}"

abbrev after : Browser
after = (login_answered one_user json_text (ok logged_in.0.body) (opened_login, nobody)).1

abbrev next_request : Request Coins
next_request = record { authorization = some "Bearer t"; body = ok null; loan_id = "" }
