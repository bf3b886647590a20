-- ===== src/Pages/Login/Session.antt =====
-- From the form of the login page to the user of the next request: the route of the login, what the page
-- keeps of its answer, the header of the page's requests, and the check of the other routes.
use wwfsdb.Base.{◌≡◌, ◌≢◌, String, [], ◌∷◌}
use wwfsdb.Js.Value.{Value, ok, object, get}
use wwfsdb.Js.Runtime.{Runtime}
use wwfsdb.Auth.{jwt_secret}
use wwfsdb.Auth.Header.{IsPlain}

module _ (R : Runtime) where
  open R use {Num, Server, jwt_sign, jwt_verify, jwt_secret_env}

  -- What jsonwebtoken promises for a state of the outside that comes before the end of the seven days: a
  -- token that was signed is not empty, has only characters that a header may hold and no white
  -- space, and verifies to a payload with the user that was
  -- signed, and with what the package adds to it.
  pub record StillValid (later : Server) : Type 0 where
    pub verifies :
        (s : Server) (user_id : Value Num) (token : String)
        → jwt_sign s (object (("userId", user_id) ∷ [])) (jwt_secret jwt_secret_env) "7d" ≡ ok token
        → (payload : Value Num) × (jwt_verify later token (jwt_secret jwt_secret_env) ≡ ok payload)
          × (get "userId" payload ≡ ok user_id)
    pub not_empty :
        (s : Server) (payload : Value Num) (token : String)
        → jwt_sign s payload (jwt_secret jwt_secret_env) "7d" ≡ ok token
        → token ≢ ""
    pub is_plain :
        (s : Server) (payload : Value Num) (token : String)
        → jwt_sign s payload (jwt_secret jwt_secret_env) "7d" ≡ ok token
        → IsPlain token
