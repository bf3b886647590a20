-- ===== src/Auth/Token.antt =====
-- Which user a request is from, and what the check of it leaves unchanged.
use wwfsdb.Base.{◌≡◌, refl, List, Option, none, some, String, arith}
use wwfsdb.Js.Value.{Value, null, Result, ok, throw, get}
use wwfsdb.Js.Runtime.{Runtime, RpcRequest}
use wwfsdb.Js.Action.{World, ◌>>=◌}
use wwfsdb.Js.Action.Keeps.{Keeps, keeps_rules, Answers}
use wwfsdb.Http.{Request}
use wwfsdb.Auth.{user_of_token, verified, get_user_id_from_request, bearer_token, jwt_secret}

module _ (R : Runtime) {P : List RpcRequest → Type 0} where
  open R use {Num}

  Keeps-verified : (token : String) → Keeps P (verified R token)
  unfolding verified
  Keeps-verified token = search keeps_rules

  Keeps-user_of_token : (token : Option String) → Keeps P (user_of_token R token)
  unfolding user_of_token
  Keeps-user_of_token none = search keeps_rules
  Keeps-user_of_token (some token) = Keeps-verified token

  pub Keeps-get_user_id : (request : Request Num) → Keeps P (get_user_id_from_request R request)
  unfolding get_user_id_from_request
  Keeps-get_user_id request = Keeps-user_of_token (bearer_token request.authorization)

module _ (R : Runtime) where
  open R use {Num, Server, jwt_verify, jwt_secret_env}

  -- The `userId` of a payload, `null` where the token does not verify.
  abbrev pub payload_user : Result (Value Num) → Value Num
  payload_user (ok payload) = elim (get "userId" payload) [ ok v ↦ v | throw e ↦ null ]
  payload_user (throw e) = null

  -- The user that a header names, read without effects: `null` without a valid token.
  abbrev pub token_user : Server → Option String → Value Num
  token_user s none = null
  token_user s (some token) = payload_user (jwt_verify s token (jwt_secret jwt_secret_env))

  abbrev pub user_of : Server → Request Num → Value Num
  user_of s request = token_user s (bearer_token request.authorization)

  -- The check gives `user_of`, asks the RPC server nothing and moves nothing on.
  pub record IsLookup (w : World Server) (user : Value Num)
      (after : Result (Value Num) × World Server) : Type 0 where
    pub result : after.0 ≡ ok user
    pub server : after.1.server ≡ w.server
    pub sent : after.1.sent ≡ w.sent

  user_of_token-IsLookup :
      (token : Option String) (w : World Server)
      → IsLookup w (token_user w.server token) (user_of_token R token w)
  unfolding user_of_token verified ◌>>=◌
  user_of_token-IsLookup none w = record { result = refl; server = refl; sent = refl }
  user_of_token-IsLookup (some token) w = record {
    result = ground arith;
    server = ground arith;
    sent = ground arith;
  }

  pub get_user_id-IsLookup :
      (request : Request Num) (w : World Server)
      → IsLookup w (user_of w.server request) (get_user_id_from_request R request w)
  unfolding get_user_id_from_request
  get_user_id-IsLookup request w = user_of_token-IsLookup (bearer_token request.authorization) w

  pub get_user_id-Answers : (request : Request Num) → Answers (get_user_id_from_request R request)
  get_user_id-Answers request = record {
    answer = λ w. (user_of w.server request, (get_user_id-IsLookup request w).result);
  }
