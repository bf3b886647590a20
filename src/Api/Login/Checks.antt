-- ===== src/Api/Login/Checks.antt =====
-- What a login has checked.
use wwfsdb.Base.{◌≡◌, sym, subst, ◌∙◌, true, false, not, ◌||◌, arith, String, [], ◌∷◌}
use wwfsdb.Js.Value.{Value, bool, str, ok, object, get}
use wwfsdb.Js.Convert.{truthy, no_rows, first_row}
use wwfsdb.Js.Runtime.{Runtime}
use wwfsdb.Js.Action.{World, pure, lift, observe}
use wwfsdb.Js.Action.Inversion.{>>=-eq-ok}
use wwfsdb.Http.{Request, Response, json}
use wwfsdb.Auth.{jwt_secret}
use wwfsdb.Rpc.{read_request}
use wwfsdb.Rpc.Outcome.{read_outcome, execute_query-IsCall}
use wwfsdb.Api.Guard.Success.{try_or_500-success, refused_or_ran}
use wwfsdb.Api.Login.{login_post, find_user, check_password, user_query, without_hash}

module _ (R : Runtime) where
  open R use {Num, Server, bcrypt_compare, jwt_sign, jwt_secret_env}

  -- A row of a user, whose password has been compared, and the token made for it.
  pub record IsSignedIn (password user : Value Num) (s : Server) (r : Response Num) : Type 0 where
    pub hash : Value Num
    pub hash_of : get "password_hash" user ≡ ok hash
    pub compared : bcrypt_compare password hash ≡ ok true
    pub user_id : Value Num
    pub user_id_of : get "user_id" user ≡ ok user_id
    pub token : String
    pub signed :
        jwt_sign s (object (("userId", user_id) ∷ [])) (jwt_secret jwt_secret_env) "7d" ≡ ok token
    pub response :
        r
        ≡ json (
            object
              (("success", bool true) ∷ ("user", without_hash R user) ∷ ("token", str token) ∷ []))

  check_password-IsSignedIn :
      (password user : Value Num) (w : World Server) {r : Response Num}
      → (check_password R password user w).0 ≡ ok r
      → r.status ≡ 200
      → IsSignedIn password user w.server r
  unfolding check_password lift observe pure
  check_password-IsSignedIn password user w {r} h status =
      let a = >>=-eq-ok _ _ w h in
      let b = >>=-eq-ok _ _ _ a.then_result in
      let (valid, rest, moved) =
        refused_or_ran R 401 (not b.value) "Invalid credentials" _ w (λ n. ground arith)
          b.then_result status in
      let c = >>=-eq-ok _ _ _ rest in
      let d = >>=-eq-ok _ _ _ c.then_result in
      record {
        hash = a.value;
        hash_of = a.first;
        compared = ground arith;
        user_id = c.value;
        user_id_of = c.first;
        token = d.value;
        signed = d.first;
        response = ground arith;
      }

  pub record IsLogin (request : Request Num) (w : World Server) (r : Response Num) : Type 0 where
    pub email : Value Num
    pub password : Value Num
    pub body : Value Num
    pub read : request.body ≡ ok body
    pub email_of : get "email" body ≡ ok email
    pub password_of : get "password" body ≡ ok password
    pub users : Value Num
    pub found : read_outcome R (R.post (read_request (user_query R email)) w.server).0 ≡ ok users
    pub some_row : no_rows R users ≡ false
    pub signed_in :
        IsSignedIn password
          (first_row R users)
          (R.post (read_request (user_query R email)) w.server).1
          r

-- A login that is answered with status 200 has found a row for the email address of the request, has
-- compared the password of the request with the hash of this row, successfully, and returns this row
-- without the hash and a token that is signed for the row's identifier.
pub login_post-IsLogin :
    (R : Runtime) (request : Request R.Num) (w : World R.Server) (r : Response R.Num)
    → (login_post R request w).0 ≡ ok r
    → r.status ≡ 200
    → IsLogin R request w r
unfolding login_post find_user lift pure
login_post-IsLogin R request w r h status =
    let (tried, world) = try_or_500-success R "[LOGIN_ERROR]" "Server error" _ w h status in
    let a = >>=-eq-ok _ _ w tried in
    let b = >>=-eq-ok _ _ _ a.then_result in
    let c = >>=-eq-ok _ _ _ b.then_result in
    let (filled, searched, moved) =
      refused_or_ran R 400 (not (truthy R b.value) || not (truthy R c.value))
        "Email and password are required" (find_user R b.value c.value) w (λ n. ground arith)
        c.then_result status in
    let d = >>=-eq-ok _ _ _ searched in
    let (some_row, checked, left) =
      refused_or_ran R 401 (no_rows R d.value) "Invalid credentials"
        (check_password R c.value (first_row R d.value)) _ (λ n. ground arith) d.then_result
        status in
    let call = execute_query-IsCall R (user_query R b.value) w in
    record {
      email = b.value;
      password = c.value;
      body = a.value;
      read = a.first;
      email_of = b.first;
      password_of = c.first;
      users = d.value;
      found = sym call.result ∙ d.first;
      some_row = some_row;
      signed_in =
          subst (λ s. IsSignedIn R c.value (first_row R d.value) s r) call.server
            (check_password-IsSignedIn R c.value (first_row R d.value) _ checked status);
    }
