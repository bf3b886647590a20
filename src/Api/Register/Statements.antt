-- ===== src/Api/Register/Statements.antt =====
-- What registration sends.
use wwfsdb.Base.{
  ◌≡◌, refl, ap, sym, subst, ◌∙◌, false, not, ◌||◌, ◌&&◌, arith, inl, inr, Bool-cases, String, List,
  [], ◌∷◌, if◌then◌else◌,
}
use Prim.Native.String.{◌++◌}
use wwfsdb.Js.Value.{Value, undefined, null, bool, num, str, arr, obj, ok, own, get, delete_field}
use wwfsdb.Js.Convert.{truthy, has_rows}
use wwfsdb.Js.Runtime.{Runtime, RpcRequest}
use wwfsdb.Js.Action.{World, pure, lift, outside, outside_value, observe}
use wwfsdb.Js.Action.Inversion.{>>=-eq-ok}
use wwfsdb.Js.Action.Keeps.{Keeps, keeps_rules}
use wwfsdb.Http.{Request, Response}
use wwfsdb.Rpc.{execute_query, execute_write_query, read_request, write_request}
use wwfsdb.Rpc.Outcome.{read_outcome, execute_query-IsCall, execute_write_query-IsCall}
use wwfsdb.Api.Guard.Success.{try_or_500-success, refused_or_ran}
use wwfsdb.Api.Register.{
  before_at, local_part, NewUser, make_user, random_below, run_all, create_user, check_email,
  register_post, insert_user, insert_account, existing_query, user_fields,
}

module _ (R : Runtime) where
  open R use {Num, Server}

  make_user-Keeps :
      {P : List RpcRequest → Type 0} (email password full_name phone : Value Num)
      → Keeps P (make_user R email password full_name phone)
  unfolding make_user random_below
  make_user-Keeps email password full_name phone = search keeps_rules depth 30

  random_below-Keeps : {P : List RpcRequest → Type 0} (n : Num) → Keeps P (random_below R n)
  unfolding random_below
  random_below-Keeps n = search keeps_rules depth 10

  run_all-sent :
      (first second : String) (w : World Server)
      → (run_all R (first ∷ second ∷ []) w).0 ≡ ok tt
      → (run_all R (first ∷ second ∷ []) w).1.sent
        ≡ write_request second ∷ write_request first ∷ w.sent
  unfolding run_all pure
  run_all-sent first second w h =
      let a = >>=-eq-ok _ _ w h in
      let b = >>=-eq-ok _ _ _ a.then_result in
      ap (λ (x : World Server). x.sent) (a.world ∙ b.world)
      ∙ (execute_write_query-IsCall R second (execute_write_query R first w).1).sent
      ∙ ap (λ q. write_request second ∷ q) (execute_write_query-IsCall R first w).sent

  -- A user as it is made of the four fields: the address, the name and the telephone number are those of
  -- the request, the hash is bcrypt's of the password, and the name of the user is what stands before
  -- the address's `@`, with a number behind it.
  pub record IsMade (email password full_name phone : Value Num) (user : NewUser R) : Type 0 where
    pub email_of : user.email ≡ email
    pub full_name_of : user.full_name ≡ full_name
    pub phone_of : user.phone_number ≡ (if truthy R phone then phone else str "")
    pub hashing : Server
    pub hashed : (R.bcrypt_hash password 10 hashing).0 ≡ ok user.password_hash
    pub address : String
    pub email_text : email ≡ str address
    pub suffix : Num
    pub username_of : user.username ≡ before_at address ++ R.num_to_string suffix

  local_part-eq-ok :
      (email : Value Num) {name : String}
      → local_part R email ≡ ok name
      → (address : String) × (email ≡ str address) × (before_at address ≡ name)
  local_part-eq-ok (str s) h = (s, refl, ground arith)
  local_part-eq-ok undefined h = absurd (ground arith)
  local_part-eq-ok null h = absurd (ground arith)
  local_part-eq-ok (bool b) h = absurd (ground arith)
  local_part-eq-ok (num n) h = absurd (ground arith)
  local_part-eq-ok (arr vs) h = absurd (ground arith)
  local_part-eq-ok (obj fs) h = absurd (ground arith)

  make_user-IsMade :
      (email password full_name phone : Value Num) (w : World Server) {user : NewUser R}
      → (make_user R email password full_name phone w).0 ≡ ok user
      → IsMade email password full_name phone user
  unfolding make_user outside lift pure
  make_user-IsMade email password full_name phone w {user} h =
      let a = >>=-eq-ok _ _ w h in
      let b = >>=-eq-ok _ _ _ a.then_result in
      let c = >>=-eq-ok _ _ _ b.then_result in
      let d = >>=-eq-ok _ _ _ c.then_result in
      let e = >>=-eq-ok _ _ _ d.then_result in
      let f = >>=-eq-ok _ _ _ e.then_result in
      let (address, is_text, name) = local_part-eq-ok email c.first in
      record {
        email_of = ground arith;
        full_name_of = ground arith;
        phone_of = ground arith;
        hashing = w.server;
        hashed = a.first ∙ ground arith;
        address = address;
        email_text = is_text;
        suffix = d.value;
        username_of = ground (arith, name);
      }

  -- A new user and its account, and the two statements that store them, in this order.
  pub record IsStored (email password full_name phone : Value Num) (w after : World Server)
      (r : Response Num) : Type 0 where
    pub user : NewUser R
    pub made : IsMade email password full_name phone user
    pub account_id : String
    pub number : Num
    pub sent :
        after.sent
        ≡ write_request (insert_account R account_id user.user_id number user.created_at)
          ∷ write_request (insert_user R user)
          ∷ w.sent
    pub shown : own "user" r.body ≡ obj (delete_field "password_hash" (user_fields R user))

  create_user-IsStored :
      (email password full_name phone : Value Num) (w : World Server) {r : Response Num}
      → (create_user R email password full_name phone w).0 ≡ ok r
      → IsStored email password full_name phone w
          (create_user R email password full_name phone w).1
          r
  unfolding create_user pure observe outside_value
  create_user-IsStored email password full_name phone w {r} h =
      let a = >>=-eq-ok _ _ w h in
      let b = >>=-eq-ok _ _ _ a.then_result in
      let c = >>=-eq-ok _ _ _ b.then_result in
      let d = >>=-eq-ok _ _ _ c.then_result in
      let e = >>=-eq-ok _ _ _ d.then_result in
      let number = R.num_add c.value (R.of_ℕ 1000000000) in
      let first = insert_user R a.value in
      let second = insert_account R b.value a.value.user_id number a.value.created_at in
      let made = (make_user R email password full_name phone w).1 in
      let drawn = (random_below R (R.of_ℕ 9000000000) (outside_value R.uuid made).1).1 in
      let quiet : drawn.sent ≡ w.sent =
        (random_below-Keeps {P = λ l. l ≡ w.sent} (R.of_ℕ 9000000000)).at
          (outside_value R.uuid made).1
          ((make_user-Keeps {P = λ l. l ≡ w.sent} email password full_name phone).at w refl) in
      record {
        user = a.value;
        made = make_user-IsMade email password full_name phone w a.first;
        account_id = b.value;
        number = number;
        sent =
            ap (λ (x : World Server). x.sent) (a.world ∙ b.world ∙ c.world ∙ d.world ∙ e.world)
            ∙ run_all-sent first second drawn d.first
            ∙ ap (λ q. write_request second ∷ write_request first ∷ q) quiet;
        shown = ground arith;
      }

  pub record IsRegistration (request : Request Num) (w after : World Server) (r : Response Num)
      : Type 0 where
    pub body : Value Num
    pub read : request.body ≡ ok body
    pub email : Value Num
    pub asked : get "email" body ≡ ok email
    pub existing : Value Num
    pub found :
        read_outcome R (R.post (read_request (existing_query R email)) w.server).0 ≡ ok existing
    pub free : truthy R existing && has_rows R existing ≡ false
    pub left : World Server
    pub searched : left.sent ≡ read_request (existing_query R email) ∷ w.sent
    pub password : Value Num
    pub password_of : get "password" body ≡ ok password
    pub full_name : Value Num
    pub full_name_of : get "full_name" body ≡ ok full_name
    pub phone : Value Num
    pub phone_of : get "phone_number" body ≡ ok phone
    pub stored : IsStored email password full_name phone left after r

  check_email-IsStored :
      (email password full_name phone : Value Num) (w : World Server) {r : Response Num}
      → (check_email R email password full_name phone w).0 ≡ ok r
      → r.status ≡ 200
      → (existing : Value Num) × (read_outcome R
            (R.post (read_request (existing_query R email)) w.server).0
          ≡ ok existing)
        × (truthy R existing && has_rows R existing ≡ false)
        × IsStored email password full_name phone
            (execute_query R (existing_query R email) w).1
            (check_email R email password full_name phone w).1
            r
  unfolding check_email pure
  check_email-IsStored email password full_name phone w {r} h status =
      let a = >>=-eq-ok _ _ w h in
      let left = (execute_query R (existing_query R email) w).1 in
      elim (Bool-cases (truthy R a.value && has_rows R a.value)) [
        | inl taken ↦ absurd (let e = rw taken at a.then_result in ground arith)
        | inr free ↦
            let stored =
              create_user-IsStored email password full_name phone left (rw free at a.then_result) in
            (
              a.value,
              sym (execute_query-IsCall R (existing_query R email) w).result ∙ a.first,
              free,
              subst (λ x. IsStored email password full_name phone left x r)
                  (sym (rw free at a.world)) stored,
            )
      ]

-- A registration that is answered with status 200 has searched for the email address, the server
-- returned no user for it, and then exactly two statements were sent, the one that stores the new user
-- first and the one that stores an account of this user's id second. The stored user has the address, the
-- full name and the telephone number of the request, bcrypt's hash of its password, and a name made of
-- its address; the user in the response is the stored one without the password's hash.
pub register_post-IsRegistration :
    (R : Runtime) (request : Request R.Num) (w : World R.Server) (r : Response R.Num)
    → (register_post R request w).0 ≡ ok r
    → r.status ≡ 200
    → IsRegistration R request w (register_post R request w).1 r
unfolding register_post lift pure
register_post-IsRegistration R request w r h status =
    let (tried, world) = try_or_500-success R "[REGISTER_ERROR]" "Server error" _ w h status in
    let a = >>=-eq-ok _ _ w tried in
    let b = >>=-eq-ok _ _ _ a.then_result in
    let c = >>=-eq-ok _ _ _ b.then_result in
    let d = >>=-eq-ok _ _ _ c.then_result in
    let e = >>=-eq-ok _ _ _ d.then_result in
    let (filled, checked, moved) =
      refused_or_ran R 400
        (not (truthy R b.value) || not (truthy R c.value) || not (truthy R d.value))
        "Missing required fields" (check_email R b.value c.value d.value e.value) w
        (λ n. ground arith) e.then_result status in
    let (existing, found, free, stored) =
      check_email-IsStored R b.value c.value d.value e.value w checked status in
    let left = (execute_query R (existing_query R b.value) w).1 in
    record {
      body = a.value;
      read = a.first;
      email = b.value;
      asked = b.first;
      existing = existing;
      found = found;
      free = free;
      password = c.value;
      password_of = c.first;
      full_name = d.value;
      full_name_of = d.first;
      phone = e.value;
      phone_of = e.first;
      left = left;
      searched = (execute_query-IsCall R (existing_query R b.value) w).sent;
      stored =
          subst (λ x. IsStored R b.value c.value d.value e.value left x r)
            (sym (world ∙ a.world ∙ b.world ∙ c.world ∙ d.world ∙ e.world ∙ moved)) stored;
    }
