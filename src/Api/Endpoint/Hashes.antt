-- ===== src/Api/Endpoint/Hashes.antt =====
-- The routes that sign a user in, and the hash of the password.
use wwfsdb.Base.{◌≡◌, Bool, true, false}
use wwfsdb.Js.Runtime.{Runtime}
use wwfsdb.Js.Value.{ok, undefined, own}
use wwfsdb.Js.Action.{World}
use wwfsdb.Http.{Request, Response}
use wwfsdb.Api.Secrets.{login_post-HidesHash, register_post-HidesHash}
use wwfsdb.Api.Endpoint.Table.{
  Endpoint, handle, get_accounts, get_beneficiaries, post_beneficiaries, delete_beneficiaries,
  get_cards, get_transactions, get_profile, put_profile, get_security_logs, get_settings,
  put_settings, get_support, post_support, get_loan_payments, post_transfer, get_loans,
  get_dashboard, post_login, post_register,
}

-- Whether the route answers with the row of a user and a token.
abbrev pub signs_in : Endpoint → Bool
signs_in post_login = true
signs_in post_register = true
signs_in _ = false

-- No response of login or registration has a password's hash in its `user`, whatever the row of the user
-- holds.
pub handle-HidesHash :
    (R : Runtime) (e : Endpoint) (request : Request R.Num) (w : World R.Server) (r : Response R.Num)
    → signs_in e ≡ true
    → (handle R e request w).0 ≡ ok r
    → own "password_hash" (own "user" r.body) ≡ undefined
handle-HidesHash R post_login request w r s h = login_post-HidesHash R request w r h
handle-HidesHash R post_register request w r s h = register_post-HidesHash R request w r h
handle-HidesHash R get_accounts request w r s h = cc
handle-HidesHash R get_beneficiaries request w r s h = cc
handle-HidesHash R post_beneficiaries request w r s h = cc
handle-HidesHash R delete_beneficiaries request w r s h = cc
handle-HidesHash R get_cards request w r s h = cc
handle-HidesHash R get_transactions request w r s h = cc
handle-HidesHash R get_profile request w r s h = cc
handle-HidesHash R put_profile request w r s h = cc
handle-HidesHash R get_security_logs request w r s h = cc
handle-HidesHash R get_settings request w r s h = cc
handle-HidesHash R put_settings request w r s h = cc
handle-HidesHash R get_support request w r s h = cc
handle-HidesHash R post_support request w r s h = cc
handle-HidesHash R get_loan_payments request w r s h = cc
handle-HidesHash R post_transfer request w r s h = cc
handle-HidesHash R get_loans request w r s h = cc
handle-HidesHash R get_dashboard request w r s h = cc
