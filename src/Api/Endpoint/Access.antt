-- ===== src/Api/Endpoint/Access.antt =====
-- Every route but the two of app/api/auth turns a request away that names no user.
use wwfsdb.Base.{◌≡◌, true, false, Bool}
use wwfsdb.Js.Convert.{truthy}
use wwfsdb.Js.Runtime.{Runtime}
use wwfsdb.Js.Action.{World}
use wwfsdb.Http.{Request}
use wwfsdb.Auth.Token.{user_of}
use wwfsdb.Api.Guard.Access.{
  IsTurnedAway, with_user-IsTurnedAway, catch-IsTurnedAway, try_or_500-IsTurnedAway,
}
use wwfsdb.Api.Endpoint.Table.{
  Endpoint, handle, get_accounts, get_beneficiaries, post_beneficiaries, delete_beneficiaries,
  get_cards, get_transactions, get_profile, put_profile, get_security_logs, get_settings,
  put_settings, get_support, post_support, get_loan_payments, post_transfer, get_loans,
  get_dashboard, post_login, post_register,
}
use wwfsdb.Api.Accounts.{accounts_get}
use wwfsdb.Api.Beneficiaries.{beneficiaries_get, beneficiaries_post, beneficiaries_delete}
use wwfsdb.Api.Cards.{cards_get}
use wwfsdb.Api.Transactions.{transactions_get}
use wwfsdb.Api.Profile.{profile_get, profile_put}
use wwfsdb.Api.SecurityLogs.{security_logs_get}
use wwfsdb.Api.Settings.{settings_get, settings_put, settings_put_body}
use wwfsdb.Api.Support.{support_get, support_post}
use wwfsdb.Api.LoanPayments.{loan_payments_get}
use wwfsdb.Api.Transfer.{transfer_post}
use wwfsdb.Api.Loans.{loans_get}
use wwfsdb.Api.Dashboard.{dashboard_stats_get}

-- The routes that call `getUserIdFromRequest`.
abbrev pub needs_user : Endpoint → Bool
needs_user post_login = false
needs_user post_register = false
needs_user _ = true

ruleset access_rules = (with_user-IsTurnedAway, catch-IsTurnedAway, try_or_500-IsTurnedAway)

-- A request without a valid token is answered 401 by every route but login and register; it reaches
-- the RPC server with nothing and leaves all outside as it was.
pub handle-IsTurnedAway :
    (R : Runtime) (e : Endpoint) (request : Request R.Num) (w : World R.Server)
    → needs_user e ≡ true
    → truthy R (user_of R w.server request) ≡ false
    → IsTurnedAway R w (handle R e request w)
unfolding accounts_get beneficiaries_get beneficiaries_post beneficiaries_delete cards_get
    transactions_get profile_get profile_put security_logs_get settings_get settings_put
    settings_put_body support_get support_post loan_payments_get transfer_post loans_get
    dashboard_stats_get
handle-IsTurnedAway R get_accounts request w n h = search access_rules
handle-IsTurnedAway R get_beneficiaries request w n h = search access_rules
handle-IsTurnedAway R post_beneficiaries request w n h = search access_rules
handle-IsTurnedAway R delete_beneficiaries request w n h = search access_rules
handle-IsTurnedAway R get_cards request w n h = search access_rules
handle-IsTurnedAway R get_transactions request w n h = search access_rules
handle-IsTurnedAway R get_profile request w n h = search access_rules
handle-IsTurnedAway R put_profile request w n h = search access_rules
handle-IsTurnedAway R get_security_logs request w n h = search access_rules
handle-IsTurnedAway R get_settings request w n h = search access_rules
handle-IsTurnedAway R put_settings request w n h = search access_rules
handle-IsTurnedAway R get_support request w n h = search access_rules
handle-IsTurnedAway R post_support request w n h = search access_rules
handle-IsTurnedAway R get_loan_payments request w n h = search access_rules
handle-IsTurnedAway R post_transfer request w n h = search access_rules
handle-IsTurnedAway R get_loans request w n h = search access_rules
handle-IsTurnedAway R get_dashboard request w n h = search access_rules
handle-IsTurnedAway R post_login request w n h = cc
handle-IsTurnedAway R post_register request w n h = cc
