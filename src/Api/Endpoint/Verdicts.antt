-- ===== src/Api/Endpoint/Verdicts.antt =====
-- What a response says of its success, which the pages read, and its status, which they do not.
use wwfsdb.Base.{◌≡◌, ltb}
use wwfsdb.Js.Runtime.{Runtime}
use wwfsdb.Js.Value.{ok, bool, own}
use wwfsdb.Js.Action.{World}
use wwfsdb.Js.Action.Yields.{Yields, yields_rules}
use wwfsdb.Http.{Request, Response}
use wwfsdb.Api.Guard.{with_user, try_or_500, answer_error}
use wwfsdb.Api.Endpoint.Table.{
  Endpoint, handle, get_accounts, get_beneficiaries, post_beneficiaries, delete_beneficiaries,
  get_cards, get_transactions, get_profile, put_profile, get_security_logs, get_settings,
  put_settings, get_support, post_support, get_loan_payments, post_transfer, get_loans,
  get_dashboard, post_login, post_register,
}
use wwfsdb.Api.Accounts.{accounts_get}
use wwfsdb.Api.Beneficiaries.{
  beneficiaries_get, beneficiaries_post, beneficiaries_delete, remove_beneficiary, add_beneficiary,
}
use wwfsdb.Api.Cards.{cards_get}
use wwfsdb.Api.Transactions.{transactions_get}
use wwfsdb.Api.Profile.{profile_get, profile_put}
use wwfsdb.Api.SecurityLogs.{security_logs_get}
use wwfsdb.Api.Settings.{settings_get, settings_put, settings_put_body, upsert, roll_back}
use wwfsdb.Api.Support.{support_get, support_post}
use wwfsdb.Api.LoanPayments.{loan_payments_get}
use wwfsdb.Api.Transfer.{
  transfer_post, transfer_body, check_details, check_sender, find_receiver, perform, move_money,
}
use wwfsdb.Api.Loans.{loans_get}
use wwfsdb.Api.Dashboard.{dashboard_stats_get}
use wwfsdb.Api.Login.{login_post}
use wwfsdb.Api.Register.{register_post}

-- The `success` of the body is whether the status is below 300.
abbrev pub SaysStatus : {N : Type 0} → Response N → Type 0
SaysStatus r = own "success" r.body ≡ bool (ltb r.status 300)

module _ (R : Runtime) where
  open R use {Num}

  accounts_get-Yields : (request : Request Num) → Yields SaysStatus (accounts_get R request)
  unfolding accounts_get with_user try_or_500 answer_error
  accounts_get-Yields request = search yields_rules depth 40

  beneficiaries_get-Yields :
      (request : Request Num) → Yields SaysStatus (beneficiaries_get R request)
  unfolding beneficiaries_get with_user try_or_500 answer_error
  beneficiaries_get-Yields request = search yields_rules depth 40

  beneficiaries_post-Yields :
      (request : Request Num) → Yields SaysStatus (beneficiaries_post R request)
  unfolding beneficiaries_post add_beneficiary with_user try_or_500 answer_error
  beneficiaries_post-Yields request = search yields_rules depth 40

  beneficiaries_delete-Yields :
      (request : Request Num) → Yields SaysStatus (beneficiaries_delete R request)
  unfolding beneficiaries_delete remove_beneficiary with_user try_or_500 answer_error
  beneficiaries_delete-Yields request = search yields_rules depth 40

  cards_get-Yields : (request : Request Num) → Yields SaysStatus (cards_get R request)
  unfolding cards_get with_user try_or_500 answer_error
  cards_get-Yields request = search yields_rules depth 40

  transactions_get-Yields : (request : Request Num) → Yields SaysStatus (transactions_get R request)
  unfolding transactions_get with_user try_or_500 answer_error
  transactions_get-Yields request = search yields_rules depth 40

  profile_get-Yields : (request : Request Num) → Yields SaysStatus (profile_get R request)
  unfolding profile_get with_user try_or_500 answer_error
  profile_get-Yields request = search yields_rules depth 40

  profile_put-Yields : (request : Request Num) → Yields SaysStatus (profile_put R request)
  unfolding profile_put with_user try_or_500 answer_error
  profile_put-Yields request = search yields_rules depth 40

  security_logs_get-Yields :
      (request : Request Num) → Yields SaysStatus (security_logs_get R request)
  unfolding security_logs_get with_user try_or_500 answer_error
  security_logs_get-Yields request = search yields_rules depth 40

  settings_get-Yields : (request : Request Num) → Yields SaysStatus (settings_get R request)
  unfolding settings_get with_user try_or_500 answer_error
  settings_get-Yields request = search yields_rules depth 40

  support_get-Yields : (request : Request Num) → Yields SaysStatus (support_get R request)
  unfolding support_get with_user try_or_500 answer_error
  support_get-Yields request = search yields_rules depth 40

  support_post-Yields : (request : Request Num) → Yields SaysStatus (support_post R request)
  unfolding support_post with_user try_or_500 answer_error
  support_post-Yields request = search yields_rules depth 40

  loan_payments_get-Yields :
      (request : Request Num) → Yields SaysStatus (loan_payments_get R request)
  unfolding loan_payments_get with_user try_or_500 answer_error
  loan_payments_get-Yields request = search yields_rules depth 40

  loans_get-Yields : (request : Request Num) → Yields SaysStatus (loans_get R request)
  unfolding loans_get with_user try_or_500 answer_error
  loans_get-Yields request = search yields_rules depth 40

  dashboard_stats_get-Yields :
      (request : Request Num) → Yields SaysStatus (dashboard_stats_get R request)
  unfolding dashboard_stats_get with_user try_or_500 answer_error
  dashboard_stats_get-Yields request = search yields_rules depth 40

  login_post-Yields : (request : Request Num) → Yields SaysStatus (login_post R request)
  unfolding login_post with_user try_or_500 answer_error
  login_post-Yields request = search yields_rules depth 40

  register_post-Yields : (request : Request Num) → Yields SaysStatus (register_post R request)
  unfolding register_post with_user try_or_500 answer_error
  register_post-Yields request = search yields_rules depth 40

  settings_put-Yields : (request : Request Num) → Yields SaysStatus (settings_put R request)
  unfolding settings_put settings_put_body upsert roll_back with_user
  settings_put-Yields request = search yields_rules depth 40

  pub transfer_post-Yields : (request : Request Num) → Yields SaysStatus (transfer_post R request)
  unfolding transfer_post transfer_body check_details check_sender find_receiver perform move_money
      with_user try_or_500 answer_error
  transfer_post-Yields request = search yields_rules depth 60

  handle-Yields : (e : Endpoint) (request : Request Num) → Yields SaysStatus (handle R e request)
  handle-Yields get_accounts request = accounts_get-Yields request
  handle-Yields get_beneficiaries request = beneficiaries_get-Yields request
  handle-Yields post_beneficiaries request = beneficiaries_post-Yields request
  handle-Yields delete_beneficiaries request = beneficiaries_delete-Yields request
  handle-Yields get_cards request = cards_get-Yields request
  handle-Yields get_transactions request = transactions_get-Yields request
  handle-Yields get_profile request = profile_get-Yields request
  handle-Yields put_profile request = profile_put-Yields request
  handle-Yields get_security_logs request = security_logs_get-Yields request
  handle-Yields get_settings request = settings_get-Yields request
  handle-Yields put_settings request = settings_put-Yields request
  handle-Yields get_support request = support_get-Yields request
  handle-Yields post_support request = support_post-Yields request
  handle-Yields get_loan_payments request = loan_payments_get-Yields request
  handle-Yields post_transfer request = transfer_post-Yields request
  handle-Yields get_loans request = loans_get-Yields request
  handle-Yields get_dashboard request = dashboard_stats_get-Yields request
  handle-Yields post_login request = login_post-Yields request
  handle-Yields post_register request = register_post-Yields request

-- Every response of every handler says `success: true` when its status is below 300, and `success: false`
-- when it is not.
pub handle-SaysStatus :
    (R : Runtime) (e : Endpoint) (request : Request R.Num) (w : World R.Server) (r : Response R.Num)
    → (handle R e request w).0 ≡ ok r
    → own "success" r.body ≡ bool (ltb r.status 300)
handle-SaysStatus R e request w r h = (handle-Yields R e request).yields w r h
