-- ===== src/Api/Endpoint/Table.antt =====
-- The exported handlers of app/api, `GET`, `POST`, `PUT` and `DELETE` of each route file, by name.

use wwfsdb.Js.Runtime.{Runtime}
use wwfsdb.Http.{Request}
use wwfsdb.Api.Guard.{Handler}
use wwfsdb.Api.Accounts.{accounts_get}
use wwfsdb.Api.Beneficiaries.{beneficiaries_get, beneficiaries_post, beneficiaries_delete}
use wwfsdb.Api.Cards.{cards_get}
use wwfsdb.Api.Transactions.{transactions_get}
use wwfsdb.Api.Profile.{profile_get, profile_put}
use wwfsdb.Api.SecurityLogs.{security_logs_get}
use wwfsdb.Api.Settings.{settings_get, settings_put}
use wwfsdb.Api.Support.{support_get, support_post}
use wwfsdb.Api.LoanPayments.{loan_payments_get}
use wwfsdb.Api.Transfer.{transfer_post}
use wwfsdb.Api.Login.{login_post}
use wwfsdb.Api.Register.{register_post}
use wwfsdb.Api.Loans.{loans_get}
use wwfsdb.Api.Dashboard.{dashboard_stats_get}

pub data Endpoint : Type 0 where
  get_accounts get_beneficiaries post_beneficiaries delete_beneficiaries get_cards : Endpoint
  get_transactions get_profile put_profile get_security_logs get_settings put_settings : Endpoint
  get_support post_support get_loan_payments post_transfer get_loans get_dashboard : Endpoint
  post_login post_register : Endpoint

module _ (R : Runtime) where
  abbrev pub handle : Endpoint → Request R.Num → Handler R
  handle get_accounts = accounts_get R
  handle get_beneficiaries = beneficiaries_get R
  handle post_beneficiaries = beneficiaries_post R
  handle delete_beneficiaries = beneficiaries_delete R
  handle get_cards = cards_get R
  handle get_transactions = transactions_get R
  handle get_profile = profile_get R
  handle put_profile = profile_put R
  handle get_security_logs = security_logs_get R
  handle get_settings = settings_get R
  handle put_settings = settings_put R
  handle get_support = support_get R
  handle post_support = support_post R
  handle get_loan_payments = loan_payments_get R
  handle post_transfer = transfer_post R
  handle get_loans = loans_get R
  handle get_dashboard = dashboard_stats_get R
  handle post_login = login_post R
  handle post_register = register_post R
