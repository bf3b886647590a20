-- ===== src/Api/Endpoint/Reads.antt =====
-- The endpoints that only read.
use wwfsdb.Base.{◌≡◌, true, false, Bool}
use wwfsdb.Js.Runtime.{Runtime}
use wwfsdb.Js.Value.{Value}
use wwfsdb.Js.Action.{World}
use wwfsdb.Js.Action.Keeps.{Keeps, keeps_rules}
use wwfsdb.Http.{Request}
use wwfsdb.Api.Guard.Rules.{
  OnlyReads, execute_query-OnlyReads, Keeps-try_or_500, Keeps-with_user, Keeps-map_rows,
}
use wwfsdb.Api.Endpoint.Table.{
  Endpoint, handle, get_accounts, get_beneficiaries, get_cards, get_transactions, get_profile,
  get_security_logs, get_settings, get_support, get_loan_payments, get_loans, get_dashboard,
  post_login,
}
use wwfsdb.Api.Accounts.{accounts_get}
use wwfsdb.Api.Beneficiaries.{beneficiaries_get}
use wwfsdb.Api.Cards.{cards_get}
use wwfsdb.Api.Transactions.{transactions_get}
use wwfsdb.Api.Profile.{profile_get}
use wwfsdb.Api.SecurityLogs.{security_logs_get}
use wwfsdb.Api.Settings.{settings_get}
use wwfsdb.Api.Support.{support_get}
use wwfsdb.Api.LoanPayments.{loan_payments_get}
use wwfsdb.Api.Loans.{loans_get}
use wwfsdb.Api.Dashboard.{dashboard_stats_get, stats_of, recent_transactions}
use wwfsdb.Api.Login.{login_post}

pub ruleset read_rules =
    (keeps_rules, execute_query-OnlyReads, Keeps-try_or_500, Keeps-with_user, Keeps-map_rows)

module _ (R : Runtime) where
  open R use {Num, Server}

  pub accounts_get-OnlyReads : (request : Request Num) → Keeps OnlyReads (accounts_get R request)
  unfolding accounts_get
  accounts_get-OnlyReads request = search read_rules depth 20

  pub beneficiaries_get-OnlyReads :
      (request : Request Num) → Keeps OnlyReads (beneficiaries_get R request)
  unfolding beneficiaries_get
  beneficiaries_get-OnlyReads request = search read_rules depth 20

  pub cards_get-OnlyReads : (request : Request Num) → Keeps OnlyReads (cards_get R request)
  unfolding cards_get
  cards_get-OnlyReads request = search read_rules depth 20

  pub transactions_get-OnlyReads :
      (request : Request Num) → Keeps OnlyReads (transactions_get R request)
  unfolding transactions_get
  transactions_get-OnlyReads request = search read_rules depth 20

  pub profile_get-OnlyReads : (request : Request Num) → Keeps OnlyReads (profile_get R request)
  unfolding profile_get
  profile_get-OnlyReads request = search read_rules depth 20

  pub security_logs_get-OnlyReads :
      (request : Request Num) → Keeps OnlyReads (security_logs_get R request)
  unfolding security_logs_get
  security_logs_get-OnlyReads request = search read_rules depth 20

  pub settings_get-OnlyReads : (request : Request Num) → Keeps OnlyReads (settings_get R request)
  unfolding settings_get
  settings_get-OnlyReads request = search read_rules depth 20

  pub support_get-OnlyReads : (request : Request Num) → Keeps OnlyReads (support_get R request)
  unfolding support_get
  support_get-OnlyReads request = search read_rules depth 20

  pub loan_payments_get-OnlyReads :
      (request : Request Num) → Keeps OnlyReads (loan_payments_get R request)
  unfolding loan_payments_get
  loan_payments_get-OnlyReads request = search read_rules depth 20

  pub loans_get-OnlyReads : (request : Request Num) → Keeps OnlyReads (loans_get R request)
  unfolding loans_get
  loans_get-OnlyReads request = search read_rules depth 20

  recent_transactions-OnlyReads :
      (accounts : Value Num) → Keeps OnlyReads (recent_transactions R accounts)
  unfolding recent_transactions
  recent_transactions-OnlyReads accounts = search read_rules depth 20

  stats_of-OnlyReads : (accounts : Value Num) → Keeps OnlyReads (stats_of R accounts)
  unfolding stats_of
  stats_of-OnlyReads accounts = search (read_rules, recent_transactions-OnlyReads) depth 40

  pub dashboard_stats_get-OnlyReads :
      (request : Request Num) → Keeps OnlyReads (dashboard_stats_get R request)
  unfolding dashboard_stats_get
  dashboard_stats_get-OnlyReads request = search (read_rules, stats_of-OnlyReads) depth 20

  pub login_post-OnlyReads : (request : Request Num) → Keeps OnlyReads (login_post R request)
  unfolding login_post
  login_post-OnlyReads request = search read_rules depth 20

-- The `GET` routes and login.
abbrev pub reads_only : Endpoint → Bool
reads_only get_accounts = true
reads_only get_beneficiaries = true
reads_only get_cards = true
reads_only get_transactions = true
reads_only get_profile = true
reads_only get_security_logs = true
reads_only get_settings = true
reads_only get_support = true
reads_only get_loan_payments = true
reads_only get_loans = true
reads_only get_dashboard = true
reads_only post_login = true
reads_only _ = false

-- A `GET` route or a login sends the RPC server reads only: no statement with the private key is on
-- record after it, if there was none before.
pub handle-OnlyReads :
    (R : Runtime) (e : Endpoint) (request : Request R.Num) (w : World R.Server)
    → reads_only e ≡ true
    → OnlyReads w.sent
    → OnlyReads (handle R e request w).1.sent
handle-OnlyReads R get_accounts request w b h = (accounts_get-OnlyReads R request).at w h
handle-OnlyReads R get_beneficiaries request w b h = (beneficiaries_get-OnlyReads R request).at w h
handle-OnlyReads R get_cards request w b h = (cards_get-OnlyReads R request).at w h
handle-OnlyReads R get_transactions request w b h = (transactions_get-OnlyReads R request).at w h
handle-OnlyReads R get_profile request w b h = (profile_get-OnlyReads R request).at w h
handle-OnlyReads R get_security_logs request w b h = (security_logs_get-OnlyReads R request).at w h
handle-OnlyReads R get_settings request w b h = (settings_get-OnlyReads R request).at w h
handle-OnlyReads R get_support request w b h = (support_get-OnlyReads R request).at w h
handle-OnlyReads R get_loan_payments request w b h = (loan_payments_get-OnlyReads R request).at w h
handle-OnlyReads R get_loans request w b h = (loans_get-OnlyReads R request).at w h
handle-OnlyReads R get_dashboard request w b h = (dashboard_stats_get-OnlyReads R request).at w h
handle-OnlyReads R post_login request w b h = (login_post-OnlyReads R request).at w h
handle-OnlyReads R _ request w b h = cc
