-- ===== src/Api/Endpoint/Answers.antt =====
-- Every route but `PUT` of settings answers: no throw leaves the handler.
use wwfsdb.Base.{◌≡◌, ◌≢◌}
use wwfsdb.Js.Runtime.{Runtime}
use wwfsdb.Js.Value.{ok}
use wwfsdb.Js.Action.{World}
use wwfsdb.Http.{Request, Response}
use wwfsdb.Api.Guard.Access.{try_or_500-Answers, with_user-Answers}
use wwfsdb.Api.Endpoint.Table.{
  Endpoint, handle, get_accounts, get_beneficiaries, post_beneficiaries, delete_beneficiaries,
  get_cards, get_transactions, get_profile, put_profile, get_security_logs, get_settings,
  put_settings, get_support, post_support, get_loan_payments, post_transfer, get_loans,
  get_dashboard, post_login, post_register,
}
use wwfsdb.Api.Accounts.{accounts_get}
use wwfsdb.Api.Beneficiaries.{beneficiaries_get, beneficiaries_post, beneficiaries_delete}
use wwfsdb.Api.Cards.{cards_get}
use wwfsdb.Api.Transactions.{transactions_get}
use wwfsdb.Api.Profile.{profile_get, profile_put}
use wwfsdb.Api.SecurityLogs.{security_logs_get}
use wwfsdb.Api.Settings.{settings_get}
use wwfsdb.Api.Support.{support_get, support_post}
use wwfsdb.Api.LoanPayments.{loan_payments_get}
use wwfsdb.Api.Transfer.{transfer_post}
use wwfsdb.Api.Loans.{loans_get}
use wwfsdb.Api.Dashboard.{dashboard_stats_get}
use wwfsdb.Api.Login.{login_post}
use wwfsdb.Api.Register.{register_post}

-- Every handler but that of `PUT /api/settings` returns a response, whatever the request, the
-- packages and the RPC server do.
pub handle-Answers :
    (R : Runtime) (e : Endpoint) (request : Request R.Num) (w : World R.Server)
    → e ≢ put_settings
    → (r : Response R.Num) × ((handle R e request w).0 ≡ ok r)
unfolding accounts_get beneficiaries_get beneficiaries_post beneficiaries_delete cards_get
    transactions_get profile_get profile_put security_logs_get settings_get support_get support_post
    loan_payments_get transfer_post loans_get dashboard_stats_get login_post register_post
handle-Answers R get_accounts request w n = (try_or_500-Answers R _ _ _).answer w
handle-Answers R get_beneficiaries request w n = (try_or_500-Answers R _ _ _).answer w
handle-Answers R post_beneficiaries request w n = (try_or_500-Answers R _ _ _).answer w
handle-Answers R delete_beneficiaries request w n = (try_or_500-Answers R _ _ _).answer w
handle-Answers R get_cards request w n = (try_or_500-Answers R _ _ _).answer w
handle-Answers R get_transactions request w n = (try_or_500-Answers R _ _ _).answer w
handle-Answers R get_profile request w n = (try_or_500-Answers R _ _ _).answer w
handle-Answers R put_profile request w n = (try_or_500-Answers R _ _ _).answer w
handle-Answers R get_security_logs request w n = (try_or_500-Answers R _ _ _).answer w
handle-Answers R get_settings request w n = (try_or_500-Answers R _ _ _).answer w
handle-Answers R put_settings request w n = absurd (n (λ _. put_settings))
handle-Answers R get_support request w n = (try_or_500-Answers R _ _ _).answer w
handle-Answers R post_support request w n = (try_or_500-Answers R _ _ _).answer w
handle-Answers R get_loan_payments request w n = (try_or_500-Answers R _ _ _).answer w
handle-Answers R post_transfer request w n =
    (with_user-Answers R request _ (λ u. try_or_500-Answers R _ _ _)).answer w
handle-Answers R get_loans request w n = (try_or_500-Answers R _ _ _).answer w
handle-Answers R get_dashboard request w n = (try_or_500-Answers R _ _ _).answer w
handle-Answers R post_login request w n = (try_or_500-Answers R _ _ _).answer w
handle-Answers R post_register request w n = (try_or_500-Answers R _ _ _).answer w
