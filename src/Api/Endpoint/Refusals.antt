-- ===== src/Api/Endpoint/Refusals.antt =====
-- The endpoints that write, where they refuse.
use wwfsdb.Base.{◌≡◌, true}
use wwfsdb.Js.Runtime.{Runtime}
use wwfsdb.Js.Value.{Value, Exn, ok}
use wwfsdb.Js.Action.{World}
use wwfsdb.Http.{Request, Response}
use wwfsdb.Api.Guard.Rules.{OnlyReads}
use wwfsdb.Api.Guard.Refusals.{
  is_refusal, RefusesCleanly, Accepts, RefusesCleanly-of_Keeps, RefusesCleanly-of_Accepts,
  Accepts-json, Accepts-500, Accepts-raise, Accepts-if, Accepts-bind, RefusesCleanly-if,
  RefusesCleanly-bind, RefusesCleanly-catch, RefusesCleanly-pure, RefusesCleanly-try_or_500,
  RefusesCleanly-with_user,
}
use wwfsdb.Api.Endpoint.Reads.{
  read_rules, accounts_get-OnlyReads, beneficiaries_get-OnlyReads, cards_get-OnlyReads,
  transactions_get-OnlyReads, profile_get-OnlyReads, security_logs_get-OnlyReads,
  settings_get-OnlyReads, support_get-OnlyReads, loan_payments_get-OnlyReads, loans_get-OnlyReads,
  dashboard_stats_get-OnlyReads, login_post-OnlyReads,
}
use wwfsdb.Api.Endpoint.Table.{
  Endpoint, handle, get_accounts, get_beneficiaries, post_beneficiaries, delete_beneficiaries,
  get_cards, get_transactions, get_profile, put_profile, get_security_logs, get_settings,
  put_settings, get_support, post_support, get_loan_payments, post_transfer, get_loans,
  get_dashboard, post_login, post_register,
}
use wwfsdb.Api.Beneficiaries.{
  add_beneficiary, remove_beneficiary, beneficiaries_post, beneficiaries_delete,
}
use wwfsdb.Api.Profile.{profile_put}
use wwfsdb.Api.Settings.{upsert, settings_put_body, roll_back, settings_put}
use wwfsdb.Api.Support.{support_post}
use wwfsdb.Api.Transfer.{
  transfer_post, perform, find_receiver, check_sender, check_details, transfer_body,
}
use wwfsdb.Api.Register.{register_post}

ruleset refusal_rules = (
  read_rules, Accepts-json, Accepts-500, Accepts-raise, Accepts-if, Accepts-bind,
  RefusesCleanly-of_Accepts, RefusesCleanly-if, RefusesCleanly-bind, RefusesCleanly-catch,
  RefusesCleanly-pure, RefusesCleanly-try_or_500, RefusesCleanly-with_user,
)

module _ (R : Runtime) where
  open R use {Num, Server}

  find_receiver-RefusesCleanly :
      (amount : Num) (from_id number description : Value Num)
      → RefusesCleanly (find_receiver R amount from_id number description)
  unfolding find_receiver perform
  find_receiver-RefusesCleanly amount from_id number description = search refusal_rules depth 20

  check_sender-RefusesCleanly :
      (user : Value Num) (amount : Num) (from_id number description : Value Num)
      → RefusesCleanly (check_sender R user amount from_id number description)
  unfolding check_sender
  check_sender-RefusesCleanly user amount from_id number description =
      search (refusal_rules, find_receiver-RefusesCleanly) depth 20

  check_details-RefusesCleanly :
      (user from_id number given description : Value Num)
      → RefusesCleanly (check_details R user from_id number given description)
  unfolding check_details
  check_details-RefusesCleanly user from_id number given description =
      search (refusal_rules, check_sender-RefusesCleanly) depth 20

  transfer_body-RefusesCleanly :
      (request : Request Num) (user : Value Num) → RefusesCleanly (transfer_body R request user)
  unfolding transfer_body
  transfer_body-RefusesCleanly request user =
      search (refusal_rules, check_details-RefusesCleanly) depth 20

  add_beneficiary-RefusesCleanly :
      (user nickname number bank : Value Num)
      → RefusesCleanly (add_beneficiary R user nickname number bank)
  unfolding add_beneficiary
  add_beneficiary-RefusesCleanly user nickname number bank = search refusal_rules depth 20

  remove_beneficiary-RefusesCleanly :
      (user id : Value Num) → RefusesCleanly (remove_beneficiary R user id)
  unfolding remove_beneficiary
  remove_beneficiary-RefusesCleanly user id = search refusal_rules depth 20

  upsert-RefusesCleanly : (user name value : Value Num) → RefusesCleanly (upsert R user name value)
  unfolding upsert
  upsert-RefusesCleanly user name value = search refusal_rules depth 20

  settings_put_body-RefusesCleanly :
      (request : Request Num) → RefusesCleanly (settings_put_body R request)
  unfolding settings_put_body
  settings_put_body-RefusesCleanly request = search (refusal_rules, upsert-RefusesCleanly) depth 20

  roll_back-Accepts : (e : Exn) → Accepts (roll_back R e)
  unfolding roll_back
  roll_back-Accepts e = search refusal_rules depth 20

  beneficiaries_post-RefusesCleanly :
      (request : Request Num) → RefusesCleanly (beneficiaries_post R request)
  unfolding beneficiaries_post
  beneficiaries_post-RefusesCleanly request =
      search (refusal_rules, add_beneficiary-RefusesCleanly) depth 30

  beneficiaries_delete-RefusesCleanly :
      (request : Request Num) → RefusesCleanly (beneficiaries_delete R request)
  unfolding beneficiaries_delete
  beneficiaries_delete-RefusesCleanly request =
      search (refusal_rules, remove_beneficiary-RefusesCleanly) depth 30

  profile_put-RefusesCleanly : (request : Request Num) → RefusesCleanly (profile_put R request)
  unfolding profile_put
  profile_put-RefusesCleanly request = search refusal_rules depth 30

  settings_put-RefusesCleanly : (request : Request Num) → RefusesCleanly (settings_put R request)
  unfolding settings_put
  settings_put-RefusesCleanly request =
      search (refusal_rules, settings_put_body-RefusesCleanly, roll_back-Accepts) depth 30

  support_post-RefusesCleanly : (request : Request Num) → RefusesCleanly (support_post R request)
  unfolding support_post
  support_post-RefusesCleanly request = search refusal_rules depth 30

  transfer_post-RefusesCleanly : (request : Request Num) → RefusesCleanly (transfer_post R request)
  unfolding transfer_post
  transfer_post-RefusesCleanly request =
      search (refusal_rules, transfer_body-RefusesCleanly) depth 30

  register_post-RefusesCleanly : (request : Request Num) → RefusesCleanly (register_post R request)
  unfolding register_post
  register_post-RefusesCleanly request = search refusal_rules depth 30

  handler-RefusesCleanly :
      (e : Endpoint) (request : Request Num) → RefusesCleanly (handle R e request)
  handler-RefusesCleanly get_accounts request =
      RefusesCleanly-of_Keeps _ (accounts_get-OnlyReads R request)
  handler-RefusesCleanly get_beneficiaries request =
      RefusesCleanly-of_Keeps _ (beneficiaries_get-OnlyReads R request)
  handler-RefusesCleanly post_beneficiaries request = beneficiaries_post-RefusesCleanly request
  handler-RefusesCleanly delete_beneficiaries request = beneficiaries_delete-RefusesCleanly request
  handler-RefusesCleanly get_cards request =
      RefusesCleanly-of_Keeps _ (cards_get-OnlyReads R request)
  handler-RefusesCleanly get_transactions request =
      RefusesCleanly-of_Keeps _ (transactions_get-OnlyReads R request)
  handler-RefusesCleanly get_profile request =
      RefusesCleanly-of_Keeps _ (profile_get-OnlyReads R request)
  handler-RefusesCleanly put_profile request = profile_put-RefusesCleanly request
  handler-RefusesCleanly get_security_logs request =
      RefusesCleanly-of_Keeps _ (security_logs_get-OnlyReads R request)
  handler-RefusesCleanly get_settings request =
      RefusesCleanly-of_Keeps _ (settings_get-OnlyReads R request)
  handler-RefusesCleanly put_settings request = settings_put-RefusesCleanly request
  handler-RefusesCleanly get_support request =
      RefusesCleanly-of_Keeps _ (support_get-OnlyReads R request)
  handler-RefusesCleanly post_support request = support_post-RefusesCleanly request
  handler-RefusesCleanly get_loan_payments request =
      RefusesCleanly-of_Keeps _ (loan_payments_get-OnlyReads R request)
  handler-RefusesCleanly post_transfer request = transfer_post-RefusesCleanly request
  handler-RefusesCleanly get_loans request =
      RefusesCleanly-of_Keeps _ (loans_get-OnlyReads R request)
  handler-RefusesCleanly get_dashboard request =
      RefusesCleanly-of_Keeps _ (dashboard_stats_get-OnlyReads R request)
  handler-RefusesCleanly post_login request =
      RefusesCleanly-of_Keeps _ (login_post-OnlyReads R request)
  handler-RefusesCleanly post_register request = register_post-RefusesCleanly request

-- A handler that answers with a status from 400 to 499 has sent the RPC server nothing but reads: no
-- statement with the private key, if there was none on record before.
pub handle-RefusesCleanly :
    (R : Runtime) (e : Endpoint) (request : Request R.Num) (w : World R.Server) (r : Response R.Num)
    → OnlyReads w.sent
    → (handle R e request w).0 ≡ ok r
    → is_refusal r ≡ true
    → OnlyReads (handle R e request w).1.sent
handle-RefusesCleanly R e request w r h q b = (handler-RefusesCleanly R e request).clean w r h q b
