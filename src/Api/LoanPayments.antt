-- ===== src/Api/LoanPayments.antt =====
-- app/api/loans/[loanId]/payments/route.ts
pub mod Ownership
use Prim.Native.String.{◌++◌}
use wwfsdb.Base.{String, if◌then◌else◌}
use wwfsdb.Js.Runtime.{Runtime}
use wwfsdb.Js.Action.{pure, ◌>>=◌}
use wwfsdb.Http.{Request, failure}
use wwfsdb.Rpc.{execute_query}
use wwfsdb.Api.Guard.{Handler, try_or_500, with_user, rows_or_empty, success}
use wwfsdb.Api.Beneficiaries.{is_foreign}

module _ (R : Runtime) where
  open R use {Num}

  abbrev pub loan_owner_query : String → String
  loan_owner_query loan_id = "SELECT user_id FROM loans WHERE loan_id = '" ++ loan_id ++ "'"

  abbrev pub payments_query : String → String
  payments_query loan_id =
      "SELECT * FROM loan_payments WHERE loan_id = '" ++ loan_id ++ "' ORDER BY payment_date DESC"

  unfoldable pub loan_payments_get : Request Num → Handler R
  loan_payments_get request = try_or_500 R "[LOAN_PAYMENTS_GET_ERROR]" "Server error" (
      with_user R request λ user_id. do
        loans ← execute_query R (loan_owner_query request.loan_id)
        foreign ← is_foreign R user_id loans
        if foreign then pure (failure 404 "Loan not found or access denied") else (do
          payments ← execute_query R (payments_query request.loan_id)
          pure (success "payments" (rows_or_empty R payments))))
