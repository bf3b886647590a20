-- ===== src/Api/LoanPayments/Ownership.antt =====
-- Whose payments `GET /api/loans/[loanId]/payments` shows.
use wwfsdb.Base.{◌≡◌, ap, sym, subst, ◌∙◌, Bool, true, arith, inl, inr, Bool-cases}
use wwfsdb.Js.Value.{Value, ok}
use wwfsdb.Js.Convert.{truthy}
use wwfsdb.Js.Runtime.{Runtime}
use wwfsdb.Js.Action.{World, pure}
use wwfsdb.Js.Action.Inversion.{>>=-eq-ok}
use wwfsdb.Http.{Request, Response}
use wwfsdb.Rpc.{execute_query, read_request}
use wwfsdb.Rpc.Outcome.{read_outcome, execute_query-IsCall}
use wwfsdb.Api.Guard.{rows_or_empty, success}
use wwfsdb.Api.Guard.Success.{with_user-success, try_or_500-success}
use wwfsdb.Api.Beneficiaries.{is_foreign}
use wwfsdb.Api.Beneficiaries.Ownership.{IsOwned, is_foreign-eq-false}
use wwfsdb.Auth.Token.{user_of}
use wwfsdb.Api.LoanPayments.{loan_owner_query, payments_query, loan_payments_get}

module _ (R : Runtime) where
  open R use {Num, Server}

  pub record IsOwnLoan (request : Request Num) (w : World Server) (r : Response Num) : Type 0 where
    pub valid : truthy R (user_of R w.server request) ≡ true
    pub loans : Value Num
    pub found :
        read_outcome R (R.post (read_request (loan_owner_query R request.loan_id)) w.server).0
        ≡ ok loans
    pub owned : IsOwned R (user_of R w.server request) loans
    pub payments : Value Num
    pub read :
        read_outcome R
          (R.post
            (read_request (payments_query R request.loan_id))
            (R.post (read_request (loan_owner_query R request.loan_id)) w.server).1).0
        ≡ ok payments
    pub response : r ≡ success "payments" (rows_or_empty R payments)

-- The payments of a loan are shown, with status 200, only to a user with a valid token whom the row
-- that the server returned for this loan names as its owner, and what is shown is what the server
-- returned for the payments of this loan.
pub loan_payments_get-IsOwnLoan :
    (R : Runtime) (request : Request R.Num) (w : World R.Server) (r : Response R.Num)
    → (loan_payments_get R request w).0 ≡ ok r
    → r.status ≡ 200
    → IsOwnLoan R request w r
unfolding loan_payments_get pure
loan_payments_get-IsOwnLoan R request w r h status =
    let (tried, world) =
      try_or_500-success R "[LOAN_PAYMENTS_GET_ERROR]" "Server error" _ w h status in
    let g = with_user-success R request _ w tried status in
    let user = user_of R w.server request in
    let first_query = loan_owner_query R request.loan_id in
    let second_query = payments_query R request.loan_id in
    let a = >>=-eq-ok _ _ g.left g.result in
    let b = >>=-eq-ok _ _ _ a.then_result in
    let searched = execute_query-IsCall R first_query g.left in
    let left = (execute_query R first_query g.left).1 in
    elim (Bool-cases b.value) [
      | inl foreign ↦ absurd (let e = rw foreign at b.then_result in ground arith)
      | inr known ↦
          let (o, unchanged) =
            is_foreign-eq-false R user a.value left (b.first ∙ ap (λ (x : Bool). ok x) known) in
          let c = >>=-eq-ok _ _ _ (rw known at b.then_result) in
          let asked = (is_foreign R user a.value left).1 in
          let moved =
            ap (λ (x : World R.Server). x.server) unchanged
            ∙ searched.server
            ∙ ap (λ s. (R.post (read_request first_query) s).1) g.server in
          record {
            valid = g.valid;
            loans = a.value;
            found =
                subst (λ s. read_outcome R (R.post (read_request first_query) s).0 ≡ ok a.value)
                  g.server (sym searched.result ∙ a.first);
            owned = o;
            payments = c.value;
            read =
                subst (λ s. read_outcome R (R.post (read_request second_query) s).0 ≡ ok c.value)
                  moved (sym (execute_query-IsCall R second_query asked).result ∙ c.first);
            response = ground arith;
          }
    ]
