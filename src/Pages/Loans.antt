-- ===== src/Pages/Loans.antt =====
-- app/(dashboard)/loans/page.tsx
pub mod View
use wwfsdb.Base.{String, Bool, true, false, Option, none, List, []}
use wwfsdb.Js.Value.{Value, num, str, Result, ok, array, get}
use wwfsdb.Js.Convert.{elements, strict_eq, to_number}
use wwfsdb.Js.Runtime.{Runtime}
use wwfsdb.Rpc.Outcome.{bind}
use wwfsdb.Api.Transactions.{filter_rows}
use wwfsdb.Pages.{FetchRequest, auth_fetch, on_success}
use wwfsdb.Pages.Accounts.{sum_of}

pub record LoansPage (N : Type 0) : Type 0 where
  pub loans : Value N
  pub loading : Bool

abbrev opened_loans : {N : Type 0} → LoansPage N
opened_loans = record { loans = array []; loading = true }

module _ (R : Runtime) where
  open R use {Num, of_ℕ, num_sub, num_div, num_mul}

  abbrev fetch_loans_request : Option String → FetchRequest Num
  fetch_loans_request token = auth_fetch token "/api/loans" "GET" none

  abbrev loans_listed : LoansPage Num → Value Num → Result (LoansPage Num)
  loans_listed p body = bind (get "loans" body) (λ rows. ok (record p { loans = rows }))

  -- `fetchLoans` once it is answered, its `finally` included
  unfoldable fetch_loans_answered : Result (Value Num) → LoansPage Num → LoansPage Num
  fetch_loans_answered answer p = record (on_success R answer (loans_listed p) p) {
    loading = false;
  }

  -- `loan.status === "Active"`
  abbrev pub is_active : Value Num → Result Bool
  is_active loan = bind (get "status" loan) (λ status. ok (strict_eq R status (str "Active")))

  unfoldable pub active_loans : LoansPage Num → Result (List (Value Num))
  active_loans p = bind (elements R p.loans) (filter_rows is_active)

  unfoldable pub total_borrowed : LoansPage Num → Result (Value Num)
  total_borrowed p = bind (active_loans p) (sum_of R "amount" (num (of_ℕ 0)))

  unfoldable pub total_remaining : LoansPage Num → Result (Value Num)
  total_remaining p = bind (active_loans p) (sum_of R "remaining_balance" (num (of_ℕ 0)))

  -- `((loan.amount - loan.remaining_balance) / loan.amount) * 100`
  unfoldable pub progress : Value Num → Result Num
  progress loan = bind (get "amount" loan) λ amount. bind (get "remaining_balance" loan) λ left.
      ok (
        num_mul (num_div (num_sub (to_number R amount) (to_number R left)) (to_number R amount))
          (of_ℕ 100))
