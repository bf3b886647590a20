-- ===== src/Pages/Loans/View.antt =====
-- app/(dashboard)/loans/page.tsx: what the page shows.
use Prim.Native.String.{◌++◌}
use wwfsdb.Base.{ℕ, String, Bool, Option, none, some, List, length, if◌then◌else◌, ◌&&◌}
use wwfsdb.Js.Value.{Value, str, Result, ok, get, traverse}
use wwfsdb.Js.Convert.{to_number, to_text, truthy, strict_eq, elements}
use wwfsdb.Js.Runtime.{Runtime}
use wwfsdb.Rpc.Outcome.{bind}
use wwfsdb.Pages.Display.{Locale, or_zero}
use wwfsdb.Pages.Loans.{LoansPage, active_loans, total_borrowed, total_remaining, progress}

pub record LoanCard (N : Type 0) : Type 0 where
  pub key : Value N
  pub loan_type : Value N
  pub term : String
  pub badge_class : String
  pub status : Value N
  -- the bar with its label, of an active loan
  pub repaid : Option (String × N)
  pub amount : String
  pub remaining : String
  pub interest_rate : Value N
  pub monthly_payment : String
  -- the date, with the address of the button beside it
  pub next_payment : Option (String × String)
  pub details : String
  pub has_history : Bool

pub data LoansView (N : Type 0) : Type 0 where
  spinner : LoansView N
  loan_list : (borrowed remaining : String) → ℕ → List (LoanCard N) → LoansView N

module _ (R : Runtime) (L : Locale R.Num) where
  open R use {Num, of_ℕ, num_lt}

  abbrev badge_of : Value Num → String
  badge_of status =
      if strict_eq R status (str "Active")
      then "bg-success/10 text-success"
      else if strict_eq R status (str "Paid Off")
      then "bg-primary/10 text-primary"
      else "bg-muted text-muted-foreground"

  -- `{(v || 0).toLocaleString()}` behind the dollar sign
  abbrev dollars : Value Num → String
  dollars v = "$" ++ L.plain (or_zero R L v)

  unfoldable loan_card : Value Num → Result (LoanCard Num)
  loan_card loan = bind (progress R loan) λ share. bind (get "loan_id" loan) λ id.
      bind (get "loan_type" loan) λ type_of. bind (get "status" loan) λ status.
        bind (get "term_months" loan) λ months. bind (get "amount" loan) λ amount.
          bind (get "remaining_balance" loan) λ left. bind (get "interest_rate" loan) λ rate.
            bind (get "monthly_payment" loan) λ payment. bind (get "next_payment_date" loan) λ next.
              let active = strict_eq R status (str "Active") in
              let address = "/loans/" ++ to_text R id in
              ok (record {
                key = id;
                loan_type = type_of;
                term = if active then to_text R months ++ " months term" else "Completed";
                badge_class = badge_of status;
                status = status;
                repaid = if active then some (L.fixed share ++ "%", share) else none;
                amount = dollars amount;
                remaining = dollars left;
                interest_rate = rate;
                monthly_payment =
                    if num_lt (of_ℕ 0) (to_number R payment)
                    then L.plain (or_zero R L payment)
                    else "N/A";
                next_payment =
                    if active && truthy R next then some (L.long_date next, address) else none;
                details = address;
                has_history = active;
              })

  -- What the component returns, or the error of its rendering.
  unfoldable loans_view : LoansPage Num → Result (LoansView Num)
  unfolding loan_card
  loans_view p =
      if p.loading
      then ok spinner
      else bind (active_loans R p) λ active. bind (total_borrowed R p) λ borrowed.
        bind (total_remaining R p) λ left. bind (elements R p.loans) λ loans.
          bind (traverse loan_card loans)
            λ cards. ok (loan_list (dollars borrowed) (dollars left) (length active) cards)
