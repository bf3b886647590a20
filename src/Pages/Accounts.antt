-- ===== src/Pages/Accounts.antt =====
-- app/(dashboard)/accounts/page.tsx
pub mod View
use wwfsdb.Base.{String, Bool, true, false, Option, none, List, [], ◌∷◌}
use wwfsdb.Js.Value.{Value, num, Result, ok, array, get}
use wwfsdb.Js.Convert.{elements, or_else, plus}
use wwfsdb.Js.Runtime.{Runtime}
use wwfsdb.Rpc.Outcome.{bind}
use wwfsdb.Pages.{FetchRequest, auth_fetch, on_success}

pub record AccountsPage (N : Type 0) : Type 0 where
  pub accounts : Value N
  pub loading : Bool

abbrev opened_accounts : {N : Type 0} → AccountsPage N
opened_accounts = record { accounts = array []; loading = true }

-- `rows.reduce((sum, row) => sum + (row.key || 0), sum)`
module _ (R : Runtime) where
  open R use {Num, of_ℕ}

  unfoldable pub sum_of : String → Value Num → List (Value Num) → Result (Value Num)
  sum_of key sum [] = ok sum
  sum_of key sum (row ∷ rows) =
      bind (get key row) λ v. sum_of key (plus R sum (or_else R v (num (of_ℕ 0)))) rows

  abbrev fetch_accounts_request : Option String → FetchRequest Num
  fetch_accounts_request token = auth_fetch token "/api/accounts" "GET" none

  abbrev accounts_listed : AccountsPage Num → Value Num → Result (AccountsPage Num)
  accounts_listed p body = bind (get "accounts" body) (λ rows. ok (record p { accounts = rows }))

  -- `fetchAccounts` once it is answered, its `finally` included
  unfoldable fetch_accounts_answered : Result (Value Num) → AccountsPage Num → AccountsPage Num
  fetch_accounts_answered answer p = record (on_success R answer (accounts_listed p) p) {
    loading = false;
  }

  -- `totalBalance`
  unfoldable pub total_balance : AccountsPage Num → Result (Value Num)
  unfolding sum_of
  total_balance p = bind (elements R p.accounts) (sum_of "balance" (num (of_ℕ 0)))
