-- ===== src/Pages/Accounts/View.antt =====
-- app/(dashboard)/accounts/page.tsx: what the page shows.
use Prim.Native.String.{◌++◌}
use wwfsdb.Base.{String, if◌then◌else◌, List}
use wwfsdb.Js.Value.{Value, Result, ok, get, traverse}
use wwfsdb.Js.Convert.{elements}
use wwfsdb.Js.Runtime.{Runtime}
use wwfsdb.Rpc.Outcome.{bind}
use wwfsdb.Pages.Display.{Locale, AccountCard, account_card}
use wwfsdb.Pages.Accounts.{AccountsPage, total_balance}

-- The lower part: the details of each account.
pub record AccountDetails (N : Type 0) : Type 0 where
  pub key : Value N
  pub account_type : Value N
  pub account_number : Value N
  pub status : Value N
  pub currency : Value N
  pub opened_on : String

pub data AccountsView (N : Type 0) : Type 0 where
  spinner : AccountsView N
  account_list : (total : String) → List (AccountCard N) → List (AccountDetails N) → AccountsView N

module _ (R : Runtime) (L : Locale R.Num) where
  open R use {Num}

  -- A card of the grid, under its `key`.
  abbrev account_tile : Value Num → Result (AccountCard Num)
  account_tile account = bind (get "account_id" account) λ id. account_card R L account

  unfoldable account_details : Value Num → Result (AccountDetails Num)
  account_details account = bind (get "account_id" account) λ id.
      bind (get "account_type" account) λ type_of. bind (get "account_number" account) λ number.
        bind (get "status" account) λ status. bind (get "currency" account) λ currency.
          bind (get "created_at" account) λ created_at. ok (record {
            key = id;
            account_type = type_of;
            account_number = number;
            status = status;
            currency = currency;
            opened_on = L.short_date created_at;
          })

  -- What the component returns, or the error of its rendering.
  unfoldable accounts_view : AccountsPage Num → Result (AccountsView Num)
  accounts_view p =
      if p.loading
      then ok spinner
      else bind (total_balance R p) λ total. bind (elements R p.accounts) λ accounts.
        bind (traverse account_tile accounts) λ tiles.
          bind (traverse account_details accounts)
            λ details. ok (account_list ("USD " ++ L.decimals total) tiles details)
