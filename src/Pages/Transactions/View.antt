-- ===== src/Pages/Transactions/View.antt =====
-- app/(dashboard)/transactions/page.tsx: what the page shows.
use wwfsdb.Base.{String, Bool, if◌then◌else◌, List, [], ◌∷◌}
use wwfsdb.Js.Value.{Value, undefined, null, str, Result, ok, throw, type_error, get, traverse}
use wwfsdb.Js.Convert.{to_number, length_is_zero, strict_eq, elements}
use wwfsdb.Js.Runtime.{Runtime}
use wwfsdb.Rpc.Outcome.{bind}
use wwfsdb.Pages.Display.{Locale}
use wwfsdb.Pages.Dashboard.View.{magnitude}
use wwfsdb.Pages.Transactions.{TransactionsPage}

-- The choices of the type, each with its text.
abbrev type_choices : List (String × String)
type_choices =
    ("all", "All Types")
    ∷ ("deposit", "Deposit")
    ∷ ("withdrawal", "Withdrawal")
    ∷ ("transfer", "Transfer")
    ∷ []

pub record HistoryLine (N : Type 0) : Type 0 where
  pub key : Value N
  pub incoming : Bool
  pub description : Value N
  pub transaction_type : Value N
  pub date : String
  pub sign : String
  pub currency : Value N
  pub amount : String
  pub status_class : String
  pub status : Value N

pub data TransactionsView (N : Type 0) : Type 0 where
  spinner : TransactionsView N
  history : (search_query filter_type : String) → List (HistoryLine N) → TransactionsView N
  no_transactions : (search_query filter_type : String) → TransactionsView N

module _ (R : Runtime) (L : Locale R.Num) where
  open R use {Num, of_ℕ, num_lt}

  abbrev status_class_of : Value Num → String
  status_class_of status =
      if strict_eq R status (str "Completed")
      then "bg-success/10 text-success"
      else if strict_eq R status (str "Pending")
      then "bg-yellow-500/10 text-yellow-600"
      else "bg-destructive/10 text-destructive"

  unfoldable history_line : Value Num → Result (HistoryLine Num)
  history_line t = bind (get "transaction_id" t) λ id. bind (get "amount" t) λ amount.
      bind (get "description" t) λ description. bind (get "transaction_type" t) λ type_of.
        bind (get "created_at" t) λ created_at. bind (get "currency" t) λ currency.
          bind (get "status" t) λ status.
            let incoming = num_lt (of_ℕ 0) (to_number R amount) in
            ok (record {
              key = id;
              incoming = incoming;
              description = description;
              transaction_type = type_of;
              date = L.date_time created_at;
              sign = if incoming then "+" else "";
              currency = currency;
              amount = L.decimals (magnitude R L amount);
              status_class = status_class_of status;
              status = status;
            })

  -- `filteredTransactions.length === 0`
  abbrev is_empty : Value Num → Result Bool
  is_empty undefined = throw type_error
  is_empty null = throw type_error
  is_empty v = ok (length_is_zero R v)

  -- What the component returns, or the error of its rendering.
  unfoldable transactions_view : TransactionsPage Num → Result (TransactionsView Num)
  transactions_view p =
      if p.loading
      then ok spinner
      else bind (is_empty p.filtered_transactions) λ empty.
        if empty
        then ok (no_transactions p.search_query p.filter_type)
        else bind (elements R p.filtered_transactions) λ rows.
          bind (traverse history_line rows) λ lines. ok (history p.search_query p.filter_type lines)
