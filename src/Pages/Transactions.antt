-- ===== src/Pages/Transactions.antt =====
-- app/(dashboard)/transactions/page.tsx
pub mod Filters
pub mod View
use text.Mathlib.Text.{starts_with}
use wwfsdb.Base.{
  String, Bool, true, false, not, ◌||◌, Option, none, List, [], ◌∷◌, ◌==◌, if◌then◌else◌,
}
use wwfsdb.Js.Value.{Value, str, Result, ok, throw, type_error, array, get}
use wwfsdb.Js.Convert.{elements}
use wwfsdb.Js.Runtime.{Runtime}
use wwfsdb.Rpc.Outcome.{bind}
use wwfsdb.Api.Transactions.{filter_rows}
use wwfsdb.Pages.{FetchRequest, auth_fetch, on_success}

pub record TransactionsPage (N : Type 0) : Type 0 where
  pub transactions : Value N
  pub filtered_transactions : Value N
  pub loading : Bool
  pub search_query : String
  pub filter_type : String

abbrev pub opened_transactions : {N : Type 0} → TransactionsPage N
opened_transactions = record {
  transactions = array [];
  filtered_transactions = array [];
  loading = true;
  search_query = "";
  filter_type = "all";
}

-- `s.includes(t)`
unfoldable pub text_includes : String → String → Bool
text_includes String.[] t = t == ""
text_includes (String.◌∷◌ c s) t = starts_with (String.◌∷◌ c s) t || text_includes s t

-- `lower` is `toLowerCase`.
module _ (R : Runtime) (lower : String → String) where
  open R use {Num}

  abbrev pub fetch_transactions_request : Option String → FetchRequest Num
  fetch_transactions_request token = auth_fetch token "/api/transactions" "GET" none

  abbrev pub transactions_listed : TransactionsPage Num → Value Num → Result (TransactionsPage Num)
  transactions_listed p body =
      bind (get "transactions" body)
        λ rows. ok (record p { transactions = rows; filtered_transactions = rows })

  -- `fetchTransactions` once it is answered, its `finally` included
  unfoldable pub fetch_transactions_answered :
      Result (Value Num) → TransactionsPage Num → TransactionsPage Num
  fetch_transactions_answered answer p = record (on_success R answer (transactions_listed p) p) {
    loading = false;
  }

  -- `v.toLowerCase()`: only a text has the method
  abbrev pub lower_value : Value Num → Result String
  lower_value (str s) = ok (lower s)
  lower_value _ = throw type_error

  -- `t.transaction_type.toLowerCase() === filterType.toLowerCase()`
  abbrev pub has_type : String → Value Num → Result Bool
  has_type filter_type t =
      bind (get "transaction_type" t) λ v. bind (lower_value v) (λ s. ok (s == lower filter_type))

  -- `t.description.toLowerCase().includes(searchQuery.toLowerCase())`
  abbrev pub mentions : String → Value Num → Result Bool
  mentions search_query t =
      bind (get "description" t)
        λ v. bind (lower_value v) (λ s. ok (text_includes s (lower search_query)))

  abbrev pub filter_by_type : String → Value Num → Result (Value Num)
  filter_by_type filter_type rows =
      if filter_type == "all"
      then ok rows
      else bind (elements R rows)
          λ vs. bind (filter_rows (has_type filter_type) vs) (λ ws. ok (array ws))

  abbrev pub filter_by_query : String → Value Num → Result (Value Num)
  filter_by_query search_query rows =
      if search_query == ""
      then ok rows
      else bind (elements R rows)
          λ vs. bind (filter_rows (mentions search_query) vs) (λ ws. ok (array ws))

  -- the effect on the query, the type and the transactions of a render
  unfoldable pub filter_effect : TransactionsPage Num → Result (TransactionsPage Num)
  filter_effect p = bind (filter_by_type p.filter_type p.transactions) λ by_type.
      bind (filter_by_query p.search_query by_type)
        λ filtered. ok (record p { filtered_transactions = filtered })
