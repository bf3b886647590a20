-- ===== src/Api/Dashboard.antt =====
-- app/api/dashboard/stats/route.ts. The four queries of `Promise.all` are sent in order, and the
-- first rejection among them is thrown after all were sent.
pub mod Recent
use Prim.Native.String.{◌++◌}
use wwfsdb.Base.{String, Bool, ◌==◌, ◌||◌, ◌&&◌, List, [], ◌∷◌, take, if◌then◌else◌}
use wwfsdb.Js.Value.{
  Value, undefined, null, num, Result, ok, throw, object, array, get, own, is_string, traverse,
}
use wwfsdb.Js.Convert.{
  truthy, to_text, to_number, or_else, includes, has_rows, as_number, first_row, elements, join,
}
use wwfsdb.Js.Runtime.{Runtime}
use wwfsdb.Js.Action.{Action, pure, lift, catch, log, outside_value, ◌>>=◌, ◌>>◌}
use wwfsdb.Http.{Request}
use wwfsdb.Rpc.{execute_query}
use wwfsdb.Api.Guard.{Handler, try_or_500, with_user, rows_or_empty, map_rows, success}
use wwfsdb.Api.Accounts.{has_prefix, column}
use wwfsdb.Api.Cards.{account_ids_query, quoted_column}
use wwfsdb.Api.Transactions.{filter_rows}

-- A promise that is awaited later: its rejection is kept as a value.
unfoldable pub settle : {S A : Type 0} → Action S A → Action S (Result A)
settle m = catch (do a ← m; pure (ok a)) (λ e. pure (throw e))

module _ (R : Runtime) where
  open R use {Num, Server, of_ℕ, parse_float, parse_int, days_ago_iso}

  total_balance_query : String → String
  total_balance_query ids =
      "SELECT SUM(balance) as total FROM accounts WHERE account_id IN (" ++ ids ++ ");"

  monthly_income_query : String → String → String
  monthly_income_query ids since =
      "SELECT SUM(amount) as total FROM transactions WHERE to_account_id IN (" ++ ids
      ++ ") AND transaction_type = 'Deposit' AND created_at >= '" ++ since ++ "';"

  monthly_expenses_query : String → String → String
  monthly_expenses_query ids since =
      "SELECT SUM(amount) as total FROM transactions WHERE from_account_id IN (" ++ ids
      ++ ") AND transaction_type IN ('Withdrawal', 'Transfer') AND created_at >= '" ++ since ++ "';"

  active_cards_query : String → String
  active_cards_query ids =
      "SELECT COUNT(*) as total FROM cards WHERE account_id IN (" ++ ids
      ++ ") AND status = 'Active';"

  abbrev pub recent_query : String
  recent_query =
      "SELECT \n              transaction_id,\n              from_account_id,\n"
      ++ "              to_account_id,\n              amount,\n              currency,\n"
      ++ "              transaction_type,\n              description,\n              status,\n"
      ++ "              created_at\n            FROM transactions \n"
      ++ "            ORDER BY created_at DESC \n            LIMIT 100;"

  -- `result?.[0]?.total`
  abbrev pub first_total : Value Num → Value Num
  first_total undefined = undefined
  first_total null = undefined
  first_total rows = own "total" (first_row R rows)

  -- `typeof t === 'string' ? parse(t) : Number(t || 0)`
  abbrev pub total_number : (String → Num) → Value Num → Num
  total_number parse t =
      if is_string t then parse (to_text R t) else to_number R (or_else R t (num (of_ℕ 0)))

  -- `transaction.key || transaction["transactions." + key]`
  abbrev either_name : String → String → Value Num → Result (Value Num)
  either_name key qualified transaction = elim (get key transaction) [
    | throw e ↦ throw e
    | ok v ↦ ok (or_else R v (own qualified transaction))
  ]

  -- the callback of the `filter`
  unfoldable pub is_own : List (Value Num) → Value Num → Result Bool
  is_own ids transaction =
      elim (either_name "from_account_id" "transactions.from_account_id" transaction) [
        | throw e ↦ throw e
        | ok from_id ↦ elim (either_name "to_account_id" "transactions.to_account_id" transaction) [
          | throw e ↦ throw e
          | ok to_id ↦ ok (includes R ids from_id || includes R ids to_id)
        ]
      ]

  abbrev pub pick_transaction : Bool → Value Num → Value Num
  pick_transaction qualified transaction = object (
      ("transaction_id", column qualified "transactions." "transaction_id" transaction)
      ∷ ("from_account_id", column qualified "transactions." "from_account_id" transaction)
      ∷ ("to_account_id", column qualified "transactions." "to_account_id" transaction)
      ∷ ("amount", num (as_number R (column qualified "transactions." "amount" transaction)))
      ∷ ("currency", column qualified "transactions." "currency" transaction)
      ∷ ("transaction_type", column qualified "transactions." "transaction_type" transaction)
      ∷ ("description", column qualified "transactions." "description" transaction)
      ∷ ("status", column qualified "transactions." "status" transaction)
      ∷ ("created_at", column qualified "transactions." "created_at" transaction)
      ∷ [])

  unfoldable pub process_transaction : Value Num → Result (Value Num)
  process_transaction transaction = elim (has_prefix "transactions." transaction) [
    | throw e ↦ throw e
    | ok qualified ↦ ok (pick_transaction qualified transaction)
  ]

  abbrev pub stats_object : (balance income expenses cards recent : Value Num) → Value Num
  stats_object balance income expenses cards recent = object (
      ("total_balance", balance)
      ∷ ("monthly_income", income)
      ∷ ("monthly_expenses", expenses)
      ∷ ("active_cards", cards)
      ∷ ("recent_transactions", recent)
      ∷ [])

  -- `responseStats` as it is declared
  abbrev pub empty_stats : Value Num
  empty_stats = stats_object (num (of_ℕ 0)) (num (of_ℕ 0)) (num (of_ℕ 0)) (num (of_ℕ 0)) (array [])

  -- the last query with its `filter`, `slice(0, 4)` and `map`
  unfoldable pub recent_transactions : Value Num → Action Server (List (Value Num))
  unfolding process_transaction is_own
  recent_transactions accounts = do
    all_recent ← execute_query R recent_query
    ids ← map_rows R (get "account_id") accounts
    rows ← lift (elements R (rows_or_empty R all_recent))
    kept ← lift (filter_rows (is_own ids) rows)
    lift (traverse process_transaction (take 4 kept))

  -- the `try` around the queries
  unfoldable pub compute_stats : Value Num → String → String → Action Server (Value Num)
  unfolding settle total_balance_query monthly_income_query monthly_expenses_query
      active_cards_query recent_transactions
  compute_stats accounts ids since = do
    balance_sent ← settle (execute_query R (total_balance_query ids))
    income_sent ← settle (execute_query R (monthly_income_query ids since))
    expenses_sent ← settle (execute_query R (monthly_expenses_query ids since))
    cards_sent ← settle (execute_query R (active_cards_query ids))
    balance ← lift balance_sent
    income ← lift income_sent
    expenses ← lift expenses_sent
    cards ← lift cards_sent
    recent ← recent_transactions accounts
    pure (
        stats_object (num (total_number parse_float (first_total balance)))
          (num (total_number parse_float (first_total income)))
          (num (total_number parse_float (first_total expenses)))
          (num (total_number parse_int (first_total cards))) (array recent))

  unfoldable pub stats_of : Value Num → Action Server (Value Num)
  unfolding compute_stats
  stats_of accounts = do
    quoted_ids ← map_rows R (quoted_column R "account_id") accounts
    let ids : String = join ", " quoted_ids
    if (ids == "") || (ids == "''") then pure empty_stats else do
      since ← outside_value (days_ago_iso 30)
      catch (compute_stats accounts ids since)
          (λ e. do log "[DASHBOARD_STATS_QUERY_ERROR]"; pure empty_stats)

  unfoldable pub dashboard_stats_get : Request Num → Handler R
  unfolding stats_of
  dashboard_stats_get request = try_or_500 R "[DASHBOARD_STATS_GET_ERROR]" "Server error" (
      with_user R request λ user_id. do
        accounts ← execute_query R (account_ids_query R user_id)
        if truthy R accounts && has_rows R accounts
            then (do stats ← stats_of accounts; pure (success "stats" stats))
            else pure (success "stats" empty_stats))
