-- ===== src/Api/Transactions.antt =====
-- app/api/transactions/route.ts
pub mod Filtering
pub mod Kept
use wwfsdb.Base.{Bool, List, [], ◌∷◌, ◌||◌, if◌then◌else◌}
use wwfsdb.Js.Value.{Value, num, obj, Result, ok, throw, array, get, set_field, spread, traverse}
use wwfsdb.Js.Convert.{no_rows, includes, as_number, elements}
use wwfsdb.Js.Runtime.{Runtime}
use wwfsdb.Js.Action.{pure, lift, ◌>>=◌}
use wwfsdb.Http.{Request}
use wwfsdb.Rpc.{execute_query}
use wwfsdb.Api.Guard.{Handler, try_or_500, with_user, rows_or_empty, map_rows, success}
use wwfsdb.Api.Cards.{account_ids_query}

-- `rows.filter(p)` for a `p` that may throw
unfoldable pub filter_rows : {A : Type 0} → (A → Result Bool) → List A → Result (List A)
filter_rows p [] = ok []
filter_rows p (x ∷ xs) = elim (p x) [
  | throw e ↦ throw e
  | ok keep ↦ elim (filter_rows p xs) [
    | throw e ↦ throw e
    | ok ys ↦ ok (if keep then x ∷ ys else ys)
  ]
]

module _ (R : Runtime) where
  open R use {Num}

  -- `userAccountIds.includes(fromAccountId) || userAccountIds.includes(toAccountId)`
  unfoldable pub involves : List (Value Num) → Value Num → Result Bool
  involves ids transaction = elim (get "from_account_id" transaction) [
    | throw e ↦ throw e
    | ok from_id ↦ elim (get "to_account_id" transaction) [
      | throw e ↦ throw e
      | ok to_id ↦ ok (includes R ids from_id || includes R ids to_id)
    ]
  ]

  -- `({ ...transaction, amount: typeof … })`
  unfoldable pub with_amount : Value Num → Result (Value Num)
  with_amount transaction = elim (get "amount" transaction) [
    | throw e ↦ throw e
    | ok amount ↦ ok (obj (set_field "amount" (num (as_number R amount)) (spread transaction)))
  ]

  transactions_of : Value Num → Handler R
  transactions_of accounts = do
    all_transactions ← execute_query R "SELECT * FROM transactions ORDER BY created_at DESC"
    ids ← map_rows R (get "account_id") accounts
    rows ← lift (elements R (rows_or_empty R all_transactions))
    transactions ← lift (filter_rows (involves ids) rows)
    processed ← lift (traverse with_amount transactions)
    pure (success "transactions" (array processed))

  unfoldable pub transactions_get : Request Num → Handler R
  unfolding transactions_of
  transactions_get request = try_or_500 R "[TRANSACTIONS_GET_ERROR]" "Server error" (
      with_user R request λ user_id. do
        accounts ← execute_query R (account_ids_query R user_id)
        if no_rows R accounts
            then pure (success "transactions" (array []))
            else transactions_of accounts)
