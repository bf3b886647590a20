-- ===== src/Api/Accounts.antt =====
-- app/api/accounts/route.ts
use Prim.Native.String.{◌++◌}
use text.Mathlib.Text.{starts_with}
use wwfsdb.Base.{String, Bool, false, [], ◌∷◌, any, if◌then◌else◌}
use wwfsdb.Js.Value.{
  Value, undefined, null, num, obj, Result, ok, throw, type_error, object, array, keys, get_field,
}
use wwfsdb.Js.Convert.{to_text, as_number}
use wwfsdb.Js.Runtime.{Runtime}
use wwfsdb.Js.Action.{pure, ◌>>=◌}
use wwfsdb.Http.{Request}
use wwfsdb.Rpc.{execute_query}
use wwfsdb.Api.Guard.{Handler, try_or_500, with_user, rows_or_empty, map_rows, success}

module _ {N : Type 0} where
  -- `Object.keys(row).some(key => key.startsWith(prefix))`; the keys of arrays and texts are numbers
  abbrev pub has_prefix : String → Value N → Result Bool
  has_prefix prefix undefined = throw type_error
  has_prefix prefix null = throw type_error
  has_prefix prefix (obj fs) = ok (any (λ key. starts_with key prefix) (keys fs))
  has_prefix prefix _ = ok false

  -- `row[prefix + name]` or `row.name`, of a row that is not `undefined` or `null`
  abbrev pub column : Bool → String → String → Value N → Value N
  column qualified prefix name (obj fs) = get_field (if qualified then prefix ++ name else name) fs
  column qualified prefix name _ = undefined

module _ (R : Runtime) where
  open R use {Num}

  abbrev accounts_query : Value Num → String
  accounts_query user_id =
      "\n      SELECT \n        account_id,\n        account_number,\n        account_type,\n"
      ++ "        balance,\n        currency,\n        status,\n        created_at\n"
      ++ "      FROM accounts \n      WHERE user_id = '"
      ++ to_text R user_id
      ++ "' \n      ORDER BY created_at DESC"

  abbrev pub pick_account : Bool → Value Num → Value Num
  pick_account qualified account = object (
      ("account_id", column qualified "accounts." "account_id" account)
      ∷ ("account_number", column qualified "accounts." "account_number" account)
      ∷ ("account_type", column qualified "accounts." "account_type" account)
      ∷ ("balance", num (as_number R (column qualified "accounts." "balance" account)))
      ∷ ("currency", column qualified "accounts." "currency" account)
      ∷ ("status", column qualified "accounts." "status" account)
      ∷ ("created_at", column qualified "accounts." "created_at" account)
      ∷ ("user_id", column qualified "accounts." "user_id" account)
      ∷ [])

  unfoldable pub process_account : Value Num → Result (Value Num)
  process_account account = elim (has_prefix "accounts." account) [
    | throw e ↦ throw e
    | ok qualified ↦ ok (pick_account qualified account)
  ]

  unfoldable pub accounts_get : Request Num → Handler R
  accounts_get request = try_or_500 R "[ACCOUNTS_GET_ERROR]" "Server error" (
      with_user R request λ user_id. do
        accounts ← execute_query R (accounts_query user_id)
        processed ← map_rows R (process_account) (rows_or_empty R accounts)
        pure (success "accounts" (array processed)))
