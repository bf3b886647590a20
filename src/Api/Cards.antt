-- ===== src/Api/Cards.antt =====
-- app/api/cards/route.ts
use Prim.Native.String.{◌++◌}
use wwfsdb.Base.{String, ◌==◌, ◌||◌, [], if◌then◌else◌}
use wwfsdb.Js.Value.{Value, Result, ok, throw, array, get}
use wwfsdb.Js.Convert.{to_text, quoted, no_rows, join}
use wwfsdb.Js.Runtime.{Runtime}
use wwfsdb.Js.Action.{pure, ◌>>=◌}
use wwfsdb.Http.{Request}
use wwfsdb.Rpc.{execute_query}
use wwfsdb.Api.Guard.{Handler, try_or_500, with_user, rows_or_empty, map_rows, success}

module _ (R : Runtime) where
  open R use {Num, trim}

  -- `SELECT account_id FROM accounts WHERE user_id = '${userId}'`
  abbrev pub account_ids_query : Value Num → String
  account_ids_query user_id =
      "SELECT account_id FROM accounts WHERE user_id = '" ++ to_text R user_id ++ "'"

  -- `'${row[key]}'`, of a row
  abbrev pub quoted_column : String → Value Num → Result String
  quoted_column key row = elim (get key row) [ throw e ↦ throw e | ok v ↦ ok (quoted R v) ]

  -- the part behind the check that the user has accounts
  unfoldable pub cards_of : Value Num → Handler R
  cards_of accounts = do
    ids ← map_rows R (quoted_column "account_id") accounts
    let account_ids : String = join ", " ids
    if (account_ids == "") || (trim account_ids == "")
        then pure (success "cards" (array []))
        else (do
          cards ← execute_query R (
              "SELECT * FROM cards WHERE account_id IN (" ++ account_ids
              ++ ") ORDER BY created_at DESC")
          pure (success "cards" (rows_or_empty R cards)))

  unfoldable pub cards_get : Request Num → Handler R
  unfolding cards_of
  cards_get request = try_or_500 R "[CARDS_GET_ERROR]" "Server error" (
      with_user R request λ user_id. do
        accounts ← execute_query R (account_ids_query user_id)
        if no_rows R accounts then pure (success "cards" (array [])) else cards_of accounts)
