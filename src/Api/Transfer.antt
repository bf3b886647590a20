-- ===== src/Api/Transfer.antt =====
-- app/api/transfer/route.ts
pub mod Courses
pub mod Moves
use Prim.Native.String.{◌++◌}
use wwfsdb.Base.{String, true, not, ◌||◌, [], ◌∷◌, if◌then◌else◌}
use wwfsdb.Js.Value.{Value, bool, num, str, Exn, object, get}
use wwfsdb.Js.Convert.{truthy, to_text, to_number, or_else, strict_eq, no_rows, first_row}
use wwfsdb.Js.Runtime.{Runtime}
use wwfsdb.Js.Action.{Action, pure, raise, lift, catch, log, outside_value, ◌>>=◌, ◌>>◌}
use wwfsdb.Http.{Request, json, failure}
use wwfsdb.Rpc.{execute_query, execute_write_query}
use wwfsdb.Api.Guard.{Handler, try_or_500, with_user}

module _ (R : Runtime) where
  open R use {Num, Server, uuid, now_iso, parse_float, is_nan, num_lt, num_le, of_ℕ, num_to_string}

  abbrev pub sender_query : (from_id user : Value Num) → String
  sender_query from_id user =
      "SELECT * FROM accounts WHERE account_id = '"
      ++ to_text R from_id
      ++ "' AND user_id = '"
      ++ to_text R user
      ++ "'"

  abbrev pub receiver_query : Value Num → String
  receiver_query number =
      "SELECT account_id FROM accounts WHERE account_number = '" ++ to_text R number ++ "'"

  unfoldable pub deduct_query : Num → Value Num → String
  deduct_query amount id =
      "UPDATE accounts SET balance = balance - "
      ++ num_to_string amount
      ++ " WHERE account_id = '"
      ++ to_text R id
      ++ "';"

  unfoldable pub add_query : Num → Value Num → String
  add_query amount id =
      "UPDATE accounts SET balance = balance + "
      ++ num_to_string amount
      ++ " WHERE account_id = '"
      ++ to_text R id
      ++ "';"

  unfoldable pub insert_query :
      (transaction_id : String) (from_id to_id : Value Num)
      → Num
      → (description : Value Num) (created_at : String) → String
  insert_query transaction_id from_id to_id amount description created_at =
      "INSERT INTO transactions (transaction_id, from_account_id, to_account_id, amount, currency, "
      ++ "transaction_type, description, status, created_at) VALUES ('"
      ++ transaction_id
      ++ "', '"
      ++ to_text R from_id
      ++ "', '"
      ++ to_text R to_id
      ++ "', "
      ++ num_to_string amount
      ++ ", 'USD', 'Transfer', '"
      ++ to_text R (or_else R description (str "Money Transfer"))
      ++ "', 'Completed', '"
      ++ created_at
      ++ "');"

  -- the two statements of the rollback, the deduction first, with an error in them only logged
  unfoldable pub compensate : Num → (from_id to_id : Value Num) → Action Server (Unit {0})
  compensate amount from_id to_id =
      catch
        (do
          execute_write_query R (add_query amount from_id)
          execute_write_query R (deduct_query amount to_id)
          pure tt)
        (λ e. log "[TRANSFER_ROLLBACK_ERROR]")

  -- the three statements of the transfer, and the rollback if one of them throws
  unfoldable pub move_money : Num → (from_id to_id : Value Num) → String → Action Server (Unit {0})
  unfolding compensate
  move_money amount from_id to_id insert =
      catch
        (do
          execute_write_query R (deduct_query amount from_id)
          execute_write_query R (add_query amount to_id)
          execute_write_query R insert
          pure tt)
        (λ e. do log "[TRANSFER_QUERIES_ERROR]"; compensate amount from_id to_id; raise e)

  -- step 3 of the route: the statements, then the response
  unfoldable pub perform : Num → (from_id to_id description : Value Num) → Handler R
  perform amount from_id to_id description = do
    transaction_id ← outside_value uuid
    created_at ← outside_value now_iso
    move_money amount from_id to_id
        (insert_query transaction_id from_id to_id amount description created_at)
    pure (
        json (
          object (
            ("success", bool true)
            ∷ (
              "transaction",
              object (
                  ("transaction_id", str transaction_id)
                  ∷ ("from_account_id", from_id)
                  ∷ ("to_account_id", to_id)
                  ∷ ("amount", num amount)
                  ∷ ("currency", str "USD")
                  ∷ ("transaction_type", str "Transfer")
                  ∷ ("description", or_else R description (str "Money Transfer"))
                  ∷ ("status", str "Completed")
                  ∷ ("created_at", str created_at)
                  ∷ []),
            )
            ∷ ("message", str "Transfer completed successfully")
            ∷ [])))

  -- step 2: the receiver's account
  unfoldable pub find_receiver : Num → (from_id number description : Value Num) → Handler R
  find_receiver amount from_id number description = do
    receivers ← execute_query R (receiver_query number)
    if no_rows R receivers then pure (failure 404 "Recipient account not found") else do
      to_id ← lift (get "account_id" (first_row R receivers))
      if strict_eq R from_id to_id
          then pure (failure 400 "Cannot transfer to the same account")
          else perform amount from_id to_id description

  -- step 1: the sender's account and its balance
  unfoldable pub check_sender :
      (user : Value Num) → Num → (from_id number description : Value Num) → Handler R
  check_sender user amount from_id number description = do
    senders ← execute_query R (sender_query from_id user)
    if no_rows R senders
        then pure (failure 403 "Sender account not found or does not belong to user")
        else (do
          balance ← lift (get "balance" (first_row R senders))
          if num_lt (to_number R balance) amount
              then pure (failure 400 "Insufficient funds")
              else find_receiver amount from_id number description)

  -- the check of the fields
  unfoldable pub check_details : (user from_id number given description : Value Num) → Handler R
  check_details user from_id number given description =
      let amount = parse_float (to_text R given) in
      if not (truthy R from_id) || not (truthy R number) || is_nan amount || num_le amount (of_ℕ 0)
      then pure (failure 400 "Invalid transfer details")
      else check_sender user amount from_id number description

  unfoldable pub transfer_body : Request Num → Value Num → Handler R
  transfer_body request user = do
    body ← lift request.body
    from_id ← lift (get "from_account_id" body)
    number ← lift (get "to_account_number" body)
    given ← lift (get "amount" body)
    description ← lift (get "description" body)
    check_details user from_id number given description

  unfoldable pub transfer_post : Request Num → Handler R
  transfer_post request = with_user R request λ user_id.
      try_or_500 R "[TRANSFER_POST_ERROR]" "Server error during transfer"
        (transfer_body request user_id)
