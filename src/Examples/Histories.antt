-- ===== src/Examples/Histories.antt =====
-- The routes that show rows of the database, and registration, at concrete inputs.
use wwfsdb.Base.{String, List, ◌≡◌, refl, some, [], ◌∷◌, false}
use wwfsdb.Base.Int.{pos}
use wwfsdb.Js.Value.{Value, str, ok, object, array}
use wwfsdb.Js.Convert.{to_text}
use wwfsdb.Js.Runtime.{Runtime}
use wwfsdb.Js.Action.{World, axios_post, ◌>>=◌}
use wwfsdb.Http.{Request, Response}
use wwfsdb.Auth.{get_user_id_from_request, bearer_token}
use wwfsdb.Rpc.{execute_query, execute_write_query, read_request, write_request}
use wwfsdb.Api.Guard.{with_user, try_or_500, map_rows}
use wwfsdb.Api.Transactions.{transactions_get, filter_rows, involves, with_amount}
use wwfsdb.Api.Transactions.Filtering.{IsOwnHistory, transactions_get-IsOwnHistory}
use wwfsdb.Api.Dashboard.{recent_transactions, is_own, process_transaction}
use wwfsdb.Api.Dashboard.Recent.{IsRecent, recent_transactions-IsRecent}
use wwfsdb.Api.LoanPayments.{loan_payments_get}
use wwfsdb.Api.LoanPayments.Ownership.{IsOwnLoan, loan_payments_get-IsOwnLoan}
use wwfsdb.Api.Register.{register_post, before_at}
use wwfsdb.Api.Register.Statements.{IsRegistration, register_post-IsRegistration}
use wwfsdb.Examples.Bank.{Coins, Accounts, toy, answer}

abbrev row : Value Coins
row = object (
    ("user_id", str "u")
    ∷ ("account_id", str "a")
    ∷ ("from_account_id", str "a")
    ∷ ("amount", str "30")
    ∷ [])

-- A server that answers every read with one row.
abbrev one_row : Runtime
one_row = record toy { post = λ q s. (answer "row", s); json_parse = λ text. ok (array (row ∷ [])) }

-- A server without rows that takes every statement.
abbrev no_row : Runtime
no_row = record toy { post = λ q s. (answer "none", s) }

abbrev start : World Accounts
start = record {
  server = record { a = pos 100; b = pos 5; lenient = false };
  sent = [];
  console = [];
}

abbrev request : List (String × Value Coins) → Request Coins
request fields = record {
  authorization = some "Bearer t";
  body = ok (object fields);
  loan_id = "1";
}

history :
    (r : Response Coins) × ((transactions_get one_row (request []) start).0 ≡ ok r)
    × (r.status ≡ 200)
unfolding transactions_get filter_rows involves with_amount map_rows with_user try_or_500
    get_user_id_from_request bearer_token execute_query axios_post to_text read_request ◌>>=◌
history = (_, refl, refl)

transactions_get-IsOwnHistory_example : IsOwnHistory one_row (request []) start history.0
transactions_get-IsOwnHistory_example =
    transactions_get-IsOwnHistory one_row (request []) start history.0 history.1 history.2

recent :
    (shown : List (Value Coins)) × ((recent_transactions one_row (array (row ∷ [])) start).0
      ≡ ok shown)
unfolding recent_transactions filter_rows is_own process_transaction map_rows execute_query
    axios_post to_text read_request ◌>>=◌
recent = (_, refl)

recent_transactions-IsRecent_example : IsRecent one_row (array (row ∷ [])) start recent.0
recent_transactions-IsRecent_example =
    recent_transactions-IsRecent one_row (array (row ∷ [])) start recent.0 recent.1

payments :
    (r : Response Coins) × ((loan_payments_get one_row (request []) start).0 ≡ ok r)
    × (r.status ≡ 200)
unfolding loan_payments_get with_user try_or_500 get_user_id_from_request bearer_token execute_query
    axios_post to_text read_request ◌>>=◌
payments = (_, refl, refl)

loan_payments_get-IsOwnLoan_example : IsOwnLoan one_row (request []) start payments.0
loan_payments_get-IsOwnLoan_example =
    loan_payments_get-IsOwnLoan one_row (request []) start payments.0 payments.1 payments.2

abbrev newcomer : Request Coins
newcomer = request (("email", str "e@x") ∷ ("password", str "p") ∷ ("full_name", str "n") ∷ [])

registration :
    (r : Response Coins) × ((register_post no_row newcomer start).0 ≡ ok r) × (r.status ≡ 200)
unfolding register_post before_at try_or_500 execute_query execute_write_query axios_post to_text
    read_request write_request ◌>>=◌
registration = (_, refl, refl)

register_post-IsRegistration_example :
    IsRegistration no_row newcomer start (register_post no_row newcomer start).1 registration.0
register_post-IsRegistration_example =
    register_post-IsRegistration no_row newcomer start registration.0 registration.1 registration.2
