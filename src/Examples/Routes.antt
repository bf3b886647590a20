-- ===== src/Examples/Routes.antt =====
-- The routes, the client of the RPC server and the tokens at concrete inputs.
use wwfsdb.Base.{
  ltb, false, String, ◌≡◌, refl, none, some, [], ◌∷◌, List, arith, eq_iff, ◌==◌, filter,
}
use wwfsdb.Base.Int.{pos}
use wwfsdb.Js.Value.{
  Value, bool, undefined, str, num, syntax_error, axios_message, ok, throw, object, array, own,
}
use wwfsdb.Js.Convert.{to_text}
use wwfsdb.Js.Runtime.{Runtime}
use wwfsdb.Js.Action.{World, axios_post, ◌>>=◌}
use wwfsdb.Http.{Request, Response, failure}
use wwfsdb.Auth.{get_user_id_from_request, bearer_token, auth_header}
use wwfsdb.Auth.Header.{received, bearer_token-auth_header}
use wwfsdb.Rpc.{execute_query, execute_write_query, read_request, write_request}
use wwfsdb.Rpc.Outcome.{IsCall, read_outcome, write_outcome, queries-IsCall}
use wwfsdb.Api.Guard.{with_user, try_or_500}
use wwfsdb.Api.Guard.Rules.{OnlyReads}
use wwfsdb.Api.Guard.Access.{IsTurnedAway}
use wwfsdb.Api.Beneficiaries.{beneficiaries_delete, remove_beneficiary}
use wwfsdb.Api.Beneficiaries.Courses.{Course, beneficiaries_delete-Course}
use wwfsdb.Api.Beneficiaries.Ownership.{IsOwnDeletion, beneficiaries_delete-IsOwnDeletion}
use wwfsdb.Api.Settings.{settings_put, settings_put_body, roll_back}
use wwfsdb.Api.Settings.Rollback.{
  settings_put-eq-throw, settings_put-bad_body, after_rollback, logged,
}
use wwfsdb.Api.Login.{login_post}
use wwfsdb.Api.Loans.{group_payments, group_of, is_inherited}
use wwfsdb.Api.Loans.Grouping.{group_of-group_payments}
use wwfsdb.Api.Endpoint.Table.{
  handle, post_login, get_accounts, get_cards, get_loans, delete_beneficiaries,
}
use wwfsdb.Api.Endpoint.Access.{handle-IsTurnedAway}
use wwfsdb.Api.Endpoint.Hashes.{handle-HidesHash}
use wwfsdb.Api.Endpoint.Verdicts.{handle-SaysStatus}
use wwfsdb.Api.Endpoint.Answers.{handle-Answers}
use wwfsdb.Api.Endpoint.Reads.{handle-OnlyReads}
use wwfsdb.Api.Endpoint.Refusals.{handle-RefusesCleanly}
use wwfsdb.Examples.Bank.{Coins, thirty, Accounts, toy, answer}

-- A server that answers every read with one row, and takes every statement.
abbrev obliging : Runtime
obliging = record toy {
  post = λ q s. (answer "row", s);
  json_parse = λ text. ok (
      array (
        object (("user_id", str "u") ∷ ("password_hash", str "h") ∷ ("email", str "e") ∷ []) ∷ []));
}

-- A server to which no request can be made.
abbrev silent : Runtime
silent = record toy { post = λ q s. (throw axios_message, s) }

abbrev start : World Accounts
start = record {
  server = record { a = pos 100; b = pos 5; lenient = false };
  sent = [];
  console = [];
}

abbrev request : List (String × Value Coins) → Request Coins
request fields = record {
  authorization = some "Bearer t";
  body = ok (object fields);
  loan_id = "1";
}

abbrev stranger : Request Coins
stranger = record { authorization = none; body = ok (object []); loan_id = "1" }

handle-IsTurnedAway_example : IsTurnedAway toy start (handle toy get_accounts stranger start)
unfolding bearer_token
handle-IsTurnedAway_example = handle-IsTurnedAway toy get_accounts stranger start refl refl

refusal :
    (handle obliging delete_beneficiaries (request []) start).0
    ≡ ok (failure 400 "Beneficiary ID is required")
unfolding beneficiaries_delete with_user try_or_500 get_user_id_from_request bearer_token ◌>>=◌
refusal = refl

handle-RefusesCleanly_example :
    OnlyReads (handle obliging delete_beneficiaries (request []) start).1.sent
handle-RefusesCleanly_example =
    handle-RefusesCleanly obliging delete_beneficiaries (request []) start
      (failure 400 "Beneficiary ID is required") tt refusal refl

handle-SaysStatus_example :
    own "success" (failure {N = Coins} 400 "Beneficiary ID is required").body ≡ bool (ltb 400 300)
handle-SaysStatus_example =
    handle-SaysStatus obliging delete_beneficiaries (request []) start
      (failure 400 "Beneficiary ID is required") refusal

handle-Answers_example :
    (r : Response Coins) × ((handle silent get_loans (request []) start).0 ≡ ok r)
handle-Answers_example = handle-Answers silent get_loans (request []) start (λ e. grind arith)

handle-OnlyReads_example : OnlyReads (handle toy get_cards (request []) start).1.sent
handle-OnlyReads_example = handle-OnlyReads toy get_cards (request []) start refl tt

abbrev deletion : Request Coins
deletion = request (("beneficiary_id", str "x") ∷ [])

deleted :
    (r : Response Coins) × ((beneficiaries_delete obliging deletion start).0 ≡ ok r)
    × (r.status ≡ 200)
unfolding beneficiaries_delete remove_beneficiary with_user try_or_500 get_user_id_from_request
    bearer_token execute_query execute_write_query axios_post to_text read_request write_request
    ◌>>=◌
deleted = (_, refl, refl)

succeeded_deletion :
    IsOwnDeletion obliging deletion start (beneficiaries_delete obliging deletion start).1
succeeded_deletion =
    beneficiaries_delete-IsOwnDeletion obliging deletion start deleted.0 deleted.1 deleted.2

beneficiaries_delete-Course_example :
    Course obliging deletion start (beneficiaries_delete obliging deletion start)
beneficiaries_delete-Course_example = beneficiaries_delete-Course obliging deletion start

abbrev no_json : Request Coins
no_json = record { authorization = some "Bearer t"; body = throw syntax_error; loan_id = "" }

settings_fail : (settings_put silent no_json start).0 ≡ throw axios_message
unfolding settings_put settings_put_body roll_back with_user get_user_id_from_request bearer_token
    execute_write_query axios_post write_request ◌>>=◌
settings_fail = refl

unanswered :
    (after : World Accounts) × ((execute_write_query silent "ROLLBACK;" after).0
      ≡ throw axios_message)
unanswered = settings_put-eq-throw silent no_json start axios_message settings_fail

settings_put-bad_body_example :
    ((settings_put obliging no_json start).1.sent ≡ write_request "ROLLBACK;" ∷ [])
    × ((settings_put obliging no_json start).0
        ≡ after_rollback obliging
            (execute_write_query obliging "ROLLBACK;" (logged obliging no_json start)).0)
unfolding bearer_token
settings_put-bad_body_example = settings_put-bad_body obliging no_json start syntax_error refl refl

abbrev credentials : Request Coins
credentials = request (("email", str "e") ∷ ("password", str "p") ∷ ("full_name", str "n") ∷ [])

logged_in :
    (r : Response Coins) × ((login_post obliging credentials start).0 ≡ ok r) × (r.status ≡ 200)
unfolding login_post try_or_500 execute_query axios_post to_text read_request ◌>>=◌
logged_in = (_, refl, refl)

handle-HidesHash_example : own "password_hash" (own "user" logged_in.0.body) ≡ undefined
handle-HidesHash_example =
    handle-HidesHash obliging post_login credentials start logged_in.0 refl logged_in.1

queries-IsCall_example :
    IsCall toy (read_request "COMMIT;") (read_outcome toy) start (execute_query toy "COMMIT;" start)
    × IsCall toy
        (write_request "COMMIT;")
        (write_outcome toy)
        start
        (execute_write_query toy "COMMIT;" start)
queries-IsCall_example = queries-IsCall toy "COMMIT;" start

bearer_token-auth_header_example :
    (received (auth_header (some "abc")) ≡ ok (some "abc"))
    × (received (auth_header none) ≡ ok none)
bearer_token-auth_header_example =
    bearer_token-auth_header "abc" (λ e. ground (arith, eq_iff "abc" ""))
      (refl, refl, refl, (refl, refl, refl, (refl, refl, refl, tt)))

abbrev payment : String → Value Coins
payment id = object (("loan_id", str id) ∷ ("amount", num thirty) ∷ [])

abbrev payments : List (Value Coins)
payments = payment "1" ∷ payment "2" ∷ payment "1" ∷ []

grouped :
    group_payments toy [] payments
    ≡ ok (("1", payment "1" ∷ payment "1" ∷ []) ∷ ("2", payment "2" ∷ []) ∷ [])
unfolding group_payments to_text
grouped = refl

group_of-group_payments_example :
    group_of "1" (("1", payment "1" ∷ payment "1" ∷ []) ∷ ("2", payment "2" ∷ []) ∷ [])
    ≡ ok (filter (λ p. to_text toy (own "loan_id" p) == "1") payments)
unfolding is_inherited
group_of-group_payments_example = group_of-group_payments toy "1" payments _ grouped refl
