-- ===== src/Examples/Transfers.antt =====
-- A transfer of thirty from "a" to "b".
use wwfsdb.Base.{String, true, false, ◌≡◌, refl, some, [], ◌∷◌, ltb}
use wwfsdb.Base.Int.{pos}
use wwfsdb.Js.Value.{str, undefined, ok, object}
use wwfsdb.Js.Convert.{to_text, truthy}
use wwfsdb.Js.Action.{World, axios_post, ◌>>=◌}
use wwfsdb.Http.{Request, Response}
use wwfsdb.Api.Guard.{with_user, try_or_500}
use wwfsdb.Auth.{get_user_id_from_request, bearer_token}
use wwfsdb.Rpc.{execute_query, execute_write_query, read_request, write_request}
use wwfsdb.Api.Transfer.{
  deduct_query, add_query, insert_query, transfer_post, transfer_body, check_details, check_sender,
  find_receiver, perform, move_money,
}
use wwfsdb.Auth.Token.{user_of}
use wwfsdb.Api.Transfer.Courses.{Course, move_money-Course}
use wwfsdb.Api.Transfer.Moves.{IsTransfer, transfer_post-IsTransfer}
use wwfsdb.Pages.Transfer.{opened_transfer, transfer_answered}
use wwfsdb.Pages.Transfer.Outcome.{shown_for, transfer_answered-transfer_post}
use wwfsdb.Examples.Bank.{Coins, thirty, Accounts, toy}

abbrev transfer_request : Request Coins
transfer_request = record {
  authorization = some "Bearer t";
  body = ok (
      object (
        ("from_account_id", str "a") ∷ ("to_account_number", str "7") ∷ ("amount", str "30") ∷ []));
  loan_id = "";
}

abbrev pub start : World Accounts
start = record {
  server = record { a = pos 100; b = pos 5; lenient = false };
  sent = [];
  console = [];
}

transfer_answer :
    (r : Response Coins) × ((transfer_post toy transfer_request start).0 ≡ ok r) × (r.status ≡ 200)
unfolding transfer_post transfer_body check_details check_sender find_receiver perform move_money
    with_user try_or_500 get_user_id_from_request bearer_token execute_query execute_write_query
    axios_post read_request write_request deduct_query add_query insert_query to_text ◌>>=◌
transfer_answer = (_, refl, refl)

transfer_post-IsTransfer_example :
    (truthy toy (user_of toy start.server transfer_request) ≡ true)
    × IsTransfer toy transfer_request
        (user_of toy start.server transfer_request)
        start
        (transfer_post toy transfer_request start).1
transfer_post-IsTransfer_example =
    transfer_post-IsTransfer toy transfer_request start transfer_answer.0 transfer_answer.1
      transfer_answer.2

transfer_answered-transfer_post_example :
    transfer_answered toy (ok transfer_answer.0.body) opened_transfer
    ≡ shown_for toy opened_transfer transfer_answer.0.body (ltb transfer_answer.0.status 300)
transfer_answered-transfer_post_example =
    transfer_answered-transfer_post toy transfer_request start transfer_answer.0 opened_transfer
      transfer_answer.1

abbrev inserted : String
inserted = insert_query toy "id" (str "a") (str "b") thirty undefined "now"

-- The deduction from "b" is refused, and the rollback takes the amount from "a" all the same.
move_money-Course_example :
    Course toy thirty
      (str "b")
      (str "a")
      inserted
      start
      (move_money toy thirty (str "b") (str "a") inserted start)
move_money-Course_example = move_money-Course toy thirty (str "b") (str "a") inserted start
