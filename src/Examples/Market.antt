-- ===== src/Examples/Market.antt =====
-- The routes of the marketplace at concrete inputs.
use wwfsdb.Base.{List, map, ◌==◌, if◌then◌else◌, ◌≡◌, refl, false, String, [], ◌∷◌}
use wwfsdb.Base.Int.{pos}
use wwfsdb.Js.Convert.{to_text}
use wwfsdb.Js.Value.{
  Value, Result, ok, throw, array, keys, axios_message, type_error, Exn, str, num, obj, object,
  object_fields, Fields,
}
use wwfsdb.Js.Runtime.{Runtime}
use wwfsdb.Js.Action.{World, axios_post, ◌>>=◌}
use wwfsdb.Market.Client.{read_request, execute_query}
use wwfsdb.Market.Client.Outcome.{read_answer}
use wwfsdb.Market.Routes.{
  MarketRequest, get_user, post_tags, market_handle, user_get, respond, server_error, error_message,
}
use wwfsdb.Market.Page.{ListView, blank, table, failed, list_view, submit_tag}
use wwfsdb.Market.Page.Tables.{line_of, list_view-table, list_view-market_handle}
use wwfsdb.Market.Page.Forms.{IsStored, tag, Submits-IsStored}
use wwfsdb.Market.Routes.Columns.{select_rows, insert_row}
use wwfsdb.Market.Routes.Relay.{IsRelay, request_of, outcome_of, market_handle-IsRelay}
use wwfsdb.Examples.Bank.{Coins, thirty, Accounts, toy}

abbrev start : World Accounts
start = record {
  server = record { a = pos 100; b = pos 5; lenient = false };
  sent = [];
  console = [];
}

abbrev message_of : Exn → String
message_of e = "failed"

abbrev new_tag : Fields Coins
new_tag = object_fields (("id", num thirty) ∷ ("name", str "art") ∷ [])

abbrev asked : MarketRequest Coins
asked = record { params_id = "30"; body = object [] }

market_handle-IsRelay_example :
    IsRelay toy message_of
      (request_of toy post_tags "" new_tag)
      (outcome_of toy post_tags)
      start
      (market_handle toy message_of post_tags (record { params_id = ""; body = obj new_tag }) start)
market_handle-IsRelay_example = market_handle-IsRelay toy message_of post_tags "" new_tag start

abbrev odd_rows : List (Value Coins) → Result ListView
odd_rows rows = ok blank

abbrev second_tag : Fields Coins
second_tag = object_fields (("name", str "music") ∷ [])

list_view-table_example :
    list_view toy message_of odd_rows (ok (array (map obj (new_tag ∷ second_tag ∷ []))))
    ≡ table
        (keys new_tag)
        (map (line_of toy message_of odd_rows (keys new_tag)) (new_tag ∷ second_tag ∷ []))
list_view-table_example = list_view-table toy message_of odd_rows new_tag (second_tag ∷ [])

-- The second row has no identifier: its cell is empty.
list_view_test :
    list_view toy message_of odd_rows (ok (array (map obj (new_tag ∷ second_tag ∷ []))))
    ≡ table ("id" ∷ "name" ∷ []) (("30" ∷ "art" ∷ []) ∷ ("" ∷ "music" ∷ []) ∷ [])
unfolding list_view to_text
list_view_test = refl

abbrev inputs : String → String
inputs id = if id == "tag-id" then "30" else "art"

Submits-IsStored_example :
    IsStored toy inputs message_of (λ v. v) post_tags (submit_tag toy inputs) start
Submits-IsStored_example = Submits-IsStored message_of (λ v. v) start tag

-- A server to which no request can be made.
abbrev silent : Runtime
silent = record toy { post = λ q s. (throw axios_message, s) }

refused :
    read_answer silent (silent.post (read_request (select_rows get_user "30")) start.server).0
    ≡ throw axios_message
refused = refl

unanswered :
    (market_handle silent message_of get_user asked start).0
    ≡ ok (server_error silent message_of axios_message)
unfolding user_get respond execute_query axios_post read_request ◌>>=◌ error_message
unanswered = refl

list_view-market_handle_example :
    ((server_error silent message_of axios_message).status ≡ 500)
    × (list_view silent message_of odd_rows (ok (server_error silent message_of axios_message).body)
        ≡ failed (message_of type_error))
list_view-market_handle_example =
    list_view-market_handle silent message_of odd_rows get_user asked start axios_message
      (server_error silent message_of axios_message) refl refused unanswered

-- The statement that stores a tag.
insert_row_test :
    insert_row toy post_tags new_tag ≡ "INSERT INTO tags (id, name) VALUES (30, 'art')"
unfolding to_text
insert_row_test = refl
