-- ===== src/Market/Routes/Relay.antt =====
-- What each route sends and answers: one statement about its table, and a relay of the outcome.
use wwfsdb.Base.{Bool-cases, inl, inr, if◌then◌else◌, ◌≡◌, ap, ◌∙◌, String, true, false, ◌∷◌, arith}
use wwfsdb.Js.Value.{Value, Exn, Fields, obj, Result, ok, throw}
use wwfsdb.Js.Runtime.{Runtime, RpcRequest}
use wwfsdb.Js.Action.{Action, World, ◌>>=◌}
use wwfsdb.Http.{Response, json}
use wwfsdb.Rpc.Outcome.{IsCall, write_outcome}
use wwfsdb.Market.Routes.Columns.{is_post, select_rows, insert_row}
use wwfsdb.Market.Client.{read_request, write_request, execute_query, execute_write_query}
use wwfsdb.Market.Client.Outcome.{read_answer, market_read-IsCall, market_write-IsCall}
use wwfsdb.Market.Routes.{
  MarketRequest, Route, get_users, get_collections, get_categories, get_nfts, get_sales, get_bids,
  get_tags, get_nft_tags, get_user, get_nft, post_users, post_collections, post_categories,
  post_nfts, post_bids, post_tags, post_nft_tags, server_error, respond, market_handle, users_get,
  collections_get, categories_get, nfts_get, sales_get, bids_get, tags_get, nft_tags_get, user_get,
  nft_get, users_post, collections_post, categories_post, nfts_post, bids_post, tags_post,
  nft_tags_post,
}

module _ (R : Runtime) where
  open R use {Num, Server}

  module _ (engine_message : Exn → String) where
    abbrev pub relay : Result (Value Num) → Response Num
    relay (ok value) = json value
    relay (throw e) = server_error R engine_message e

    -- One request was sent, and its outcome is the response.
    pub record IsRelay (q : RpcRequest) (outcome : Result (Value Num) → Result (Value Num))
        (w : World Server) (after : Result (Response Num) × World Server) : Type 0 where
      pub result : after.0 ≡ ok (relay (outcome (R.post q w.server).0))
      pub server : after.1.server ≡ (R.post q w.server).1
      pub sent : after.1.sent ≡ q ∷ w.sent

    respond-eq :
        (m : Action Server (Value Num)) (w : World Server)
        → respond R engine_message m w ≡ (ok (relay (m w).0), (m w).1)
    unfolding respond ◌>>=◌
    respond-eq m w = ground arith

    respond-IsRelay :
        (m : Action Server (Value Num)) (q : RpcRequest)
        (outcome : Result (Value Num) → Result (Value Num)) (w : World Server)
        → IsCall R q outcome w (m w)
        → IsRelay q outcome w (respond R engine_message m w)
    respond-IsRelay m q outcome w c = record {
      result =
          ap (λ (x : Result (Response Num) × World Server). x.0) (respond-eq m w)
          ∙ ap (λ r. ok (relay r)) c.result;
      server =
          ap (λ (x : Result (Response Num) × World Server). x.1.server) (respond-eq m w) ∙ c.server;
      sent = ap (λ (x : Result (Response Num) × World Server). x.1.sent) (respond-eq m w) ∙ c.sent;
    }

    read_back :
        (query : String) (w : World Server)
        → IsRelay
            (read_request query)
            (read_answer R)
            w
            (respond R engine_message (execute_query R query) w)
    read_back query w =
        respond-IsRelay (execute_query R query) (read_request query) (read_answer R) w
          (market_read-IsCall R query w)

    write_back :
        (query : String) (w : World Server)
        → IsRelay
            (write_request query)
            (write_outcome R)
            w
            (respond R engine_message (execute_write_query R query) w)
    write_back query w =
        respond-IsRelay (execute_write_query R query) (write_request query) (write_outcome R) w
          (market_write-IsCall R query w)

-- A `GET` route sends one read, of all rows of its table or of the row of the identifier in its path,
-- and answers with its result, or with 500 and the message of what was thrown.
pub market_handle-get :
    (R : Runtime) (engine_message : Exn → String) (route : Route) (request : MarketRequest R.Num)
    (w : World R.Server)
    → is_post route ≡ false
    → IsRelay R engine_message
        (read_request (select_rows route request.params_id))
        (read_answer R)
        w
        (market_handle R engine_message route request w)
unfolding users_get collections_get categories_get nfts_get sales_get bids_get tags_get nft_tags_get
    user_get nft_get
market_handle-get R engine_message get_users request w h = read_back R engine_message _ w
market_handle-get R engine_message get_collections request w h = read_back R engine_message _ w
market_handle-get R engine_message get_categories request w h = read_back R engine_message _ w
market_handle-get R engine_message get_nfts request w h = read_back R engine_message _ w
market_handle-get R engine_message get_sales request w h = read_back R engine_message _ w
market_handle-get R engine_message get_bids request w h = read_back R engine_message _ w
market_handle-get R engine_message get_tags request w h = read_back R engine_message _ w
market_handle-get R engine_message get_nft_tags request w h = read_back R engine_message _ w
market_handle-get R engine_message get_user request w h = read_back R engine_message _ w
market_handle-get R engine_message get_nft request w h = read_back R engine_message _ w
market_handle-get R engine_message post_users request w h = cc
market_handle-get R engine_message post_collections request w h = cc
market_handle-get R engine_message post_categories request w h = cc
market_handle-get R engine_message post_nfts request w h = cc
market_handle-get R engine_message post_bids request w h = cc
market_handle-get R engine_message post_tags request w h = cc
market_handle-get R engine_message post_nft_tags request w h = cc

-- A `POST` route whose body is an object sends one statement, which stores the row of the body's
-- fields: every column of the table's list once, in order, a text between quotes and a number bare. It
-- answers with the outcome, or with 500 and the message of what was thrown.
pub market_handle-post :
    (R : Runtime) (engine_message : Exn → String) (route : Route) (id : String)
    (fields : Fields R.Num) (w : World R.Server)
    → is_post route ≡ true
    → IsRelay R engine_message
        (write_request (insert_row R route fields))
        (write_outcome R)
        w
        (market_handle R engine_message route (record { params_id = id; body = obj fields }) w)
unfolding ◌>>=◌ users_post collections_post categories_post nfts_post bids_post tags_post
    nft_tags_post
market_handle-post R engine_message get_users id fields w h = cc
market_handle-post R engine_message get_collections id fields w h = cc
market_handle-post R engine_message get_categories id fields w h = cc
market_handle-post R engine_message get_nfts id fields w h = cc
market_handle-post R engine_message get_sales id fields w h = cc
market_handle-post R engine_message get_bids id fields w h = cc
market_handle-post R engine_message get_tags id fields w h = cc
market_handle-post R engine_message get_nft_tags id fields w h = cc
market_handle-post R engine_message get_user id fields w h = cc
market_handle-post R engine_message get_nft id fields w h = cc
market_handle-post R engine_message post_users id fields w h = write_back R engine_message _ w
market_handle-post R engine_message post_collections id fields w h = write_back R engine_message _ w
market_handle-post R engine_message post_categories id fields w h = write_back R engine_message _ w
market_handle-post R engine_message post_nfts id fields w h = write_back R engine_message _ w
market_handle-post R engine_message post_bids id fields w h = write_back R engine_message _ w
market_handle-post R engine_message post_tags id fields w h = write_back R engine_message _ w
market_handle-post R engine_message post_nft_tags id fields w h = write_back R engine_message _ w

-- The request of a route, and what it makes of the answer.
abbrev pub request_of : (R : Runtime) → Route → String → Fields R.Num → RpcRequest
request_of R route id fields =
    if is_post route
    then write_request (insert_row R route fields)
    else read_request (select_rows route id)

abbrev pub outcome_of : (R : Runtime) → Route → Result (Value R.Num) → Result (Value R.Num)
outcome_of R route = if is_post route then write_outcome R else read_answer R

-- Every route sends one request: a `GET` route a read of all rows of its table or of the row of the
-- identifier in its path, a `POST` route whose body is an object the statement that stores the row of the
-- body's fields, every column of the table's list once, in order, a text between quotes and a number
-- bare. It answers with the outcome, or with 500 and the message of what was thrown.
pub market_handle-IsRelay :
    (R : Runtime) (engine_message : Exn → String) (route : Route) (id : String)
    (fields : Fields R.Num) (w : World R.Server)
    → IsRelay R engine_message
        (request_of R route id fields)
        (outcome_of R route)
        w
        (market_handle R engine_message route (record { params_id = id; body = obj fields }) w)
market_handle-IsRelay R engine_message route id fields w = elim (Bool-cases (is_post route)) [
  | inl e ↦ rw e (market_handle-post R engine_message route id fields w e)
  | inr e ↦
      rw e (
        market_handle-get R engine_message route (record { params_id = id; body = obj fields }) w e)
]
