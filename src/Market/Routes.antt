-- ===== src/Market/Routes.antt =====
-- ssql_tests/nft-marketplace-backend/routes/api.js. Express's router is outside: a handler gets
-- `req.params.id` and `req.body`.
pub mod Columns
pub mod Relay
use Prim.Native.String.{◌++◌}
use wwfsdb.Base.{String, [], ◌∷◌}
use wwfsdb.Js.Value.{Value, str, Exn, error, get, object}
use wwfsdb.Js.Convert.{to_text}
use wwfsdb.Js.Runtime.{Runtime}
use wwfsdb.Js.Action.{Action, pure, lift, catch, ◌>>=◌}
use wwfsdb.Http.{Response, json}
use wwfsdb.Market.Statements.{
  insert_users, insert_collections, insert_categories, insert_nfts, insert_bids, insert_tags,
  insert_nft_tags,
}
use wwfsdb.Market.Client.{execute_query, execute_write_query}

pub record MarketRequest (N : Type 0) : Type 0 where
  pub params_id : String
  pub body : Value N

-- `error.message`. The texts of the engine's and the packages' own errors are a parameter.
unfoldable pub error_message : (Exn → String) → Exn → String
error_message engine_message (error message) = message
error_message engine_message e = engine_message e

-- The routes that the router has.
pub data Route : Type 0 where
  get_users get_collections get_categories get_nfts get_sales get_bids get_tags get_nft_tags : Route
  get_user get_nft post_users post_collections post_categories : Route
  post_nfts post_bids post_tags post_nft_tags : Route

module _ (R : Runtime) where
  open R use {Num, Server}

  abbrev pub RouteHandler : Type 0
  RouteHandler = MarketRequest Num → Action Server (Response Num)

module _ (R : Runtime) (engine_message : Exn → String) where
  open R use {Num, Server}

  abbrev pub server_error : Exn → Response Num
  server_error e = record {
    status = 500;
    body = object (("error", str (error_message engine_message e)) ∷ []);
  }

  -- `try { … res.json(value) } catch (error) { res.status(500).json({ error: error.message }) }`
  unfoldable pub respond : Action Server (Value Num) → Action Server (Response Num)
  respond m = catch (do value ← m; pure (json value)) (λ e. pure (server_error e))

  unfoldable pub users_get : RouteHandler R
  users_get request = respond (execute_query R "SELECT * FROM users")

  unfoldable pub collections_get : RouteHandler R
  collections_get request = respond (execute_query R "SELECT * FROM collections")

  unfoldable pub categories_get : RouteHandler R
  categories_get request = respond (execute_query R "SELECT * FROM categories")

  unfoldable pub nfts_get : RouteHandler R
  nfts_get request = respond (execute_query R "SELECT * FROM nfts")

  unfoldable pub sales_get : RouteHandler R
  sales_get request = respond (execute_query R "SELECT * FROM transactions")

  unfoldable pub bids_get : RouteHandler R
  bids_get request = respond (execute_query R "SELECT * FROM bids")

  unfoldable pub tags_get : RouteHandler R
  tags_get request = respond (execute_query R "SELECT * FROM tags")

  unfoldable pub nft_tags_get : RouteHandler R
  nft_tags_get request = respond (execute_query R "SELECT * FROM nft_tags")

  unfoldable pub user_get : RouteHandler R
  user_get request =
      respond (execute_query R ("SELECT * FROM users WHERE id = " ++ request.params_id))

  unfoldable pub nft_get : RouteHandler R
  nft_get request =
      respond (execute_query R ("SELECT * FROM nfts WHERE id = " ++ request.params_id))

  unfoldable pub users_post : RouteHandler R
  users_post request = respond (do
    id ← lift (get "id" request.body)
    username ← lift (get "username" request.body)
    wallet_address ← lift (get "wallet_address" request.body)
    created_at ← lift (get "created_at" request.body)
    updated_at ← lift (get "updated_at" request.body)
    profile_image_url ← lift (get "profile_image_url" request.body)
    bio ← lift (get "bio" request.body)
    execute_write_query R
        (insert_users R id username wallet_address created_at updated_at profile_image_url bio))

  unfoldable pub collections_post : RouteHandler R
  collections_post request = respond (do
    id ← lift (get "id" request.body)
    name ← lift (get "name" request.body)
    description ← lift (get "description" request.body)
    creator_id ← lift (get "creator_id" request.body)
    execute_write_query R (insert_collections R id name description creator_id))

  unfoldable pub categories_post : RouteHandler R
  categories_post request = respond (do
    id ← lift (get "id" request.body)
    name ← lift (get "name" request.body)
    execute_write_query R (insert_categories R id name))

  unfoldable pub nfts_post : RouteHandler R
  nfts_post request = respond (do
    id ← lift (get "id" request.body)
    name ← lift (get "name" request.body)
    description ← lift (get "description" request.body)
    image_url ← lift (get "image_url" request.body)
    owner_id ← lift (get "owner_id" request.body)
    creator_id ← lift (get "creator_id" request.body)
    price ← lift (get "price" request.body)
    created_at ← lift (get "created_at" request.body)
    updated_at ← lift (get "updated_at" request.body)
    collection_id ← lift (get "collection_id" request.body)
    category_id ← lift (get "category_id" request.body)
    execute_write_query R (
        insert_nfts R id name description image_url owner_id creator_id price created_at updated_at
          collection_id category_id))

  unfoldable pub bids_post : RouteHandler R
  bids_post request = respond (do
    id ← lift (get "id" request.body)
    nft_id ← lift (get "nft_id" request.body)
    bidder_id ← lift (get "bidder_id" request.body)
    bid_amount ← lift (get "bid_amount" request.body)
    bid_date ← lift (get "bid_date" request.body)
    execute_write_query R (insert_bids R id nft_id bidder_id bid_amount bid_date))

  unfoldable pub tags_post : RouteHandler R
  tags_post request = respond (do
    id ← lift (get "id" request.body)
    name ← lift (get "name" request.body)
    execute_write_query R (insert_tags R id name))

  unfoldable pub nft_tags_post : RouteHandler R
  nft_tags_post request = respond (do
    nft_id ← lift (get "nft_id" request.body)
    tag_id ← lift (get "tag_id" request.body)
    execute_write_query R (insert_nft_tags R nft_id tag_id))

  abbrev pub market_handle : Route → RouteHandler R
  market_handle get_users = users_get
  market_handle get_collections = collections_get
  market_handle get_categories = categories_get
  market_handle get_nfts = nfts_get
  market_handle get_sales = sales_get
  market_handle get_bids = bids_get
  market_handle get_tags = tags_get
  market_handle get_nft_tags = nft_tags_get
  market_handle get_user = user_get
  market_handle get_nft = nft_get
  market_handle post_users = users_post
  market_handle post_collections = collections_post
  market_handle post_categories = categories_post
  market_handle post_nfts = nfts_post
  market_handle post_bids = bids_post
  market_handle post_tags = tags_post
  market_handle post_nft_tags = nft_tags_post
