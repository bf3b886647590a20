-- ===== src/Market/Routes/Columns.antt =====
-- The table and the columns of each route, and the statements that they make.
use Prim.Native.String.{◌++◌}
use wwfsdb.Base.{String, Bool, true, false, List, [], ◌∷◌, map, if◌then◌else◌}
use wwfsdb.Js.Value.{Fields, get_field}
use wwfsdb.Js.Convert.{to_text, join}
use wwfsdb.Js.Runtime.{Runtime}
use wwfsdb.Market.Routes.{
  Route, get_users, get_collections, get_categories, get_nfts, get_sales, get_bids, get_tags,
  get_nft_tags, get_user, get_nft, post_users, post_collections, post_categories, post_nfts,
  post_bids, post_tags, post_nft_tags,
}

-- A column's value stands in a statement bare or between quotes.
pub data Column : Type 0 where
  bare quoted : String → Column

abbrev pub column_name : Column → String
column_name (bare name) = name
column_name (quoted name) = name

-- The table of a route, and the columns that a new row of it has.
abbrev pub table_of : Route → String
table_of get_users = "users"
table_of get_collections = "collections"
table_of get_categories = "categories"
table_of get_nfts = "nfts"
table_of get_sales = "transactions"
table_of get_bids = "bids"
table_of get_tags = "tags"
table_of get_nft_tags = "nft_tags"
table_of get_user = "users"
table_of get_nft = "nfts"
table_of post_users = "users"
table_of post_collections = "collections"
table_of post_categories = "categories"
table_of post_nfts = "nfts"
table_of post_bids = "bids"
table_of post_tags = "tags"
table_of post_nft_tags = "nft_tags"

abbrev pub columns_of : Route → List Column
columns_of post_users =
    bare "id"
    ∷ quoted "username"
    ∷ quoted "wallet_address"
    ∷ quoted "created_at"
    ∷ quoted "updated_at"
    ∷ quoted "profile_image_url"
    ∷ quoted "bio"
    ∷ []
columns_of post_collections =
    bare "id" ∷ quoted "name" ∷ quoted "description" ∷ bare "creator_id" ∷ []
columns_of post_categories = bare "id" ∷ quoted "name" ∷ []
columns_of post_nfts =
    bare "id"
    ∷ quoted "name"
    ∷ quoted "description"
    ∷ quoted "image_url"
    ∷ bare "owner_id"
    ∷ bare "creator_id"
    ∷ bare "price"
    ∷ quoted "created_at"
    ∷ quoted "updated_at"
    ∷ bare "collection_id"
    ∷ bare "category_id"
    ∷ []
columns_of post_bids =
    bare "id" ∷ bare "nft_id" ∷ bare "bidder_id" ∷ bare "bid_amount" ∷ quoted "bid_date" ∷ []
columns_of post_tags = bare "id" ∷ quoted "name" ∷ []
columns_of post_nft_tags = bare "nft_id" ∷ bare "tag_id" ∷ []
columns_of _ = []

abbrev pub is_post : Route → Bool
is_post post_users = true
is_post post_collections = true
is_post post_categories = true
is_post post_nfts = true
is_post post_bids = true
is_post post_tags = true
is_post post_nft_tags = true
is_post _ = false

-- The routes of one row name it in their path.
abbrev pub is_by_id : Route → Bool
is_by_id get_user = true
is_by_id get_nft = true
is_by_id _ = false

abbrev pub select_rows : Route → String → String
select_rows route id =
    if is_by_id route
    then ("SELECT * FROM " ++ table_of route ++ " WHERE id = ") ++ id
    else "SELECT * FROM " ++ table_of route

module _ (R : Runtime) where
  open R use {Num}

  -- The values behind the first one; `close` ends the value before them.
  abbrev pub more_values : Fields Num → String → List Column → String
  more_values fields close [] = close ++ ")"
  more_values fields close (bare name ∷ columns) =
      (close ++ ", ") ++ (to_text R (get_field name fields) ++ more_values fields "" columns)
  more_values fields close (quoted name ∷ columns) =
      (close ++ ", '") ++ (to_text R (get_field name fields) ++ more_values fields "'" columns)

  abbrev pub all_values : Fields Num → String → List Column → String
  all_values fields before [] = before ++ ")"
  all_values fields before (bare name ∷ columns) =
      before ++ (to_text R (get_field name fields) ++ more_values fields "" columns)
  all_values fields before (quoted name ∷ columns) =
      (before ++ "'") ++ (to_text R (get_field name fields) ++ more_values fields "'" columns)

  -- The statement that stores the row of these fields.
  abbrev pub insert_row : Route → Fields Num → String
  insert_row route fields =
      all_values fields
        ("INSERT INTO "
          ++ table_of route
          ++ " ("
          ++ join ", " (map column_name (columns_of route))
          ++ ") VALUES (")
        (columns_of route)
