-- ===== src/Market/Page/Forms.antt =====
-- The forms of the page and the statements of the routes they post to.
use wwfsdb.Base.{◌≡◌, refl, true, String, List, [], ◌∷◌, map}
use wwfsdb.Js.Action.{World}
use wwfsdb.Rpc.Outcome.{write_outcome}
use wwfsdb.Market.Client.{write_request}
use wwfsdb.Js.Value.{Exn, Value, num, str, object, object_fields}
use wwfsdb.Js.Runtime.{Runtime}
use wwfsdb.Pages.{FetchRequest}
use wwfsdb.Market.Routes.{
  market_handle, Route, post_users, post_collections, post_categories, post_nfts, post_bids,
  post_tags, post_nft_tags,
}
use wwfsdb.Market.Routes.Columns.{column_name, columns_of, table_of, is_post, insert_row}
use wwfsdb.Market.Routes.Relay.{IsRelay, market_handle-post}
use wwfsdb.Market.Page.{
  create_data_request, user_body, collection_body, category_body, nft_body, bid_body, tag_body,
  nft_tag_body, submit_user, submit_collection, submit_category, submit_nft, submit_bid, submit_tag,
  submit_nft_tag,
}

-- A control of a form, by how its content is read: as an integer, as a decimal number, or as it stands.
pub data Control : Type 0 where
  integer_of decimal_of text_of : String → Control

module _ (R : Runtime) (inputs : String → String) where
  open R use {Num, Server}

  -- The fields as the server reads them.
  abbrev pub arrived :
      (Value Num → Value Num) → List (String × Value Num) → List (String × Value Num)
  arrived wire fields = map (λ (f : String × Value Num). (f.0, wire f.1)) fields

  -- The form for a route and the request that it sends.
  pub data Submits : Route → FetchRequest Num → Type 0 where
    user : Submits post_users (submit_user R inputs)
    collection : Submits post_collections (submit_collection R inputs)
    category : Submits post_categories (submit_category R inputs)
    nft : Submits post_nfts (submit_nft R inputs)
    bid : Submits post_bids (submit_bid R inputs)
    tag : Submits post_tags (submit_tag R inputs)
    nft_tag : Submits post_nft_tags (submit_nft_tag R inputs)

  -- Each form's controls in the page, by identifier, in the order of the columns.
  abbrev pub controls : Route → List Control
  controls post_users =
      integer_of "user-id"
      ∷ text_of "username"
      ∷ text_of "wallet-address"
      ∷ text_of "user-created-at"
      ∷ text_of "user-updated-at"
      ∷ text_of "user-profile-image-url"
      ∷ text_of "user-bio"
      ∷ []
  controls post_collections =
      integer_of "collection-id"
      ∷ text_of "collection-name"
      ∷ text_of "collection-description"
      ∷ integer_of "collection-creator-id"
      ∷ []
  controls post_categories = integer_of "category-id" ∷ text_of "category-name" ∷ []
  controls post_nfts =
      integer_of "nft-id"
      ∷ text_of "nft-name"
      ∷ text_of "nft-description"
      ∷ text_of "nft-image-url"
      ∷ integer_of "nft-owner-id"
      ∷ integer_of "nft-creator-id"
      ∷ decimal_of "nft-price"
      ∷ text_of "nft-created-at"
      ∷ text_of "nft-updated-at"
      ∷ integer_of "nft-collection-id"
      ∷ integer_of "nft-category-id"
      ∷ []
  controls post_bids =
      integer_of "bid-id"
      ∷ integer_of "bid-nft-id"
      ∷ integer_of "bidder-id"
      ∷ decimal_of "bid-amount"
      ∷ text_of "bid-date"
      ∷ []
  controls post_tags = integer_of "tag-id" ∷ text_of "tag-name" ∷ []
  controls post_nft_tags = integer_of "nft-tag-nft-id" ∷ integer_of "nft-tag-tag-id" ∷ []
  controls _ = []

  -- What is read from a control.
  abbrev pub content : Control → Value Num
  content (integer_of id) = num (R.parse_int (inputs id))
  content (decimal_of id) = num (R.parse_float (inputs id))
  content (text_of id) = str (inputs id)

  -- A request that posts an object with one field for each column of its route's table, in their order,
  -- read from the controls of its form, and what its route does with the object as it arrives: it sends the statement that stores it.
  -- `wire` is what a value becomes in its JSON text, where NaN is `null`.
  pub record IsStored (engine_message : Exn → String) (wire : Value Num → Value Num) (route : Route)
      (q : FetchRequest Num) (w : World Server) : Type 0 where
    pub fields : List (String × Value Num)
    pub request : q ≡ create_data_request (table_of route) (object fields)
    pub names : map (λ (f : String × Value Num). f.0) fields ≡ map column_name (columns_of route)
    pub values : map (λ (f : String × Value Num). f.1) fields ≡ map content (controls route)
    pub relayed :
        IsRelay R engine_message
          (write_request (insert_row R route (object_fields (arrived wire fields))))
          (write_outcome R)
          w
          (market_handle R engine_message route
            (record { params_id = ""; body = object (arrived wire fields) })
            w)

  stored :
      (engine_message : Exn → String) (wire : Value Num → Value Num) (route : Route)
      (fields : List (String × Value Num)) (w : World Server)
      → is_post route ≡ true
      → map (λ (f : String × Value Num). f.0) fields ≡ map column_name (columns_of route)
      → map (λ (f : String × Value Num). f.1) fields ≡ map content (controls route)
      → IsStored engine_message wire route (create_data_request (table_of route) (object fields)) w
  stored engine_message wire route fields w posts names values = record {
    fields = fields;
    request = refl;
    names = names;
    values = values;
    relayed =
        market_handle-post R engine_message route "" (object_fields (arrived wire fields)) w posts;
  }

-- The request of every form posts an object whose keys are exactly the columns that the statement of its
-- route fills, in that order, each with what is read from the form's control for this column; and the
-- route sends one statement for it, which stores the values that have arrived, and answers with the
-- outcome.
pub Submits-IsStored :
    {R : Runtime} {inputs : String → String} {route : Route} {q : FetchRequest R.Num}
    (engine_message : Exn → String) (wire : Value R.Num → Value R.Num) (w : World R.Server)
    → Submits R inputs route q
    → IsStored R inputs engine_message wire route q w
Submits-IsStored {R} {inputs} engine_message wire w user =
    stored R inputs engine_message wire post_users (user_body R inputs) w refl refl refl
Submits-IsStored {R} {inputs} engine_message wire w collection =
    stored R inputs engine_message wire post_collections (collection_body R inputs) w refl refl refl
Submits-IsStored {R} {inputs} engine_message wire w category =
    stored R inputs engine_message wire post_categories (category_body R inputs) w refl refl refl
Submits-IsStored {R} {inputs} engine_message wire w nft =
    stored R inputs engine_message wire post_nfts (nft_body R inputs) w refl refl refl
Submits-IsStored {R} {inputs} engine_message wire w bid =
    stored R inputs engine_message wire post_bids (bid_body R inputs) w refl refl refl
Submits-IsStored {R} {inputs} engine_message wire w tag =
    stored R inputs engine_message wire post_tags (tag_body R inputs) w refl refl refl
Submits-IsStored {R} {inputs} engine_message wire w nft_tag =
    stored R inputs engine_message wire post_nft_tags (nft_tag_body R inputs) w refl refl refl
