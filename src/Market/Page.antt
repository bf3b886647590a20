-- ===== src/Market/Page.antt =====
-- ssql_tests/nft-marketplace-backend/public/script.js: the lists that the page fetches and shows, and its
-- forms. `inputs` gives the text of the input with an identifier.
pub mod Forms
pub mod Tables
use Prim.Native.String.{◌++◌}
use wwfsdb.Base.{String, Bool, Option, none, some, List, [], ◌∷◌, map, ◌==◌, if◌then◌else◌}
use wwfsdb.Js.Value.{
  Value, undefined, null, bool, num, str, arr, obj, item, nil, Exn, type_error, Result, ok, throw,
  object, get, keys, traverse, items,
}
use wwfsdb.Js.Convert.{to_text, length_is_zero}
use wwfsdb.Js.Runtime.{Runtime}
use wwfsdb.Rpc.Outcome.{bind}
use wwfsdb.Pages.{FetchRequest}
use wwfsdb.Market.Routes.{error_message}

-- What a list's element holds.
pub data ListView : Type 0 where
  blank : ListView
  no_data : ListView
  table : (headers : List String) (rows : List (List String)) → ListView
  failed : String → ListView

-- The lists by the names of their routes.
pub record ScriptPage : Type 0 where
  pub list_of : String → ListView

abbrev pub endpoints : List String
endpoints =
    "users" ∷ "nfts" ∷ "transactions" ∷ "collections" ∷ "categories" ∷ "bids" ∷ "tags" ∷ "nft_tags"
    ∷ []

module _ {N : Type 0} where
  abbrev pub fetch_data_request : String → FetchRequest N
  fetch_data_request endpoint = record {
    url = "/api/" ++ endpoint;
    method = "GET";
    authorization = ok none;
    body = none;
  }

  -- `fetchAllData()`
  abbrev pub fetch_all_data : List (FetchRequest N)
  fetch_all_data = map fetch_data_request endpoints

  abbrev pub create_data_request : String → Value N → FetchRequest N
  create_data_request endpoint body = record {
    url = "/api/" ++ endpoint;
    method = "POST";
    authorization = ok none;
    body = some body;
  }

  -- `createData` once it is answered: the requests that follow. Its answer is only logged.
  unfoldable pub create_data_answered : Result (Value N) → List (FetchRequest N)
  create_data_answered (ok result) = fetch_all_data
  create_data_answered (throw e) = []

-- `odd` is what is shown of rows of which the first one is a text or an array, whose keys are indices; the
-- rows of a table are objects.
module _ (R : Runtime) (engine_message : Exn → String)
    (odd : List (Value R.Num) → Result ListView) where
  open R use {Num}

  -- `cell.textContent = v`
  abbrev pub cell_text : Value Num → String
  cell_text undefined = ""
  cell_text null = ""
  cell_text v = to_text R v

  abbrev pub row_cells : List String → Value Num → Result (List String)
  row_cells headers row = traverse (λ header. bind (get header row) (λ v. ok (cell_text v))) headers

  abbrev pub make_table : List String → List (Value Num) → Result ListView
  make_table headers rows =
      bind (traverse (row_cells headers) rows) (λ cells. ok (table headers cells))

  -- `Object.keys(data[0])`, then the rows
  abbrev pub rows_table : Value Num → List (Value Num) → Result ListView
  rows_table undefined rows = throw type_error
  rows_table null rows = throw type_error
  rows_table (bool b) rows = make_table [] rows
  rows_table (num n) rows = make_table [] rows
  rows_table (str s) rows = odd rows
  rows_table (arr vs) rows = odd rows
  rows_table (obj fs) rows = make_table (keys fs) rows

  -- What is no array has no first element with `forEach` beside it: an error, unless its length is 0.
  abbrev pub data_table : Value Num → Result ListView
  data_table (arr (item v vs)) = rows_table v (items (item v vs))
  data_table _ = throw type_error

  abbrev pub data_view : Value Num → Result ListView
  data_view body =
      bind (get "length" body) λ _. if length_is_zero R body then ok no_data else data_table body

  -- the `catch` of `fetchData`
  abbrev pub caught : Result ListView → ListView
  caught (ok view) = view
  caught (throw e) = failed (error_message engine_message e)

  -- what `fetchData` makes of the answer
  unfoldable pub list_view : Result (Value Num) → ListView
  list_view answer = caught (bind answer data_view)

  -- `fetchData(endpoint, listElement)` once it is answered
  unfoldable pub fetch_data_answered : String → Result (Value Num) → ScriptPage → ScriptPage
  fetch_data_answered endpoint answer p = record {
    list_of = λ name. if name == endpoint then list_view answer else p.list_of name;
  }

module _ (R : Runtime) (inputs : String → String) where
  open R use {Num, parse_int, parse_float}

  abbrev pub int_input : String → Value Num
  int_input id = num (parse_int (inputs id))

  abbrev pub float_input : String → Value Num
  float_input id = num (parse_float (inputs id))

  abbrev pub text_input : String → Value Num
  text_input id = str (inputs id)

  abbrev pub user_body : List (String × Value Num)
  user_body =
      ("id", int_input "user-id")
      ∷ ("username", text_input "username")
      ∷ ("wallet_address", text_input "wallet-address")
      ∷ ("created_at", text_input "user-created-at")
      ∷ ("updated_at", text_input "user-updated-at")
      ∷ ("profile_image_url", text_input "user-profile-image-url")
      ∷ ("bio", text_input "user-bio")
      ∷ []

  abbrev pub collection_body : List (String × Value Num)
  collection_body =
      ("id", int_input "collection-id")
      ∷ ("name", text_input "collection-name")
      ∷ ("description", text_input "collection-description")
      ∷ ("creator_id", int_input "collection-creator-id")
      ∷ []

  abbrev pub category_body : List (String × Value Num)
  category_body = ("id", int_input "category-id") ∷ ("name", text_input "category-name") ∷ []

  abbrev pub nft_body : List (String × Value Num)
  nft_body =
      ("id", int_input "nft-id")
      ∷ ("name", text_input "nft-name")
      ∷ ("description", text_input "nft-description")
      ∷ ("image_url", text_input "nft-image-url")
      ∷ ("owner_id", int_input "nft-owner-id")
      ∷ ("creator_id", int_input "nft-creator-id")
      ∷ ("price", float_input "nft-price")
      ∷ ("created_at", text_input "nft-created-at")
      ∷ ("updated_at", text_input "nft-updated-at")
      ∷ ("collection_id", int_input "nft-collection-id")
      ∷ ("category_id", int_input "nft-category-id")
      ∷ []

  abbrev pub bid_body : List (String × Value Num)
  bid_body =
      ("id", int_input "bid-id")
      ∷ ("nft_id", int_input "bid-nft-id")
      ∷ ("bidder_id", int_input "bidder-id")
      ∷ ("bid_amount", float_input "bid-amount")
      ∷ ("bid_date", text_input "bid-date")
      ∷ []

  abbrev pub tag_body : List (String × Value Num)
  tag_body = ("id", int_input "tag-id") ∷ ("name", text_input "tag-name") ∷ []

  abbrev pub nft_tag_body : List (String × Value Num)
  nft_tag_body =
      ("nft_id", int_input "nft-tag-nft-id") ∷ ("tag_id", int_input "nft-tag-tag-id") ∷ []

  -- The seven forms.
  abbrev pub submit_user : FetchRequest Num
  submit_user = create_data_request "users" (object user_body)

  abbrev pub submit_collection : FetchRequest Num
  submit_collection = create_data_request "collections" (object collection_body)

  abbrev pub submit_category : FetchRequest Num
  submit_category = create_data_request "categories" (object category_body)

  abbrev pub submit_nft : FetchRequest Num
  submit_nft = create_data_request "nfts" (object nft_body)

  abbrev pub submit_bid : FetchRequest Num
  submit_bid = create_data_request "bids" (object bid_body)

  abbrev pub submit_tag : FetchRequest Num
  submit_tag = create_data_request "tags" (object tag_body)

  abbrev pub submit_nft_tag : FetchRequest Num
  submit_nft_tag = create_data_request "nft_tags" (object nft_tag_body)
