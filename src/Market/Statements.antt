-- ===== src/Market/Statements.antt =====
-- ssql_tests/nft-marketplace-backend/routes/api.js: the statements of its POST routes.
use Prim.Native.String.{◌++◌}
use wwfsdb.Base.{String}
use wwfsdb.Js.Value.{Value}
use wwfsdb.Js.Convert.{to_text}
use wwfsdb.Js.Runtime.{Runtime}

module _ (R : Runtime) where
  open R use {Num}

  abbrev pub insert_users :
      (id username wallet_address created_at updated_at profile_image_url bio : Value Num) → String
  insert_users id username wallet_address created_at updated_at profile_image_url bio =
      "INSERT INTO users (id, username, wallet_address, created_at, updated_at, profile_image_url, bio) VALUES ("
      ++ to_text R id
      ++ ", '"
      ++ to_text R username
      ++ "', '"
      ++ to_text R wallet_address
      ++ "', '"
      ++ to_text R created_at
      ++ "', '"
      ++ to_text R updated_at
      ++ "', '"
      ++ to_text R profile_image_url
      ++ "', '"
      ++ to_text R bio
      ++ "')"

  abbrev pub insert_collections : (id name description creator_id : Value Num) → String
  insert_collections id name description creator_id =
      "INSERT INTO collections (id, name, description, creator_id) VALUES ("
      ++ to_text R id
      ++ ", '"
      ++ to_text R name
      ++ "', '"
      ++ to_text R description
      ++ "', "
      ++ to_text R creator_id
      ++ ")"

  abbrev pub insert_categories : (id name : Value Num) → String
  insert_categories id name =
      "INSERT INTO categories (id, name) VALUES ("
      ++ to_text R id
      ++ ", '"
      ++ to_text R name
      ++ "')"

  abbrev pub insert_nfts :
      (id name description image_url owner_id creator_id price created_at updated_at collection_id
        category_id : Value Num)
      → String
  insert_nfts id name description image_url owner_id creator_id price created_at updated_at
        collection_id category_id =
      "INSERT INTO nfts (id, name, description, image_url, owner_id, creator_id, price, created_at, updated_at, collection_id, category_id) VALUES ("
      ++ to_text R id
      ++ ", '"
      ++ to_text R name
      ++ "', '"
      ++ to_text R description
      ++ "', '"
      ++ to_text R image_url
      ++ "', "
      ++ to_text R owner_id
      ++ ", "
      ++ to_text R creator_id
      ++ ", "
      ++ to_text R price
      ++ ", '"
      ++ to_text R created_at
      ++ "', '"
      ++ to_text R updated_at
      ++ "', "
      ++ to_text R collection_id
      ++ ", "
      ++ to_text R category_id
      ++ ")"

  abbrev pub insert_bids : (id nft_id bidder_id bid_amount bid_date : Value Num) → String
  insert_bids id nft_id bidder_id bid_amount bid_date =
      "INSERT INTO bids (id, nft_id, bidder_id, bid_amount, bid_date) VALUES ("
      ++ to_text R id
      ++ ", "
      ++ to_text R nft_id
      ++ ", "
      ++ to_text R bidder_id
      ++ ", "
      ++ to_text R bid_amount
      ++ ", '"
      ++ to_text R bid_date
      ++ "')"

  abbrev pub insert_tags : (id name : Value Num) → String
  insert_tags id name =
      "INSERT INTO tags (id, name) VALUES (" ++ to_text R id ++ ", '" ++ to_text R name ++ "')"

  abbrev pub insert_nft_tags : (nft_id tag_id : Value Num) → String
  insert_nft_tags nft_id tag_id =
      "INSERT INTO nft_tags (nft_id, tag_id) VALUES ("
      ++ to_text R nft_id
      ++ ", "
      ++ to_text R tag_id
      ++ ")"
