-- ===== src/Api/Beneficiaries.antt =====
-- app/api/beneficiaries/route.ts
pub mod Ownership
pub mod Courses
use Prim.Native.String.{◌++◌}
use wwfsdb.Base.{String, Bool, true, not, ◌||◌, [], ◌∷◌, if◌then◌else◌}
use wwfsdb.Js.Value.{Value, bool, str, Result, object, get}
use wwfsdb.Js.Convert.{truthy, to_text, strict_eq, no_rows, first_row}
use wwfsdb.Js.Runtime.{Runtime}
use wwfsdb.Js.Action.{Action, pure, lift, outside_value, ◌>>=◌, ◌>>◌}
use wwfsdb.Http.{Request, json, failure}
use wwfsdb.Rpc.{execute_query, execute_write_query}
use wwfsdb.Api.Guard.{Handler, try_or_500, with_user, rows_or_empty, success}

module _ (R : Runtime) where
  open R use {Num, Server, uuid, now_iso}

  unfoldable pub beneficiaries_get : Request Num → Handler R
  beneficiaries_get request = try_or_500 R "[BENEFICIARIES_GET_ERROR]" "Server error" (
      with_user R request λ user_id. do
        beneficiaries ← execute_query R (
            "SELECT * FROM beneficiaries WHERE user_id = '"
            ++ to_text R user_id
            ++ "' ORDER BY created_at DESC")
        pure (success "beneficiaries" (rows_or_empty R beneficiaries)))

  abbrev insert_beneficiary :
      (id : String) → (user nickname number bank : Value Num) → String → String
  insert_beneficiary id user nickname number bank created =
      "\n      INSERT INTO beneficiaries (beneficiary_id, user_id, nickname, account_number, "
      ++ "bank_name, created_at)\n      VALUES ('"
      ++ id
      ++ "', '"
      ++ to_text R user
      ++ "', '"
      ++ to_text R nickname
      ++ "', '"
      ++ to_text R number
      ++ "', '"
      ++ to_text R bank
      ++ "', '"
      ++ created
      ++ "');\n    "

  -- the part of POST behind the check of the fields
  unfoldable pub add_beneficiary : (user nickname number bank : Value Num) → Handler R
  add_beneficiary user nickname number bank = do
    id ← outside_value uuid
    created ← outside_value now_iso
    execute_write_query R (insert_beneficiary id user nickname number bank created)
    pure (
        json (
          object (
            ("success", bool true)
            ∷ (
              "beneficiary",
              object (
                  ("beneficiary_id", str id)
                  ∷ ("user_id", user)
                  ∷ ("nickname", nickname)
                  ∷ ("account_number", number)
                  ∷ ("bank_name", bank)
                  ∷ ("created_at", str created)
                  ∷ []),
            )
            ∷ ("message", str "Beneficiary added successfully")
            ∷ [])))

  unfoldable pub beneficiaries_post : Request Num → Handler R
  beneficiaries_post request = try_or_500 R "[BENEFICIARIES_POST_ERROR]" "Server error" (
      with_user R request λ user_id. do
        body ← lift request.body
        nickname ← lift (get "nickname" body)
        number ← lift (get "account_number" body)
        bank ← lift (get "bank_name" body)
        if not (truthy R nickname) || not (truthy R number) || not (truthy R bank)
            then pure (failure 400 "Missing required fields")
            else add_beneficiary user_id nickname number bank)

  abbrev pub owner_query : Value Num → String
  owner_query id =
      "SELECT user_id FROM beneficiaries WHERE beneficiary_id = '" ++ to_text R id ++ "'"

  abbrev pub delete_beneficiary : (id user : Value Num) → String
  delete_beneficiary id user =
      "DELETE FROM beneficiaries WHERE beneficiary_id = '"
      ++ to_text R id
      ++ "' AND user_id = '"
      ++ to_text R user
      ++ "'"

  -- `!rows || rows.length === 0 || rows[0].user_id !== userId`
  abbrev pub is_foreign : Value Num → Value Num → Action Server Bool
  is_foreign user rows =
      if no_rows R rows
      then pure true
      else do owner ← lift (get "user_id" (first_row R rows)); pure (not (strict_eq R owner user))

  -- the part of DELETE behind the check of the id
  unfoldable pub remove_beneficiary : (user id : Value Num) → Handler R
  remove_beneficiary user id = do
    beneficiaries ← execute_query R (owner_query id)
    foreign ← is_foreign user beneficiaries
    if foreign
        then pure (failure 404 "Beneficiary not found or you do not have permission to delete it.")
        else (do
          execute_write_query R (delete_beneficiary id user)
          pure (success "message" (str "Beneficiary deleted successfully")))

  unfoldable pub beneficiaries_delete : Request Num → Handler R
  beneficiaries_delete request = try_or_500 R "[BENEFICIARIES_DELETE_ERROR]" "Server error" (
      with_user R request λ user_id. do
        body ← lift request.body
        id ← lift (get "beneficiary_id" body)
        if not (truthy R id)
            then pure (failure 400 "Beneficiary ID is required")
            else remove_beneficiary user_id id)
