-- ===== src/Api/Profile.antt =====
-- app/api/profile/route.ts
use Prim.Native.String.{◌++◌}
use wwfsdb.Base.{String, true, [], ◌∷◌, if◌then◌else◌}
use wwfsdb.Js.Value.{Value, bool, str, object, get}
use wwfsdb.Js.Convert.{to_text, no_rows, first_row}
use wwfsdb.Js.Runtime.{Runtime}
use wwfsdb.Js.Action.{pure, lift, outside_value, ◌>>=◌, ◌>>◌}
use wwfsdb.Http.{Request, json, failure}
use wwfsdb.Rpc.{execute_query, execute_write_query}
use wwfsdb.Api.Guard.{Handler, try_or_500, with_user, success}

module _ (R : Runtime) where
  open R use {Num, now_iso}

  unfoldable pub profile_get : Request Num → Handler R
  profile_get request = try_or_500 R "[PROFILE_GET_ERROR]" "Server error" (
      with_user R request λ user_id. do
        users ← execute_query R (
            "SELECT user_id, username, email, full_name, phone_number, address, created_at, "
            ++ "updated_at FROM users WHERE user_id = '"
            ++ to_text R user_id
            ++ "' LIMIT 1")
        if no_rows R users
            then pure (failure 404 "User not found")
            else pure (success "profile" (first_row R users)))

  abbrev update_user : (full_name email phone address : Value Num) → String → Value Num → String
  update_user full_name email phone address updated user =
      "\n            UPDATE users \n            SET full_name = '"
      ++ to_text R full_name
      ++ "', email = '"
      ++ to_text R email
      ++ "', phone_number = '"
      ++ to_text R phone
      ++ "', address = '"
      ++ to_text R address
      ++ "', updated_at = '"
      ++ updated
      ++ "'\n            WHERE user_id = '"
      ++ to_text R user
      ++ "';\n        "

  unfoldable pub profile_put : Request Num → Handler R
  profile_put request = try_or_500 R "[PROFILE_PUT_ERROR]" "Server error" (
      with_user R request λ user_id. do
        body ← lift request.body
        full_name ← lift (get "full_name" body)
        email ← lift (get "email" body)
        phone ← lift (get "phone_number" body)
        address ← lift (get "address" body)
        updated ← outside_value now_iso
        execute_write_query R (update_user full_name email phone address updated user_id)
        pure (
            json (
              object (
                ("success", bool true)
                ∷ (
                  "profile",
                  object (
                      ("user_id", user_id)
                      ∷ ("full_name", full_name)
                      ∷ ("email", email)
                      ∷ ("phone_number", phone)
                      ∷ ("address", address)
                      ∷ ("updated_at", str updated)
                      ∷ []),
                )
                ∷ ("message", str "Profile updated successfully")
                ∷ []))))
