-- ===== src/Api/Support.antt =====
-- app/api/support/route.ts
use Prim.Native.String.{◌++◌}
use wwfsdb.Base.{String, true, not, ◌||◌, [], ◌∷◌, if◌then◌else◌}
use wwfsdb.Js.Value.{Value, bool, str, object, get}
use wwfsdb.Js.Convert.{truthy, to_text}
use wwfsdb.Js.Runtime.{Runtime}
use wwfsdb.Js.Action.{pure, lift, outside_value, ◌>>=◌, ◌>>◌}
use wwfsdb.Http.{Request, json, failure}
use wwfsdb.Rpc.{execute_query, execute_write_query}
use wwfsdb.Api.Guard.{Handler, try_or_500, with_user, rows_or_empty, success}

module _ (R : Runtime) where
  open R use {Num, uuid, now_iso}

  unfoldable pub support_get : Request Num → Handler R
  support_get request = try_or_500 R "[SUPPORT_GET_ERROR]" "Server error" (
      with_user R request λ user_id. do
        tickets ← execute_query R (
            "SELECT * FROM support_tickets WHERE user_id = '"
            ++ to_text R user_id
            ++ "' ORDER BY created_at DESC")
        pure (success "tickets" (rows_or_empty R tickets)))

  abbrev insert_ticket : String → (user subject description : Value Num) → String → String
  insert_ticket id user subject description now =
      "\n            INSERT INTO support_tickets (ticket_id, user_id, subject, description, status, "
      ++ "created_at, updated_at)\n            VALUES ('"
      ++ id
      ++ "', '"
      ++ to_text R user
      ++ "', '"
      ++ to_text R subject
      ++ "', '"
      ++ to_text R description
      ++ "', 'Open', '"
      ++ now
      ++ "', '"
      ++ now
      ++ "');\n        "

  open_ticket : (user subject description : Value Num) → Handler R
  open_ticket user subject description = do
    now ← outside_value now_iso
    id ← outside_value uuid
    execute_write_query R (insert_ticket id user subject description now)
    pure (
        json (
          object (
            ("success", bool true)
            ∷ (
              "ticket",
              object (
                  ("ticket_id", str id)
                  ∷ ("user_id", user)
                  ∷ ("subject", subject)
                  ∷ ("description", description)
                  ∷ ("status", str "Open")
                  ∷ ("created_at", str now)
                  ∷ ("updated_at", str now)
                  ∷ []),
            )
            ∷ ("message", str "Support ticket created successfully")
            ∷ [])))

  unfoldable pub support_post : Request Num → Handler R
  unfolding open_ticket
  support_post request = try_or_500 R "[SUPPORT_POST_ERROR]" "Server error" (
      with_user R request λ user_id. do
        body ← lift request.body
        subject ← lift (get "subject" body)
        description ← lift (get "description" body)
        if not (truthy R subject) || not (truthy R description)
            then pure (failure 400 "Subject and description are required")
            else open_ticket user_id subject description)
