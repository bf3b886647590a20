-- ===== src/Api/Settings.antt =====
-- app/api/settings/route.ts. Its PUT has a `catch` that awaits, so it can throw.
pub mod Rollback
use Prim.Native.String.{◌++◌}
use wwfsdb.Base.{String, true, not, ◌||◌, [], ◌∷◌, if◌then◌else◌}
use wwfsdb.Js.Value.{Value, str, get, is_undefined, Exn}
use wwfsdb.Js.Convert.{truthy, to_text, join}
use wwfsdb.Js.Runtime.{Runtime}
use wwfsdb.Js.Action.{pure, lift, catch, log, outside_value, ◌>>=◌, ◌>>◌}
use wwfsdb.Http.{Request, failure}
use wwfsdb.Rpc.{execute_query, execute_write_query}
use wwfsdb.Api.Guard.{Handler, try_or_500, with_user, rows_or_empty, success}

module _ (R : Runtime) where
  open R use {Num, uuid}

  unfoldable pub settings_get : Request Num → Handler R
  settings_get request = try_or_500 R "[SETTINGS_GET_ERROR]" "Server error" (
      with_user R request λ user_id. do
        settings ←
            execute_query R
              ("SELECT * FROM app_settings WHERE user_id = '" ++ to_text R user_id ++ "'")
        pure (success "settings" (rows_or_empty R settings)))

  -- the four statements, joined by line ends
  abbrev pub upsert_query : (user name value : Value Num) → String → String
  upsert_query user name value id = join "\n" (
      "BEGIN;"
      ∷ ("DELETE FROM app_settings WHERE user_id = '"
          ++ to_text R user
          ++ "' AND setting_name = '"
          ++ to_text R name
          ++ "';")
      ∷ ("INSERT INTO app_settings (setting_id, user_id, setting_name, setting_value) VALUES ('"
          ++ id
          ++ "', '"
          ++ to_text R user
          ++ "', '"
          ++ to_text R name
          ++ "', '"
          ++ to_text R value
          ++ "');")
      ∷ "COMMIT;"
      ∷ [])

  unfoldable pub upsert : (user name value : Value Num) → Handler R
  upsert user name value = do
    id ← outside_value uuid
    execute_write_query R (upsert_query user name value id)
    pure (success "message" (str "Setting updated successfully"))

  -- the `try` of PUT
  unfoldable pub settings_put_body : Request Num → Handler R
  settings_put_body request = with_user R request λ user_id. do
    body ← lift request.body
    name ← lift (get "setting_name" body)
    value ← lift (get "setting_value" body)
    if not (truthy R name) || is_undefined value
        then pure (failure 400 "Setting name and value are required")
        else upsert user_id name value

  -- its `catch`
  unfoldable pub roll_back : Exn → Handler R
  roll_back e = do
    log "[SETTINGS_PUT_ERROR]"
    execute_write_query R "ROLLBACK;"
    pure (failure 500 "Server error")

  unfoldable pub settings_put : Request Num → Handler R
  settings_put request = catch (settings_put_body request) roll_back
