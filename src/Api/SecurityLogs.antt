-- ===== src/Api/SecurityLogs.antt =====
-- app/api/security-logs/route.ts
use Prim.Native.String.{◌++◌}
use wwfsdb.Js.Convert.{to_text}
use wwfsdb.Js.Runtime.{Runtime}
use wwfsdb.Js.Action.{pure, ◌>>=◌}
use wwfsdb.Http.{Request}
use wwfsdb.Rpc.{execute_query}
use wwfsdb.Api.Guard.{Handler, try_or_500, with_user, rows_or_empty, success}

module _ (R : Runtime) where
  open R use {Num}

  unfoldable pub security_logs_get : Request Num → Handler R
  security_logs_get request = try_or_500 R "[SECURITY_LOGS_GET_ERROR]" "Server error" (
      with_user R request λ user_id. do
        logs ← execute_query R (
            "SELECT * FROM security_logs WHERE user_id = '"
            ++ to_text R user_id
            ++ "' ORDER BY timestamp DESC")
        pure (success "logs" (rows_or_empty R logs)))
