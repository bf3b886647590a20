-- ===== src/Rpc.antt =====
-- ssql_tests/mobile-banking-app/lib/wwfsdb.ts: the client of the database's JSON-RPC server.
pub mod Outcome
use wwfsdb.Base.{String, Option, none, some, if◌then◌else◌}
use wwfsdb.Js.Value.{
  Value, undefined, Exn, error, axios_response, axios_request, axios_message, Result, ok, throw,
  get,
}
use wwfsdb.Js.Convert.{truthy, to_text}
use wwfsdb.Js.Runtime.{Runtime, RpcRequest}
use wwfsdb.Js.Action.{Action, raise, lift, catch, log, axios_post, ◌>>=◌, ◌>>◌}

abbrev pub rpc_server_url : String
rpc_server_url = "http://localhost:8080/rpc"

abbrev pub db_name : String
db_name = "mbs1"

abbrev pub private_key : String
private_key = "812300dd3dbe95b946901cd3d5941ada3a4b4f3c7b69d728446626573bbfee99"

unfoldable pub read_request : String → RpcRequest
read_request query = record {
  url = rpc_server_url;
  method = "wwfs.ExecuteQuery";
  db_name = db_name;
  query = query;
  private_key = none;
  id = 1;
}

unfoldable pub write_request : String → RpcRequest
write_request query = record {
  url = rpc_server_url;
  method = "wwfs.ExecuteQuery";
  db_name = db_name;
  query = query;
  private_key = some private_key;
  id = 1;
}

-- The `catch` of both functions: what is logged before the error is thrown again.
log_rpc_error : {S : Type 0} → Exn → Action S (Unit {0})
log_rpc_error axios_response = do log "Error response data:"; log "Error response status:"
log_rpc_error axios_request = log "Error request:"
log_rpc_error axios_message = log "Error message:"
log_rpc_error _ = log "Unexpected error:"

module _ (R : Runtime) where
  open R use {Num, Server, json_parse}

  -- `new Error(message)`; an absent message is empty
  abbrev new_error : Value Num → Exn
  new_error undefined = error ""
  new_error v = error (to_text R v)

  -- `if (response.data.error) throw new Error(response.data.error.message)`
  check_error : Value Num → Action Server (Unit {0})
  check_error answer = do
    err ← lift (get "error" answer)
    if truthy R err
        then (do message ← lift (get "message" err); raise (new_error message))
        else lift (ok tt)

  -- `JSON.parse(response.data.result.result)`, or the error for an answer without a result
  parse_result : Value Num → Action Server (Value Num)
  parse_result answer = do
    result ← lift (get "result" answer)
    if truthy R result
        then (do text ← lift (get "result" result); lift (json_parse (to_text R text)))
        else raise (error "Invalid RPC response format")

  rethrow : Exn → Action Server (Value Num)
  rethrow e = do log_rpc_error e; raise e

  unfoldable pub execute_query : String → Action Server (Value Num)
  unfolding check_error parse_result rethrow log_rpc_error
  execute_query query =
      catch (do answer ← axios_post R (read_request query); check_error answer; parse_result answer)
        rethrow

  unfoldable pub execute_write_query : String → Action Server (Value Num)
  unfolding check_error rethrow log_rpc_error
  execute_write_query query =
      catch
        (do
          answer ← axios_post R (write_request query)
          check_error answer
          lift (get "result" answer))
        rethrow
