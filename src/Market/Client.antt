-- ===== src/Market/Client.antt =====
-- ssql_tests/nft-marketplace-backend/services/wwfsdb.js
pub mod Outcome
use wwfsdb.Base.{String, Option, none, some, if◌then◌else◌}
use wwfsdb.Js.Value.{Value, undefined, Exn, error, axios_response, axios_request, ok, get}
use wwfsdb.Js.Convert.{truthy, to_text}
use wwfsdb.Js.Runtime.{Runtime, RpcRequest}
use wwfsdb.Js.Action.{Action, raise, lift, catch, log, axios_post, ◌>>=◌, ◌>>◌}

abbrev pub rpc_server_url : String
rpc_server_url = "http://localhost:8080/rpc"

abbrev pub db_name : String
db_name = "newdba"

abbrev pub private_key : String
private_key = "3e1a02c509bbdf555ce18daa5f6eaaec6504e7e5a58706c2185eaf910e8872a7"

unfoldable pub read_request : String → RpcRequest
read_request query = record {
  url = rpc_server_url;
  method = "wwfs.ExecuteQuery";
  db_name = db_name;
  query = query;
  private_key = none;
  id = 1;
}

unfoldable pub write_request : String → RpcRequest
write_request query = record {
  url = rpc_server_url;
  method = "wwfs.ExecuteQuery";
  db_name = db_name;
  query = query;
  private_key = some private_key;
  id = 1;
}

-- The `catch` of both functions: `error.response` and `error.request` are looked for on any error,
-- and only those of axios have them.
log_error : {S : Type 0} → Exn → Action S (Unit {0})
log_error axios_response = do
  log "Error response data:"
  log "Error response status:"
  log "Error response headers:"
  log "Error config:"
log_error axios_request = do log "Error request:"; log "Error config:"
log_error _ = do log "Error message:"; log "Error config:"

module _ (R : Runtime) where
  open R use {Num, Server, json_parse}

  -- `new Error(message)`; an absent message is empty
  abbrev new_error : Value Num → Exn
  new_error undefined = error ""
  new_error v = error (to_text R v)

  -- `if (response.data.error) throw new Error(response.data.error.message)`
  check_answer : Value Num → Action Server (Unit {0})
  check_answer answer = do
    err ← lift (get "error" answer)
    if truthy R err
        then (do message ← lift (get "message" err); raise (new_error message))
        else lift (ok tt)

  -- `JSON.parse(response.data.result.result)`, with no test for a result
  parse_answer : Value Num → Action Server (Value Num)
  parse_answer answer = do
    result ← lift (get "result" answer)
    text ← lift (get "result" result)
    lift (json_parse (to_text R text))

  log_and_rethrow : Exn → Action Server (Value Num)
  log_and_rethrow e = do log_error e; raise e

  unfoldable pub execute_query : String → Action Server (Value Num)
  unfolding check_answer parse_answer log_and_rethrow log_error
  execute_query query =
      catch
        (do answer ← axios_post R (read_request query); check_answer answer; parse_answer answer)
        log_and_rethrow

  unfoldable pub execute_write_query : String → Action Server (Value Num)
  unfolding check_answer log_and_rethrow log_error
  execute_write_query query =
      catch
        (do
          answer ← axios_post R (write_request query)
          check_answer answer
          lift (get "result" answer))
        log_and_rethrow
