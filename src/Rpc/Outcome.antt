-- ===== src/Rpc/Outcome.antt =====
-- What one call of the client comes to: one request, and a result that depends on the answer alone.
use wwfsdb.Base.{String, ◌≡◌, ◌∷◌, if◌then◌else◌, arith}
use wwfsdb.Js.Value.{Value, error, Result, ok, throw, get}
use wwfsdb.Js.Convert.{truthy, to_text}
use wwfsdb.Js.Runtime.{Runtime, RpcRequest}
use wwfsdb.Js.Action.{World, axios_post, ◌>>=◌}
use wwfsdb.Rpc.{
  read_request, write_request, log_rpc_error, new_error, check_error, parse_result, rethrow,
  execute_query, execute_write_query,
}

abbrev pub bind {ℓ κ} : {A : Type ℓ} {B : Type κ} → Result A → (A → Result B) → Result B
bind (ok a) f = f a
bind (throw e) f = throw e

module _ (R : Runtime) where
  open R use {Num, Server, json_parse}

  -- The answer of the server, read without state: an error in it comes first.
  abbrev pub checked : Value Num → Result (Value Num)
  checked answer = bind (get "error" answer) λ err.
      if truthy R err
      then bind (get "message" err) (λ message. throw (new_error R message))
      else ok answer

  abbrev pub read_outcome : Result (Value Num) → Result (Value Num)
  read_outcome posted = bind posted λ answer. bind (checked answer) λ _.
      bind (get "result" answer) λ result.
        if truthy R result
        then bind (get "result" result) (λ text. json_parse (to_text R text))
        else throw (error "Invalid RPC response format")

  abbrev pub write_outcome : Result (Value Num) → Result (Value Num)
  write_outcome posted = bind posted λ answer. bind (checked answer) λ _. get "result" answer

  -- What a call leaves of the world: the answer of `post`, one more request on record.
  pub record IsCall (q : RpcRequest) (outcome : Result (Value Num) → Result (Value Num))
      (w : World Server) (after : Result (Value Num) × World Server) : Type 0 where
    pub result : after.0 ≡ outcome (R.post q w.server).0
    pub server : after.1.server ≡ (R.post q w.server).1
    pub sent : after.1.sent ≡ q ∷ w.sent

  -- A read sends one request, without the private key, and gives what `read_outcome` makes of the
  -- answer, an error in it included; what it leaves outside is what the answering left.
  pub execute_query-IsCall :
      (query : String) (w : World Server)
      → IsCall (read_request query) read_outcome w (execute_query R query w)
  unfolding execute_query axios_post check_error parse_result rethrow log_rpc_error ◌>>=◌
  execute_query-IsCall query w = record {
    result = ground arith;
    server = ground arith;
    sent = ground arith;
  }

  -- A write sends one request, with the private key, and gives what `write_outcome` makes of the
  -- answer, an error in it included; what it leaves outside is what the answering left.
  pub execute_write_query-IsCall :
      (query : String) (w : World Server)
      → IsCall (write_request query) write_outcome w (execute_write_query R query w)
  unfolding execute_write_query axios_post check_error rethrow log_rpc_error ◌>>=◌
  execute_write_query-IsCall query w = record {
    result = ground arith;
    server = ground arith;
    sent = ground arith;
  }

  -- A read sends one request, without the private key, and gives what `read_outcome` makes of the
  -- answer; a write sends one with the private key and gives what `write_outcome` makes of it. An error
  -- in the answer is included; what a call leaves outside is what the answering left.
  pub queries-IsCall :
      (query : String) (w : World Server)
      → IsCall (read_request query) read_outcome w (execute_query R query w)
        × IsCall (write_request query) write_outcome w (execute_write_query R query w)
  queries-IsCall query w = (execute_query-IsCall query w, execute_write_query-IsCall query w)
