-- ===== src/Market/Client/Outcome.antt =====
-- What one call of the marketplace's client comes to.
use wwfsdb.Base.{String, arith}
use wwfsdb.Js.Value.{Value, Result, get}
use wwfsdb.Js.Convert.{to_text}
use wwfsdb.Js.Runtime.{Runtime}
use wwfsdb.Js.Action.{World, axios_post, ◌>>=◌}
use wwfsdb.Rpc.Outcome.{bind, IsCall, checked, write_outcome}
use wwfsdb.Market.Client.{
  read_request, write_request, log_error, check_answer, parse_answer, log_and_rethrow,
  execute_query, execute_write_query,
}

module _ (R : Runtime) where
  open R use {Num, Server, json_parse}

  -- A read of the marketplace reads the text of the result, whatever the result is.
  abbrev pub read_answer : Result (Value Num) → Result (Value Num)
  read_answer posted = bind posted λ answer. bind (checked R answer) λ _.
      bind (get "result" answer)
        λ result. bind (get "result" result) (λ text. json_parse (to_text R text))

  pub market_read-IsCall :
      (query : String) (w : World Server)
      → IsCall R (read_request query) read_answer w (execute_query R query w)
  unfolding execute_query axios_post check_answer parse_answer log_and_rethrow log_error ◌>>=◌
  market_read-IsCall query w = record {
    result = ground arith;
    server = ground arith;
    sent = ground arith;
  }

  pub market_write-IsCall :
      (query : String) (w : World Server)
      → IsCall R (write_request query) (write_outcome R) w (execute_write_query R query w)
  unfolding execute_write_query axios_post check_answer log_and_rethrow log_error ◌>>=◌
  market_write-IsCall query w = record {
    result = ground arith;
    server = ground arith;
    sent = ground arith;
  }
