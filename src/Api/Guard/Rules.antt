-- ===== src/Api/Guard/Rules.antt =====
-- Rules for the parts that the handlers share.
use wwfsdb.Base.{◌≡◌, refl, none, List, All, String}
use wwfsdb.Js.Value.{Value, Result}
use wwfsdb.Js.Runtime.{Runtime, RpcRequest}
use wwfsdb.Js.Action.Keeps.{Keeps, keeps_rules}
use wwfsdb.Http.{Request}
use wwfsdb.Auth.Token.{Keeps-get_user_id}
use wwfsdb.Rpc.{execute_query, read_request}
use wwfsdb.Rpc.Outcome.{execute_query-IsCall}
use wwfsdb.Api.Guard.{Handler, try_or_500, with_user, map_rows}

-- Every request on record is a read: it carries no private key.
abbrev pub OnlyReads : List RpcRequest → Type 0
OnlyReads = All (λ q. q.private_key ≡ none)

module _ (R : Runtime) where
  open R use {Num}

  pub execute_query-OnlyReads : (query : String) → Keeps OnlyReads (execute_query R query)
  execute_query-OnlyReads query = record {
    at = λ w h. rw ((execute_query-IsCall R query w).sent) (unfold read_request in (refl, h));
  }

module _ (R : Runtime) {P : List RpcRequest → Type 0} where
  open R use {Num}

  pub Keeps-try_or_500 :
      (tag message : String) (body : Handler R)
      → Keeps P body
      → Keeps P (try_or_500 R tag message body)
  unfolding try_or_500
  Keeps-try_or_500 tag message body k = search keeps_rules

  pub Keeps-with_user :
      (request : Request Num) (rest : Value Num → Handler R)
      → ((user : Value Num) → Keeps P (rest user))
      → Keeps P (with_user R request rest)
  unfolding with_user
  Keeps-with_user request rest k = search (keeps_rules, Keeps-get_user_id R)

  pub Keeps-map_rows :
      {B : Type 0} (f : Value Num → Result B) (rows : Value Num) → Keeps P (map_rows R f rows)
  unfolding map_rows
  Keeps-map_rows f rows = search keeps_rules
