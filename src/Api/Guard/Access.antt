-- ===== src/Api/Guard/Access.antt =====
-- The check of the user: a request without one is answered 401 and reaches no server.
use wwfsdb.Base.{◌≡◌, String, false}
use wwfsdb.Js.Value.{Value, Exn, Result, ok}
use wwfsdb.Js.Convert.{truthy}
use wwfsdb.Js.Runtime.{Runtime}
use wwfsdb.Js.Action.{World, catch, ◌>>=◌}
use wwfsdb.Js.Action.Keeps.{Answers, answers_rules}
use wwfsdb.Http.{Request, Response, unauthorized}
use wwfsdb.Auth.Token.{user_of, get_user_id-IsLookup, get_user_id-Answers}
use wwfsdb.Api.Guard.{Handler, answer_error, try_or_500, with_user}

module _ (R : Runtime) where
  open R use {Num, Server}

  -- The answer is 401 and neither the servers nor the record of requests have changed.
  pub record IsTurnedAway (w : World Server) (after : Result (Response Num) × World Server)
      : Type 0 where
    pub result : after.0 ≡ ok unauthorized
    pub server : after.1.server ≡ w.server
    pub sent : after.1.sent ≡ w.sent

  pub with_user-IsTurnedAway :
      (request : Request Num) (rest : Value Num → Handler R) (w : World Server)
      → truthy R (user_of R w.server request) ≡ false
      → IsTurnedAway w (with_user R request rest w)
  unfolding with_user ◌>>=◌
  with_user-IsTurnedAway request rest w h =
      let l = get_user_id-IsLookup R request w in
      record {
        result = rw (l.result, h);
        server = rw (l.result, h) l.server;
        sent = rw (l.result, h) l.sent;
      }

  pub catch-IsTurnedAway :
      (m : Handler R) (g : Exn → Handler R) (w : World Server)
      → IsTurnedAway w (m w)
      → IsTurnedAway w (catch m g w)
  unfolding catch
  catch-IsTurnedAway m g w t = record {
    result = rw t.result;
    server = rw t.result t.server;
    sent = rw t.result t.sent;
  }

  pub try_or_500-IsTurnedAway :
      (tag message : String) (m : Handler R) (w : World Server)
      → IsTurnedAway w (m w)
      → IsTurnedAway w (try_or_500 R tag message m w)
  unfolding try_or_500
  try_or_500-IsTurnedAway tag message m w t = catch-IsTurnedAway m (answer_error R tag message) w t

  pub try_or_500-Answers :
      (tag message : String) (m : Handler R) → Answers (try_or_500 R tag message m)
  unfolding try_or_500
  try_or_500-Answers tag message m = search answers_rules

  pub with_user-Answers :
      (request : Request Num) (rest : Value Num → Handler R)
      → ((user : Value Num) → Answers (rest user))
      → Answers (with_user R request rest)
  unfolding with_user
  with_user-Answers request rest h = search (answers_rules, get_user_id-Answers)
