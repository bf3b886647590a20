-- ===== src/Api/Settings/Rollback.antt =====
-- When `PUT /api/settings` throws, and what it sends after an error.
use wwfsdb.Base.{◌≡◌, ◌∙◌, ap, true, ◌∷◌, arith}
use wwfsdb.Js.Value.{Value, Exn, Result, ok, throw}
use wwfsdb.Js.Convert.{truthy}
use wwfsdb.Js.Runtime.{Runtime}
use wwfsdb.Js.Action.{World, catch, log, ◌>>=◌}
use wwfsdb.Js.Action.Inversion.{catch-eq-throw}
use wwfsdb.Http.{Request, Response, failure}
use wwfsdb.Auth.{get_user_id_from_request}
use wwfsdb.Auth.Token.{user_of, get_user_id-IsLookup}
use wwfsdb.Rpc.{execute_write_query, write_request}
use wwfsdb.Rpc.Outcome.{execute_write_query-IsCall}
use wwfsdb.Api.Guard.{with_user}
use wwfsdb.Api.Settings.{settings_put_body, roll_back, settings_put}

-- The only error that leaves `PUT /api/settings` is that of its `ROLLBACK`.
pub settings_put-eq-throw :
    (R : Runtime) (request : Request R.Num) (w : World R.Server) (e : Exn)
    → (settings_put R request w).0 ≡ throw e
    → (after : World R.Server) × ((execute_write_query R "ROLLBACK;" after).0 ≡ throw e)
unfolding settings_put roll_back ◌>>=◌
settings_put-eq-throw R request w e h =
    let (x, failed, t) = catch-eq-throw (settings_put_body R request) (roll_back R) w h in
    ((log "[SETTINGS_PUT_ERROR]" (settings_put_body R request w).1).1, ground arith)

-- The world in which that `ROLLBACK` is sent.
abbrev pub logged : (R : Runtime) → Request R.Num → World R.Server → World R.Server
logged R request w = (log "[SETTINGS_PUT_ERROR]" (get_user_id_from_request R request w).1).1

abbrev pub after_rollback : (R : Runtime) → Result (Value R.Num) → Result (Response R.Num)
after_rollback R (ok v) = ok (failure 500 "Server error")
after_rollback R (throw e) = throw e

roll_back_run :
    (R : Runtime) (x : Exn) (w : World R.Server)
    → ((roll_back R x w).1.sent ≡ write_request "ROLLBACK;" ∷ w.sent)
      × ((roll_back R x w).0
          ≡ after_rollback R (execute_write_query R "ROLLBACK;" (log "[SETTINGS_PUT_ERROR]" w).1).0)
unfolding roll_back ◌>>=◌
roll_back_run R x w =
    let c = execute_write_query-IsCall R "ROLLBACK;" (log "[SETTINGS_PUT_ERROR]" w).1 in
    (ground (arith, c.sent), ground arith)

-- The body of the route, up to the request's body.
body_throws :
    (R : Runtime) (request : Request R.Num) (w : World R.Server) (x : Exn)
    → truthy R (user_of R w.server request) ≡ true
    → request.body ≡ throw x
    → settings_put_body R request w ≡ (throw x, (get_user_id_from_request R request w).1)
unfolding settings_put_body with_user ◌>>=◌
body_throws R request w x valid bad = simp ((get_user_id-IsLookup R request w).result, valid, bad)

-- A user whose request body is no JSON has not begun a transaction, and the route sends `ROLLBACK`
-- all the same, with the private key and as its only statement; it throws if that statement fails,
-- and else answers 500.
pub settings_put-bad_body :
    (R : Runtime) (request : Request R.Num) (w : World R.Server) (x : Exn)
    → truthy R (user_of R w.server request) ≡ true
    → request.body ≡ throw x
    → ((settings_put R request w).1.sent ≡ write_request "ROLLBACK;" ∷ w.sent)
      × ((settings_put R request w).0
          ≡ after_rollback R (execute_write_query R "ROLLBACK;" (logged R request w)).0)
unfolding settings_put catch
settings_put-bad_body R request w x valid bad =
    let (sent, result) = roll_back_run R x (get_user_id_from_request R request w).1 in
    (
      rw (body_throws R request w x valid bad)
          (sent ∙ ap (λ q. write_request "ROLLBACK;" ∷ q) (get_user_id-IsLookup R request w).sent),
      rw (body_throws R request w x valid bad) result,
    )
