-- ===== src/Api/Guard/Success.antt =====
-- What a response with status 200 says of the handler's parts.
use wwfsdb.Base.{
  ℕ, Bool, false, refl, ◌≢◌, if◌then◌else◌, ◌≡◌, subst, String, true, arith, Bool-cases, inl, inr,
}
use wwfsdb.Js.Value.{Value, ok}
use wwfsdb.Js.Convert.{truthy}
use wwfsdb.Js.Runtime.{Runtime}
use wwfsdb.Js.Action.{World, pure, ◌>>=◌}
use wwfsdb.Js.Action.Inversion.{>>=-eq-ok}
use wwfsdb.Http.{Request, Response, failure}
use wwfsdb.Auth.{get_user_id_from_request}
use wwfsdb.Auth.Token.{user_of, get_user_id-IsLookup}
use wwfsdb.Api.Guard.{Handler, try_or_500, with_user}

module _ (R : Runtime) where
  open R use {Num, Server}

  pub try_or_500-success :
      (tag message : String) (m : Handler R) (w : World Server) {r : Response Num}
      → (try_or_500 R tag message m w).0 ≡ ok r
      → r.status ≡ 200
      → ((m w).0 ≡ ok r) × ((try_or_500 R tag message m w).1 ≡ (m w).1)
  unfolding try_or_500 ◌>>=◌
  try_or_500-success tag message m w {r} h status = ground arith

  -- The handler behind the check of the user ran for a valid user, in a world that the check has left
  -- as it was but for the console.
  pub record Admitted (request : Request Num) (rest : Value Num → Handler R) (w : World Server)
      (r : Response Num) : Type 0 where
    pub valid : truthy R (user_of R w.server request) ≡ true
    pub left : World Server
    pub server : left.server ≡ w.server
    pub sent : left.sent ≡ w.sent
    pub result : (rest (user_of R w.server request) left).0 ≡ ok r
    pub world : (with_user R request rest w).1 ≡ (rest (user_of R w.server request) left).1

  pub with_user-success :
      (request : Request Num) (rest : Value Num → Handler R) (w : World Server) {r : Response Num}
      → (with_user R request rest w).0 ≡ ok r
      → r.status ≡ 200
      → Admitted request rest w r
  unfolding with_user pure
  with_user-success request rest w {r} h status =
      let l = get_user_id-IsLookup R request w in
      let a = >>=-eq-ok _ _ w h in
      let same : a.value ≡ user_of R w.server request = ground arith in
      let after = (get_user_id_from_request R request w).1 in
      elim (Bool-cases (truthy R a.value)) [
        | inr nobody ↦ absurd (let e = rw nobody at a.then_result in ground arith)
        | inl user ↦ record {
          valid = rw (← same) user;
          left = after;
          server = l.server;
          sent = l.sent;
          result = subst (λ u. (rest u after).0 ≡ ok r) same (rw user at a.then_result);
          world =
              subst (λ u. (with_user R request rest w).1 ≡ (rest u after).1) same
                (rw user at a.world);
        }
      ]

  -- A check that answers with a failure, or the rest, which then ran.
  pub refused_or_ran :
      (status : ℕ) (bad : Bool) (message : String) (rest : Handler R) (w : World Server)
      {r : Response Num}
      → status ≢ 200
      → ((if bad then pure (failure status message) else rest) w).0 ≡ ok r
      → r.status ≡ 200
      → (bad ≡ false)
        × ((rest w).0 ≡ ok r)
        × (((if bad then pure (failure status message) else rest) w).1 ≡ (rest w).1)
  unfolding pure
  refused_or_ran status true message rest w ne h good = absurd (ground arith)
  refused_or_ran status false message rest w ne h good = (refl, h, refl)
