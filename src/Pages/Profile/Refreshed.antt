-- ===== src/Pages/Profile/Refreshed.antt =====
-- The profile page behind the answer of its own route, app/api/profile.
use wwfsdb.Base.{◌≡◌, ◌∙◌, false, arith}
use wwfsdb.Js.Value.{Value, undefined, ok, get, own}
use wwfsdb.Js.Runtime.{Runtime}
use wwfsdb.Js.Action.{World, pure, lift}
use wwfsdb.Js.Action.Inversion.{>>=-eq-ok}
use wwfsdb.Http.{Request, Response}
use wwfsdb.Auth.Token.{user_of}
use wwfsdb.Api.Guard.Success.{with_user-success, try_or_500-success}
use wwfsdb.Api.Profile.{profile_put}
use wwfsdb.Pages.{on_success}
use wwfsdb.Pages.Profile.{ProfilePage, save_answered}

-- The four fields of the request, as the profile in the answer has them.
pub record IsAsked (R : Runtime) (request : Request R.Num) (profile : Value R.Num) : Type 0 where
  pub body : Value R.Num
  pub read : request.body ≡ ok body
  pub full_name : get "full_name" body ≡ ok (own "full_name" profile)
  pub email : get "email" body ≡ ok (own "email" profile)
  pub phone_number : get "phone_number" body ≡ ok (own "phone_number" profile)
  pub address : get "address" body ≡ ok (own "address" profile)

-- When `PUT /api/profile` has answered with status 200, the page is out of its form and has replaced its
-- profile by the one of the answer, which has the four fields of the request and the identifier of the
-- user, and neither the name of the user nor the date of the registration.
pub save_answered-profile_put :
    (R : Runtime) (request : Request R.Num) (w : World R.Server) (r : Response R.Num)
    (p : ProfilePage R.Num)
    → (profile_put R request w).0 ≡ ok r
    → r.status ≡ 200
    → ((save_answered R (ok r.body) p).editing ≡ false)
      × ((save_answered R (ok r.body) p).profile ≡ own "profile" r.body)
      × IsAsked R request (own "profile" r.body)
      × (own "user_id" (save_answered R (ok r.body) p).profile ≡ user_of R w.server request)
      × (own "username" (save_answered R (ok r.body) p).profile ≡ undefined)
      × (own "created_at" (save_answered R (ok r.body) p).profile ≡ undefined)
unfolding profile_put save_answered on_success pure lift
save_answered-profile_put R request w r p h status =
    let (tried, world) = try_or_500-success R "[PROFILE_PUT_ERROR]" "Server error" _ w h status in
    let g = with_user-success R request _ w tried status in
    let a = >>=-eq-ok _ _ g.left g.result in
    let b = >>=-eq-ok _ _ _ a.then_result in
    let c = >>=-eq-ok _ _ _ b.then_result in
    let d = >>=-eq-ok _ _ _ c.then_result in
    let e = >>=-eq-ok _ _ _ d.then_result in
    let f = >>=-eq-ok _ _ _ e.then_result in
    let z = >>=-eq-ok _ _ _ f.then_result in
    (
      ground arith,
      ground arith,
      record {
        body = a.value;
        read = a.first;
        full_name = b.first ∙ ground arith;
        email = c.first ∙ ground arith;
        phone_number = d.first ∙ ground arith;
        address = e.first ∙ ground arith;
      },
      ground arith,
      ground arith,
      ground arith,
    )
