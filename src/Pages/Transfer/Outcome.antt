-- ===== src/Pages/Transfer/Outcome.antt =====
-- The transfer page behind the answer of its own route, app/api/transfer.
use wwfsdb.Base.{sym, subst, String, ◌≡◌, refl, ◌+◌, ltb, Bool, true, false, arith, if◌then◌else◌}
use wwfsdb.Js.Value.{Value, undefined, null, bool, num, str, arr, obj, Fields, get_field, ok, own}
use wwfsdb.Js.Convert.{or_else}
use wwfsdb.Js.Runtime.{Runtime}
use wwfsdb.Js.Action.{World}
use wwfsdb.Http.{Request, Response}
use wwfsdb.Api.Transfer.{transfer_post}
use wwfsdb.Api.Endpoint.Verdicts.{handle-SaysStatus}
use wwfsdb.Api.Endpoint.Table.{post_transfer}
use wwfsdb.Pages.Transfer.{TransferPage, transfer_answered}

-- A value that has a property is an object.
of_property :
    {N : Type 0} (key : String) (v : Value N) (b : Bool)
    → own key v ≡ bool b
    → (fs : Fields N) × (v ≡ obj fs)
of_property key undefined b h = absurd (ground arith)
of_property key null b h = absurd (ground arith)
of_property key (bool c) b h = absurd (ground arith)
of_property key (num n) b h = absurd (ground arith)
of_property key (str s) b h = absurd (ground arith)
of_property key (arr vs) b h = absurd (ground arith)
of_property key (obj fs) b h = (fs, refl)

module _ (R : Runtime) (p : TransferPage R.Num) where
  open R use {Num}

  -- What the page shows for a body with this verdict.
  abbrev pub shown_for : Value Num → Bool → TransferPage Num
  shown_for body good =
      if good
      then record p { success = true; redirects = p.redirects + 1; loading = false }
      else record p {
        error = or_else R (own "message" body) (str "Transfer failed");
        loading = false;
      }

  transfer_answered_lem :
      (fs : Fields Num) (good : Bool)
      → get_field "success" fs ≡ bool good
      → transfer_answered R (ok (obj fs)) p ≡ shown_for (obj fs) good
  unfolding transfer_answered
  transfer_answered_lem fs true h = rw (transfer_answered, h)
  transfer_answered_lem fs false h = rw (transfer_answered, h)

-- When the route has answered, the page shows the success and will leave for the transactions exactly if
-- the status is below 300; else it shows the message of the response and stays. It is no more loading.
pub transfer_answered-transfer_post :
    (R : Runtime) (request : Request R.Num) (w : World R.Server) (r : Response R.Num)
    (p : TransferPage R.Num)
    → (transfer_post R request w).0 ≡ ok r
    → transfer_answered R (ok r.body) p ≡ shown_for R p r.body (ltb r.status 300)
transfer_answered-transfer_post R request w r p h =
    let says = handle-SaysStatus R post_transfer request w r h in
    let (fs, body) = of_property "success" r.body (ltb r.status 300) says in
    let verdict : get_field "success" fs ≡ bool (ltb r.status 300) =
      subst (λ v. own "success" v ≡ bool (ltb r.status 300)) body says in
    subst (λ v. transfer_answered R (ok v) p ≡ shown_for R p v (ltb r.status 300)) (sym body)
      (transfer_answered_lem R p fs (ltb r.status 300) verdict)
