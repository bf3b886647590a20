-- ===== src/Api/Beneficiaries/Ownership.antt =====
-- A beneficiary is deleted only by its owner.
use wwfsdb.Base.{◌≡◌, ◌∙◌, ap, sym, subst, Bool, true, false, not, ◌∷◌, arith, Bool-cases, inl, inr}
use wwfsdb.Js.Value.{Value, ok, get}
use wwfsdb.Js.Convert.{truthy, strict_eq, no_rows, first_row}
use wwfsdb.Js.Runtime.{Runtime}
use wwfsdb.Js.Action.{World, pure, lift}
use wwfsdb.Js.Action.Inversion.{>>=-eq-ok}
use wwfsdb.Http.{Request, Response}
use wwfsdb.Auth.Token.{user_of}
use wwfsdb.Rpc.{execute_query, read_request, write_request}
use wwfsdb.Rpc.Outcome.{read_outcome, execute_query-IsCall, execute_write_query-IsCall}
use wwfsdb.Api.Guard.Success.{try_or_500-success, with_user-success}
use wwfsdb.Api.Beneficiaries.{
  owner_query, delete_beneficiary, is_foreign, remove_beneficiary, beneficiaries_delete,
}

module _ (R : Runtime) where
  open R use {Num, Server}

  -- The row of the beneficiary was found and names the user, and the deletion of exactly this
  -- beneficiary of exactly this user is the one statement that was sent after the search.
  pub record IsDeletion (user id : Value Num) (w after : World Server) : Type 0 where
    pub rows : Value Num
    pub found : read_outcome R (R.post (read_request (owner_query R id)) w.server).0 ≡ ok rows
    pub is_found : no_rows R rows ≡ false
    pub owner : Value Num
    pub owned : get "user_id" (first_row R rows) ≡ ok owner
    pub same : strict_eq R owner user ≡ true
    pub sent :
        after.sent
        ≡ write_request (delete_beneficiary R id user) ∷ read_request (owner_query R id) ∷ w.sent

  -- `rows[0]` is a row of the user's.
  pub record IsOwned (user rows : Value Num) : Type 0 where
    pub is_found : no_rows R rows ≡ false
    pub owner : Value Num
    pub owned : get "user_id" (first_row R rows) ≡ ok owner
    pub same : strict_eq R owner user ≡ true

  pub is_foreign-eq-false :
      (user rows : Value Num) (w : World Server)
      → (is_foreign R user rows w).0 ≡ ok false
      → IsOwned user rows × ((is_foreign R user rows w).1 ≡ w)
  unfolding pure lift
  is_foreign-eq-false user rows w h = elim (Bool-cases (no_rows R rows)) [
    | inl none ↦ absurd (let e = rw none at h in ground arith)
    | inr some ↦
        let a = >>=-eq-ok _ _ w (rw some at h) in
        (
          record { is_found = some; owner = a.value; owned = a.first; same = ground arith },
          rw some a.world,
        )
  ]

  remove_beneficiary-IsDeletion :
      (user id : Value Num) (w : World Server) {r : Response Num}
      → (remove_beneficiary R user id w).0 ≡ ok r
      → r.status ≡ 200
      → IsDeletion user id w (remove_beneficiary R user id w).1
  unfolding remove_beneficiary pure
  remove_beneficiary-IsDeletion user id w {r} h status =
      let a = >>=-eq-ok _ _ w h in
      let b = >>=-eq-ok _ _ _ a.then_result in
      elim (Bool-cases b.value) [
        | inl foreign ↦ absurd (let e = rw foreign at b.then_result in ground arith)
        | inr known ↦
            let left = (execute_query R (owner_query R id) w).1 in
            let (o, unchanged) =
              is_foreign-eq-false user a.value left (b.first ∙ ap (λ (x : Bool). ok x) known) in
            let c = >>=-eq-ok _ _ _ (rw known at b.then_result) in
            let searched = execute_query-IsCall R (owner_query R id) w in
            record {
              rows = a.value;
              found = sym searched.result ∙ a.first;
              is_found = o.is_found;
              owner = o.owner;
              owned = o.owned;
              same = o.same;
              sent =
                  ap (λ (x : World Server). x.sent) (a.world ∙ (rw known at b.world) ∙ c.world)
                  ∙ (execute_write_query-IsCall R (delete_beneficiary R id user)
                      (is_foreign R user a.value left).1).sent
                  ∙ ap (λ (x : World Server). write_request (delete_beneficiary R id user) ∷ x.sent)
                      unchanged
                  ∙ ap (λ q. write_request (delete_beneficiary R id user) ∷ q) searched.sent;
            }
      ]

  pub record IsOwnDeletion (request : Request Num) (w after : World Server) : Type 0 where
    pub valid : truthy R (user_of R w.server request) ≡ true
    pub body : Value Num
    pub read : request.body ≡ ok body
    pub id : Value Num
    pub asked : get "beneficiary_id" body ≡ ok id
    pub left : World Server
    pub server : left.server ≡ w.server
    pub before : left.sent ≡ w.sent
    pub deletion : IsDeletion (user_of R w.server request) id left after

-- A deletion that is answered with status 200 was asked for with a valid token; the row that the
-- server returned for the beneficiary names that user, and what was sent is the search for the row
-- and the deletion of this beneficiary of this user, nothing else.
pub beneficiaries_delete-IsOwnDeletion :
    (R : Runtime) (request : Request R.Num) (w : World R.Server) (r : Response R.Num)
    → (beneficiaries_delete R request w).0 ≡ ok r
    → r.status ≡ 200
    → IsOwnDeletion R request w (beneficiaries_delete R request w).1
unfolding beneficiaries_delete lift pure
beneficiaries_delete-IsOwnDeletion R request w r h status =
    let (tried, world) =
      try_or_500-success R "[BENEFICIARIES_DELETE_ERROR]" "Server error" _ w h status in
    let g = with_user-success R request _ w tried status in
    let a = >>=-eq-ok _ _ g.left g.result in
    let b = >>=-eq-ok _ _ _ a.then_result in
    elim (Bool-cases (not (truthy R b.value))) [
      | inl missing ↦ absurd (let e = rw missing at b.then_result in ground arith)
      | inr given ↦ record {
        valid = g.valid;
        body = a.value;
        read = a.first;
        id = b.value;
        asked = b.first;
        left = g.left;
        server = g.server;
        before = g.sent;
        deletion =
            subst (IsDeletion R (user_of R w.server request) b.value g.left)
              (sym (world ∙ g.world ∙ a.world ∙ (rw given at b.world)))
              (remove_beneficiary-IsDeletion R (user_of R w.server request) b.value g.left
                (rw given at b.then_result) status);
      }
    ]
