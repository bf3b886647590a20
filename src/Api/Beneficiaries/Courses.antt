-- ===== src/Api/Beneficiaries/Courses.antt =====
-- Every course that a request to delete a beneficiary can take.
use wwfsdb.Base.{
  ◌≡◌, refl, ap, sym, subst, ◌∙◌, ◌⊎◌, inl, inr, String, Bool, true, not, ◌+◌, ◌∷◌, length, arith,
  Bool-cases, if◌then◌else◌,
}
use wwfsdb.Js.Value.{Value, str, Result, ok, get}
use wwfsdb.Js.Convert.{truthy, strict_eq, no_rows, first_row}
use wwfsdb.Js.Runtime.{Runtime}
use wwfsdb.Js.Action.{World, pure, lift, ◌>>=◌, ◌>>◌}
use wwfsdb.Js.Action.Inversion.{>>=-cases}
use wwfsdb.Http.{Request, Response, failure, unauthorized}
use wwfsdb.Auth.{get_user_id_from_request}
use wwfsdb.Auth.Token.{user_of, get_user_id-IsLookup}
use wwfsdb.Rpc.{execute_query, execute_write_query, read_request, write_request}
use wwfsdb.Rpc.Outcome.{execute_query-IsCall, execute_write_query-IsCall}
use wwfsdb.Api.Guard.{Handler, try_or_500, with_user, success}
use wwfsdb.Api.Beneficiaries.{
  owner_query, delete_beneficiary, is_foreign, remove_beneficiary, beneficiaries_delete,
}
use wwfsdb.Api.Beneficiaries.Ownership.{
  IsDeletion, is_foreign-eq-false, beneficiaries_delete-IsOwnDeletion,
}

module _ (R : Runtime) where
  open R use {Num, Server}

  -- The search for the owner was all that was sent, or the beneficiary was the user's and the deletion
  -- was sent behind the search.
  abbrev pub Searched : (user id : Value Num) → World Server → World Server → Type 0
  Searched user id w after =
      (after.sent ≡ read_request (owner_query R id) ∷ w.sent) ⊎ IsDeletion R user id w after

  is_foreign-world : (user rows : Value Num) (w : World Server) → (is_foreign R user rows w).1 ≡ w
  unfolding pure lift
  is_foreign-world user rows w = elim (Bool-cases (no_rows R rows)) [
    | inl none ↦ rw none refl
    | inr some ↦
        elim (>>=-cases (lift (get "user_id" (first_row R rows)))
          (λ owner. pure (not (strict_eq R owner user))) w) [
            | inl (e, p, q) ↦ rw some q
            | inr (a, p, q) ↦ rw some q
          ]
  ]

  -- What a write is on record with, whatever comes of it.
  deletion-sent :
      (query : String) (r : Response Num) (w : World Server)
      → ((execute_write_query R query >>= λ _. pure r) w).1.sent ≡ write_request query ∷ w.sent
  unfolding pure
  deletion-sent query r w = elim (>>=-cases (execute_write_query R query) (λ _. pure r) w) [
    | inl (e, p, q) ↦ ap (λ x. x.sent) q ∙ (execute_write_query-IsCall R query w).sent
    | inr (a, p, q) ↦ ap (λ x. x.sent) q ∙ (execute_write_query-IsCall R query w).sent
  ]

  -- The two ends of `remove_beneficiary`, behind the search and behind the check of the owner.
  decided : (user id : Value Num) → Bool → Handler R
  decided user id foreign =
      if foreign
      then pure (failure 404 "Beneficiary not found or you do not have permission to delete it.")
      else (do
        execute_write_query R (delete_beneficiary R id user)
        pure (success "message" (str "Beneficiary deleted successfully")))

  judged : (user id rows : Value Num) → Handler R
  judged user id rows = do foreign ← is_foreign R user rows; decided user id foreign

  remove_beneficiary-Searched :
      (user id : Value Num) (w : World Server)
      → Searched user id w (remove_beneficiary R user id w).1
  unfolding remove_beneficiary judged decided pure
  remove_beneficiary-Searched user id w =
      let searched = execute_query-IsCall R (owner_query R id) w in
      let left = (execute_query R (owner_query R id) w).1 in
      elim (>>=-cases (execute_query R (owner_query R id)) (judged user id) w) [
        | inl (e, p, q) ↦ inl (ap (λ x. x.sent) q ∙ searched.sent)
        | inr (rows, p, q) ↦
            let same = is_foreign-world user rows left in
            elim (>>=-cases (is_foreign R user rows) (decided user id) left) [
              | inl (e, p', q') ↦ inl (ap (λ x. x.sent) (q ∙ q' ∙ same) ∙ searched.sent)
              | inr (foreign, p', q') ↦ elim (Bool-cases foreign) [
                | inl other ↦ inl (ap (λ x. x.sent) (q ∙ (rw other at q') ∙ same) ∙ searched.sent)
                | inr theirs ↦
                    let (o, kept) =
                      is_foreign-eq-false R user rows left (p' ∙ ap (λ (x : Bool). ok x) theirs) in
                    let there = (is_foreign R user rows left).1 in
                    inr (record {
                      rows = rows;
                      found = sym searched.result ∙ p;
                      is_found = o.is_found;
                      owner = o.owner;
                      owned = o.owned;
                      same = o.same;
                      sent =
                          ap (λ x. x.sent) (q ∙ (rw theirs at q'))
                          ∙ deletion-sent (delete_beneficiary R id user) _ there
                          ∙ ap
                              (λ (x : World Server).
                                write_request (delete_beneficiary R id user) ∷ x.sent)
                              kept
                          ∙ ap (λ l. write_request (delete_beneficiary R id user) ∷ l)
                              searched.sent;
                    })
              ]
            ]
      ]

  -- The response, if there is one, has not status 200.
  abbrev pub IsNoSuccess : Result (Response Num) → Type 0
  IsNoSuccess result = ¬ ((r : Response Num) × (result ≡ ok r) × (r.status ≡ 200))

  -- The request of a user whose token is valid names a beneficiary; `left` is the world behind the check
  -- of the token.
  pub record IsAsked (request : Request Num) (id : Value Num) (w left : World Server) : Type 0 where
    pub valid : truthy R (user_of R w.server request) ≡ true
    pub body : Value Num
    pub read : request.body ≡ ok body
    pub named : get "beneficiary_id" body ≡ ok id
    pub server : left.server ≡ w.server
    pub before : left.sent ≡ w.sent

  -- What was sent: nothing, the search for the owner, or that and the deletion.
  abbrev Sends : Request Num → World Server → World Server → Type 0
  Sends request w after =
      (after.sent ≡ w.sent)
      ⊎ ((id : Value Num) × (left : World Server) × IsAsked request id w left
          × Searched (user_of R w.server request) id left after)

  named_body : (user id : Value Num) → Handler R
  named_body user id =
      if not (truthy R id)
      then pure (failure 400 "Beneficiary ID is required")
      else remove_beneficiary R user id

  read_body : (user body : Value Num) → Handler R
  read_body user body = do id ← lift (get "beneficiary_id" body); named_body user id

  asked_body : (user : Value Num) → Request Num → Handler R
  asked_body user request = do body ← lift request.body; read_body user body

  asked_body-Sends :
      (request : Request Num) (w left : World Server)
      → truthy R (user_of R w.server request) ≡ true
      → left.server ≡ w.server
      → left.sent ≡ w.sent
      → Sends request w (asked_body (user_of R w.server request) request left).1
  unfolding asked_body read_body named_body lift pure
  asked_body-Sends request w left valid server before =
      elim (>>=-cases (lift request.body) (read_body (user_of R w.server request)) left) [
        | inl (e, p, q) ↦ inl (ap (λ x. x.sent) q ∙ before)
        | inr (body, p, q) ↦
            elim (>>=-cases (lift (get "beneficiary_id" body))
              (named_body (user_of R w.server request)) left) [
                | inl (e, p', q') ↦ inl (ap (λ x. x.sent) (q ∙ q') ∙ before)
                | inr (id, p', q') ↦ elim (Bool-cases (not (truthy R id))) [
                  | inl none ↦ inl (ap (λ x. x.sent) (q ∙ (rw none at q')) ∙ before)
                  | inr given ↦ inr (
                    id,
                    left,
                    record {
                      valid = valid;
                      body = body;
                      read = p;
                      named = p';
                      server = server;
                      before = before;
                    },
                    subst (Searched (user_of R w.server request) id left)
                        (sym (q ∙ (rw given at q')))
                        (remove_beneficiary-Searched (user_of R w.server request) id left),
                  )
                ]
              ]
      ]

  try_or_500-sent :
      (tag message : String) (m : Handler R) (w : World Server)
      → (try_or_500 R tag message m w).1.sent ≡ (m w).1.sent
  unfolding try_or_500 ◌>>=◌
  try_or_500-sent tag message m w = ground arith

  -- A check of the user, and the rest where there is one.
  admitted : (request : Request Num) (user : Value Num) → Handler R
  admitted request user = if not (truthy R user) then pure unauthorized else asked_body user request

  handled_body : Request Num → Handler R
  handled_body request = do user ← get_user_id_from_request R request; admitted request user

  handled_body-Sends :
      (request : Request Num) (w : World Server) → Sends request w (handled_body request w).1
  unfolding handled_body admitted pure
  handled_body-Sends request w =
      let l = get_user_id-IsLookup R request w in
      let left = (get_user_id_from_request R request w).1 in
      elim (>>=-cases (get_user_id_from_request R request) (admitted request) w) [
        | inl (e, p, q) ↦ inl (ap (λ x. x.sent) q ∙ l.sent)
        | inr (user, p, q) ↦
            let same : user ≡ user_of R w.server request = ground (arith, p, l.result) in
            elim (Bool-cases (truthy R user)) [
              | inr nobody ↦ inl (ap (λ x. x.sent) (rw nobody at q) ∙ l.sent)
              | inl valid ↦
                  let ran = rw valid at q in
                  subst (Sends request w) (sym (ran ∙ ap (λ u. (asked_body u request left).1) same))
                    (asked_body-Sends request w left (rw (← same) valid) l.server l.sent)
            ]
      ]

  -- Every course of a request to delete a beneficiary.
  abbrev pub Course :
      (request : Request Num) → World Server → Result (Response Num) × World Server → Type 0
  Course request w (result, after) =
      ((after.sent ≡ w.sent) × IsNoSuccess result)
      ⊎ ((id : Value Num) × (left : World Server) × IsAsked request id w left
          × (((after.sent ≡ read_request (owner_query R id) ∷ w.sent) × IsNoSuccess result)
              ⊎ IsDeletion R (user_of R w.server request) id left after))

  -- With status 200 two requests were sent.
  two_sent :
      (request : Request Num) (w : World Server) (r : Response Num)
      → (beneficiaries_delete R request w).0 ≡ ok r
      → r.status ≡ 200
      → length (beneficiaries_delete R request w).1.sent ≡ length w.sent + 2
  two_sent request w r h status =
      let d = beneficiaries_delete-IsOwnDeletion R request w r h status in
      omega (arith, ap length d.deletion.sent, ap length d.before)

-- A request to delete a beneficiary takes one of three courses, whatever the server answers. Nothing is
-- sent; or only the search for the beneficiary's row is sent, for a user whose token is valid, and in
-- both cases the response is not of status 200; or the row that the search returned names that user as the
-- owner, and the deletion of this beneficiary of this user was sent behind the search, and nothing else.
pub beneficiaries_delete-Course :
    (R : Runtime) (request : Request R.Num) (w : World R.Server)
    → Course R request w (beneficiaries_delete R request w)
unfolding beneficiaries_delete with_user handled_body admitted asked_body read_body named_body
beneficiaries_delete-Course R request w =
    let sent =
      try_or_500-sent R "[BENEFICIARIES_DELETE_ERROR]" "Server error" (handled_body R request) w in
    elim (handled_body-Sends R request w) [
      | inl same ↦ inl (
        sent ∙ same,
        λ x. omega (arith, two_sent R request w x.0 x.1 x.2, ap length (sent ∙ same)),
      )
      | inr (id, left, asked, inl searched) ↦ inr (
        id,
        left,
        asked,
        inl (
          sent ∙ searched ∙ ap (λ l. read_request (owner_query R id) ∷ l) asked.before,
          λ x. omega (
            arith,
            two_sent R request w x.0 x.1 x.2,
            ap length (sent ∙ searched),
            ap length asked.before,
          ),
        ),
      )
      | inr (id, left, asked, inr d) ↦ inr (
        id,
        left,
        asked,
        inr (record {
          rows = d.rows;
          found = d.found;
          is_found = d.is_found;
          owner = d.owner;
          owned = d.owned;
          same = d.same;
          sent = sent ∙ d.sent;
        }),
      )
    ]
