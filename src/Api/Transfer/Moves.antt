-- ===== src/Api/Transfer/Moves.antt =====
-- What a transfer that is answered with success has checked and sent.
use wwfsdb.Base.{
  ◌≡◌, refl, sym, subst, ◌∙◌, ap, inl, inr, true, false, arith, Bool-cases, not, ◌||◌, String, none,
  [], ◌∷◌,
}
use wwfsdb.Js.Value.{Value, ok, get}
use wwfsdb.Js.Convert.{to_text, to_number, truthy, strict_eq, no_rows, first_row}
use wwfsdb.Js.Runtime.{Runtime}
use wwfsdb.Js.Action.{World, pure, lift, outside_value}
use wwfsdb.Js.Action.Inversion.{>>=-eq-ok}
use wwfsdb.Http.{Request, Response}
use wwfsdb.Rpc.{execute_query, read_request, write_request}
use wwfsdb.Rpc.Outcome.{read_outcome, execute_query-IsCall, execute_write_query-IsCall}
use wwfsdb.Auth.Token.{user_of}
use wwfsdb.Api.Guard.Success.{try_or_500-success, with_user-success, refused_or_ran}
use wwfsdb.Api.Transfer.{
  insert_query, receiver_query, sender_query, deduct_query, add_query, perform, find_receiver,
  check_sender, check_details, transfer_body, transfer_post,
}
use wwfsdb.Api.Transfer.Courses.{Sends, all_taken, taken, forth, move_money-Course}

module _ (R : Runtime) where
  open R use {Num, Server, num_lt, num_le, is_nan, of_ℕ, parse_float}

  -- The writes that all were taken are on record, the last one first.
  Sends-sent :
      (first second third : String) (w after : World Server)
      → Sends R (first ∷ second ∷ third ∷ []) w after none
      → after.sent ≡ write_request third ∷ write_request second ∷ write_request first ∷ w.sent
  Sends-sent first second third w after (taken p (taken q (taken r all_taken))) =
      let one = execute_write_query-IsCall R first w in
      let two = execute_write_query-IsCall R second _ in
      let three = execute_write_query-IsCall R third _ in
      three.sent
      ∙ ap (λ l. write_request third ∷ l) two.sent
      ∙ ap (λ l. write_request third ∷ write_request second ∷ l) one.sent

  -- From `begun` on, the three statements of the transfer were sent and all taken, and nothing else.
  pub record IsMoved (amount : Num) (from_id to_id description : Value Num)
      (asked after : World Server) : Type 0 where
    pub transaction_id : String
    pub created_at : String
    pub begun : World Server
    pub quiet : begun.sent ≡ asked.sent
    pub all :
        Sends R
          (forth R amount from_id to_id
            (insert_query R transaction_id from_id to_id amount description created_at))
          begun
          after
          none
    pub sent :
        after.sent
        ≡ write_request (insert_query R transaction_id from_id to_id amount description created_at)
          ∷ write_request (add_query R amount to_id)
          ∷ write_request (deduct_query R amount from_id)
          ∷ asked.sent

  perform-IsMoved :
      (amount : Num) (from_id to_id description : Value Num) (w : World Server) {r : Response Num}
      → (perform R amount from_id to_id description w).0 ≡ ok r
      → IsMoved amount from_id to_id description w (perform R amount from_id to_id description w).1
  unfolding perform outside_value pure
  perform-IsMoved amount from_id to_id description w h =
      let a = >>=-eq-ok _ _ w h in
      let b = >>=-eq-ok _ _ _ a.then_result in
      let c = >>=-eq-ok _ _ _ b.then_result in
      let insert = insert_query R a.value from_id to_id amount description b.value in
      let begun = (outside_value R.now_iso (outside_value R.uuid w).1).1 in
      elim (move_money-Course R amount from_id to_id insert begun) [
        | inr failed ↦ absurd (ground (arith, failed.result, c.first))
        | inl (all, done) ↦
            let whole =
              subst (λ x. Sends R (forth R amount from_id to_id insert) begun x none)
                (sym (a.world ∙ b.world ∙ c.world)) all in
            record {
              transaction_id = a.value;
              created_at = b.value;
              begun = begun;
              quiet = refl;
              all = whole;
              sent = Sends-sent _ _ _ begun _ whole;
            }
      ]

  -- The account that the server returned for this account number, and what was done with it.
  pub record IsReceived (amount : Num) (from_id number description : Value Num)
      (w after : World Server) : Type 0 where
    pub rows : Value Num
    pub found :
        read_outcome R (R.post (read_request (receiver_query R number)) w.server).0 ≡ ok rows
    pub is_found : no_rows R rows ≡ false
    pub to_id : Value Num
    pub row : get "account_id" (first_row R rows) ≡ ok to_id
    pub differs : strict_eq R from_id to_id ≡ false
    pub asked : World Server
    pub searched : asked.sent ≡ read_request (receiver_query R number) ∷ w.sent
    pub moved : IsMoved amount from_id to_id description asked after

  find_receiver-IsReceived :
      (amount : Num) (from_id number description : Value Num) (w : World Server) {r : Response Num}
      → (find_receiver R amount from_id number description w).0 ≡ ok r
      → r.status ≡ 200
      → IsReceived amount from_id number description w
          (find_receiver R amount from_id number description w).1
  unfolding find_receiver lift pure
  find_receiver-IsReceived amount from_id number description w {r} h status =
      let a = >>=-eq-ok _ _ w h in
      let call = execute_query-IsCall R (receiver_query R number) w in
      elim (Bool-cases (no_rows R a.value)) [
        | inl none_found ↦ absurd (let e = rw none_found at a.then_result in ground arith)
        | inr some_found ↦
            let b = >>=-eq-ok _ _ _ (rw some_found at a.then_result) in
            elim (Bool-cases (strict_eq R from_id b.value)) [
              | inl same ↦ absurd (let e = rw same at b.then_result in ground arith)
              | inr other ↦ record {
                rows = a.value;
                found = sym call.result ∙ a.first;
                is_found = some_found;
                to_id = b.value;
                row = b.first;
                differs = other;
                asked = (execute_query R (receiver_query R number) w).1;
                searched = call.sent;
                moved =
                    subst (IsMoved amount from_id b.value description _)
                      (sym ((rw some_found at a.world) ∙ (rw other at b.world)))
                      (perform-IsMoved amount from_id b.value description _
                        (rw other at b.then_result));
              }
            ]
      ]

  -- The row of the sender's account, which the user owns, was found with a balance that is not below the
  -- amount as numbers compare, and what was done then.
  pub record IsCovered (user : Value Num) (amount : Num) (from_id number description : Value Num)
      (w after : World Server) : Type 0 where
    pub rows : Value Num
    pub found :
        read_outcome R (R.post (read_request (sender_query R from_id user)) w.server).0 ≡ ok rows
    pub is_found : no_rows R rows ≡ false
    pub balance : Value Num
    pub row : get "balance" (first_row R rows) ≡ ok balance
    pub not_below : num_lt (to_number R balance) amount ≡ false
    pub left : World Server
    pub server : left.server ≡ (R.post (read_request (sender_query R from_id user)) w.server).1
    pub searched : left.sent ≡ read_request (sender_query R from_id user) ∷ w.sent
    pub received : IsReceived amount from_id number description left after

  check_sender-IsCovered :
      (user : Value Num) (amount : Num) (from_id number description : Value Num) (w : World Server)
      {r : Response Num}
      → (check_sender R user amount from_id number description w).0 ≡ ok r
      → r.status ≡ 200
      → IsCovered user amount from_id number description w
          (check_sender R user amount from_id number description w).1
  unfolding check_sender lift pure
  check_sender-IsCovered user amount from_id number description w {r} h status =
      let a = >>=-eq-ok _ _ w h in
      let call = execute_query-IsCall R (sender_query R from_id user) w in
      elim (Bool-cases (no_rows R a.value)) [
        | inl none_found ↦ absurd (let e = rw none_found at a.then_result in ground arith)
        | inr some_found ↦
            let b = >>=-eq-ok _ _ _ (rw some_found at a.then_result) in
            elim (Bool-cases (num_lt (to_number R b.value) amount)) [
              | inl short ↦ absurd (let e = rw short at b.then_result in ground arith)
              | inr enough ↦ record {
                rows = a.value;
                found = sym call.result ∙ a.first;
                is_found = some_found;
                balance = b.value;
                row = b.first;
                not_below = enough;
                left = (execute_query R (sender_query R from_id user) w).1;
                server = call.server;
                searched = call.sent;
                received =
                    subst (IsReceived amount from_id number description _)
                      (sym ((rw some_found at a.world) ∙ (rw enough at b.world)))
                      (find_receiver-IsReceived amount from_id number description _
                        (rw enough at b.then_result) status);
              }
            ]
      ]

  -- The request names a sender, a receiver and an amount above zero, of which the rest holds.
  pub record IsTransfer (request : Request Num) (user : Value Num) (w after : World Server)
      : Type 0 where
    pub body : Value Num
    pub read : request.body ≡ ok body
    pub from_id : Value Num
    pub sender : get "from_account_id" body ≡ ok from_id
    pub number : Value Num
    pub named : get "to_account_number" body ≡ ok number
    pub given : Value Num
    pub asked : get "amount" body ≡ ok given
    pub description : Value Num
    pub described : get "description" body ≡ ok description
    pub not_nan : is_nan (parse_float (to_text R given)) ≡ false
    pub positive : num_le (parse_float (to_text R given)) (of_ℕ 0) ≡ false
    pub left : World Server
    pub server : left.server ≡ w.server
    pub before : left.sent ≡ w.sent
    pub covered :
        IsCovered user (parse_float (to_text R given)) from_id number description left after

  transfer_body-IsTransfer :
      (request : Request Num) (user : Value Num) (w : World Server) {r : Response Num}
      → (transfer_body R request user w).0 ≡ ok r
      → r.status ≡ 200
      → IsTransfer request user w (transfer_body R request user w).1
  unfolding transfer_body check_details lift
  transfer_body-IsTransfer request user w h status =
      let a = >>=-eq-ok _ _ w h in
      let b = >>=-eq-ok _ _ _ a.then_result in
      let c = >>=-eq-ok _ _ _ b.then_result in
      let d = >>=-eq-ok _ _ _ c.then_result in
      let e = >>=-eq-ok _ _ _ d.then_result in
      let amount = parse_float (to_text R d.value) in
      let (good, checked, moved) =
        refused_or_ran R 400
          (not (truthy R b.value)
            || not (truthy R c.value)
            || is_nan amount
            || num_le amount (of_ℕ 0))
          "Invalid transfer details" (check_sender R user amount b.value c.value e.value) w
          (λ n. ground arith) e.then_result status in
      record {
        body = a.value;
        read = a.first;
        from_id = b.value;
        sender = b.first;
        number = c.value;
        named = c.first;
        given = d.value;
        asked = d.first;
        description = e.value;
        described = e.first;
        not_nan = ground arith;
        positive = ground arith;
        left = w;
        server = refl;
        before = refl;
        covered =
            subst (IsCovered user amount b.value c.value e.value w)
              (sym (a.world ∙ b.world ∙ c.world ∙ d.world ∙ e.world ∙ moved))
              (check_sender-IsCovered user amount b.value c.value e.value w checked status);
      }

-- A transfer that is answered with status 200 was asked for by a user whose token is valid, of an amount
-- that is a number above zero. The server returned a row for the sender's account of this user, whose
-- balance as a number does not compare as less than the amount (which holds of an absent balance too), and
-- for the account number of the request a row whose account is not the sender's. What was sent is the two searches and then, all taken
-- without an error, the statements that deduct this amount from the one account, add it to the other, and
-- record the transfer.
pub transfer_post-IsTransfer :
    (R : Runtime) (request : Request R.Num) (w : World R.Server) (r : Response R.Num)
    → (transfer_post R request w).0 ≡ ok r
    → r.status ≡ 200
    → (truthy R (user_of R w.server request) ≡ true)
      × IsTransfer R request (user_of R w.server request) w (transfer_post R request w).1
unfolding transfer_post
transfer_post-IsTransfer R request w r h status =
    let g = with_user-success R request _ w h status in
    let (tried, world) =
      try_or_500-success R "[TRANSFER_POST_ERROR]" "Server error during transfer" _ g.left g.result
        status in
    let t = transfer_body-IsTransfer R request (user_of R w.server request) g.left tried status in
    (
      g.valid,
      record {
        body = t.body;
        read = t.read;
        from_id = t.from_id;
        sender = t.sender;
        number = t.number;
        named = t.named;
        given = t.given;
        asked = t.asked;
        description = t.description;
        described = t.described;
        not_nan = t.not_nan;
        positive = t.positive;
        left = t.left;
        server = t.server ∙ g.server;
        before = t.before ∙ g.sent;
        covered =
            subst
              (IsCovered R (user_of R w.server request) (R.parse_float (to_text R t.given))
                t.from_id t.number t.description t.left)
              (sym (g.world ∙ world)) t.covered;
      },
    )
