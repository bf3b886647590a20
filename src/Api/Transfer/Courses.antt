-- ===== src/Api/Transfer/Courses.antt =====
-- Every way the statements of a transfer can go.
use wwfsdb.Base.{
  ◌≡◌, refl, ap, sym, subst, ◌∙◌, ◌⊎◌, inl, inr, String, Option, none, some, List, [], ◌∷◌, arith,
}
use wwfsdb.Js.Value.{Value, Exn, Result, ok, throw}
use wwfsdb.Js.Runtime.{Runtime}
use wwfsdb.Js.Action.{Action, World, pure, raise, log, ◌>>=◌, ◌>>◌}
use wwfsdb.Js.Action.Inversion.{>>=-course, catch-course}
use wwfsdb.Rpc.{execute_write_query}
use wwfsdb.Api.Transfer.{deduct_query, add_query, compensate, move_money}

module _ (R : Runtime) where
  open R use {Num, Server}

  -- The writes go to the server one after the other, from a world to a world, until one of them throws or
  -- all of them are taken; what is thrown, if something is.
  pub data Sends : List String → World Server → World Server → Option Exn → Type 0 where
    all_taken : {w : World Server} → Sends [] w w none
    taken :
        {query : String} {queries : List String} {w after : World Server} {e : Option Exn}
        {v : Value Num}
        → (execute_write_query R query w).0 ≡ ok v
        → Sends queries (execute_write_query R query w).1 after e
        → Sends (query ∷ queries) w after e
    refused :
        {query : String} {queries : List String} {w : World Server} {e : Exn}
        → (execute_write_query R query w).0 ≡ throw e
        → Sends (query ∷ queries) w (execute_write_query R query w).1 (some e)

  in_order : List String → Action Server (Unit {0})
  in_order [] = pure tt
  in_order (query ∷ queries) = execute_write_query R query >>= λ _. in_order queries

  abbrev result_of : Option Exn → Result (Unit {0})
  result_of none = ok tt
  result_of (some e) = throw e

  in_order-Sends :
      (queries : List String) (w : World Server)
      → (e : Option Exn) × (after : World Server) × Sends queries w after e
        × (in_order queries w ≡ (result_of e, after))
  unfolding in_order pure
  in_order-Sends [] w = (none, w, all_taken, refl)
  in_order-Sends (query ∷ queries) w =
      elim (>>=-course (execute_write_query R query) (λ _. in_order queries) w) [
        | inl (e, p, q) ↦ (some e, (execute_write_query R query w).1, refused p, q)
        | inr (v, p, q) ↦
            let (e, after, sent, same) = in_order-Sends queries (execute_write_query R query w).1 in
            (e, after, taken p sent, q ∙ same)
      ]

  -- The three writes of a transfer, and the two that reverse its updates.
  abbrev pub forth : Num → (from_id to_id : Value Num) → String → List String
  forth amount from_id to_id insert =
      deduct_query R amount from_id ∷ add_query R amount to_id ∷ insert ∷ []

  abbrev pub back : Num → (from_id to_id : Value Num) → List String
  back amount from_id to_id = add_query R amount from_id ∷ deduct_query R amount to_id ∷ []

  -- One of the writes has thrown `e`: the two that reverse are sent, until one of them throws or both are
  -- taken, and the caller gets `e`.
  pub record IsReversed (amount : Num) (from_id to_id : Value Num) (insert : String)
      (w : World Server) (outcome : Result (Unit {0}) × World Server) : Type 0 where
    pub e : Exn
    pub failed : World Server
    pub went : Sends (forth amount from_id to_id insert) w failed (some e)
    pub f : Option Exn
    pub reversed : World Server
    pub returned :
        Sends (back amount from_id to_id) (log "[TRANSFER_QUERIES_ERROR]" failed).1 reversed f
    pub result : outcome.0 ≡ throw e
    pub server : outcome.1.server ≡ reversed.server
    pub sent : outcome.1.sent ≡ reversed.sent

  abbrev pub Course :
      Num
      → (from_id to_id : Value Num) → String
      → World Server
      → Result (Unit {0}) × World Server
      → Type 0
  Course amount from_id to_id insert w outcome =
      (Sends (forth amount from_id to_id insert) w outcome.1 none × (outcome.0 ≡ ok tt))
      ⊎ IsReversed amount from_id to_id insert w outcome

  module _ (amount : Num) (from_id to_id : Value Num) where
    compensate-Sends :
        (w : World Server)
        → (f : Option Exn) × (reversed : World Server) × Sends
            (back amount from_id to_id)
            w
            reversed
            f
          × ((compensate R amount from_id to_id w).0 ≡ ok tt)
          × ((compensate R amount from_id to_id w).1.server ≡ reversed.server)
          × ((compensate R amount from_id to_id w).1.sent ≡ reversed.sent)
    unfolding compensate in_order log
    compensate-Sends w =
        let (f, reversed, sent, same) = in_order-Sends (back amount from_id to_id) w in
        elim (catch-course (in_order (back amount from_id to_id))
          (λ e. log "[TRANSFER_ROLLBACK_ERROR]") w) [
            | inl (e, p, q) ↦ (
              f,
              reversed,
              sent,
              ap (λ x. x.0) q,
              ap (λ x. x.1.server) q ∙ ap (λ x. x.1.server) same,
              ap (λ x. x.1.sent) q ∙ ap (λ x. x.1.sent) same,
            )
            | inr (a, p, q) ↦ (
              f,
              reversed,
              sent,
              ap (λ x. x.0) q,
              ap (λ x. x.1.server) q ∙ ap (λ x. x.1.server) same,
              ap (λ x. x.1.sent) q ∙ ap (λ x. x.1.sent) same,
            )
          ]

    recover : Exn → Action Server (Unit {0})
    recover e = do log "[TRANSFER_QUERIES_ERROR]"; compensate R amount from_id to_id; raise e

    recover-eq :
        (e : Exn) (w : World Server)
        → recover e w
          ≡ (throw e, (compensate R amount from_id to_id (log "[TRANSFER_QUERIES_ERROR]" w).1).1)
    unfolding recover raise log ◌>>=◌
    recover-eq e w =
        let logged = (log "[TRANSFER_QUERIES_ERROR]" w).1 in
        let (f, reversed, sent, done, server, same) = compensate-Sends logged in
        elim (>>=-course {B = Unit {0}} (compensate R amount from_id to_id) (λ _. raise e) logged) [
          | inl (x, p, q) ↦ absurd (ground (arith, p, done))
          | inr (a, p, q) ↦ q
        ]

-- The statements of a transfer, whatever the server answers. Either the deduction, the addition and the
-- record were sent one after the other and all taken, and the caller gets no error; or they were sent
-- until one of them threw, and then, whichever that was, the two statements that reverse the two updates
-- were sent, until one of them threw or both were taken, and the caller gets the error of the first three.
pub move_money-Course :
    (R : Runtime) (amount : R.Num) (from_id to_id : Value R.Num) (insert : String)
    (w : World R.Server)
    → Course R amount from_id to_id insert w (move_money R amount from_id to_id insert w)
unfolding move_money in_order recover
move_money-Course R amount from_id to_id insert w =
    let (e, after, sent, same) = in_order-Sends R (forth R amount from_id to_id insert) w in
    let run = in_order R (forth R amount from_id to_id insert) in
    elim (catch-course run (recover R amount from_id to_id) w) [
      | inr (a, p, q) ↦ completed e after sent same a p q
      | inl (x, p, q) ↦ reversed e after sent same x p q
    ]
  where
    completed :
        (e : Option Exn) (after : World R.Server)
        → Sends R (forth R amount from_id to_id insert) w after e
        → in_order R (forth R amount from_id to_id insert) w ≡ (result_of R e, after)
        → (a : Unit {0}) → (in_order R (forth R amount from_id to_id insert) w).0 ≡ ok a
        → move_money R amount from_id to_id insert w
          ≡ (ok a, (in_order R (forth R amount from_id to_id insert) w).1)
        → Course R amount from_id to_id insert w (move_money R amount from_id to_id insert w)
    completed none after sent same a p q = inl (
      subst (λ x. Sends R (forth R amount from_id to_id insert) w x none)
          (sym (ap (λ x. x.1) q ∙ ap (λ x. x.1) same)) sent,
      ap (λ x. x.0) q,
    )
    completed (some e) after sent same a p q =
        absurd (let m : throw e ≡ ok a = sym (ap (λ x. x.0) same) ∙ p in ground arith)

    reversed :
        (e : Option Exn) (after : World R.Server)
        → Sends R (forth R amount from_id to_id insert) w after e
        → in_order R (forth R amount from_id to_id insert) w ≡ (result_of R e, after)
        → (x : Exn) → (in_order R (forth R amount from_id to_id insert) w).0 ≡ throw x
        → move_money R amount from_id to_id insert w
          ≡ recover R amount from_id to_id x (in_order R (forth R amount from_id to_id insert) w).1
        → Course R amount from_id to_id insert w (move_money R amount from_id to_id insert w)
    reversed none after sent same x p q =
        absurd (let m : ok tt ≡ throw x = sym (ap (λ x. x.0) same) ∙ p in ground arith)
    reversed (some e) after sent same x p q =
        let m : throw e ≡ throw x = sym (ap (λ x. x.0) same) ∙ p in
        let one : e ≡ x = ground arith in
        let all =
          q
          ∙ ap (λ (v : World R.Server). recover R amount from_id to_id x v) (ap (λ x. x.1) same)
          ∙ recover-eq R amount from_id to_id x after in
        let (f, back_to, returned, done, server, kept) =
          compensate-Sends R amount from_id to_id (log "[TRANSFER_QUERIES_ERROR]" after).1 in
        inr (record {
          e = e;
          failed = after;
          went = sent;
          f = f;
          reversed = back_to;
          returned = returned;
          result = ap (λ x. x.0) all ∙ ap (λ (y : Exn). throw y) (sym one);
          server = ap (λ x. x.1.server) all ∙ server;
          sent = ap (λ x. x.1.sent) all ∙ kept;
        })
