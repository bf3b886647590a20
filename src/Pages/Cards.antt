-- ===== src/Pages/Cards.antt =====
-- app/(dashboard)/cards/page.tsx
pub mod View
pub mod Rendering
use wwfsdb.Base.{String, Bool, true, false, Option, none, []}
use wwfsdb.Js.Value.{Value, Result, ok, array, get}
use wwfsdb.Js.Runtime.{Runtime}
use wwfsdb.Rpc.Outcome.{bind}
use wwfsdb.Pages.{FetchRequest, auth_fetch, on_success}

pub record CardsPage (N : Type 0) : Type 0 where
  pub cards : Value N
  pub loading : Bool

abbrev pub opened_cards : {N : Type 0} → CardsPage N
opened_cards = record { cards = array []; loading = true }

module _ (R : Runtime) where
  open R use {Num}

  abbrev fetch_cards_request : Option String → FetchRequest Num
  fetch_cards_request token = auth_fetch token "/api/cards" "GET" none

  abbrev cards_listed : CardsPage Num → Value Num → Result (CardsPage Num)
  cards_listed p body = bind (get "cards" body) (λ rows. ok (record p { cards = rows }))

  -- `fetchCards` once it is answered, its `finally` included
  unfoldable pub fetch_cards_answered : Result (Value Num) → CardsPage Num → CardsPage Num
  fetch_cards_answered answer p = record (on_success R answer (cards_listed p) p) {
    loading = false;
  }
