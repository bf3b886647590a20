-- ===== src/Pages/Support.antt =====
-- app/(dashboard)/support/page.tsx
use wwfsdb.Base.{String, Bool, true, false, Option, none, some, List, [], ◌∷◌, if◌then◌else◌}
use wwfsdb.Js.Value.{Value, str, Result, ok, object, array, get}
use wwfsdb.Js.Convert.{strict_eq, elements, length_is_zero}
use wwfsdb.Js.Runtime.{Runtime}
use wwfsdb.Rpc.Outcome.{bind}
use wwfsdb.Pages.{FetchRequest, auth_fetch, on_success, iterate}

pub record SupportPage (N : Type 0) : Type 0 where
  pub tickets : Value N
  pub loading : Bool
  pub dialog_open : Bool
  pub subject : String
  pub description : String

abbrev pub opened_support : {N : Type 0} → SupportPage N
opened_support = record {
  tickets = array [];
  loading = true;
  dialog_open = false;
  subject = "";
  description = "";
}

-- The icon and the colour of a ticket's status.
pub data StatusIcon : Type 0 where
  clock message_square check_circle x_circle : StatusIcon

-- What the page shows: a spinner, the invitation to write a first ticket, or the tickets, each with its
-- icon and colour.
pub data SupportView (N : Type 0) : Type 0 where
  spinner : SupportView N
  no_tickets : SupportView N
  tickets_shown : List (Value N × StatusIcon × String) → SupportView N

module _ (R : Runtime) where
  open R use {Num}

  abbrev pub fetch_tickets_request : Option String → FetchRequest Num
  fetch_tickets_request token = auth_fetch token "/api/support" "GET" none

  abbrev pub tickets_listed : SupportPage Num → Value Num → Result (SupportPage Num)
  tickets_listed p body = bind (get "tickets" body) (λ rows. ok (record p { tickets = rows }))

  -- `fetchTickets` once it is answered, its `finally` included
  unfoldable pub fetch_tickets_answered : Result (Value Num) → SupportPage Num → SupportPage Num
  fetch_tickets_answered answer p = record (on_success R answer (tickets_listed p) p) {
    loading = false;
  }

  abbrev pub submit_ticket_request : Option String → SupportPage Num → FetchRequest Num
  submit_ticket_request token seen =
      auth_fetch token "/api/support" "POST"
        (some (object (("subject", str seen.subject) ∷ ("description", str seen.description) ∷ [])))

  abbrev pub ticket_added : (seen p : SupportPage Num) → Value Num → Result (SupportPage Num)
  ticket_added seen p body = bind (get "ticket" body) λ ticket. bind (iterate seen.tickets) λ rows.
      ok (record p {
        tickets = array (ticket ∷ rows);
        subject = "";
        description = "";
        dialog_open = false;
      })

  -- `handleSubmit` once it is answered
  unfoldable pub submit_ticket_answered :
      (seen : SupportPage Num) → Result (Value Num) → SupportPage Num → SupportPage Num
  submit_ticket_answered seen answer p = on_success R answer (ticket_added seen p) p

  abbrev pub get_status_icon : Value Num → StatusIcon
  get_status_icon status =
      if strict_eq R status (str "Open")
      then clock
      else if strict_eq R status (str "In Progress")
      then message_square
      else if strict_eq R status (str "Closed")
      then check_circle
      else x_circle

  abbrev pub get_status_color : Value Num → String
  get_status_color status =
      if strict_eq R status (str "Open")
      then "bg-yellow-500/10 text-yellow-600"
      else if strict_eq R status (str "In Progress")
      then "bg-primary/10 text-primary"
      else if strict_eq R status (str "Closed")
      then "bg-success/10 text-success"
      else "bg-muted text-muted-foreground"

  -- `tickets.map(…)`: reading the status of `null` throws
  abbrev pub shown_tickets : List (Value Num) → Result (List (Value Num × StatusIcon × String))
  shown_tickets [] = ok []
  shown_tickets (ticket ∷ tickets) = bind (get "status" ticket) λ status.
      bind (shown_tickets tickets)
        λ rest. ok ((ticket, get_status_icon status, get_status_color status) ∷ rest)

  -- the render; a value that is no list ends it by an error
  unfoldable pub support_view : SupportPage Num → Result (SupportView Num)
  support_view p =
      if p.loading
      then ok spinner
      else bind (get "length" p.tickets) λ _.
        if length_is_zero R p.tickets
        then ok no_tickets
        else bind (elements R p.tickets)
            λ rows. bind (shown_tickets rows) (λ shown. ok (tickets_shown shown))
