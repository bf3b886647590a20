-- ===== src/Examples/Dashboards.antt =====
-- The dashboard and the cards on the answers of their routes, at a concrete input.
use wwfsdb.Base.{◌≡◌, refl, ◌↔◌, some, [], ◌∷◌, false}
use wwfsdb.Base.Int.{pos}
use wwfsdb.Js.Value.{Value, str, ok, throw, type_error, object, array, own}
use wwfsdb.Js.Convert.{to_text}
use wwfsdb.Js.Runtime.{Runtime}
use wwfsdb.Js.Action.{World, axios_post, ◌>>=◌}
use wwfsdb.Http.{Request, Response}
use wwfsdb.Auth.{get_user_id_from_request, bearer_token}
use wwfsdb.Rpc.{execute_query, read_request}
use wwfsdb.Api.Guard.{with_user, try_or_500, map_rows}
use wwfsdb.Api.Accounts.{accounts_get, process_account}
use wwfsdb.Api.Transactions.{filter_rows}
use wwfsdb.Api.Dashboard.{
  dashboard_stats_get, stats_of, compute_stats, settle, recent_transactions, is_own,
  process_transaction,
}
use wwfsdb.Pages.Display.{Locale, bank_card}
use wwfsdb.Pages.Dashboard.{opened_dashboard, dashboard_fetched}
use wwfsdb.Pages.Dashboard.View.{dashboard_view}
use wwfsdb.Pages.Dashboard.Rendering.{Renders, dashboard_view-Renders}
use wwfsdb.Api.Cards.{cards_get, cards_of}
use wwfsdb.Api.Loans.{is_inherited}
use wwfsdb.Pages.Cards.{opened_cards, fetch_cards_answered}
use wwfsdb.Pages.Cards.View.{CardsView, cards_view, card_box}
use wwfsdb.Pages.Cards.Rendering.{Showable, cards_view-cards_get}
use wwfsdb.Examples.Bank.{Coins, Accounts, toy, answer}

abbrev row : Value Coins
row = object (
    ("account_id", str "a")
    ∷ ("from_account_id", str "a")
    ∷ ("total", str "30")
    ∷ ("amount", str "30")
    ∷ ("card_number", str "1234")
    ∷ [])

-- A server that answers every read with one row.
abbrev one_row : Runtime
one_row = record toy { post = λ q s. (answer "row", s); json_parse = λ text. ok (array (row ∷ [])) }

abbrev start : World Accounts
start = record {
  server = record { a = pos 100; b = pos 5; lenient = false };
  sent = [];
  console = [];
}

abbrev asking : Request Coins
asking = record { authorization = some "Bearer t"; body = ok (object []); loan_id = "" }

abbrev texts : Locale Coins
texts = record {
  plain = λ v. "30";
  decimals = λ v. "30.00";
  short_date = λ v. "Jan 31, 2025";
  long_date = λ v. "January 31, 2025";
  date_time = λ v. "Jan 31, 2025, 12:00 PM";
  fixed = λ n. "0.0";
}

stats_answered :
    (r : Response Coins) × ((dashboard_stats_get one_row asking start).0 ≡ ok r) × (r.status ≡ 200)
unfolding dashboard_stats_get stats_of compute_stats settle recent_transactions filter_rows is_own
    process_transaction map_rows with_user try_or_500 get_user_id_from_request bearer_token
    execute_query axios_post to_text read_request ◌>>=◌
stats_answered = (_, refl, refl)

accounts_answered :
    (r : Response Coins) × ((accounts_get one_row asking start).0 ≡ ok r) × (r.status ≡ 200)
unfolding accounts_get process_account map_rows with_user try_or_500 get_user_id_from_request
    bearer_token execute_query axios_post to_text read_request ◌>>=◌
accounts_answered = (_, refl, refl)

rendered_dashboard : Renders one_row texts stats_answered.0 accounts_answered.0 (
    dashboard_view one_row texts (
      dashboard_fetched one_row
        (ok stats_answered.0.body)
        (ok accounts_answered.0.body)
        opened_dashboard))
rendered_dashboard =
    dashboard_view-Renders one_row texts asking asking start start stats_answered.0
      accounts_answered.0 stats_answered.1 accounts_answered.1

cards_answered :
    (r : Response Coins) × ((cards_get one_row asking start).0 ≡ ok r) × (r.status ≡ 200)
unfolding cards_get cards_of map_rows with_user try_or_500 get_user_id_from_request bearer_token
    execute_query axios_post to_text read_request ◌>>=◌
cards_answered = (_, refl, refl)

shown_cards :
    ((view : CardsView Coins) × (cards_view one_row texts
          (fetch_cards_answered one_row (ok cards_answered.0.body) opened_cards)
        ≡ ok view))
    ↔ Showable one_row texts (own "cards" cards_answered.0.body)
shown_cards =
    cards_view-cards_get one_row texts asking start cards_answered.0 opened_cards cards_answered.1
      cards_answered.2

-- A row with the qualified names that the database gives to the columns of `SELECT *`.
qualified_row :
    cards_view one_row texts (record {
      cards = array (object (("cards.card_number", str "1234") ∷ []) ∷ []);
      loading = false;
    })
    ≡ throw type_error
unfolding cards_view card_box bank_card is_inherited to_text
qualified_row = refl
