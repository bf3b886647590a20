-- ===== src/Pages/Dashboard/View.antt =====
-- app/(dashboard)/dashboard/page.tsx: what the page shows.
use wwfsdb.Base.{String, Bool, true, false, none, some, List, [], ◌∷◌, if◌then◌else◌}
use wwfsdb.Js.Value.{Value, num, Result, ok, get, traverse}
use wwfsdb.Js.Convert.{to_number, elements}
use wwfsdb.Js.Runtime.{Runtime}
use wwfsdb.Rpc.Outcome.{bind}
use wwfsdb.Pages.Display.{
  Locale, StatCard, AccountCard, account_card, or_zero, string_of, dollar_sign, trending_up,
  arrow_down_right, credit_card,
}
use wwfsdb.Pages.Dashboard.{DashboardPage, DashboardData}

-- A line of the recent transactions; one that comes in is green, and has a plus sign.
pub record TransactionLine (N : Type 0) : Type 0 where
  pub key : Value N
  pub incoming : Bool
  pub description : Value N
  pub date : String
  pub sign : String
  pub currency : Value N
  pub amount : String

pub data DashboardView (N : Type 0) : Type 0 where
  spinner nothing : DashboardView N
  overview : List StatCard → List (AccountCard N) → List (TransactionLine N) → DashboardView N

module _ (R : Runtime) (L : Locale R.Num) where
  open R use {Num, of_ℕ, num_lt, num_sub}

  -- `Math.abs(v || 0)`
  abbrev pub magnitude : Value Num → Value Num
  magnitude v =
      let n = to_number R (or_zero R L v) in
      if num_lt n (of_ℕ 0) then num (num_sub (of_ℕ 0) n) else num n

  unfoldable pub transaction_line : Value Num → Result (TransactionLine Num)
  transaction_line transaction = bind (get "transaction_id" transaction) λ id.
      bind (get "amount" transaction) λ amount. bind (get "description" transaction) λ description.
        bind (get "created_at" transaction) λ created_at.
          bind (get "currency" transaction) λ currency.
            let incoming = num_lt (of_ℕ 0) (to_number R amount) in
            ok (record {
              key = id;
              incoming = incoming;
              description = description;
              date = L.short_date created_at;
              sign = if incoming then "+" else "";
              currency = currency;
              amount = L.decimals (magnitude amount);
            })

  -- `(stats.key || 0).toLocaleString()`
  abbrev stat_text : String → Value Num → Result String
  stat_text key stats = bind (get key stats) (λ v. ok (L.plain (or_zero R L v)))

  -- The grid of statistics.
  unfoldable pub stat_cards : Value Num → Result (List StatCard)
  stat_cards stats = bind (stat_text "total_balance" stats) λ balance.
      bind (stat_text "monthly_income" stats) λ income.
        bind (stat_text "monthly_expenses" stats) λ expenses.
          bind (get "active_cards" stats) λ cards. bind (string_of R L cards) λ cards_text. ok (
            record {
              title = "Total Balance";
              value = balance;
              icon = dollar_sign;
              trend = some ("12.5%", true);
            }
            ∷ record {
              title = "Monthly Income";
              value = income;
              icon = trending_up;
              trend = some ("8.2%", true);
            }
            ∷ record {
              title = "Monthly Expenses";
              value = expenses;
              icon = arrow_down_right;
              trend = some ("3.1%", false);
            }
            ∷ record {
              title = "Active Cards";
              value = cards_text;
              icon = credit_card;
              trend = none;
            }
            ∷ [])

  -- A card of an account, under its `key`.
  abbrev pub account_entry : Value Num → Result (AccountCard Num)
  account_entry account = bind (get "account_id" account) λ id. account_card R L account

  unfoldable pub overview_of : DashboardData Num → Result (DashboardView Num)
  unfolding stat_cards transaction_line account_card
  overview_of d = bind (stat_cards d.stats) λ cards. bind (elements R d.accounts) λ accounts.
      bind (traverse account_entry accounts) λ shown.
        bind (get "recent_transactions" d.stats) λ recent. bind (elements R recent) λ transactions.
          bind (traverse transaction_line transactions) λ lines. ok (overview cards shown lines)

  -- What the component returns, or the error of its rendering.
  unfoldable pub dashboard_view : DashboardPage Num → Result (DashboardView Num)
  unfolding overview_of
  dashboard_view p =
      if p.loading then ok spinner else elim p.shown [ none ↦ ok nothing | some d ↦ overview_of d ]
