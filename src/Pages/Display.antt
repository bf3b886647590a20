-- ===== src/Pages/Display.antt =====
-- components/account-card.tsx, credit-card.tsx and stat-card.tsx: what a card shows. Elements and fixed
-- class names are left out; a value that is handed to React as a child stays a value.
use Prim.Native.String.{◌++◌}
use wwfsdb.Base.{String, Bool, Option, List, [], ◌∷◌, ◌==◌, if◌then◌else◌}
use wwfsdb.Js.Value.{Value, num, Result, ok, throw, type_error, undefined, null, get}
use wwfsdb.Js.Convert.{or_else, to_text}
use wwfsdb.Js.Runtime.{Runtime}
use wwfsdb.Rpc.Outcome.{bind}
use wwfsdb.Api.Loans.{is_inherited}

-- The texts that the language makes for a locale: `v.toLocaleString()`, the same with two decimals at
-- least, and `new Date(v).toLocaleDateString("en-US", …)` with a short and a long month, and with the
-- time of the day; `n.toFixed(1)`.
pub record Locale (N : Type 0) : Type 0 where
  pub plain : Value N → String
  pub decimals : Value N → String
  pub short_date : Value N → String
  pub long_date : Value N → String
  pub date_time : Value N → String
  pub fixed : N → String

pub data Icon : Type 0 where
  wallet trending_up piggy_bank bar_chart dollar_sign arrow_down_right credit_card home : Icon
  arrow_left_right file_text settings users : Icon

-- `table[key] || default` for a table literal of truthy values: a name that every object inherits gives
-- the member of that name.
pub data Looked (A : Type 0) : Type 0 where
  entry : A → Looked A
  inherited : String → Looked A

abbrev look_up : {A : Type 0} → List (String × A) → A → String → Looked A
look_up [] default key = if is_inherited key then inherited key else entry default
look_up ((k, a) ∷ table) default key =
    let rest = look_up table default key in if k == key then entry a else rest

abbrev account_icons : List (String × Icon)
account_icons =
    ("Checking", wallet)
    ∷ ("Savings", piggy_bank)
    ∷ ("Investment", trending_up)
    ∷ ("Business", bar_chart)
    ∷ []

abbrev account_colors : List (String × String)
account_colors =
    ("Checking", "from-primary to-primary/80")
    ∷ ("Savings", "from-secondary to-secondary/80")
    ∷ ("Investment", "from-accent to-accent/80")
    ∷ ("Business", "from-chart-4 to-chart-4/80")
    ∷ []

abbrev card_gradients : List (String × String)
card_gradients =
    ("Debit", "from-primary via-primary/90 to-primary/80")
    ∷ ("Credit", "from-secondary via-secondary/90 to-secondary/80")
    ∷ []

pub record AccountCard (N : Type 0) : Type 0 where
  pub icon : Looked Icon
  pub gradient : Looked String
  pub account_type : Value N
  pub account_number : Value N
  pub currency : Value N
  pub balance : String

pub record BankCard (N : Type 0) : Type 0 where
  pub gradient : Looked String
  pub card_type : Value N
  pub card_number : Value N
  pub expiry_date : Value N

pub record StatCard : Type 0 where
  pub title : String
  pub value : String
  pub icon : Icon
  pub trend : Option (String × Bool)

module _ (R : Runtime) (L : Locale R.Num) where
  open R use {Num, of_ℕ}

  -- `v || 0`
  abbrev pub or_zero : Value Num → Value Num
  or_zero v = or_else R v (num (of_ℕ 0))

  -- `v.toString()`
  abbrev pub string_of : Value Num → Result String
  string_of undefined = throw type_error
  string_of null = throw type_error
  string_of v = ok (to_text R v)

  -- `AccountCard`: what it hands to the markup. What React makes of an icon that is an inherited member of
  -- the table is not part of it.
  unfoldable pub account_card : Value Num → Result (AccountCard Num)
  account_card account = bind (get "account_type" account) λ type_of.
      bind (get "account_number" account) λ number. bind (get "currency" account) λ currency.
        bind (get "balance" account) λ balance. ok (record {
          icon = look_up account_icons wallet (to_text R type_of);
          gradient = look_up account_colors "from-primary to-primary/80" (to_text R type_of);
          account_type = type_of;
          account_number = number;
          currency = currency;
          balance = L.decimals (or_zero balance);
        })

  -- `CreditCardComponent`
  unfoldable pub bank_card : Value Num → Result (BankCard Num)
  bank_card card = bind (get "card_type" card) λ type_of. bind (get "card_number" card) λ number.
      bind (get "expiry_date" card) λ expiry. ok (record {
        gradient = look_up card_gradients "from-primary to-primary/80" (to_text R type_of);
        card_type = type_of;
        card_number = number;
        expiry_date = expiry;
      })

-- The line below the value of a `StatCard`, and whether it is shown as good.
abbrev trend_line : String × Bool → String × Bool
trend_line (value, positive) = (if positive then "+" ++ value else value, positive)
