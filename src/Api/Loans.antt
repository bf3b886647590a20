-- ===== src/Api/Loans.antt =====
-- app/api/loans/route.ts
pub mod Grouping
use Prim.Native.Char.{Char, code}
use Prim.Native.Nat.{compare, Ordering}
use Prim.Native.String.{◌++◌}
use wwfsdb.Base.{
  ℕ, ◌+◌, String, Bool, true, false, ◌==◌, ◌||◌, Option, none, some, List, [], ◌∷◌, length, any,
  if◌then◌else◌,
}
use wwfsdb.Base.{◌++◌ as append}
use wwfsdb.Js.Value.{
  Value, null, num, str, obj, Result, ok, throw, type_error, array, get, set_field, spread, own,
}
use wwfsdb.Js.Convert.{to_text, to_number, strict_eq, no_rows, plus, join, elements}
use wwfsdb.Js.Runtime.{Runtime}
use wwfsdb.Js.Action.{pure, lift, ◌>>=◌}
use wwfsdb.Http.{Request}
use wwfsdb.Rpc.{execute_query}
use wwfsdb.Api.Guard.{Handler, try_or_500, with_user, rows_or_empty, map_rows, success}
use wwfsdb.Api.Cards.{quoted_column}

-- The object `acc` of the route: the payments of each loan id, keys in order of arrival.
abbrev pub Groups : Type 0 → Type 0
Groups A = List (String × List A)

-- The names that `{}` inherits: reading one gives a built-in member, which has no `push` and no
-- `reduce`.
abbrev pub inherited_names : List String
inherited_names =
    "constructor" ∷ "__defineGetter__" ∷ "__defineSetter__" ∷ "hasOwnProperty" ∷ "__lookupGetter__"
    ∷ "__lookupSetter__" ∷ "isPrototypeOf" ∷ "propertyIsEnumerable" ∷ "toString" ∷ "valueOf"
    ∷ "__proto__" ∷ "toLocaleString" ∷ []

unfoldable pub is_inherited : String → Bool
is_inherited key = any (λ name. key == name) inherited_names

module _ {A : Type 0} where
  unfoldable pub find_group : String → Groups A → Option (List A)
  find_group key [] = none
  find_group key ((k, xs) ∷ groups) = if k == key then some xs else find_group key groups

  -- `if (!acc[key]) acc[key] = []; acc[key].push(x)` for a key that is not inherited
  unfoldable pub push_group : String → A → Groups A → Groups A
  push_group key x [] = (key, x ∷ []) ∷ []
  push_group key x ((k, xs) ∷ groups) =
      if k == key then (k, append xs (x ∷ [])) ∷ groups else (k, xs) ∷ push_group key x groups

  -- `groups[key] || []`
  unfoldable pub group_of : String → Groups A → Result (List A)
  unfolding find_group is_inherited
  group_of key groups =
      if is_inherited key
      then throw type_error
      else elim (find_group key groups) [ none ↦ ok [] | some xs ↦ ok xs ]

-- `text.split('T')[0]`
unfoldable pub before_t : String → String
before_t String.[] = ""
before_t (String.◌∷◌ c s) = elim (compare (code c) b'T') [
  | Ordering.eq ↦ ""
  | _ ↦ String.◌∷◌ c (before_t s)
]

module _ (R : Runtime) where
  open R use {
    Num, of_ℕ, num_eq, num_lt, num_le, num_add, num_sub, num_mul, num_div, num_pow,
    months_later_iso,
  }

  unfoldable pub calculate_monthly_payment : (principal annual_rate term_months : Num) → Num
  calculate_monthly_payment principal annual_rate term_months =
      if num_le annual_rate (of_ℕ 0) || num_le term_months (of_ℕ 0)
      then num_div principal term_months
      else (let monthly_rate = num_div (num_div annual_rate (of_ℕ 100)) (of_ℕ 12) in
          let growth = num_pow (num_add (of_ℕ 1) monthly_rate) term_months in
          let numerator = num_mul monthly_rate growth in
          let denominator = num_sub growth (of_ℕ 1) in
          if num_eq denominator (of_ℕ 0)
          then of_ℕ 0
          else num_mul principal (num_div numerator denominator))

  -- one round of the `reduce` over the payments
  unfoldable pub add_payment : Groups (Value Num) → Value Num → Result (Groups (Value Num))
  unfolding push_group is_inherited
  add_payment groups payment = elim (get "loan_id" payment) [
    | throw e ↦ throw e
    | ok id ↦
        if is_inherited (to_text R id)
        then throw type_error
        else ok (push_group (to_text R id) payment groups)
  ]

  -- `payments.reduce((acc, payment) => …, acc)`
  unfoldable pub group_payments :
      Groups (Value Num) → List (Value Num) → Result (Groups (Value Num))
  unfolding add_payment
  group_payments groups [] = ok groups
  group_payments groups (payment ∷ payments) = elim (add_payment groups payment) [
    | throw e ↦ throw e
    | ok more ↦ group_payments more payments
  ]

  -- `payments.reduce((sum, p) => sum + p.amount, sum)`
  unfoldable pub total_paid : Value Num → List (Value Num) → Result (Value Num)
  total_paid sum [] = ok sum
  total_paid sum (p ∷ payments) = elim (get "amount" p) [
    | throw e ↦ throw e
    | ok amount ↦ total_paid (plus R sum amount) payments
  ]

  -- `remaining_balance > 0 ? remaining_balance : 0`
  unfoldable pub remaining : Num → Num → Num
  remaining amount paid =
      if num_lt (of_ℕ 0) (num_sub amount paid) then num_sub amount paid else of_ℕ 0

  -- `next_payment_date`: null unless the loan is active
  unfoldable pub next_payment : (status start_date : Value Num) → ℕ → Result (Value Num)
  unfolding before_t
  next_payment status start_date paid =
      if strict_eq R status (str "Active")
      then elim (months_later_iso start_date (paid + 1)) [
        | throw e ↦ throw e
        | ok iso ↦ ok (str (before_t iso))
      ]
      else ok null

  -- `{ ...loan, remaining_balance, monthly_payment, next_payment_date }`
  abbrev pub extend_loan : Value Num → Num → Num → Value Num → Value Num
  extend_loan loan balance monthly date = obj (
      set_field "next_payment_date" date (
        set_field "monthly_payment" (num monthly)
          (set_field "remaining_balance" (num balance) (spread loan))))

  -- the loan with its payments: a row that is not `undefined` or `null`
  unfoldable pub summarize : Value Num → List (Value Num) → Result (Value Num)
  unfolding total_paid calculate_monthly_payment next_payment remaining
  summarize loan payments = elim (total_paid (num (of_ℕ 0)) payments) [
    | throw e ↦ throw e
    | ok paid ↦
        let amount = to_number R (own "amount" loan) in
        let monthly =
          calculate_monthly_payment amount (to_number R (own "interest_rate" loan))
            (to_number R (own "term_months" loan)) in
        elim (next_payment (own "status" loan) (own "start_date" loan) (length payments)) [
          | throw e ↦ throw e
          | ok date ↦ ok (extend_loan loan (remaining amount (to_number R paid)) monthly date)
        ]
  ]

  -- the callback of `loansFromDb.map`
  unfoldable pub loan_view : Groups (Value Num) → Value Num → Result (Value Num)
  unfolding summarize group_of
  loan_view groups loan = elim (get "loan_id" loan) [
    | throw e ↦ throw e
    | ok id ↦ elim (group_of (to_text R id) groups) [
      | throw e ↦ throw e
      | ok payments ↦ summarize loan payments
    ]
  ]

  loans_of : Value Num → Handler R
  loans_of loans = do
    ids ← map_rows R (quoted_column R "loan_id") loans
    payments ← execute_query R (
        "SELECT loan_id, amount, payment_date FROM loan_payments WHERE loan_id IN ("
        ++ join "," ids
        ++ ")")
    rows ← lift (elements R (rows_or_empty R payments))
    groups ← lift (group_payments [] rows)
    views ← map_rows R (loan_view groups) loans
    pure (success "loans" (array views))

  unfoldable pub loans_get : Request Num → Handler R
  unfolding loans_of
  loans_get request = try_or_500 R "[LOANS_GET_ERROR]" "Server error" (
      with_user R request λ user_id. do
        loans ← execute_query R (
            "SELECT * FROM loans WHERE user_id = '"
            ++ to_text R user_id
            ++ "' ORDER BY start_date DESC")
        if no_rows R loans then pure (success "loans" (array [])) else loans_of loans)
