-- ===== src/Api/Dashboard/Recent.antt =====
-- Which transactions the dashboard shows.
use wwfsdb.Base.{
  ◌≡◌, refl, ap, sym, subst, ◌∙◌, String, Bool, All, if◌then◌else◌, ℕ, zero, ◌≤◌, suc, arith, List,
  [], ◌∷◌, filter, take, length, inl, inr,
}
use Prim.Native.String.{◌++◌}
use wwfsdb.Js.Value.{
  Value, undefined, null, bool, num, str, arr, obj, Result, ok, get, own, traverse,
}
use wwfsdb.Js.Convert.{truthy, or_else, as_number, elements}
use wwfsdb.Js.Runtime.{Runtime}
use wwfsdb.Js.Action.{World, lift}
use wwfsdb.Js.Action.Inversion.{>>=-eq-ok}
use wwfsdb.Rpc.{read_request}
use wwfsdb.Rpc.Outcome.{read_outcome, execute_query-IsCall}
use wwfsdb.Api.Guard.{rows_or_empty, map_rows}
use wwfsdb.Api.Transactions.Filtering.{Result-cases}
use wwfsdb.Api.Transactions.Kept.{touches, includes-touches, filter_rows-filter}
use wwfsdb.Js.Traversal.{Pairwise, traverse-Pairwise, own-get}
use wwfsdb.Api.Accounts.{has_prefix, column}
use wwfsdb.Api.Dashboard.{
  pick_transaction, recent_query, is_own, process_transaction, recent_transactions,
}

pub length-take : {A : Type 0} (n : ℕ) (xs : List A) → length (take n xs) ≤ n
length-take zero xs = omega arith
length-take (suc n) [] = omega arith
length-take (suc n) (x ∷ xs) = omega (arith, length-take n xs)

pub length-traverse :
    {A B : Type 0} (f : A → Result B) (xs : List A) {ys : List B}
    → traverse f xs ≡ ok ys
    → length ys ≡ length xs
length-traverse f [] h = ground arith
length-traverse f (x ∷ xs) h = elim (Result-cases (f x)) [
  | inl (y, e) ↦ elim (Result-cases (traverse f xs)) [
    | inl (zs, g) ↦
        let ih = length-traverse f xs g in let k = rw (traverse, e, g) at h in ground arith
    | inr (x', g) ↦ absurd (let k = rw (traverse, e, g) at h in ground arith)
  ]
  | inr (x', e) ↦ absurd (let k = rw (traverse, e) at h in ground arith)
]

module _ (R : Runtime) where
  open R use {Num, Server}

  -- The plain column if it is truthy, else the qualified one.
  abbrev either : String → Value Num → Value Num
  either key row = if truthy R (own key row) then own key row else own ("transactions." ++ key) row

  -- The row is from or to one of the accounts.
  abbrev pub is_of : List (Value Num) → Value Num → Bool
  is_of ids row = touches R ids (either "from_account_id" row) (either "to_account_id" row)

  -- The columns that are shown as they are.
  abbrev pub plain_columns : List String
  plain_columns =
      "transaction_id" ∷ "from_account_id" ∷ "to_account_id" ∷ "currency" ∷ "transaction_type"
      ∷ "description" ∷ "status" ∷ "created_at" ∷ []

  abbrev column_key : Bool → String → String
  column_key qualified key = if qualified then "transactions." ++ key else key

  -- A transaction as it is shown: its columns, by their qualified names if the row has a key of that
  -- kind, with the amount as a number.
  pub record IsShown (row shown : Value Num) : Type 0 where
    pub qualified : Bool
    pub prefixed : has_prefix "transactions." row ≡ ok qualified
    pub amount : own "amount" shown ≡ num (as_number R (own (column_key qualified "amount") row))
    pub others : All (λ key. own key shown ≡ own (column_key qualified key) row) plain_columns

  column-own :
      (qualified : Bool) (key : String) (row : Value Num)
      → column qualified "transactions." key row ≡ own (column_key qualified key) row
  column-own qualified key undefined = refl
  column-own qualified key null = refl
  column-own qualified key (bool b) = refl
  column-own qualified key (num n) = refl
  column-own qualified key (str s) = refl
  column-own qualified key (arr vs) = refl
  column-own qualified key (obj fs) = refl

  process_transaction-IsShown :
      (row shown : Value Num) → process_transaction R row ≡ ok shown → IsShown row shown
  unfolding process_transaction
  process_transaction-IsShown row shown h = elim (Result-cases (has_prefix "transactions." row)) [
    | inr (x, e) ↦ absurd (let m = rw (process_transaction, e) at h in ground arith)
    | inl (q, e) ↦
        let m = rw (process_transaction, e) at h in
        let same : pick_transaction R q row ≡ shown = ground arith in
        let at = λ (key : String). column-own q key row in
        subst (IsShown row) same (record {
          qualified = q;
          prefixed = e;
          amount = ap (λ v. num (as_number R v)) (at "amount");
          others = (
            at "transaction_id",
            (
              at "from_account_id",
              (
                at "to_account_id",
                (
                  at "currency",
                  (at "transaction_type", (at "description", (at "status", (at "created_at", tt)))),
                ),
              ),
            ),
          );
        })
  ]

  is_own-is_of :
      (ids : List (Value Num)) (row : Value Num) (b : Bool)
      → is_own R ids row ≡ ok b
      → b ≡ is_of ids row
  unfolding is_own
  is_own-is_of ids row b h = elim (Result-cases (get "from_account_id" row)) [
    | inr (x, e) ↦ absurd (let m = rw (is_own, e) at h in ground arith)
    | inl (v, e) ↦ elim (Result-cases (get "to_account_id" row)) [
      | inr (x, f) ↦ absurd (let m = rw (is_own, e, f) at h in ground arith)
      | inl (u, f) ↦
          let m = rw (is_own, e, f) at h in
          rw (own-get "from_account_id" row e, own-get "to_account_id" row f)
            (let t =
                includes-touches R ids (or_else R v (own "transactions.from_account_id" row))
                  (or_else R u (own "transactions.to_account_id" row)) in
              ground arith)
    ]
  ]

  pub record IsRecent (accounts : Value Num) (w : World Server) (shown : List (Value Num))
      : Type 0 where
    pub found : Value Num
    pub read : read_outcome R (R.post (read_request (recent_query R)) w.server).0 ≡ ok found
    pub rows : List (Value Num)
    pub elements_of : elements R (rows_or_empty R found) ≡ ok rows
    pub account_rows : List (Value Num)
    pub accounts_of : elements R accounts ≡ ok account_rows
    pub ids : List (Value Num)
    pub ids_of : traverse (get "account_id") account_rows ≡ ok ids
    pub shown_of : Pairwise IsShown (take 4 (filter (is_of ids) rows)) shown
    pub at_most : length shown ≤ 4

-- The recent transactions of the dashboard are at most four, and they are the first of those rows that
-- the server returned which are from or to one of the given accounts, in their order, each with its
-- columns, qualified or plain, and its amount as a number.
pub recent_transactions-IsRecent :
    (R : Runtime) (accounts : Value R.Num) (w : World R.Server) (shown : List (Value R.Num))
    → (recent_transactions R accounts w).0 ≡ ok shown
    → IsRecent R accounts w shown
unfolding recent_transactions map_rows lift
recent_transactions-IsRecent R accounts w shown h =
    let a = >>=-eq-ok _ _ w h in
    let b = >>=-eq-ok _ _ _ a.then_result in
    let b' = >>=-eq-ok _ _ _ b.first in
    let c = >>=-eq-ok _ _ _ b.then_result in
    let d = >>=-eq-ok _ _ _ c.then_result in
    let kept =
      filter_rows-filter (is_own R b.value) (is_of R b.value) (is_own-is_of R b.value) c.value
        d.first in
    let few = length-take 4 d.value in
    let same = length-traverse (process_transaction R) (take 4 d.value) d.then_result in
    record {
      found = a.value;
      read = sym (execute_query-IsCall R (recent_query R) w).result ∙ a.first;
      rows = c.value;
      elements_of = c.first;
      account_rows = b'.value;
      accounts_of = b'.first;
      ids = b.value;
      ids_of = b'.then_result;
      shown_of =
          subst (λ ts. Pairwise (IsShown R) (take 4 ts) shown) kept
            (traverse-Pairwise (process_transaction R) (IsShown R) (process_transaction-IsShown R)
              (take 4 d.value) shown d.then_result);
      at_most = omega (arith, few, same);
    }
