-- ===== src/Api/Transactions/Filtering.antt =====
-- Which transactions `GET /api/transactions` and the dashboard keep.
use wwfsdb.Base.{
  ◌≡◌, refl, ap, sym, subst, ◌∙◌, ◌⊎◌, Bool, true, false, ◌==◌, String, arith, List, [], ◌∷◌, All,
  filter, inl, inr, Bool-cases,
}
use wwfsdb.Js.Value.{
  Value, undefined, null, bool, num, str, arr, obj, Exn, Result, ok, throw, get, own, get_field,
  set_field, spread, traverse, array,
}
use wwfsdb.Js.Convert.{as_number, elements, no_rows, truthy}
use wwfsdb.Js.Traversal.{Pairwise, traverse-Pairwise, own-get, get_field-set_field}
use wwfsdb.Api.Transactions.Kept.{touches, includes-touches, filter_rows-filter}
use wwfsdb.Js.Runtime.{Runtime}
use wwfsdb.Js.Action.{World, pure, lift}
use wwfsdb.Js.Action.Inversion.{>>=-eq-ok}
use wwfsdb.Http.{Request, Response}
use wwfsdb.Rpc.{execute_query, read_request}
use wwfsdb.Rpc.Outcome.{read_outcome, execute_query-IsCall}
use wwfsdb.Api.Guard.{rows_or_empty, success, map_rows}
use wwfsdb.Api.Guard.Success.{with_user-success, try_or_500-success}
use wwfsdb.Api.Cards.{account_ids_query}
use wwfsdb.Auth.Token.{user_of}
use wwfsdb.Api.Transactions.{filter_rows, involves, with_amount, transactions_of, transactions_get}

-- A test that threw does not hold.
abbrev pub holds : Result Bool → Bool
holds (ok b) = b
holds (throw e) = false

pub Result-cases :
    {A : Type 0} (r : Result A) → ((a : A) × (r ≡ ok a)) ⊎ ((e : Exn) × (r ≡ throw e))
Result-cases (ok a) = inl (a, refl)
Result-cases (throw e) = inr (e, refl)

pub filter_rows-eq-ok :
    {A : Type 0} (p : A → Result Bool) (xs : List A) {ys : List A}
    → filter_rows p xs ≡ ok ys
    → ys ≡ filter (λ x. holds (p x)) xs
unfolding filter_rows
filter_rows-eq-ok p [] h = ground arith
filter_rows-eq-ok p (x ∷ xs) h = elim (Result-cases (p x)) [
  | inl (b, e) ↦ elim (Result-cases (filter_rows p xs)) [
    | inl (zs, f) ↦
        let ih = filter_rows-eq-ok p xs f in
        let g = rw (filter_rows, e, f) at h in rw e (ground arith)
    | inr (x', f) ↦ absurd (let g = rw (filter_rows, e, f) at h in ground arith)
  ]
  | inr (x', e) ↦ absurd (let g = rw (filter_rows, e) at h in ground arith)
]

module _ (R : Runtime) where
  open R use {Num, Server}

  -- A transaction as it is shown: its amount is a number, and all else is as in the row.
  pub record IsShown (row shown : Value Num) : Type 0 where
    pub amount : own "amount" shown ≡ num (as_number R (own "amount" row))
    pub others : (key : String) → ("amount" == key) ≡ false → own key shown ≡ own key row

  -- The row is from or to one of the accounts.
  abbrev pub is_of : List (Value Num) → Value Num → Bool
  is_of ids row = touches R ids (own "from_account_id" row) (own "to_account_id" row)

  involves-is_of :
      (ids : List (Value Num)) (row : Value Num) (b : Bool)
      → involves R ids row ≡ ok b
      → b ≡ is_of ids row
  unfolding involves
  involves-is_of ids row b h = elim (Result-cases (get "from_account_id" row)) [
    | inr (x, e) ↦ absurd (let m = rw (involves, e) at h in ground arith)
    | inl (v, e) ↦ elim (Result-cases (get "to_account_id" row)) [
      | inr (x, f) ↦ absurd (let m = rw (involves, e, f) at h in ground arith)
      | inl (u, f) ↦
          let m = rw (involves, e, f) at h in
          rw
            (
              own-get "from_account_id" row e,
              own-get "to_account_id" row f,
              sym (includes-touches R ids v u),
            )
            (ground arith)
    ]
  ]

  spread-own : (key : String) (v : Value Num) → get_field key (spread v) ≡ own key v
  spread-own key undefined = refl
  spread-own key null = refl
  spread-own key (bool b) = refl
  spread-own key (num n) = refl
  spread-own key (str s) = refl
  spread-own key (arr vs) = refl
  spread-own key (obj fs) = refl

  with_amount-IsShown : (row shown : Value Num) → with_amount R row ≡ ok shown → IsShown row shown
  unfolding with_amount
  with_amount-IsShown row shown h = elim (Result-cases (get "amount" row)) [
    | inr (x, e) ↦ absurd (let m = rw (with_amount, e) at h in ground arith)
    | inl (v, e) ↦
        let m = rw (with_amount, e) at h in
        let n = num (as_number R v) in
        let same : obj (set_field "amount" n (spread row)) ≡ shown = ground arith in
        subst (IsShown row) same (record {
          amount =
              rw (get_field-set_field "amount" "amount" n (spread row), own-get "amount" row e)
                refl;
          others = λ key ne.
              rw (get_field-set_field key "amount" n (spread row), ne) (spread-own key row);
        })
  ]

  -- What the route shows to a user with accounts: of the rows of `transactions`, the ones from or to
  -- one of the accounts, in their order, each with its amount as a number.
  pub record IsFiltered (accounts : Value Num) (w : World Server) (r : Response Num) : Type 0 where
    pub found : Value Num
    pub read :
        read_outcome R
          (R.post (read_request "SELECT * FROM transactions ORDER BY created_at DESC") w.server).0
        ≡ ok found
    pub rows : List (Value Num)
    pub elements_of : elements R (rows_or_empty R found) ≡ ok rows
    pub account_rows : List (Value Num)
    pub accounts_of : elements R accounts ≡ ok account_rows
    pub ids : List (Value Num)
    pub ids_of : traverse (get "account_id") account_rows ≡ ok ids
    pub shown : List (Value Num)
    pub shown_of : Pairwise IsShown (filter (is_of ids) rows) shown
    pub response : r ≡ success "transactions" (array shown)

  transactions_of-IsFiltered :
      (accounts : Value Num) (w : World Server) {r : Response Num}
      → (transactions_of R accounts w).0 ≡ ok r
      → IsFiltered accounts w r
  unfolding transactions_of map_rows lift pure
  transactions_of-IsFiltered accounts w {r} h =
      let a = >>=-eq-ok _ _ w h in
      let b = >>=-eq-ok _ _ _ a.then_result in
      let b' = >>=-eq-ok _ _ _ b.first in
      let c = >>=-eq-ok _ _ _ b.then_result in
      let d = >>=-eq-ok _ _ _ c.then_result in
      let e = >>=-eq-ok _ _ _ d.then_result in
      let kept =
        filter_rows-filter (involves R b.value) (is_of b.value) (involves-is_of b.value) c.value
          d.first in
      record {
        found = a.value;
        read =
            sym
              (execute_query-IsCall R "SELECT * FROM transactions ORDER BY created_at DESC"
                w).result
            ∙ a.first;
        rows = c.value;
        elements_of = c.first;
        account_rows = b'.value;
        accounts_of = b'.first;
        ids = b.value;
        ids_of = b'.then_result;
        shown = e.value;
        shown_of =
            subst (λ ts. Pairwise IsShown ts e.value) kept
              (traverse-Pairwise (with_amount R) IsShown with_amount-IsShown d.value e.value
                e.first);
        response = ground arith;
      }

  pub record IsOwnHistory (request : Request Num) (w : World Server) (r : Response Num)
      : Type 0 where
    pub valid : truthy R (user_of R w.server request) ≡ true
    pub accounts : Value Num
    pub found :
        read_outcome R
          (R.post (read_request (account_ids_query R (user_of R w.server request))) w.server).0
        ≡ ok accounts
    pub left : World Server
    pub server :
        left.server
        ≡ (R.post (read_request (account_ids_query R (user_of R w.server request))) w.server).1
    pub history :
        ((no_rows R accounts ≡ true) × (r ≡ success "transactions" (array [])))
        ⊎ IsFiltered accounts left r

-- `GET /api/transactions` answered with status 200 was asked with a valid token. A user without
-- accounts is shown no transaction; to others are shown, of all rows that the server returned, exactly
-- those from or to one of the user's accounts, in their order, each with its amount as a number and
-- with all else as in the row.
pub transactions_get-IsOwnHistory :
    (R : Runtime) (request : Request R.Num) (w : World R.Server) (r : Response R.Num)
    → (transactions_get R request w).0 ≡ ok r
    → r.status ≡ 200
    → IsOwnHistory R request w r
unfolding transactions_get pure
transactions_get-IsOwnHistory R request w r h status =
    let (tried, world) =
      try_or_500-success R "[TRANSACTIONS_GET_ERROR]" "Server error" _ w h status in
    let g = with_user-success R request _ w tried status in
    let user = user_of R w.server request in
    let a = >>=-eq-ok _ _ g.left g.result in
    let read = (execute_query-IsCall R (account_ids_query R user) g.left).result in
    record {
      valid = g.valid;
      accounts = a.value;
      found =
          subst
            (λ s.
              read_outcome R (R.post (read_request (account_ids_query R user)) s).0 ≡ ok a.value)
            g.server (sym read ∙ a.first);
      left = (execute_query R (account_ids_query R user) g.left).1;
      server =
          (execute_query-IsCall R (account_ids_query R user) g.left).server
          ∙ ap (λ s. (R.post (read_request (account_ids_query R user)) s).1) g.server;
      history = elim (Bool-cases (no_rows R a.value)) [
        | inl none ↦ inl (none, (let e = rw none at a.then_result in ground arith))
        | inr some ↦ inr (transactions_of-IsFiltered R a.value _ (rw some at a.then_result))
      ];
    }

pub filter_rows_lem :
    {A : Type 0} (p : A → Result Bool) (xs : List A)
    → All (λ x. p x ≡ ok (holds (p x))) xs
    → filter_rows p xs ≡ ok (filter (λ x. holds (p x)) xs)
unfolding filter_rows
filter_rows_lem p [] h = refl
filter_rows_lem p (x ∷ xs) h = elim (Result-cases (p x)) [
  | inl (b, e) ↦ rw (e, filter_rows, filter_rows_lem p xs h.1) (ground arith)
  | inr (e', e) ↦ absurd (let g = rw e at h.0 in ground arith)
]
