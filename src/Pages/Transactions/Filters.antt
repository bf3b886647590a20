-- ===== src/Pages/Transactions/Filters.antt =====
-- Which transactions the page shows.
use wwfsdb.Base.{
  ◌≡◌, refl, ap, sym, Bool, true, false, ◌&&◌, ◌==◌, String, List, [], ◌∷◌, All, filter, Bool-cases,
  inl, inr, arith, if◌then◌else◌,
}
use wwfsdb.Js.Value.{Value, str, ok, array, get}
use wwfsdb.Js.Runtime.{Runtime}
use wwfsdb.Api.Transactions.Filtering.{filter_rows_lem, holds}
use wwfsdb.Pages.Settling.{items-array_items, All-filter}
use wwfsdb.Pages.Transactions.{
  TransactionsPage, has_type, mentions, filter_by_type, filter_by_query, filter_effect,
}

filter-filter :
    {A : Type 0} (p q : A → Bool) (xs : List A)
    → filter q (filter p xs) ≡ filter (λ x. p x && q x) xs
filter-filter p q [] = refl
filter-filter p q (x ∷ xs) = elim (Bool-cases (p x)) [
  | inr e ↦ rw e (filter-filter p q xs)
  | inl e ↦ elim (Bool-cases (q x)) [
    | inl f ↦ rw (e, f, filter-filter p q xs)
    | inr f ↦ rw (e, f) (filter-filter p q xs)
  ]
]

filter-all : {A : Type 0} (xs : List A) → filter (λ x. true) xs ≡ xs
filter-all [] = refl
filter-all (x ∷ xs) = ap (λ ys. x ∷ ys) (filter-all xs)

-- A test that is not set keeps every row.
filter-unset :
    {A : Type 0} (unset : Bool) (p : A → Bool) (xs : List A)
    → unset ≡ true
    → filter (λ x. if unset then true else p x) xs ≡ xs
filter-unset true p xs h = filter-all xs
filter-unset false p xs h = absurd (ground arith)

filter-set :
    {A : Type 0} (unset : Bool) (p : A → Bool) (xs : List A)
    → unset ≡ false
    → filter (λ x. if unset then true else p x) xs ≡ filter p xs
filter-set true p xs h = absurd (ground arith)
filter-set false p xs h = refl

module _ (R : Runtime) (lower : String → String) where
  open R use {Num}

  -- A row whose type and description are texts, as they are in the table.
  abbrev HasTexts : Value Num → Type 0
  HasTexts t =
      (type description : String) × (get "transaction_type" t ≡ ok (str type))
      × (get "description" t ≡ ok (str description))

  -- Whether the row passes the chosen type, and whether it passes the search.
  abbrev pub passes_type : String → Value Num → Bool
  passes_type filter_type t =
      if filter_type == "all" then true else holds (has_type R lower filter_type t)

  abbrev pub passes_query : String → Value Num → Bool
  passes_query search_query t =
      if search_query == "" then true else holds (mentions R lower search_query t)

  types_test :
      (filter_type : String) (ts : List (Value Num))
      → All HasTexts ts
      → All (λ t. has_type R lower filter_type t ≡ ok (holds (has_type R lower filter_type t))) ts
  types_test filter_type [] h = tt
  types_test filter_type (t ∷ ts) h =
      let (type, description, e, f) = h.0 in (rw e, types_test filter_type ts h.1)

  queries_test :
      (query : String) (ts : List (Value Num))
      → All HasTexts ts
      → All (λ t. mentions R lower query t ≡ ok (holds (mentions R lower query t))) ts
  queries_test query [] h = tt
  queries_test query (t ∷ ts) h =
      let (type, description, e, f) = h.0 in (rw f, queries_test query ts h.1)

  filter_by_type_lem :
      (filter_type : String) (ts : List (Value Num))
      → All HasTexts ts
      → filter_by_type R lower filter_type (array ts)
        ≡ ok (array (filter (passes_type filter_type) ts))
  filter_by_type_lem filter_type ts h = elim (Bool-cases (filter_type == "all")) [
    | inl e ↦ rw e (
        ap (λ us. ok (array us))
          (sym (filter-unset _ (λ t. holds (has_type R lower filter_type t)) ts e)))
    | inr e ↦
        rw (e, items-array_items ts, filter_rows_lem _ ts (types_test filter_type ts h))
          (ap (λ us. ok (array us))
            (sym (filter-set _ (λ t. holds (has_type R lower filter_type t)) ts e)))
  ]

  filter_by_query_lem :
      (query : String) (ts : List (Value Num))
      → All HasTexts ts
      → filter_by_query R lower query (array ts) ≡ ok (array (filter (passes_query query) ts))
  filter_by_query_lem query ts h = elim (Bool-cases (query == "")) [
    | inl e ↦ rw e (
        ap (λ us. ok (array us))
          (sym (filter-unset _ (λ t. holds (mentions R lower query t)) ts e)))
    | inr e ↦
        rw (e, items-array_items ts, filter_rows_lem _ ts (queries_test query ts h))
          (ap (λ us. ok (array us))
            (sym (filter-set _ (λ t. holds (mentions R lower query t)) ts e)))
  ]

-- When the rows have texts for their type and description, the page shows exactly the rows that pass
-- the chosen type, unless it is "all", and the search, unless it is empty, in their order; nothing else
-- of the page changes.
pub filter_effect-filter :
    (R : Runtime) (lower : String → String) (p : TransactionsPage R.Num) (ts : List (Value R.Num))
    → p.transactions ≡ array ts
    → All (HasTexts R lower) ts
    → filter_effect R lower p
      ≡ ok (record p {
        filtered_transactions = array (
            filter
              (λ t. passes_type R lower p.filter_type t && passes_query R lower p.search_query t)
              ts);
      })
unfolding filter_effect
filter_effect-filter R lower p ts e h = rw (
  e,
  filter_by_type_lem R lower p.filter_type ts h,
  filter_by_query_lem R lower p.search_query (filter (passes_type R lower p.filter_type) ts)
      (All-filter (HasTexts R lower) (passes_type R lower p.filter_type) ts h),
  filter-filter (passes_type R lower p.filter_type) (passes_query R lower p.search_query) ts,
)
