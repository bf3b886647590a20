-- ===== src/Api/Loans/Grouping.antt =====
-- The grouping of payments by loan is a filter.
use wwfsdb.Base.{
  ◌≡◌, refl, sym, ap, ◌∙◌, String, Bool, true, false, Bool-cases, inl, inr, Option, none, some,
  List, [], ◌∷◌, ◌++◌, filter, ◌==◌, eq_iff, arith, if◌then◌else◌,
}
use mathlib.Core.List.{append_assoc, append-nil}
use wwfsdb.Js.Value.{Value, undefined, null, obj, own, Result, ok, throw, type_error}
use wwfsdb.Js.Convert.{to_text}
use wwfsdb.Js.Runtime.{Runtime}
use wwfsdb.Api.Loans.{
  Groups, is_inherited, find_group, push_group, group_of, add_payment, group_payments,
}

module _ {A : Type 0} where
  abbrev or_nil : Option (List A) → List A
  or_nil none = []
  or_nil (some xs) = xs

  -- The members of a group, none if there is no such group.
  abbrev members : String → Groups A → List A
  members key groups = or_nil (find_group key groups)

  members-push_group :
      (key k : String) (x : A) (groups : Groups A)
      → members key (push_group k x groups)
        ≡ (if k == key then members key groups ++ x ∷ [] else members key groups)
  unfolding push_group find_group
  members-push_group key k x [] = ground (arith, eq_iff k key)
  members-push_group key k x ((j, xs) ∷ groups) =
      ground (arith, members-push_group key k x groups, eq_iff j k, eq_iff j key, eq_iff k key)

  group_of-members :
      (key : String) (groups : Groups A)
      → is_inherited key ≡ false
      → group_of key groups ≡ ok (members key groups)
  unfolding group_of
  group_of-members key groups h = ground arith

first_of_ok :
    {A B : Type 0} (r : Result A) (f : A → Result B) {b : B}
    → elim r [ throw e ↦ throw e | ok a ↦ f a ] ≡ ok b
    → (a : A) × (r ≡ ok a) × (f a ≡ ok b)
first_of_ok (ok a) f h = (a, refl, h)
first_of_ok (throw e) f h = cc

regroup :
    {A : Type 0} (b : Bool) (xs : List A) (x : A) (ys : List A)
    → (if b then xs ++ x ∷ [] else xs) ++ ys ≡ xs ++ (if b then x ∷ ys else ys)
regroup true xs x ys = append_assoc xs (x ∷ []) ys
regroup false xs x ys = refl

module _ (R : Runtime) where
  open R use {Num}

  -- Whether a payment is of the loan with this id, in the texts of the ids.
  abbrev pub is_of : String → Value Num → Bool
  is_of key payment = to_text R (own "loan_id" payment) == key

  pushed :
      (key k : String) (groups more : Groups (Value Num)) (payment : Value Num)
      → (if is_inherited k then throw type_error else ok (push_group k payment groups)) ≡ ok more
      → members key more
        ≡ (if k == key then members key groups ++ payment ∷ [] else members key groups)
  pushed key k groups more payment h = elim (Bool-cases (is_inherited k)) [
    | inl old ↦ let e = rw old at h in cc
    | inr new ↦
        let e = rw new at h in
        let same : push_group k payment groups ≡ more = ground arith in
        rw (← same) (members-push_group key k payment groups)
  ]

  members-add_payment :
      (key : String) (groups more : Groups (Value Num)) (payment : Value Num)
      → add_payment R groups payment ≡ ok more
      → members key more
        ≡ (if is_of key payment then members key groups ++ payment ∷ [] else members key groups)
  unfolding add_payment
  members-add_payment key groups more undefined h = cc
  members-add_payment key groups more null h = cc
  members-add_payment key groups more (obj fs) h =
      pushed key (to_text R (own "loan_id" (obj fs))) groups more (obj fs) h
  members-add_payment key groups more payment h =
      pushed key (to_text R undefined) groups more payment h

  members-group_payments :
      (key : String) (payments : List (Value Num)) (groups final : Groups (Value Num))
      → group_payments R groups payments ≡ ok final
      → members key final ≡ members key groups ++ filter (is_of key) payments
  unfolding group_payments
  members-group_payments key [] groups final h =
      let same : groups ≡ final = ground arith in
      rw (← same) (sym (append-nil (members key groups)))
  members-group_payments key (payment ∷ payments) groups final h =
      let (more, first, rest) = first_of_ok _ _ h in
      members-group_payments key payments more final rest
      ∙ ap (λ (xs : List (Value Num)). xs ++ filter (is_of key) payments)
          (members-add_payment key groups more payment first)
      ∙ regroup (is_of key payment) (members key groups) payment (filter (is_of key) payments)

-- The payments that the route attributes to a loan are exactly those of its id, in the order of the
-- query, for every id that is not a name which objects inherit.
pub group_of-group_payments :
    (R : Runtime) (key : String) (payments : List (Value R.Num)) (groups : Groups (Value R.Num))
    → group_payments R [] payments ≡ ok groups
    → is_inherited key ≡ false
    → group_of key groups ≡ ok (filter (λ p. to_text R (own "loan_id" p) == key) payments)
unfolding find_group
group_of-group_payments R key payments groups h new =
    group_of-members key groups new
    ∙ ap (λ xs. ok xs) (members-group_payments R key payments [] groups h)
