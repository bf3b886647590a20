-- ===== src/Api/Transactions/Kept.antt =====
-- Which rows a filter by the user's accounts keeps, said without the filter's own code.
use wwfsdb.Base.{◌≡◌, refl, sym, Bool, ◌||◌, List, [], ◌∷◌, filter, any, arith, inl, inr}
use wwfsdb.Js.Value.{Value, Result, ok}
use wwfsdb.Js.Convert.{strict_eq, includes}
use wwfsdb.Js.Runtime.{Runtime}
use wwfsdb.Js.Traversal.{Returns-cases}
use wwfsdb.Api.Transactions.{filter_rows}

pub filter_rows-filter :
    {A : Type 0} (p : A → Result Bool) (q : A → Bool)
    → ((x : A) (b : Bool) → p x ≡ ok b → b ≡ q x)
    → (xs : List A) {ys : List A} → filter_rows p xs ≡ ok ys
    → ys ≡ filter q xs
unfolding filter_rows
filter_rows-filter p q good [] h = ground arith
filter_rows-filter p q good (x ∷ xs) h = elim (Returns-cases (p x)) [
  | inr (e, f) ↦ absurd (let m = rw (filter_rows, f) at h in ground arith)
  | inl (b, e) ↦ elim (Returns-cases (filter_rows p xs)) [
    | inr (x', f) ↦ absurd (let m = rw (filter_rows, e, f) at h in ground arith)
    | inl (zs, f) ↦
        let ih = filter_rows-filter p q good xs f in
        let m = rw (filter_rows, e, f) at h in rw (sym (good x b e)) (ground arith)
  ]
]

module _ (R : Runtime) where
  open R use {Num}

  -- One of the accounts is the one that the money comes from or the one that it goes to.
  abbrev pub touches : (accounts : List (Value Num)) → (from_id to_id : Value Num) → Bool
  touches accounts from_id to_id =
      any (λ account. strict_eq R account from_id || strict_eq R account to_id) accounts

  pub includes-touches :
      (accounts : List (Value Num)) (from_id to_id : Value Num)
      → includes R accounts from_id || includes R accounts to_id ≡ touches accounts from_id to_id
  includes-touches [] from_id to_id = refl
  includes-touches (a ∷ accounts) from_id to_id =
      let ih = includes-touches accounts from_id to_id in ground arith
