-- ===== src/Pages/Settling.antt =====
-- What a page is after an answer, by the ways in which the handler can go.
use wwfsdb.Base.{◌≡◌, refl, ap, inl, inr, Bool, true, List, [], ◌∷◌, ◌++◌, All, filter, Bool-cases}
use wwfsdb.Js.Value.{Value, items, array_items, Result, ok, get}
use wwfsdb.Js.Convert.{truthy}
use wwfsdb.Js.Runtime.{Runtime}
use wwfsdb.Api.Transactions.Filtering.{Result-cases}
use wwfsdb.Pages.{on_success}

module _ (R : Runtime) where
  open R use {Num}

  -- What the server said of its success, if it said anything.
  abbrev pub Succeeded : Value Num → Type 0
  Succeeded body = (s : Value Num) × (get "success" body ≡ ok s) × (truthy R s ≡ true)

  module _ {P : Type 0} (answer : Result (Value Num)) (changed : Value Num → Result P) (p : P) where
    -- A page after an answer is as it was, or as the block has made it.
    pub on_success-keeps :
        (Q : P → Type 0)
        → Q p
        → ((body : Value Num) (p' : P)
            → answer ≡ ok body
            → Succeeded body
            → changed body ≡ ok p'
            → Q p')
        → Q (on_success R answer changed p)
    unfolding on_success
    on_success-keeps Q h k = elim (Result-cases answer) [
      | inr (e, a) ↦ rw a h
      | inl (body, a) ↦ elim (Result-cases (get "success" body)) [
        | inr (e, b) ↦ rw (a, b) h
        | inl (s, b) ↦ elim (Bool-cases (truthy R s)) [
          | inr failed ↦ rw (a, b, failed) h
          | inl done ↦ elim (Result-cases (changed body)) [
            | inr (e, c) ↦ rw (a, b, done, c) h
            | inl (p', c) ↦ rw (a, b, done, c) (k body p' a (s, b, done) c)
          ]
        ]
      ]
    ]

    pub on_success_lem :
        (body : Value Num) (p' : P)
        → answer ≡ ok body
        → Succeeded body
        → changed body ≡ ok p'
        → on_success R answer changed p ≡ p'
    unfolding on_success
    on_success_lem body p' a (s, b, done) c = rw (a, b, done, c)

module _ {A : Type 0} (P : A → Type 0) where
  pub All-append_one : (xs : List A) (y : A) → All P xs → P y → All P (xs ++ y ∷ [])
  All-append_one [] y h k = (k, tt)
  All-append_one (x ∷ xs) y h k = (h.0, All-append_one xs y h.1 k)

  pub All-filter : (p : A → Bool) (xs : List A) → All P xs → All P (filter p xs)
  All-filter p [] h = tt
  All-filter p (x ∷ xs) h = elim (Bool-cases (p x)) [
    | inl kept ↦ rw kept (h.0, All-filter p xs h.1)
    | inr gone ↦ rw gone (All-filter p xs h.1)
  ]

-- An array literal, read back.
pub items-array_items : {N : Type 0} (vs : List (Value N)) → items (array_items vs) ≡ vs
items-array_items [] = refl
items-array_items (v ∷ vs) = ap (λ ws. v ∷ ws) (items-array_items vs)
