-- ===== src/Pages/Beneficiaries/Overlap.antt =====
-- Two deletions on one page: one behind the other, and at the same time.
use wwfsdb.Base.{◌≡◌, refl, ap, Bool, not, List, [], ◌∷◌, All, filter}
use wwfsdb.Js.Value.{Value, ok, get, own, array}
use wwfsdb.Js.Convert.{strict_eq}
use wwfsdb.Js.Runtime.{Runtime}
use wwfsdb.Js.Traversal.{own-get}
use wwfsdb.Api.Transactions.Filtering.{holds, filter_rows_lem}
use wwfsdb.Pages.Settling.{Succeeded, on_success_lem, items-array_items, All-filter}
use wwfsdb.Pages.Beneficiaries.{BeneficiariesPage, is_other, removed, delete_answered}

module _ (R : Runtime) where
  open R use {Num}

  -- Every row is an object, so that its identifier can be read.
  abbrev pub HasId : Value Num → Type 0
  HasId row = (v : Value Num) × (get "beneficiary_id" row ≡ ok v)

  -- Whether a row stays when the row of this identifier goes: it has another identifier.
  abbrev pub stays : Value Num → Value Num → Bool
  stays id row = not (strict_eq R (own "beneficiary_id" row) id)

  other_by_own : (id row : Value Num) → HasId row → is_other R id row ≡ ok (stays id row)
  other_by_own id row (v, e) = rw (e, own-get "beneficiary_id" row e) refl

  All-holds :
      (id : Value Num) (rows : List (Value Num))
      → All HasId rows
      → filter (λ row. holds (is_other R id row)) rows ≡ filter (stays id) rows
  All-holds id [] h = refl
  All-holds id (row ∷ rows) h = rw (other_by_own id row h.0, All-holds id rows h.1) refl

  other_test :
      (id : Value Num) (rows : List (Value Num))
      → All HasId rows
      → All (λ row. is_other R id row ≡ ok (holds (is_other R id row))) rows
  other_test id [] h = tt
  other_test id (row ∷ rows) h = let (v, e) = h.0 in (rw e, other_test id rows h.1)

  delete_answered_lem :
      (seen p : BeneficiariesPage Num) (id : Value Num) (body : Value Num) (rows : List (Value Num))
      → seen.beneficiaries ≡ array rows
      → All HasId rows
      → Succeeded R body
      → delete_answered R seen id (ok body) p
        ≡ record p { beneficiaries = array (filter (stays id) rows) }
  unfolding delete_answered
  delete_answered_lem seen p id body rows e h s =
      on_success_lem R (ok body) (λ _. removed R seen p id) p body _ refl s
        (rw
          (
            e,
            items-array_items rows,
            filter_rows_lem (is_other R id) rows (other_test id rows h),
            All-holds id rows h,
          )
          refl)

-- Two deletions that the server both makes. When the second one is sent from the render that the answer
-- of the first has led to, the page shows exactly the rows of neither identifier, in their order. When
-- both are sent from the same render, it shows behind the second answer all the rows but those of the
-- second identifier again, the row of the first deletion too.
pub delete_answered_twice :
    (R : Runtime) (p : BeneficiariesPage R.Num) (a b : Value R.Num) (yes_a yes_b : Value R.Num)
    (rows : List (Value R.Num))
    → p.beneficiaries ≡ array rows
    → All (HasId R) rows
    → Succeeded R yes_a
    → Succeeded R yes_b
    → ((delete_answered R
          (delete_answered R p a (ok yes_a) p)
          b
          (ok yes_b)
          (delete_answered R p a (ok yes_a) p)).beneficiaries
        ≡ array (filter (stays R b) (filter (stays R a) rows)))
      × ((delete_answered R p b (ok yes_b) (delete_answered R p a (ok yes_a) p)).beneficiaries
          ≡ array (filter (stays R b) rows))
delete_answered_twice R p a b yes_a yes_b rows e h s t =
    let once = delete_answered R p a (ok yes_a) p in
    let shown = λ (q : BeneficiariesPage R.Num). q.beneficiaries in
    let first : once.beneficiaries ≡ array (filter (stays R a) rows) =
      ap shown (delete_answered_lem R p p a yes_a rows e h s) in
    (
      ap shown (
          delete_answered_lem R once once b yes_b (filter (stays R a) rows) first
            (All-filter (HasId R) (stays R a) rows h) t),
      ap shown (delete_answered_lem R p once b yes_b rows e h t),
    )
