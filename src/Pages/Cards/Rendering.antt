-- ===== src/Pages/Cards/Rendering.antt =====
-- The page of the cards on what its route answers.
use wwfsdb.Base.{◌≡◌, refl, ap, subst, ◌↔◌, ltb, false, List, [], ◌∷◌, All, arith, inl, inr}
use wwfsdb.Js.Value.{
  Value, undefined, null, bool, num, str, arr, obj, ok, traverse, get, own, get_field,
}
use wwfsdb.Js.Convert.{elements}
use wwfsdb.Js.Runtime.{Runtime}
use wwfsdb.Js.Traversal.{traverse-ok, traverse-eq-ok, Returns-cases}
use wwfsdb.Js.Action.{World}
use wwfsdb.Js.Action.Yields.{Yields, Yields-pure, Yields-bind, Yields-if}
use wwfsdb.Http.{Request, Response}
use wwfsdb.Api.Guard.{map_rows}
use wwfsdb.Api.Guard.Bodies.{Holds, guarded-Yields}
use wwfsdb.Api.Cards.{cards_get, cards_of}
use wwfsdb.Pages.{on_success}
use wwfsdb.Pages.Display.{Locale, BankCard, bank_card}
use wwfsdb.Pages.Cards.{CardsPage, fetch_cards_answered}
use wwfsdb.Pages.Cards.View.{
  CardsView, CardBox, card_list, slice_last, card_entry, card_box, cards_view,
}

module _ {N : Type 0} where
  -- A row with a card number of which the last digits can be taken.
  abbrev HasDigits : Value N → Type 0
  HasDigits v =
      (number : Value N) × (get "card_number" v ≡ ok number)
      × ((last : Value N) × (slice_last number ≡ ok last))

module _ (R : Runtime) (L : Locale R.Num) where
  open R use {Num}

  card_entry-ok : (v : Value Num) → HasDigits v → (c : BankCard Num) × (card_entry R L v ≡ ok c)
  unfolding bank_card
  card_entry-ok undefined (n, e, d) = absurd (ground arith)
  card_entry-ok null (n, e, d) = absurd (ground arith)
  card_entry-ok (bool b) h = (_, refl)
  card_entry-ok (num n) h = (_, refl)
  card_entry-ok (str s) h = (_, refl)
  card_entry-ok (arr vs) h = (_, refl)
  card_entry-ok (obj fs) h = (_, refl)

  card_box-ok : (v : Value Num) → HasDigits v → (c : CardBox Num) × (card_box R L v ≡ ok c)
  unfolding card_box
  card_box-ok undefined (n, e, d) = absurd (ground arith)
  card_box-ok null (n, e, d) = absurd (ground arith)
  card_box-ok (bool b) (n, e, (l, d)) = absurd (ground arith)
  card_box-ok (num m) (n, e, (l, d)) = absurd (ground arith)
  card_box-ok (str s) (n, e, (l, d)) = absurd (ground arith)
  card_box-ok (arr vs) (n, e, (l, d)) = absurd (ground arith)
  card_box-ok (obj fs) (n, e, (l, d)) =
      let same : n ≡ get_field "card_number" fs = ground arith in
      let sliced = subst (λ u. slice_last u ≡ ok l) same d in
      elim (Returns-cases (card_box R L (obj fs))) [
        | inl r ↦ r
        | inr (x, p) ↦ absurd (let m = rw sliced at p in ground arith)
      ]

  card_box-eq-ok : (v : Value Num) → ((c : CardBox Num) × (card_box R L v ≡ ok c)) → HasDigits v
  unfolding card_box
  card_box-eq-ok (obj fs) (c, h) = elim (Returns-cases (slice_last (get_field "card_number" fs))) [
    | inl (l, d) ↦ (get_field "card_number" fs, refl, (l, d))
    | inr (x, p) ↦ absurd (let m = rw p at h in ground arith)
  ]
  card_box-eq-ok undefined (c, h) = absurd (ground arith)
  card_box-eq-ok null (c, h) = absurd (ground arith)
  card_box-eq-ok (bool b) (c, h) = absurd (ground arith)
  card_box-eq-ok (num n) (c, h) = absurd (ground arith)
  card_box-eq-ok (str s) (c, h) = absurd (ground arith)
  card_box-eq-ok (arr vs) (c, h) = absurd (ground arith)

  map-All :
      {A : Type 0} {P Q : A → Type 0} → ((a : A) → P a → Q a) → (xs : List A) → All P xs → All Q xs
  map-All f [] tt = tt
  map-All f (x ∷ xs) (p, ps) = (f x p, map-All f xs ps)

  -- The rows of an answer can all be shown.
  abbrev pub Showable : Value Num → Type 0
  Showable v = (rows : List (Value Num)) × (elements R v ≡ ok rows) × All HasDigits rows

  cards_view-Showable :
      (p : CardsPage Num)
      → p.loading ≡ false
      → ((view : CardsView Num) × (cards_view R L p ≡ ok view)) ↔ Showable p.cards
  unfolding cards_view
  cards_view-Showable p l = (to, from)
    where
      to : ((view : CardsView Num) × (cards_view R L p ≡ ok view)) → Showable p.cards
      to (view, h) = elim (Returns-cases (elements R p.cards)) [
        | inr (x, e) ↦ absurd (let m = rw (l, e) at h in ground arith)
        | inl (rows, e) ↦ elim (Returns-cases (traverse (card_entry R L) rows)) [
          | inr (x, s) ↦ absurd (let m = rw (l, e, s) at h in ground arith)
          | inl (shown, s) ↦ elim (Returns-cases (traverse (card_box R L) rows)) [
            | inr (x, b) ↦ absurd (let m = rw (l, e, s, b) at h in ground arith)
            | inl (boxes, b) ↦ (rows, e, map-All card_box-eq-ok rows (traverse-eq-ok _ rows b))
          ]
        ]
      ]

      from : Showable p.cards → (view : CardsView Num) × (cards_view R L p ≡ ok view)
      from (rows, e, all) =
          let (shown, s) = traverse-ok (card_entry R L) HasDigits card_entry-ok rows all in
          let (boxes, b) = traverse-ok (card_box R L) HasDigits card_box-ok rows all in
          (card_list shown boxes, rw (l, e, s, b) refl)

module _ (R : Runtime) where
  open R use {Num}

  cards_of-Yields :
      (accounts : Value Num) → Yields (Holds R "cards" (λ _. Unit {0})) (cards_of R accounts)
  unfolding cards_of map_rows
  cards_of-Yields accounts = Yields-bind _ _ λ ids.
      Yields-if _ _ _ (Yields-pure _ (λ _. (_, tt, refl)))
        (Yields-bind _ _ λ cards. Yields-pure _ (λ _. (_, tt, refl)))

  cards_get-Yields :
      (request : Request Num) → Yields (Holds R "cards" (λ _. Unit {0})) (cards_get R request)
  unfolding cards_get
  cards_get-Yields request =
      guarded-Yields R _ _ "cards" (λ _. Unit) request _
        λ user. Yields-bind _ _ λ accounts.
          Yields-if _ _ _ (Yields-pure _ (λ _. (_, tt, refl))) (cards_of-Yields accounts)

-- The page of the cards shows what its route answers with status 200 exactly if each row has a card number
-- that is a text or an array; what React makes of the values in the markup is not part of it.
pub cards_view-cards_get :
    (R : Runtime) (L : Locale R.Num) (request : Request R.Num) (w : World R.Server)
    (r : Response R.Num) (p : CardsPage R.Num)
    → (cards_get R request w).0 ≡ ok r
    → r.status ≡ 200
    → ((view : CardsView R.Num) × (cards_view R L (fetch_cards_answered R (ok r.body) p) ≡ ok view))
      ↔ Showable R L (own "cards" r.body)
unfolding fetch_cards_answered on_success
cards_view-cards_get R L request w r p h status =
    let (v, _, e) = (cards_get-Yields R request).yields w r h (ap (λ n. ltb n 300) status) in
    rw e (cards_view-Showable R L (record { cards = v; loading = false }) refl)
