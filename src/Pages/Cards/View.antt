-- ===== src/Pages/Cards/View.antt =====
-- app/(dashboard)/cards/page.tsx: what the page shows.
use wwfsdb.Base.{ℕ, zero, suc, ◌-◌, String, if◌then◌else◌, List, [], ◌∷◌, length}
use wwfsdb.Js.Value.{Value, str, arr, Result, ok, throw, type_error, items, array, get, traverse}
use wwfsdb.Js.Convert.{elements}
use wwfsdb.Js.Runtime.{Runtime}
use wwfsdb.Rpc.Outcome.{bind}
use wwfsdb.Pages.Display.{Locale, BankCard, bank_card}
use wwfsdb.Pages.Cards.{CardsPage}

-- The lower part: one box with buttons for each card.
pub record CardBox (N : Type 0) : Type 0 where
  pub key : Value N
  pub card_type : Value N
  pub last_digits : Value N
  pub status : Value N
  pub expiry_date : Value N

pub data CardsView (N : Type 0) : Type 0 where
  spinner : CardsView N
  card_list : List (BankCard N) → List (CardBox N) → CardsView N

abbrev text_length : String → ℕ
text_length String.[] = 0
text_length (String.◌∷◌ c s) = suc (text_length s)

abbrev drop_characters : ℕ → String → String
drop_characters zero s = s
drop_characters (suc n) String.[] = String.[]
drop_characters (suc n) (String.◌∷◌ c s) = drop_characters n s

abbrev drop_items : {A : Type 0} → ℕ → List A → List A
drop_items zero xs = xs
drop_items (suc n) [] = []
drop_items (suc n) (x ∷ xs) = drop_items n xs

-- `v.slice(-4)`: only texts (of characters of sixteen bits) and arrays have the method
abbrev pub slice_last : {N : Type 0} → Value N → Result (Value N)
slice_last (str s) = ok (str (drop_characters (text_length s - 4) s))
slice_last (arr vs) = ok (array (drop_items (length (items vs) - 4) (items vs)))
slice_last _ = throw type_error

module _ (R : Runtime) (L : Locale R.Num) where
  open R use {Num}

  -- A card of the upper part, under its `key`.
  abbrev pub card_entry : Value Num → Result (BankCard Num)
  card_entry card = bind (get "card_id" card) λ id. bank_card R L card

  unfoldable pub card_box : Value Num → Result (CardBox Num)
  card_box card = bind (get "card_id" card) λ id. bind (get "card_type" card) λ type_of.
      bind (get "card_number" card) λ number. bind (slice_last number) λ last_digits.
        bind (get "status" card) λ status. bind (get "expiry_date" card) λ expiry. ok (record {
          key = id;
          card_type = type_of;
          last_digits = last_digits;
          status = status;
          expiry_date = expiry;
        })

  -- What the component returns, or the error of its rendering.
  unfoldable pub cards_view : CardsPage Num → Result (CardsView Num)
  cards_view p =
      if p.loading
      then ok spinner
      else bind (elements R p.cards) λ cards.
        bind (traverse card_entry cards)
          λ shown. bind (traverse card_box cards) λ boxes. ok (card_list shown boxes)
