-- ===== src/Scripts/Matching.antt =====
-- What it means that the test script accepts rows in another order.
use wwfsdb.Base.{
  ◌≡◌, refl, ap, sym, ◌∙◌, subst, ◌+◌, Bool, true, some, List, [], ◌∷◌, ◌++◌, length, arith,
  Bool-cases, Option-cases, inl, inr,
}
use wwfsdb.Js.Value.{Value, Items, nil, item, arr, Result, ok, items}
use wwfsdb.Js.Runtime.{Runtime}
use wwfsdb.Api.Transactions.Filtering.{Result-cases}
use wwfsdb.Scripts.Compare.{take_match, matches, match_items, same_length}

-- A one-to-one pairing of the values of two lists, each pair of which passes the test.
pub data IsMatching {A : Type 0} (test : A → A → Result Bool) : List A → List A → Type 0 where
  done : IsMatching test [] []
  pair :
      {x : A} {xs : List A} (y : A) (before later : List A)
      → test x y ≡ ok true
      → IsMatching test xs (before ++ later)
      → IsMatching test (x ∷ xs) (before ++ y ∷ later)

-- Where the value that `take_match` takes out stands.
record Taken {A : Type 0} (test : A → Result Bool) (xs ys : List A) : Type 0 where
  value : A
  before : List A
  later : List A
  whole : xs ≡ before ++ value ∷ later
  left : ys ≡ before ++ later
  passes : test value ≡ ok true

module _ {A : Type 0} (test : A → Result Bool) where
  take_match-Taken :
      (xs : List A) {ys : List A} → take_match test xs ≡ ok (some ys) → Taken test xs ys
  take_match-Taken [] h = absurd (ground arith)
  take_match-Taken (x ∷ xs) {ys} h = elim (Result-cases (test x)) [
    | inr (e, p) ↦ absurd (let m = rw (take_match, p) at h in ground arith)
    | inl (good, p) ↦ elim (Bool-cases good) [
      | inl g ↦
          let m = rw (take_match, p, g) at h in
          record {
            value = x;
            before = [];
            later = xs;
            whole = refl;
            left = ground arith;
            passes = p ∙ ap ok g;
          }
      | inr g ↦ elim (Result-cases (take_match test xs)) [
        | inr (e, q) ↦ absurd (let m = rw (take_match, p, g, q) at h in ground arith)
        | inl (o, q) ↦ elim (Option-cases o) [
          | inl n ↦ absurd (let m = rw (take_match, p, g, q, n) at h in ground arith)
          | inr (zs, s) ↦
              let m = rw (take_match, p, g, q, s) at h in
              let t = take_match-Taken xs (q ∙ ap ok s) in
              let same : ys ≡ x ∷ zs = ground arith in
              record {
                value = t.value;
                before = x ∷ t.before;
                later = t.later;
                whole = ap (λ us. x ∷ us) t.whole;
                left = same ∙ ap (λ us. x ∷ us) t.left;
                passes = t.passes;
              }
        ]
      ]
    ]
  ]

length-middle :
    {A : Type 0} (before later : List A) (x : A)
    → length (before ++ x ∷ later) ≡ length (before ++ later) + 1
length-middle [] later x = omega arith
length-middle (b ∷ before) later x = omega (arith, length-middle before later x)

module _ (R : Runtime) where
  open R use {Num}

  match_items-IsMatching :
      (vs : Items Num) (bs : List (Value Num))
      → length (items vs) ≡ length bs
      → match_items R vs bs ≡ ok true
      → IsMatching (matches R) (items vs) bs
  unfolding match_items
  match_items-IsMatching nil [] l h = done
  match_items-IsMatching nil (b ∷ bs) l h = absurd (omega (arith, l))
  match_items-IsMatching (item v vs) bs l h = elim (Result-cases (take_match (matches R v) bs)) [
    | inr (e, p) ↦ absurd (let m = rw p at h in ground arith)
    | inl (o, p) ↦ elim (Option-cases o) [
      | inl n ↦ absurd (let m = rw (p, n) at h in ground arith)
      | inr (rest, s) ↦
          let t = take_match-Taken (matches R v) bs (p ∙ ap ok s) in
          let m = rw (p, s) at h in
          let shorter : length (items vs) ≡ length rest = omega (
            arith,
            l,
            ap length t.whole,
            ap length t.left,
            length-middle t.before t.later t.value,
          ) in
          let others = match_items-IsMatching vs rest shorter m in
          subst (IsMatching (matches R) (v ∷ items vs)) (sym t.whole) (
            pair t.value t.before t.later t.passes
              (subst (IsMatching (matches R) (items vs)) t.left others))
    ]
  ]

-- When the test script finds no mismatch between an array of rows and the expected array, there is a
-- one-to-one pairing of the rows with the expected rows without a mismatch in any pair.
pub matches-IsMatching :
    (R : Runtime) (vs ws : Items R.Num)
    → matches R (arr vs) (arr ws) ≡ ok true
    → IsMatching (matches R) (items vs) (items ws)
unfolding matches
matches-IsMatching R vs ws h = elim (Bool-cases (same_length (items vs) (items ws))) [
  | inr e ↦ absurd (let m = rw e at h in ground arith)
  | inl e ↦ match_items-IsMatching R vs (items ws) (ground arith) (let m = rw e at h in m)
]
