-- ===== src/Auth/Header.antt =====
-- The header that the pages attach is read back by the server.
use Prim.Native.String
use Prim.Native.String.{String, [], ◌∷◌}
use text.Mathlib.TextPositions.{starts_with-append}
use text.Mathlib.TextLemmas.{nil-append, cons-append, cons-ne-nil}
use wwfsdb.Base.{
  ◌≡◌, refl, ◌≢◌, sym, ap, ◌∙◌, true, false, Option, none, some, arith, ◌==◌, eq_iff, Bool-cases,
  inl, inr,
}
use wwfsdb.Js.Value.{Result, ok, throw}
use wwfsdb.Auth.{
  is_space, is_blank, is_header_char, trim_end, is_header_text, word, after_space, second_word,
  bearer_token, auth_header,
}

-- A text of characters that a header may hold, none of them white space.
abbrev pub IsPlain : String → Type 0
IsPlain [] = Unit
IsPlain (c ∷ s) =
    (is_space c ≡ false) × (is_blank c ≡ false) × (is_header_char c ≡ true) × IsPlain s

word_of_IsPlain : (s : String) → IsPlain s → word s ≡ s
unfolding word
word_of_IsPlain [] h = refl
word_of_IsPlain (c ∷ s) (p, b, v, h) = rw p (ap (λ t. c ∷ t) (word_of_IsPlain s h))

-- `"Bearer " + token`, spelled out
spelled : String → String
spelled token = "B" ∷ "e" ∷ "a" ∷ "r" ∷ "e" ∷ "r" ∷ " " ∷ token

spelled_lem : (token : String) → String.◌++◌ "Bearer " token ≡ spelled token
unfolding spelled
spelled_lem token =
    cons-append "B" "earer " token
    ∙ ap (λ s. "B" ∷ s) (cons-append "e" "arer " token)
    ∙ ap (λ s. "B" ∷ "e" ∷ s) (cons-append "a" "rer " token)
    ∙ ap (λ s. "B" ∷ "e" ∷ "a" ∷ s) (cons-append "r" "er " token)
    ∙ ap (λ s. "B" ∷ "e" ∷ "a" ∷ "r" ∷ s) (cons-append "e" "r " token)
    ∙ ap (λ s. "B" ∷ "e" ∷ "a" ∷ "r" ∷ "e" ∷ s) (cons-append "r" " " token)
    ∙ ap (λ s. "B" ∷ "e" ∷ "a" ∷ "r" ∷ "e" ∷ "r" ∷ s) (cons-append " " "" token)
    ∙ ap spelled (nil-append token)

second_word-spelled : (token : String) → IsPlain token → second_word (spelled token) ≡ some token
unfolding second_word after_space spelled
second_word-spelled token h = ap some (word_of_IsPlain token h)

second_word-header :
    (token : String) → IsPlain token → second_word (String.◌++◌ "Bearer " token) ≡ some token
second_word-header token h = ap second_word (spelled_lem token) ∙ second_word-spelled token h

header-ne-empty : (token : String) → (String.◌++◌ "Bearer " token == "") ≡ false
unfolding spelled
header-ne-empty token = elim (Bool-cases (String.◌++◌ "Bearer " token == "")) [
  | inl e ↦ absurd (cons-ne-nil "B" _ (sym (spelled_lem token) ∙ (eq_iff _ _).0 e))
  | inr e ↦ e
]

trim_end_of_IsPlain : (s : String) → IsPlain s → trim_end s ≡ s
unfolding trim_end
trim_end_of_IsPlain [] h = refl
trim_end_of_IsPlain (c ∷ s) (p, b, v, h) = rw b (ap (λ t. c ∷ t) (trim_end_of_IsPlain s h))

is_header_text_of_IsPlain : (s : String) → IsPlain s → is_header_text s ≡ true
unfolding is_header_text
is_header_text_of_IsPlain [] h = refl
is_header_text_of_IsPlain (c ∷ s) (p, b, v, h) = rw (v, is_header_text_of_IsPlain s h) refl

not_empty : (token : String) → token ≢ "" → (token == "") ≡ false
not_empty token ne = elim (Bool-cases (token == "")) [
  | inl e ↦ absurd (ne ((eq_iff token "").0 e))
  | inr e ↦ e
]

-- Nothing is taken off the header of such a token, and nothing in it is refused.
trim_end-spelled :
    (token : String) → token ≢ "" → IsPlain token → trim_end (spelled token) ≡ spelled token
unfolding trim_end spelled
trim_end-spelled token ne h = rw (trim_end_of_IsPlain token h, not_empty token ne) refl

is_header_text-spelled : (token : String) → IsPlain token → is_header_text (spelled token) ≡ true
unfolding is_header_text spelled
is_header_text-spelled token h = rw (is_header_text_of_IsPlain token h) refl

auth_header-eq :
    (token : String)
    → token ≢ ""
    → IsPlain token
    → auth_header (some token) ≡ ok (some (String.◌++◌ "Bearer " token))
unfolding auth_header
auth_header-eq token ne h =
    let kept : trim_end (String.◌++◌ "Bearer " token) ≡ spelled token =
      ap trim_end (spelled_lem token) ∙ trim_end-spelled token ne h in
    rw (not_empty token ne, kept, is_header_text-spelled token h)
      (ap (λ t. ok (some t)) (sym (spelled_lem token)))

-- What the server makes of the header that was set, if one was.
abbrev pub received : Result (Option String) → Result (Option String)
received (ok header) = ok (bearer_token header)
received (throw e) = throw e

-- A token that is not empty and consists of characters which a header may hold, none of them white space,
-- is sent by `authFetch` in such a way that `getUserIdFromRequest` verifies this very token; without a
-- token there is none to verify.
pub bearer_token-auth_header :
    (token : String)
    → token ≢ ""
    → IsPlain token
    → (received (auth_header (some token)) ≡ ok (some token))
      × (received (auth_header none) ≡ ok none)
unfolding bearer_token auth_header
bearer_token-auth_header token ne h = (
  rw (auth_header-eq token ne h) (
      ground (
        arith,
        eq_iff token "",
        header-ne-empty token,
        second_word-header token h,
        starts_with-append "Bearer " token,
      )),
  refl,
)
