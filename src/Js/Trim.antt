-- ===== src/Js/Trim.antt =====
-- `s.trim()` and the search for a word in a text, over the characters themselves.
use text.Mathlib.Text.{starts_with}
use Prim.Native.Char.{Char, code}
use wwfsdb.Base.{ℕ, String, Bool, not, ◌&&◌, ◌||◌, Option, none, some, ◌==◌, if◌then◌else◌, ltb}

abbrev pub between : ℕ → ℕ → Char → Bool
between low high c = not (ltb (code c) low) && not (ltb high (code c))

-- The white space and the line ends of the language.
abbrev pub is_space : Char → Bool
is_space c =
    between 9 13 c
    || between 32 32 c
    || between 160 160 c
    || between 5760 5760 c
    || between 8192 8202 c
    || between 8232 8233 c
    || between 8239 8239 c
    || between 8287 8287 c
    || between 12288 12288 c
    || between 65279 65279 c

abbrev trim_start : String → String
trim_start String.[] = String.[]
trim_start (String.◌∷◌ c s) = let rest = trim_start s in if is_space c then rest else String.◌∷◌ c s

abbrev trim_end : String → String
trim_end String.[] = String.[]
trim_end (String.◌∷◌ c s) =
    let rest = trim_end s in if is_space c && (rest == "") then String.[] else String.◌∷◌ c rest

abbrev pub trim : String → String
trim s = trim_end (trim_start s)

-- `\w`
abbrev is_word : Char → Bool
is_word c = between 48 57 c || between 65 90 c || between 95 95 c || between 97 122 c

abbrev pub word : String → String
word String.[] = String.[]
word (String.◌∷◌ c s) = let rest = word s in if is_word c then String.◌∷◌ c rest else String.[]

-- `s.substring(n)` for the length of the text that is given
abbrev pub drop_text : String → String → String
drop_text String.[] s = s
drop_text (String.◌∷◌ c t) String.[] = String.[]
drop_text (String.◌∷◌ c t) (String.◌∷◌ d s) = drop_text t s

abbrev given_word : String → Option String
given_word String.[] = none
given_word (String.◌∷◌ c s) = some (String.◌∷◌ c s)

-- `s.match(/<start>(\w+)/)[1]`, or nothing where there is no match; `read` is what a character is
-- compared as
module _ (read : String → String) where
  unfoldable pub word_after : String → String → Option String
  word_after start String.[] = none
  word_after start (String.◌∷◌ c s) =
      let later = word_after start s in
      if starts_with (read (String.◌∷◌ c s)) start
      then elim (given_word (word (drop_text start (String.◌∷◌ c s)))) [
        | none ↦ later
        | some w ↦ some w
      ]
      else later
