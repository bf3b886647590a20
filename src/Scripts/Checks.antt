-- ===== src/Scripts/Checks.antt =====
-- js-scripts/app.js: the four kinds of checks, behind the answer of their query. What they write to the
-- console is left out.
use text.Mathlib.Text.{starts_with}
use Prim.Native.Char.{Char, code}
use wwfsdb.Base.{◌+◌, String, Bool, true, false, not, ◌&&◌, ◌||◌, ◌==◌, if◌then◌else◌, ltb}
use wwfsdb.Js.Value.{Value, str, Result, ok, get}
use wwfsdb.Js.Convert.{truthy}
use wwfsdb.Js.Runtime.{Runtime}
use wwfsdb.Js.Trim.{drop_text}
use wwfsdb.Rpc.Outcome.{bind}
use wwfsdb.Scripts.{TestState, begins_with}
use wwfsdb.Scripts.Compare.{safe_parse_result, matches, ordered_equal}

abbrev is_digit : Char → Bool
is_digit c = not (ltb (code c) 48) && ltb (code c) 58

abbrev skip_digits : String → String
skip_digits String.[] = String.[]
skip_digits (String.◌∷◌ c s) =
    let rest = skip_digits s in if is_digit c then rest else String.◌∷◌ c s

-- A digit at least, then digits, then exactly the end that is given.
abbrev digits_then : String → String → Bool
digits_then last String.[] = false
digits_then last (String.◌∷◌ c s) = is_digit c && (skip_digits s == last)

-- `/successful\. \d+ rows affected\.$/.test(s)`
unfoldable pub tells_affected : String → Bool
tells_affected String.[] = false
tells_affected (String.◌∷◌ c s) =
    (starts_with (String.◌∷◌ c s) "successful. "
      && digits_then " rows affected." (drop_text "successful. " (String.◌∷◌ c s)))
    || tells_affected s

-- `testState.passed++` or `testState.failed++`
abbrev pub count : {N : Type 0} → Bool → TestState N → TestState N
count success s =
    if success then record s { passed = s.passed + 1 } else record s { failed = s.failed + 1 }

module _ (R : Runtime) (upper : String → String) where
  open R use {Num}

  -- `assertQueryResult` behind its answer, which may be the rejection of the query
  unfoldable pub query_result_checked :
      (expected : Value Num) → Result (Value Num) → TestState Num → Result (TestState Num)
  query_result_checked expected answer s = bind answer λ res. bind (get "error" res) λ err.
      if truthy R err
      then ok (count false s)
      else bind (matches R (safe_parse_result R res) expected) (λ good. ok (count good s))

  -- `assertOrderedQueryResult`
  unfoldable pub ordered_result_checked :
      (expected : Value Num) → Result (Value Num) → TestState Num → Result (TestState Num)
  ordered_result_checked expected answer s = bind answer λ res. bind (get "error" res) λ err.
      if truthy R err
      then ok (count false s)
      else ok (count (ordered_equal R (safe_parse_result R res) expected) s)

  -- `typeof data === 'string' && /…/.test(data)`
  abbrev tells_rows : Value Num → Bool
  tells_rows (str s) = tells_affected s
  tells_rows _ = false

  abbrev changes_rows : String → Bool
  changes_rows query = begins_with upper "UPDATE" query || begins_with upper "DELETE" query

  -- `assertCommandSuccess`
  unfoldable pub command_success_checked :
      (query : String) → Result (Value Num) → TestState Num → Result (TestState Num)
  command_success_checked query answer s = bind answer λ res. bind (get "error" res) λ err. ok (
      count
        (not (truthy R err)
          && (if changes_rows query then tells_rows (safe_parse_result R res) else true))
        s)

  -- `assertCommandFailure`
  unfoldable pub command_failure_checked :
      Result (Value Num) → TestState Num → Result (TestState Num)
  command_failure_checked answer s =
      bind answer λ res. bind (get "error" res) λ err. ok (count (truthy R err) s)
