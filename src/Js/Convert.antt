-- ===== src/Js/Convert.antt =====
-- The conversions that the language makes: to Boolean, to text in a template, to number.
use Prim.Native.String.{◌++◌}
use wwfsdb.Base.{String, Bool, true, false, not, ◌||◌, ◌==◌, List, [], ◌∷◌, if◌then◌else◌}
use wwfsdb.Js.Value.{
  Value, undefined, null, bool, num, str, arr, obj, Items, nil, item, Result, ok, throw, type_error,
  items, get_field, is_string,
}
use wwfsdb.Js.Runtime.{Runtime}

-- `texts.join(separator)`
abbrev pub join : String → List String → String
join separator [] = ""
join separator (t ∷ []) = t
join separator (t ∷ u ∷ ts) = t ++ separator ++ join separator (u ∷ ts)

module _ (R : Runtime) where
  open R use {
    Num, of_ℕ, nan, is_nan, num_eq, num_to_string, number_of_text, parse_float, first_unit, num_add,
    num_lt,
  }

  -- `!!v`
  abbrev pub truthy : Value Num → Bool
  truthy undefined = false
  truthy null = false
  truthy (bool b) = b
  truthy (num n) = not (is_nan n || num_eq n (of_ℕ 0))
  truthy (str s) = not (s == "")
  truthy (arr vs) = true
  truthy (obj fs) = true

  -- `v || w`
  abbrev pub or_else : Value Num → Value Num → Value Num
  or_else v w = if truthy v then v else w

  -- `a === b`. Two objects or arrays that come out of two parses are never the same object.
  abbrev pub strict_eq : Value Num → Value Num → Bool
  strict_eq undefined undefined = true
  strict_eq null null = true
  strict_eq (bool true) (bool b) = b
  strict_eq (bool false) (bool b) = not b
  strict_eq (num n) (num m) = num_eq n m
  strict_eq (str s) (str t) = s == t
  strict_eq _ _ = false

  -- `xs.includes(v)` for values other than NaN
  abbrev pub includes : List (Value Num) → Value Num → Bool
  includes [] v = false
  includes (x ∷ xs) v = strict_eq x v || includes xs v

  -- `String(v)`, as in a template. An array joins its elements by commas, with `undefined` and
  -- `null` left empty.
  unfoldable mutual
    pub to_text : Value Num → String
    to_text undefined = "undefined"
    to_text null = "null"
    to_text (bool b) = if b then "true" else "false"
    to_text (num n) = num_to_string n
    to_text (str s) = s
    to_text (arr vs) = join_items vs
    to_text (obj fs) = "[object Object]"

    pub element_text : Value Num → String
    element_text undefined = ""
    element_text null = ""
    element_text (bool b) = if b then "true" else "false"
    element_text (num n) = num_to_string n
    element_text (str s) = s
    element_text (arr vs) = join_items vs
    element_text (obj fs) = "[object Object]"

    pub join_items : Items Num → String
    join_items nil = ""
    join_items (item v vs) = element_text v ++ join_rest vs

    pub join_rest : Items Num → String
    join_rest nil = ""
    join_rest (item v vs) = "," ++ element_text v ++ join_rest vs

  -- `Number(v)`, the conversion of the operators too
  abbrev pub to_number : Value Num → Num
  to_number undefined = nan
  to_number null = of_ℕ 0
  to_number (bool b) = if b then of_ℕ 1 else of_ℕ 0
  to_number (num n) = n
  to_number (str s) = number_of_text s
  to_number (arr vs) = number_of_text (to_text (arr vs))
  to_number (obj fs) = nan

  -- `v.length === 0` for a value that is not `undefined` or `null`
  abbrev pub length_is_zero : Value Num → Bool
  length_is_zero (arr nil) = true
  length_is_zero (str s) = s == ""
  length_is_zero (obj fs) = strict_eq (get_field "length" fs) (num (of_ℕ 0))
  length_is_zero _ = false

  -- `rows.length > 0` for a value that is not `undefined` or `null`
  abbrev pub has_rows : Value Num → Bool
  has_rows (arr (item v vs)) = true
  has_rows (str s) = not (s == "")
  has_rows (obj fs) = num_lt (of_ℕ 0) (to_number (get_field "length" fs))
  has_rows _ = false

  -- `!rows || rows.length === 0`
  abbrev pub no_rows : Value Num → Bool
  no_rows rows = not (truthy rows) || length_is_zero rows

  -- `rows[0]` for a value that is not `undefined` or `null`
  abbrev pub first_row : Value Num → Value Num
  first_row (arr (item v vs)) = v
  first_row (obj fs) = get_field "0" fs
  first_row (str s) = if s == "" then undefined else str (first_unit s)
  first_row _ = undefined

  -- `rows.map` and `rows.filter` exist on arrays only; calling `undefined` throws.
  abbrev pub elements : Value Num → Result (List (Value Num))
  elements (arr vs) = ok (items vs)
  elements _ = throw type_error

  -- `typeof v === 'string' ? parseFloat(v) : Number(v)`
  abbrev pub as_number : Value Num → Num
  as_number v = if is_string v then parse_float (to_text v) else to_number v

  -- `a + b`: a text if an operand is a text, an array or an object, else a sum
  abbrev pub is_textual : Value Num → Bool
  is_textual (str s) = true
  is_textual (arr vs) = true
  is_textual (obj fs) = true
  is_textual _ = false

  abbrev pub plus : Value Num → Value Num → Value Num
  plus a b =
      if is_textual a || is_textual b
      then str (to_text a ++ to_text b)
      else num (num_add (to_number a) (to_number b))

  -- `'${v}'`
  abbrev pub quoted : Value Num → String
  quoted v = "'" ++ to_text v ++ "'"
