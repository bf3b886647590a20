-- ===== src/Scripts/Compare.antt =====
-- js-scripts/app.js: `safeParseResult`, `findMismatch` and `orderedDeepEqual`. Of a mismatch only that
-- there is one is kept; where it is and between which values is for the console.
use Prim.Native.Nat.{Ordering}
use Prim.Native.String.{compare}
use wwfsdb.Base.{
  ℕ, ◌+◌, String, Bool, true, false, not, ◌&&◌, Option, none, some, List, [], ◌∷◌, map, length,
  ◌==◌, if◌then◌else◌, ltb,
}
use wwfsdb.Js.Value.{
  Value, undefined, null, arr, obj, Items, nil, item, Fields, end, field, type_error, Result, ok,
  throw, items, array, own,
}
use wwfsdb.Js.Convert.{truthy, strict_eq, to_text, join}
use wwfsdb.Js.Runtime.{Runtime}
use wwfsdb.Rpc.Outcome.{bind}

-- `keys.sort()`, for keys without characters beyond the sixteen bits, whose order is that of code points.
abbrev insert_key : {A : Type 0} → String × A → List (String × A) → List (String × A)
insert_key e [] = e ∷ []
insert_key e (f ∷ fs) =
    let rest = insert_key e fs in elim (compare e.0 f.0) [ Ordering.gt ↦ f ∷ rest | _ ↦ e ∷ f ∷ fs ]

abbrev sort_keys : {A : Type 0} → List (String × A) → List (String × A)
sort_keys [] = []
sort_keys (e ∷ es) = insert_key e (sort_keys es)

abbrev key_text : {A : Type 0} → List (String × A) → String
key_text es = join "," (map (λ e. e.0) (sort_keys es))

-- `a !== b` of two lengths
abbrev pub same_length : {A B : Type 0} → List A → List B → Bool
same_length xs ys = not (ltb (length xs) (length ys)) && not (ltb (length ys) (length xs))

-- The verdicts on the keys in the order in which they are asked for: the first one that is not good ends.
abbrev all_good : List (String × Result Bool) → Result Bool
all_good [] = ok true
all_good ((key, verdict) ∷ rest) =
    let later = all_good rest in bind verdict (λ good. if good then later else ok false)

-- `findIndex` and `splice`: the list without the first value that matches, if there is one.
abbrev pub take_match : {A : Type 0} → (A → Result Bool) → List A → Result (Option (List A))
take_match test [] = ok none
take_match test (x ∷ xs) =
    let rest = take_match test xs in
    bind (test x) λ good.
      if good
      then ok (some xs)
      else bind rest (λ found. ok (elim found [ none ↦ none | some ys ↦ some (x ∷ ys) ]))

module _ (R : Runtime) where
  open R use {Num, of_ℕ, num_to_string, json_parse}

  -- `Array.isArray(data.rows) ? data.rows : data`
  abbrev rows_or_data : Value Num → Value Num
  rows_or_data parsed = elim (own "rows" parsed) [ arr vs ↦ arr vs | _ ↦ parsed ]

  abbrev parsed_or_text : Result (Value Num) → Value Num → Value Num
  parsed_or_text (ok parsed) text = rows_or_data parsed
  parsed_or_text (throw e) text = text

  -- `safeParseResult`
  unfoldable pub safe_parse_result : Value Num → Value Num
  safe_parse_result res =
      let text = own "result" (own "result" res) in
      if truthy R res && truthy R (own "result" res) && truthy R text
      then parsed_or_text (json_parse (to_text R text)) text
      else array []

  -- The keys of an array or an object with their values.
  abbrev indexed : ℕ → Items Num → List (String × Value Num)
  indexed i nil = []
  indexed i (item v vs) = (num_to_string (of_ℕ i), v) ∷ indexed (i + 1) vs

  abbrev field_entries : Fields Num → List (String × Value Num)
  field_entries end = []
  field_entries (field key v fs) = (key, v) ∷ field_entries fs

  abbrev entries : Value Num → List (String × Value Num)
  entries (arr vs) = indexed 0 vs
  entries (obj fs) = field_entries fs
  entries _ = []

  abbrev pub entry : String → List (String × Value Num) → Value Num
  entry key [] = undefined
  entry key ((k, v) ∷ es) = if k == key then v else entry key es

  -- `Object.keys(a).sort().join(',') === Object.keys(b).sort().join(',')`
  abbrev same_keys : Value Num → Value Num → Bool
  same_keys a b = key_text (entries a) == key_text (entries b)

  abbrev is_container : Value Num → Bool
  is_container (arr vs) = true
  is_container (obj fs) = true
  is_container _ = false

  unfoldable mutual
    -- `findMismatch(a, b) === null`
    pub matches : Value Num → Value Num → Result Bool
    matches (arr vs) (arr ws) =
        if same_length (items vs) (items ws) then match_items vs (items ws) else ok false
    matches (arr vs) _ = ok false
    matches (obj fs) null = throw type_error
    matches (obj fs) b =
        let verdicts = match_fields fs (entries b) in
        if is_container b && same_keys (obj fs) b then all_good (sort_keys verdicts) else ok false
    matches a b = ok (strict_eq R a b)

    -- every row of the one finds its own row in the other
    pub match_items : Items Num → List (Value Num) → Result Bool
    match_items nil bs = ok true
    match_items (item v vs) bs =
        bind (take_match (matches v) bs)
          λ found. elim found [ none ↦ ok false | some rest ↦ match_items vs rest ]

    pub match_fields : Fields Num → List (String × Value Num) → List (String × Result Bool)
    match_fields end es = []
    match_fields (field key v fs) es = (key, matches v (entry key es)) ∷ match_fields fs es

  unfoldable mutual
    -- `orderedDeepEqual(a, b)`; two parsed objects or arrays are never the same one
    pub ordered_equal : Value Num → Value Num → Bool
    ordered_equal (arr vs) (arr ws) = same_length (items vs) (items ws) && equal_items vs (items ws)
    ordered_equal (arr vs) _ = false
    ordered_equal (obj fs) b = is_container b && same_keys (obj fs) b && equal_fields fs (entries b)
    ordered_equal a b = strict_eq R a b

    pub equal_items : Items Num → List (Value Num) → Bool
    equal_items nil bs = true
    equal_items (item v vs) [] = false
    equal_items (item v vs) (b ∷ bs) = ordered_equal v b && equal_items vs bs

    pub equal_fields : Fields Num → List (String × Value Num) → Bool
    equal_fields end es = true
    equal_fields (field key v fs) es = ordered_equal v (entry key es) && equal_fields fs es
