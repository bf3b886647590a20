-- ===== src/Js/Value.antt =====
-- JavaScript values as they come out of `JSON.parse` and `request.json()`, over an abstract type of
-- numbers, with property access, truthiness and object literals.
use wwfsdb.Base.{String, Bool, true, false, ◌==◌, List, [], ◌∷◌, if◌then◌else◌}

mutual
  pub data Value (N : Type 0) : Type 0 where
    undefined : Value N
    null : Value N
    bool : Bool → Value N
    num : N → Value N
    str : String → Value N
    arr : Items N → Value N
    obj : Fields N → Value N

  pub data Items (N : Type 0) : Type 0 where
    nil : Items N
    item : Value N → Items N → Items N

  pub data Fields (N : Type 0) : Type 0 where
    end : Fields N
    field : String → Value N → Fields N → Fields N

-- What a `throw` carries: the engine's own errors, `new Error(message)`, the three kinds of axios
-- errors (the server answered with a failure, it did not answer, the request was not made), and the
-- rejections of the other packages.
pub data Exn : Type 0 where
  type_error : Exn
  syntax_error : Exn
  error : String → Exn
  axios_response : Exn
  axios_request : Exn
  axios_message : Exn
  package_error : Exn

pub data Result {ℓ} (A : Type ℓ) : Type ℓ where
  ok : A → Result A
  throw : Exn → Result A

module _ {N : Type 0} where
  abbrev pub items : Items N → List (Value N)
  items nil = []
  items (item v vs) = v ∷ items vs

  abbrev pub array_items : List (Value N) → Items N
  array_items [] = nil
  array_items (v ∷ vs) = item v (array_items vs)

  -- An array literal.
  abbrev pub array : List (Value N) → Value N
  array vs = arr (array_items vs)

  abbrev pub object_fields : List (String × Value N) → Fields N
  object_fields [] = end
  object_fields ((k, v) ∷ fs) = field k v (object_fields fs)

  -- An object literal with distinct keys.
  abbrev pub object : List (String × Value N) → Value N
  object fs = obj (object_fields fs)

  -- An own property, or `undefined`.
  abbrev pub get_field : String → Fields N → Value N
  get_field key end = undefined
  get_field key (field k v fs) = if k == key then v else get_field key fs

  abbrev pub has_field : String → Fields N → Bool
  has_field key end = false
  has_field key (field k v fs) = if k == key then true else has_field key fs

  -- `o.key = v`: in place if the key is there, else at the end.
  abbrev pub set_field : String → Value N → Fields N → Fields N
  set_field key v end = field key v end
  set_field key v (field k w fs) = if k == key then field k v fs else field k w (set_field key v fs)

  -- `delete o.key`
  abbrev pub delete_field : String → Fields N → Fields N
  delete_field key end = end
  delete_field key (field k v fs) =
      if k == key then delete_field key fs else field k v (delete_field key fs)

  -- `Object.keys(o)` of an object.
  abbrev pub keys : Fields N → List String
  keys end = []
  keys (field k v fs) = k ∷ keys fs

  -- `{ ...v }` where `v` is an object, and for a value with no own properties. A spread of an array
  -- or a text would list its indices; no caller has one.
  abbrev pub spread : Value N → Fields N
  spread (obj fs) = fs
  spread _ = end

  -- `typeof v === "string"` and `typeof v === "undefined"`.
  abbrev pub is_string : Value N → Bool
  is_string (str s) = true
  is_string _ = false

  abbrev pub is_undefined : Value N → Bool
  is_undefined undefined = true
  is_undefined _ = false

  -- `v.key` for a key that is no built-in member: `undefined` and `null` throw.
  abbrev pub get : String → Value N → Result (Value N)
  get key undefined = throw type_error
  get key null = throw type_error
  get key (obj fs) = ok (get_field key fs)
  get key _ = ok undefined

-- `v.key` of a value that is not `undefined` or `null`.
abbrev pub own : {N : Type 0} → String → Value N → Value N
own key (obj fs) = get_field key fs
own key _ = undefined

-- `xs.map(f)` for an `f` that may throw: it stops at the first throw.
abbrev pub traverse : {A B : Type 0} → (A → Result B) → List A → Result (List B)
traverse f [] = ok []
traverse f (x ∷ xs) = elim (f x) [
  | throw e ↦ throw e
  | ok y ↦ elim (traverse f xs) [ throw e ↦ throw e | ok ys ↦ ok (y ∷ ys) ]
]
