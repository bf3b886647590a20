-- ===== src/Examples/Bank.antt =====
-- A small run time in which the examples run: three numbers, two accounts "a" and "b" on the server,
-- of which "a" belongs to the user "u".
use text.Mathlib.Text.{starts_with}
use wwfsdb.Base.{String, Bool, true, false, Option, none, some, [], ◌∷◌, ◌==◌, if◌then◌else◌}
use wwfsdb.Base.Int.{ℤ, pos, ◌+ℤ◌, ◌-ℤ◌}
use wwfsdb.Js.Value.{Value, null, num, str, axios_message, Result, ok, throw, object, array}
use wwfsdb.Js.Runtime.{Runtime}

pub data Coins : Type 0 where
  zero thirty hundred : Coins

abbrev pub amount_of : Coins → ℤ
amount_of zero = pos 0
amount_of thirty = pos 30
amount_of hundred = pos 100

abbrev pub coins_lt : Coins → Coins → Bool
coins_lt zero thirty = true
coins_lt zero hundred = true
coins_lt thirty hundred = true
coins_lt _ _ = false

abbrev pub coins_eq : Coins → Coins → Bool
coins_eq zero zero = true
coins_eq thirty thirty = true
coins_eq hundred hundred = true
coins_eq _ _ = false

abbrev pub coins_le : Coins → Coins → Bool
coins_le a b = if coins_lt a b then true else coins_eq a b

abbrev pub coins_text : Coins → String
coins_text zero = "0"
coins_text thirty = "30"
coins_text hundred = "100"

abbrev pub coins_of_text : String → Coins
coins_of_text s = if s == "30" then thirty else if s == "100" then hundred else zero

pub record Accounts : Type 0 where
  pub a : ℤ
  pub b : ℤ
  pub lenient : Bool

abbrev pub answer : String → Result (Value Coins)
answer text = ok (object (("error", null) ∷ ("result", object (("result", str text) ∷ [])) ∷ []))

abbrev pub rows : String → Result (Value Coins)
rows s =
    if s == "sender"
    then ok (array (object (("account_id", str "a") ∷ ("balance", num hundred) ∷ []) ∷ []))
    else if s == "receiver"
    then ok (array (object (("account_id", str "b") ∷ []) ∷ []))
    else ok (array [])

abbrev pub read_text : String → String
read_text query =
    if query == "SELECT * FROM accounts WHERE account_id = 'a' AND user_id = 'u'"
    then "sender"
    else if query == "SELECT account_id FROM accounts WHERE account_number = '7'"
    then "receiver"
    else "none"

abbrev pub insert_prefix : String
insert_prefix =
    "INSERT INTO transactions (transaction_id, from_account_id, to_account_id, amount, currency, "

-- The server keeps a record of a transfer unless it is lenient; only then it takes the two updates
-- that reverse the others.
abbrev pub write : String → Accounts → Result (Value Coins) × Accounts
write query s =
    if starts_with query insert_prefix
    then if s.lenient then (throw axios_message, s) else (answer "done", s)
    else if query == "UPDATE accounts SET balance = balance - 30 WHERE account_id = 'a';"
    then (answer "done", record s { a = s.a -ℤ pos 30 })
    else if query == "UPDATE accounts SET balance = balance + 30 WHERE account_id = 'b';"
    then (answer "done", record s { b = s.b +ℤ pos 30 })
    else if query == "UPDATE accounts SET balance = balance + 30 WHERE account_id = 'a';"
    then if s.lenient
      then (answer "done", record s { a = s.a +ℤ pos 30 })
      else (throw axios_message, s)
    else if query == "UPDATE accounts SET balance = balance - 30 WHERE account_id = 'b';"
    then if s.lenient
      then (answer "done", record s { b = s.b -ℤ pos 30 })
      else (throw axios_message, s)
    else (throw axios_message, s)

abbrev serve : Option String → String → Accounts → Result (Value Coins) × Accounts
serve none query s = (answer (read_text query), s)
serve (some key) query s = write query s

abbrev pub toy : Runtime
toy = record {
  Num = Coins;
  Server = Accounts;
  of_ℕ = λ n. zero;
  nan = zero;
  is_nan = λ n. false;
  num_eq = coins_eq;
  num_lt = coins_lt;
  num_le = coins_le;
  num_add = λ x y. x;
  num_sub = λ x y. x;
  num_mul = λ x y. x;
  num_div = λ x y. x;
  num_pow = λ x y. x;
  floor = λ x. x;
  parse_float = coins_of_text;
  parse_int = coins_of_text;
  number_of_text = coins_of_text;
  num_to_string = coins_text;
  first_unit = λ s. s;
  trim = λ s. s;
  json_parse = rows;
  jwt_secret_env = none;
  jwt_verify = λ s token secret.
      if token == "t" then ok (object (("userId", str "u") ∷ [])) else throw axios_message;
  jwt_sign = λ s payload secret expires. ok "t";
  bcrypt_compare = λ password hash. ok true;
  bcrypt_hash = λ password rounds s. (ok "h", s);
  uuid = λ s. ("id", s);
  now_iso = λ s. ("2025-01-31T00:00:00.000Z", s);
  random = λ s. (zero, s);
  days_ago_iso = λ n s. ("2025-01-01T00:00:00.000Z", s);
  months_later_iso = λ v n. ok "2025-03-01T00:00:00.000Z";
  post = λ q s. serve q.private_key q.query s;
}
