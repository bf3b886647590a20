-- ===== src/Js/Runtime.antt =====
-- What the application uses and this repository does not hold: numbers (IEEE doubles), and the
-- packages jsonwebtoken, bcryptjs, uuid and axios, the clock and `Math.random`. `Server` is the
-- state of everything outside the process: the RPC server with its databases, other clients, the
-- clock and the random source.
use wwfsdb.Base.{ℕ, String, Bool, Option}
use wwfsdb.Js.Value.{Value, Result}

-- One call `axios.post(RPC_SERVER_URL, { method, params: [{ db_name, query, private_key }], id })`;
-- `private_key` is absent from a read.
pub record RpcRequest : Type 0 where
  pub url : String
  pub method : String
  pub db_name : String
  pub query : String
  pub private_key : Option String
  pub id : ℕ

pub record Runtime : Type 1 where
  pub Num : Type 0
  pub Server : Type 0
  -- numbers
  pub of_ℕ : ℕ → Num
  pub nan : Num
  pub is_nan : Num → Bool
  pub num_eq : Num → Num → Bool
  pub num_lt : Num → Num → Bool
  pub num_le : Num → Num → Bool
  pub num_add : Num → Num → Num
  pub num_sub : Num → Num → Num
  pub num_mul : Num → Num → Num
  pub num_div : Num → Num → Num
  pub num_pow : Num → Num → Num
  pub floor : Num → Num
  -- `parseFloat`, `parseInt` and `Number` of a text; `Number.prototype.toString`
  pub parse_float : String → Num
  pub parse_int : String → Num
  pub number_of_text : String → Num
  pub num_to_string : Num → String
  -- `s[0]` of a text that is not empty
  pub first_unit : String → String
  -- `s.trim()`
  pub trim : String → String
  -- `JSON.parse` of a text
  pub json_parse : String → Result (Value Num)
  -- `process.env.JWT_SECRET`
  pub jwt_secret_env : Option String
  -- `jwt.verify(token, secret)` looks at the clock; `jwt.sign(payload, secret, { expiresIn })`
  pub jwt_verify : Server → String → String → Result (Value Num)
  pub jwt_sign : Server → Value Num → String → String → Result String
  -- `bcrypt.compare(password, hash)` and `bcrypt.hash(password, rounds)`
  pub bcrypt_compare : Value Num → Value Num → Result Bool
  pub bcrypt_hash : Value Num → ℕ → Server → Result String × Server
  -- `uuidv4()`, `new Date().toISOString()`, `Math.random()`
  pub uuid : Server → String × Server
  pub now_iso : Server → String × Server
  pub random : Server → Num × Server
  -- `d.setDate(d.getDate() - days); d.toISOString()` for `d = new Date()`
  pub days_ago_iso : ℕ → Server → String × Server
  -- `d.setMonth(d.getMonth() + months)`, then `toISOString()`, for `d = new Date(v)`; the latter
  -- throws if `v` is no date
  pub months_later_iso : Value Num → ℕ → Result String
  -- `axios.post`: the `data` of the response, or a rejection
  pub post : RpcRequest → Server → Result (Value Num) × Server
