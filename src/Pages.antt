-- ===== src/Pages.antt =====
-- The client side of the banking application: app/(auth) and app/(dashboard). A page is a record of its
-- React states and functions for its handlers. A handler that awaits `fetch` is two functions: the
-- request that it sends, and what it does when the answer is there. The second one has the page of the
-- render that made the handler, `seen`, beside the page as it is then: a handler's closure reads the
-- former, and its `set…` calls write the latter.
pub mod Settling
pub mod Beneficiaries
pub mod Support
pub mod Profile
pub mod Login
pub mod Register
pub mod Transfer
pub mod Accounts
pub mod Cards
pub mod Loans
pub mod Transactions
pub mod Dashboard
pub mod Display
pub mod Navigation
use wwfsdb.Base.{String, Bool, true, false, Option, none, some, List, [], ◌∷◌, map, if◌then◌else◌}
use wwfsdb.Js.Value.{Value, str, arr, Result, ok, throw, type_error, items, get}
use wwfsdb.Js.Convert.{truthy}
use wwfsdb.Js.Runtime.{Runtime}
use wwfsdb.Rpc.Outcome.{bind}
use wwfsdb.Auth.{auth_header}

-- A call of `fetch`, with the `Authorization` header and the value whose JSON text is the body. Where
-- setting the header has thrown, the call is not made.
pub record FetchRequest (N : Type 0) : Type 0 where
  pub url : String
  pub method : String
  pub authorization : Result (Option String)
  pub body : Option (Value N)

-- `authFetch(url, { method, body: JSON.stringify(body) })`; `token` is what `localStorage` holds.
abbrev pub auth_fetch :
    {N : Type 0} → Option String → String → String → Option (Value N) → FetchRequest N
auth_fetch token url method body = record {
  url = url;
  method = method;
  authorization = auth_header token;
  body = body;
}

-- `try { page = r } catch (error) { console.error(…) }`
abbrev pub settle : {P : Type 0} → Result P → P → P
settle (ok p') p = p'
settle (throw e) p = p

-- The characters of a text, as its iterator gives them.
abbrev pub characters : {N : Type 0} → String → List (Value N)
characters String.[] = []
characters (String.◌∷◌ c s) = str (String.◌∷◌ c String.[]) ∷ characters s

-- `[...v]`
abbrev pub iterate : {N : Type 0} → Value N → Result (List (Value N))
iterate (arr vs) = ok (items vs)
iterate (str s) = ok (characters s)
iterate _ = throw type_error

module _ (R : Runtime) where
  open R use {Num}

  -- `const data = await response.json(); if (data.success) { … }` inside `try`, for a block that reads
  -- all it needs before it sets a state
  unfoldable pub on_success : {P : Type 0} → Result (Value Num) → (Value Num → Result P) → P → P
  on_success answer changed p =
      settle
        (bind answer λ body.
          bind (get "success" body) λ success. if truthy R success then changed body else ok p)
        p
