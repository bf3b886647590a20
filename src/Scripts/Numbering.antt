-- ===== src/Scripts/Numbering.antt =====
-- What the scripts post: whole requests, numbered in turn.
use Prim.Native.String.{◌++◌ as ◌++ₛ◌}
use wwfsdb.Base.{
  ◌≡◌, refl, subst, ℕ, ◌+◌, String, Bool, true, false, Option, none, some, List, [], ◌∷◌, ◌++◌,
  arith, if◌then◌else◌, ◌==◌, Bool-cases, Option-cases, inl, inr,
}
use wwfsdb.Js.Value.{Value, str, Exn, Result, ok, throw, object}
use wwfsdb.Js.Convert.{truthy}
use wwfsdb.Js.Runtime.{Runtime}
use wwfsdb.Js.Action.{
  World, Action, pure, raise, lift, observe, outside, outside_value, catch, log, ◌>>=◌,
}
use wwfsdb.Scripts.{
  Node, Script, post_data, query_params, post_params, send_query, sleep, update, updated_with,
  read_counters, is_signed, query_fields,
}

abbrev pub optional : {N A : Type 0} → String → (A → Value N) → Option A → List (String × Value N)
optional key f none = []
optional key f (some a) = (key, f a) ∷ []

-- The parameters of a query: texts for the database and the query, then at most a session and a
-- signature. There is no place for a key.
pub data IsParams {N : Type 0} : Value N → Type 0 where
  params :
      (db_name query : String) (session : Option (Value N)) (signature : Option String)
      → IsParams (
          object (
            ("db_name", str db_name)
            ∷ ("query", str query)
            ∷ (optional "session_id" (λ v. v) session ++ optional "signature" str signature)))

-- Requests (newest first) with the identifiers 1, 2 and so on; the next one is the number.
pub data IsNumbered (R : Runtime) : List (Value R.Num) → ℕ → Type 0 where
  none_yet : IsNumbered R [] 1
  next :
      {posted : List (Value R.Num)} {id : ℕ} {p : Value R.Num}
      → IsParams p
      → IsNumbered R posted id
      → IsNumbered R (post_data R p id ∷ posted) (id + 1)

module _ {R : Runtime} {C A : Type 0} where
  -- What is posted stays numbered over `m`, whether `m` returns or throws.
  pub record Numbers (m : Action (Script R C) A) : Type 0 where
    pub at :
        (w : World (Script R C))
        → IsNumbered R w.server.posted w.server.request_id
        → IsNumbered R (m w).1.server.posted (m w).1.server.request_id

  pub Numbers-pure : (a : A) → Numbers (pure a)
  unfolding pure
  Numbers-pure a = record { at = λ w h. h }

  pub Numbers-raise : (e : Exn) → Numbers (raise e)
  unfolding raise
  Numbers-raise e = record { at = λ w h. h }

  pub Numbers-lift : (r : Result A) → Numbers (lift r)
  unfolding lift
  Numbers-lift r = record { at = λ w h. h }

  pub Numbers-read : (f : C → A) → Numbers (read_counters f)
  unfolding read_counters observe
  Numbers-read f = record { at = λ w h. h }

  pub Numbers-if :
      (b : Bool) (m k : Action (Script R C) A)
      → Numbers m
      → Numbers k
      → Numbers (if b then m else k)
  Numbers-if true m k nm nk = nm
  Numbers-if false m k nm nk = nk

  pub Numbers-catch :
      (m : Action (Script R C) A) (h : Exn → Action (Script R C) A)
      → Numbers m
      → ((e : Exn) → Numbers (h e))
      → Numbers (catch m h)
  unfolding catch lift
  Numbers-catch m h nm nh = record { at = λ w p. let (r, w') = m w in go r w' (nm.at w p) }
    where
      go :
          (r : Result A) (w : World (Script R C))
          → IsNumbered R w.server.posted w.server.request_id
          → IsNumbered R
              (catch (lift r) h w).1.server.posted
              (catch (lift r) h w).1.server.request_id
      go (ok a) w p = p
      go (throw e) w p = (nh e).at w p

module _ {R : Runtime} {C A B : Type 0} where
  pub Numbers-bind :
      (m : Action (Script R C) A) (f : A → Action (Script R C) B)
      → Numbers m
      → ((a : A) → Numbers (f a))
      → Numbers (m >>= f)
  unfolding ◌>>=◌
  Numbers-bind m f nm nf = record { at = λ w p. let (r, w') = m w in go r w' (nm.at w p) }
    where
      go :
          (r : Result A) (w : World (Script R C))
          → IsNumbered R w.server.posted w.server.request_id
          → IsNumbered R ((lift r >>= f) w).1.server.posted ((lift r >>= f) w).1.server.request_id
      go (ok a) w p = (nf a).at w p
      go (throw e) w p = p

module _ {R : Runtime} {C : Type 0} where
  pub Numbers-update : (f : C → Result C) → Numbers {R = R} (update f)
  unfolding update outside
  Numbers-update f = record { at = λ w h. go w.server (f w.server.counters) h }
    where
      go :
          (s : Script R C) (r : Result C)
          → IsNumbered R s.posted s.request_id
          → IsNumbered R (updated_with s r).1.posted (updated_with s r).1.request_id
      go s (ok c) h = h
      go s (throw e) h = h

  pub Numbers-log : (tag : String) → Numbers {R = R} {C = C} (log tag)
  unfolding log
  Numbers-log tag = record { at = λ w h. h }

module _ {R : Runtime} (N : Node R) where
  open R use {Num}

  query_fields-IsParams :
      (db_name query : String) (session : Value Num) (signature : Option String)
      → IsParams
          (object (query_fields N db_name query session (optional "signature" str signature)))
  query_fields-IsParams db_name query session signature = elim (Bool-cases (truthy R session)) [
    | inl e ↦ rw e (params db_name query (some session) signature)
    | inr e ↦ rw e (params db_name query none signature)
  ]

  -- The parameters of a query that could be signed, where it had to be.
  pub query_params-eq-ok :
      (db_name query : String) (session key : Value Num) {p : Value Num}
      → query_params N db_name query session key ≡ ok p
      → (signature : Option String) × (object
            (query_fields N db_name query session (optional "signature" str signature))
          ≡ p)
  unfolding query_params
  query_params-eq-ok db_name query session key {p} h = elim (Bool-cases (is_signed N query key)) [
    | inr e ↦ let m = rw e at h in (none, ground arith)
    | inl e ↦ elim (Option-cases (N.sign_with key (db_name ++ₛ ":" ++ₛ query))) [
      | inl n ↦ absurd (let m = rw (e, n) at h in ground arith)
      | inr (signature, s) ↦ elim (Bool-cases (signature == "")) [
        | inl b ↦ absurd (let m = rw (e, s, b) at h in ground arith)
        | inr b ↦ let m = rw (e, s, b) at h in (some signature, ground arith)
      ]
    ]
  ]

  query_params-IsParams :
      (db_name query : String) (session key : Value Num) {p : Value Num}
      → query_params N db_name query session key ≡ ok p
      → IsParams p
  query_params-IsParams db_name query session key h =
      let (signature, same) = query_params-eq-ok db_name query session key h in
      subst IsParams same (query_fields-IsParams db_name query session signature)

  module _ {C : Type 0} where
    pub Numbers-post : (p : Value Num) → IsParams p → Numbers {R = R} {C = C} (post_params N p)
    unfolding post_params outside
    Numbers-post p is = record { at = λ w h. next is h }

    pub Numbers-send :
        (db_name query : String) (session key : Value Num)
        → Numbers {R = R} {C = C} (send_query N db_name query session key)
    unfolding send_query ◌>>=◌
    Numbers-send db_name query session key = record {
      at = λ w h.
          go w (query_params N db_name query session key)
            (λ p e. query_params-IsParams db_name query session key e) h;
    }
      where
        go :
            (w : World (Script R C)) (r : Result (Value Num))
            → ((p : Value Num) → r ≡ ok p → IsParams p)
            → IsNumbered R w.server.posted w.server.request_id
            → IsNumbered R
                ((lift r >>= post_params N) w).1.server.posted
                ((lift r >>= post_params N) w).1.server.request_id
        go w (ok p) is h = (Numbers-post p (is p refl)).at w h
        go w (throw e) is h = h

    pub Numbers-sleep : (n : ℕ) → Numbers {R = R} {C = C} (sleep N n)
    unfolding sleep outside_value
    Numbers-sleep n = record { at = λ w h. h }

pub ruleset numbers_rules = (
  Numbers-pure, Numbers-raise, Numbers-lift, Numbers-read, Numbers-if, Numbers-catch, Numbers-bind,
  Numbers-update, Numbers-log, Numbers-send, Numbers-sleep,
)
