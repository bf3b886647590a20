-- ===== src/Scripts/Counts.antt =====
-- What the checks of the test script add up to.
use wwfsdb.Base.{
  ◌≡◌, ap, ◌∙◌, ℕ, ◌+◌, String, Bool, true, false, List, [], ◌∷◌, length, arith, Bool-cases, inl,
  inr,
}
use wwfsdb.Js.Value.{Value, Result, ok, throw, get}
use wwfsdb.Js.Convert.{truthy}
use wwfsdb.Js.Runtime.{Runtime}
use wwfsdb.Rpc.Outcome.{bind}
use wwfsdb.Api.Transactions.Filtering.{Result-cases}
use wwfsdb.Scripts.{TestState}
use wwfsdb.Scripts.Compare.{matches, safe_parse_result}
use wwfsdb.Scripts.Checks.{
  count, query_result_checked, ordered_result_checked, command_success_checked,
  command_failure_checked,
}

-- A check and the answer that its query gets.
pub data Check (N : Type 0) : Type 0 where
  query_result ordered_result : Value N → Result (Value N) → Check N
  command_success : String → Result (Value N) → Check N
  command_failure : Result (Value N) → Check N

module _ (R : Runtime) (upper : String → String) where
  open R use {Num}

  abbrev pub checked : Check Num → TestState Num → Result (TestState Num)
  checked (query_result expected answer) = query_result_checked R upper expected answer
  checked (ordered_result expected answer) = ordered_result_checked R upper expected answer
  checked (command_success query answer) = command_success_checked R upper query answer
  checked (command_failure answer) = command_failure_checked R upper answer

  -- One check after the other, until one throws.
  abbrev pub run_checks : List (Check Num) → TestState Num → Result (TestState Num)
  run_checks [] s = ok s
  run_checks (c ∷ cs) s = bind (checked c s) (run_checks cs)

  -- The checks that were counted.
  abbrev pub total : TestState Num → ℕ
  total s = s.passed + s.failed

  count-total : (b : Bool) (s : TestState Num) → total (count b s) ≡ total s + 1
  count-total true s = omega arith
  count-total false s = omega arith

  -- One check more, as passed or as failed.
  abbrev Counted : TestState Num → TestState Num → Type 0
  Counted s s' = (b : Bool) × (s' ≡ count b s)

  counted :
      {B : Type 0} (r : Result B) (f : B → Result (TestState Num)) (s : TestState Num)
      {s' : TestState Num}
      → ((b : B) (t : TestState Num) → f b ≡ ok t → Counted s t)
      → bind r f ≡ ok s'
      → Counted s s'
  counted (ok b) f s {s'} h e = h b s' e
  counted (throw x) f s h e = absurd (ground arith)

  counts :
      (b : Bool) (s : TestState Num) {s' : TestState Num} → ok (count b s) ≡ ok s' → Counted s s'
  counts b s e = (b, ground arith)

  pub checked-Counted :
      (c : Check Num) (s : TestState Num) {s' : TestState Num} → checked c s ≡ ok s' → Counted s s'
  unfolding query_result_checked ordered_result_checked command_success_checked
      command_failure_checked
  checked-Counted (query_result expected answer) s e =
      counted answer _ s
        (λ res t k.
          counted (get "error" res) _ s
            (λ err t j. elim (Bool-cases (truthy R err)) [
              | inl bad ↦ counts false s (let m = rw bad at j in m)
              | inr good ↦
                  counted (matches R (safe_parse_result R res) expected) _ s
                    (λ verdict t i. counts verdict s i) (let m = rw good at j in m)
            ])
            k)
        e
  checked-Counted (ordered_result expected answer) s e =
      counted answer _ s
        (λ res t k.
          counted (get "error" res) _ s
            (λ err t j. elim (Bool-cases (truthy R err)) [
              | inl bad ↦ counts false s (let m = rw bad at j in m)
              | inr good ↦ counts _ s (let m = rw good at j in m)
            ])
            k)
        e
  checked-Counted (command_success query answer) s e =
      counted answer _ s (λ res t k. counted (get "error" res) _ s (λ err t j. counts _ s j) k) e
  checked-Counted (command_failure answer) s e =
      counted answer _ s (λ res t k. counted (get "error" res) _ s (λ err t j. counts _ s j) k) e

  checked-total :
      (c : Check Num) (s : TestState Num) {s' : TestState Num}
      → checked c s ≡ ok s'
      → total s' ≡ total s + 1
  checked-total c s e = let (b, same) = checked-Counted c s e in ap total same ∙ count-total b s

-- When a course of checks ends without a throw, each of them has been counted exactly once, as passed or
-- as failed.
pub run_checks-total :
    (R : Runtime) (upper : String → String) (cs : List (Check R.Num)) (s s' : TestState R.Num)
    → run_checks R upper cs s ≡ ok s'
    → s'.passed + s'.failed ≡ s.passed + s.failed + length cs
run_checks-total R upper [] s s' e =
    let same : s ≡ s' = ground arith in omega (arith, ap (total R upper) same)
run_checks-total R upper (c ∷ cs) s s' e = elim (Result-cases (checked R upper c s)) [
  | inr (x, p) ↦ absurd (let m = rw p at e in ground arith)
  | inl (t, p) ↦
      let rest = run_checks-total R upper cs t s' (let m = rw p at e in m) in
      omega (arith, rest, checked-total R upper c s p)
]
