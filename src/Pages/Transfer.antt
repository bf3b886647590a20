-- ===== src/Pages/Transfer.antt =====
-- app/(dashboard)/transfer/page.tsx
pub mod Outcome
use wwfsdb.Base.{ℕ, ◌+◌, String, Bool, true, false, Option, some, [], ◌∷◌, if◌then◌else◌}
use wwfsdb.Js.Value.{Value, str, Result, ok, throw, object, array, get}
use wwfsdb.Js.Convert.{truthy, or_else}
use wwfsdb.Js.Runtime.{Runtime}
use wwfsdb.Rpc.Outcome.{bind}
use wwfsdb.Pages.{FetchRequest, auth_fetch}
use wwfsdb.Pages.Login.{Browser}

-- The fields as the inputs hold them; a beneficiary's account number is what the server gave.
pub record TransferForm (N : Type 0) : Type 0 where
  pub from_account_id : Value N
  pub to_account_number : Value N
  pub amount : String
  pub description : String

-- `redirects` counts the timers of two seconds that will call `router.push`.
pub record TransferPage (N : Type 0) : Type 0 where
  pub accounts : Value N
  pub beneficiaries : Value N
  pub loading : Bool
  pub success : Bool
  pub error : Value N
  pub form : TransferForm N
  pub redirects : ℕ

abbrev pub opened_transfer : {N : Type 0} → TransferPage N
opened_transfer = record {
  accounts = array [];
  beneficiaries = array [];
  loading = false;
  success = false;
  error = str "";
  form = record {
    from_account_id = str "";
    to_account_number = str "";
    amount = "";
    description = "";
  };
  redirects = 0;
}

module _ (R : Runtime) where
  open R use {Num}

  abbrev pub accounts_fetched : Value Num → TransferPage Num → Result (TransferPage Num)
  accounts_fetched body p = bind (get "success" body) λ success.
      if truthy R success
      then bind (get "accounts" body) (λ rows. ok (record p { accounts = rows }))
      else ok p

  abbrev pub beneficiaries_fetched : Value Num → TransferPage Num → Result (TransferPage Num)
  beneficiaries_fetched body p = bind (get "success" body) λ success.
      if truthy R success
      then bind (get "beneficiaries" body) (λ rows. ok (record p { beneficiaries = rows }))
      else ok p

  -- `fetchData` once both are answered: an error between the two keeps what was set before it
  unfoldable pub transfer_fetched :
      (accounts beneficiaries : Result (Value Num)) → TransferPage Num → TransferPage Num
  transfer_fetched (throw e) beneficiaries p = p
  transfer_fetched (ok a) (throw e) p = p
  transfer_fetched (ok a) (ok b) p = elim (accounts_fetched a p) [
    | throw e ↦ p
    | ok p' ↦ elim (beneficiaries_fetched b p') [ throw e ↦ p' | ok p'' ↦ p'' ]
  ]

  -- `handleSubmit` up to its request
  unfoldable pub transfer_sent : TransferPage Num → TransferPage Num
  transfer_sent p = record p { loading = true; error = str "" }

  abbrev pub transfer_request : Option String → (seen : TransferPage Num) → FetchRequest Num
  transfer_request token seen = auth_fetch token "/api/transfer" "POST" (
      some (
        object (
          ("from_account_id", seen.form.from_account_id)
          ∷ ("to_account_number", seen.form.to_account_number)
          ∷ ("amount", str seen.form.amount)
          ∷ ("description", str seen.form.description)
          ∷ [])))

  -- What the form shows for the answer.
  abbrev pub transfer_result : Value Num → TransferPage Num → Result (TransferPage Num)
  transfer_result body p = bind (get "success" body) λ success.
      if truthy R success
      then ok (record p { success = true; redirects = p.redirects + 1 })
      else bind (get "message" body)
          λ message. ok (record p { error = or_else R message (str "Transfer failed") })

  -- `handleSubmit` once it is answered, its `finally` included
  unfoldable pub transfer_answered : Result (Value Num) → TransferPage Num → TransferPage Num
  transfer_answered answer p = elim (bind answer (λ body. transfer_result body p)) [
    | ok p' ↦ record p' { loading = false }
    | throw e ↦ record p { error = str "An error occurred. Please try again."; loading = false }
  ]

  -- `selectBeneficiary`; the render that offered a beneficiary has read its account number
  unfoldable pub select_beneficiary :
      (seen : TransferPage Num) (account_number : Value Num) → TransferPage Num → TransferPage Num
  select_beneficiary seen account_number p = record p {
    form = record seen.form { to_account_number = account_number };
  }

-- The callback of `setTimeout`, and the button of the page that a success shows.
unfoldable pub redirect : Browser → Browser
redirect b = record b { pushed = "/transactions" ∷ b.pushed }
