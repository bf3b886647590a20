-- ===== src/Pages/Beneficiaries.antt =====
-- app/(dashboard)/beneficiaries/page.tsx
pub mod Overlap
pub mod Provenance
use wwfsdb.Base.{
  String, Bool, true, false, not, Option, none, some, List, [], ◌∷◌, ◌++◌, if◌then◌else◌,
}
use wwfsdb.Js.Value.{Value, str, Result, ok, throw, object, array, get}
use wwfsdb.Js.Convert.{strict_eq, elements, length_is_zero}
use wwfsdb.Js.Runtime.{Runtime}
use wwfsdb.Rpc.Outcome.{bind}
use wwfsdb.Api.Transactions.{filter_rows}
use wwfsdb.Pages.{FetchRequest, auth_fetch, on_success, iterate}

pub record BeneficiaryForm : Type 0 where
  pub nickname : String
  pub account_number : String
  pub bank_name : String

abbrev pub empty_form : BeneficiaryForm
empty_form = record { nickname = ""; account_number = ""; bank_name = "" }

pub record BeneficiariesPage (N : Type 0) : Type 0 where
  pub beneficiaries : Value N
  pub loading : Bool
  pub dialog_open : Bool
  pub form : BeneficiaryForm

abbrev pub opened_page : {N : Type 0} → BeneficiariesPage N
opened_page = record {
  beneficiaries = array [];
  loading = true;
  dialog_open = false;
  form = empty_form;
}

-- What the page shows: a spinner, the invitation to add a first beneficiary, or one card for each.
pub data BeneficiariesView (N : Type 0) : Type 0 where
  spinner : BeneficiariesView N
  nobody_yet : BeneficiariesView N
  cards : List (Value N) → BeneficiariesView N

module _ (R : Runtime) where
  open R use {Num}

  abbrev pub list_request : Option String → FetchRequest Num
  list_request token = auth_fetch token "/api/beneficiaries" "GET" none

  abbrev pub listed : BeneficiariesPage Num → Value Num → Result (BeneficiariesPage Num)
  listed p body = bind (get "beneficiaries" body) (λ rows. ok (record p { beneficiaries = rows }))

  -- `fetchBeneficiaries` once it is answered, its `finally` included
  unfoldable pub list_answered : Result (Value Num) → BeneficiariesPage Num → BeneficiariesPage Num
  list_answered answer p = record (on_success R answer (listed p) p) { loading = false }

  abbrev pub add_request : Option String → BeneficiariesPage Num → FetchRequest Num
  add_request token seen = auth_fetch token "/api/beneficiaries" "POST" (
      some (
        object (
          ("nickname", str seen.form.nickname)
          ∷ ("account_number", str seen.form.account_number)
          ∷ ("bank_name", str seen.form.bank_name)
          ∷ [])))

  abbrev pub added : (seen p : BeneficiariesPage Num) → Value Num → Result (BeneficiariesPage Num)
  added seen p body = bind (iterate seen.beneficiaries) λ rows. bind (get "beneficiary" body) λ row.
      ok (record p {
        beneficiaries = array (rows ++ row ∷ []);
        form = empty_form;
        dialog_open = false;
      })

  -- `handleSubmit` once it is answered
  unfoldable pub add_answered :
      (seen : BeneficiariesPage Num)
      → Result (Value Num)
      → BeneficiariesPage Num
      → BeneficiariesPage Num
  add_answered seen answer p = on_success R answer (added seen p) p

  abbrev pub delete_request : Option String → Value Num → FetchRequest Num
  delete_request token id =
      auth_fetch token "/api/beneficiaries" "DELETE" (some (object (("beneficiary_id", id) ∷ [])))

  -- `b.beneficiary_id !== beneficiary_id`
  abbrev pub is_other : Value Num → Value Num → Result Bool
  is_other id row = bind (get "beneficiary_id" row) λ own_id. ok (not (strict_eq R own_id id))

  abbrev pub removed :
      (seen p : BeneficiariesPage Num) (id : Value Num) → Result (BeneficiariesPage Num)
  removed seen p id = bind (elements R seen.beneficiaries) λ rows.
      bind (filter_rows (is_other id) rows) (λ kept. ok (record p { beneficiaries = array kept }))

  -- `handleDelete` once it is answered
  unfoldable pub delete_answered :
      (seen : BeneficiariesPage Num) (id : Value Num)
      → Result (Value Num)
      → BeneficiariesPage Num
      → BeneficiariesPage Num
  delete_answered seen id answer p = on_success R answer (λ body. removed seen p id) p

  -- the render; a value that is no list ends it by an error
  unfoldable pub beneficiaries_view : BeneficiariesPage Num → Result (BeneficiariesView Num)
  beneficiaries_view p =
      if p.loading
      then ok spinner
      else bind (get "length" p.beneficiaries) λ _.
        if length_is_zero R p.beneficiaries
        then ok nobody_yet
        else bind (elements R p.beneficiaries) (λ rows. ok (cards rows))
