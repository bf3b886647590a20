-- ===== src/Examples/Pages.antt =====
-- The pages at concrete inputs.
use wwfsdb.Base.{
  ◌≡◌, ◌≢◌, refl, sym, subst, true, false, ◌&&◌, ◌==◌, String, List, [], ◌∷◌, filter, some, arith,
}
use wwfsdb.Base.Int.{pos}
use wwfsdb.Js.Value.{
  Value, undefined, bool, str, Fields, ok, get, object, object_fields, array, own,
}
use wwfsdb.Js.Convert.{to_text}
use wwfsdb.Js.Runtime.{Runtime}
use wwfsdb.Js.Action.{World, axios_post, ◌>>=◌}
use wwfsdb.Http.{Request, Response}
use wwfsdb.Auth.{get_user_id_from_request, bearer_token}
use wwfsdb.Auth.Token.{user_of}
use wwfsdb.Rpc.{execute_write_query, write_request}
use wwfsdb.Api.Guard.{with_user, try_or_500}
use wwfsdb.Api.Profile.{profile_put}
use wwfsdb.Pages.Beneficiaries.{BeneficiariesPage, opened_page, empty_form, delete_answered}
use wwfsdb.Pages.Beneficiaries.Overlap.{HasId, stays, delete_answered_twice}
use wwfsdb.Pages.Beneficiaries.Provenance.{
  Trusted, answered, Tab, Reach, here, next, answer, listing, mounted, IsGenuine, Reach-IsGenuine,
}
use wwfsdb.Pages.Profile.{ProfilePage, opened_profile, setting_answered, get_setting, save_answered}
use wwfsdb.Pages.Profile.Saving.{rows_of, is_listed, get_setting-setting_answered}
use wwfsdb.Pages.Profile.Refreshed.{IsAsked, save_answered-profile_put}
use wwfsdb.Pages.Transactions.{TransactionsPage, filter_effect}
use wwfsdb.Pages.Transactions.Filters.{passes_type, passes_query, filter_effect-filter}
use wwfsdb.Examples.Bank.{Coins, Accounts, toy, answer as answer_text}

abbrev beneficiary : String → Value Coins
beneficiary id = object (("beneficiary_id", str id) ∷ [])

abbrev both : List (Value Coins)
both = beneficiary "a" ∷ beneficiary "b" ∷ []

abbrev listing_page : BeneficiariesPage Coins
listing_page = record {
  beneficiaries = array both;
  loading = false;
  dialog_open = false;
  form = empty_form;
}

abbrev done : Value Coins
done = object (("success", bool true) ∷ [])

delete_answered_twice_example :
    ((delete_answered toy
        (delete_answered toy listing_page (str "a") (ok done) listing_page)
        (str "b")
        (ok done)
        (delete_answered toy listing_page (str "a") (ok done) listing_page)).beneficiaries
      ≡ array (filter (stays toy (str "b")) (filter (stays toy (str "a")) both)))
    × ((delete_answered toy listing_page
          (str "b")
          (ok done)
          (delete_answered toy listing_page (str "a") (ok done) listing_page)).beneficiaries
        ≡ array (filter (stays toy (str "b")) both))
delete_answered_twice_example =
    delete_answered_twice toy listing_page (str "a") (str "b") done done both refl
      ((str "a", refl), ((str "b", refl), tt)) (bool true, refl, refl) (bool true, refl, refl)

-- A setting of notifications that is on.
abbrev setting : Fields Coins
setting = object_fields (("setting_name", str "sms") ∷ ("setting_value", str "true") ∷ [])

abbrev profile_page : ProfilePage Coins
profile_page = record opened_profile { settings = array (rows_of toy (setting ∷ [])) }

get_setting-setting_answered_example :
    (get_setting toy (setting_answered toy profile_page "sms" "false" (ok tt) profile_page) "sms"
      ≡ ok (is_listed toy "sms" (setting ∷ []) && ("false" == "true")))
    × ((other : String)
        → other ≢ "sms"
        → get_setting toy
            (setting_answered toy profile_page "sms" "false" (ok tt) profile_page)
            other
          ≡ get_setting toy profile_page other)
get_setting-setting_answered_example =
    get_setting-setting_answered toy profile_page profile_page "sms" "false" (setting ∷ []) refl

abbrev transaction : (type description : String) → Value Coins
transaction type description =
    object (("transaction_type", str type) ∷ ("description", str description) ∷ [])

abbrev history : List (Value Coins)
history = transaction "Transfer" "rent" ∷ transaction "Deposit" "salary" ∷ []

abbrev searched : TransactionsPage Coins
searched = record {
  transactions = array history;
  filtered_transactions = array [];
  loading = false;
  search_query = "rent";
  filter_type = "Transfer";
}

filtered_rows :
    filter_effect toy (λ s. s) searched
    ≡ ok (record searched {
      filtered_transactions = array (
          filter
            (λ t. passes_type toy (λ s. s) "Transfer" t && passes_query toy (λ s. s) "rent" t)
            history);
    })
filtered_rows =
    filter_effect-filter toy (λ s. s) searched history refl
      (("Transfer", "rent", refl, refl), (("Deposit", "salary", refl, refl), tt))

abbrev listed_answer : Value Coins
listed_answer = object (("success", bool true) ∷ ("beneficiaries", array both) ∷ [])

-- The answer to the first call has rows with identifiers.
trusted : Trusted toy (HasId toy) listing (ok listed_answer)
trusted body v e _ f =
    let same : listed_answer ≡ body = ground arith in
    let value : ok (array both) ≡ ok v = subst (λ b. get "beneficiaries" b ≡ ok v) (sym same) f in
    let rows : array both ≡ v = ground arith in
    (both, sym rows, ((str "a", refl), ((str "b", refl), tt)))

abbrev fetched : Tab toy
fetched = record { page = answered toy listing (ok listed_answer) opened_page; pending = [] }

fetched-Reach : Reach toy (HasId toy) (mounted toy) fetched
fetched-Reach = next here (answer (mounted toy) [] [] listing (ok listed_answer) refl trusted)

Reach-IsGenuine_example : IsGenuine toy (HasId toy) fetched
Reach-IsGenuine_example = Reach-IsGenuine fetched-Reach

-- A server that takes every statement.
abbrev willing : Runtime
willing = record toy { post = λ q s. (answer_text "done", s) }

abbrev start : World Accounts
start = record {
  server = record { a = pos 100; b = pos 5; lenient = false };
  sent = [];
  console = [];
}

abbrev change_of_name : Request Coins
change_of_name = record {
  authorization = some "Bearer t";
  body = ok (object (("full_name", str "Ann") ∷ []));
  loan_id = "";
}

changed :
    (r : Response Coins) × ((profile_put willing change_of_name start).0 ≡ ok r) × (r.status ≡ 200)
unfolding profile_put with_user try_or_500 get_user_id_from_request bearer_token execute_write_query
    axios_post to_text write_request ◌>>=◌
changed = (_, refl, refl)

save_answered-profile_put_example :
    ((save_answered willing (ok changed.0.body) opened_profile).editing ≡ false)
    × ((save_answered willing (ok changed.0.body) opened_profile).profile
        ≡ own "profile" changed.0.body)
    × IsAsked willing change_of_name (own "profile" changed.0.body)
    × (own "user_id" (save_answered willing (ok changed.0.body) opened_profile).profile
        ≡ user_of willing start.server change_of_name)
    × (own "username" (save_answered willing (ok changed.0.body) opened_profile).profile
        ≡ undefined)
    × (own "created_at" (save_answered willing (ok changed.0.body) opened_profile).profile
        ≡ undefined)
save_answered-profile_put_example =
    save_answered-profile_put willing change_of_name start changed.0 opened_profile changed.1
      changed.2
