-- ===== src/Pages/Profile.antt =====
-- app/(dashboard)/profile/page.tsx
pub mod Saving
pub mod Refreshed
use wwfsdb.Base.{String, Bool, true, false, not, Option, none, some, List, [], ◌∷◌, if◌then◌else◌}
use wwfsdb.Js.Value.{
  Value, null, str, obj, Result, ok, throw, object, array, get, traverse, set_field, spread,
}
use wwfsdb.Js.Convert.{truthy, strict_eq, elements}
use wwfsdb.Js.Runtime.{Runtime}
use wwfsdb.Rpc.Outcome.{bind}
use wwfsdb.Pages.{FetchRequest, auth_fetch, on_success, settle}
use wwfsdb.Pages.Login.{Browser}

pub record ProfileForm (N : Type 0) : Type 0 where
  pub full_name : Value N
  pub email : Value N
  pub phone_number : Value N
  pub address : Value N

pub record ProfilePage (N : Type 0) : Type 0 where
  pub profile : Value N
  pub security_logs : Value N
  pub settings : Value N
  pub loading : Bool
  pub editing : Bool
  pub form : ProfileForm N

abbrev pub opened_profile : {N : Type 0} → ProfilePage N
opened_profile = record {
  profile = null;
  security_logs = array [];
  settings = array [];
  loading = true;
  editing = false;
  form = record { full_name = str ""; email = str ""; phone_number = str ""; address = str "" };
}

-- A block that sets states one after the other, and may throw between them.
pub data Progress (P : Type 0) : Type 0 where
  going : P → Progress P
  stopped : P → Progress P

abbrev pub and_then : {P : Type 0} → Progress P → (P → Progress P) → Progress P
and_then (going p) f = f p
and_then (stopped p) f = stopped p

abbrev pub reached : {P : Type 0} → Progress P → P
reached (going p) = p
reached (stopped p) = p

-- `set(r)`: what is thrown while `r` is found sets nothing.
abbrev pub set_or_stop : {P : Type 0} → Result P → P → Progress P
set_or_stop (ok p') p = going p'
set_or_stop (throw e) p = stopped p

module _ (R : Runtime) where
  open R use {Num}

  -- `setFormData({ full_name: profile.full_name, … })`
  abbrev pub form_of : Value Num → Result (ProfileForm Num)
  form_of profile = bind (get "full_name" profile) λ full_name. bind (get "email" profile) λ email.
      bind (get "phone_number" profile) λ phone_number. bind (get "address" profile) λ address.
        ok (record {
          full_name = full_name;
          email = email;
          phone_number = phone_number;
          address = address;
        })

  -- `if (data.success) …`, where reading `success` may stop the block
  abbrev pub when_success :
      Value Num
      → (ProfilePage Num → Progress (ProfilePage Num))
      → ProfilePage Num
      → Progress (ProfilePage Num)
  when_success body f p = elim (get "success" body) [
    | throw e ↦ stopped p
    | ok success ↦ if truthy R success then f p else going p
  ]

  abbrev pub set_profile : Value Num → ProfilePage Num → Progress (ProfilePage Num)
  set_profile body p =
      and_then (set_or_stop (bind (get "profile" body) (λ v. ok (record p { profile = v }))) p)
        λ p'. set_or_stop (bind (form_of p'.profile) (λ form. ok (record p' { form = form }))) p'

  abbrev pub set_logs : Value Num → ProfilePage Num → Progress (ProfilePage Num)
  set_logs body p =
      set_or_stop (bind (get "logs" body) (λ v. ok (record p { security_logs = v }))) p

  abbrev pub set_settings : Value Num → ProfilePage Num → Progress (ProfilePage Num)
  set_settings body p =
      set_or_stop (bind (get "settings" body) (λ v. ok (record p { settings = v }))) p

  abbrev pub all_set :
      (profile logs settings : Result (Value Num)) → ProfilePage Num → Progress (ProfilePage Num)
  all_set profile logs settings p = elim profile [
    | throw e ↦ stopped p
    | ok a ↦ elim logs [
      | throw e ↦ stopped p
      | ok b ↦ elim settings [
        | throw e ↦ stopped p
        | ok c ↦
            and_then (when_success a (set_profile a) p)
              λ q. and_then (when_success b (set_logs b) q) λ r. when_success c (set_settings c) r
      ]
    ]
  ]

  -- `fetchData` once the three are answered, its `finally` included
  unfoldable pub profile_fetched :
      (profile logs settings : Result (Value Num)) → ProfilePage Num → ProfilePage Num
  profile_fetched profile logs settings p = record (reached (all_set profile logs settings p)) {
    loading = false;
  }

  abbrev pub save_request : Option String → (seen : ProfilePage Num) → FetchRequest Num
  save_request token seen = auth_fetch token "/api/profile" "PUT" (
      some (
        object (
          ("full_name", seen.form.full_name)
          ∷ ("email", seen.form.email)
          ∷ ("phone_number", seen.form.phone_number)
          ∷ ("address", seen.form.address)
          ∷ [])))

  abbrev pub profile_saved : ProfilePage Num → Value Num → Result (ProfilePage Num)
  profile_saved p body =
      bind (get "profile" body) (λ v. ok (record p { profile = v; editing = false }))

  -- `handleSave` once it is answered
  unfoldable pub save_answered : Result (Value Num) → ProfilePage Num → ProfilePage Num
  save_answered answer p = on_success R answer (profile_saved p) p

  abbrev pub setting_request : Option String → (name value : String) → FetchRequest Num
  setting_request token name value =
      auth_fetch token "/api/settings" "PUT"
        (some (object (("setting_name", str name) ∷ ("setting_value", str value) ∷ [])))

  -- `s.setting_name === setting_name ? { ...s, setting_value } : s`
  abbrev pub changed_setting : (name value : String) → Value Num → Result (Value Num)
  changed_setting name value s = bind (get "setting_name" s) λ own_name. ok (
      if strict_eq R own_name (str name)
      then obj (set_field "setting_value" (str value) (spread s))
      else s)

  -- `handleSettingChange` once the server has answered, with any status: the response is not read
  unfoldable pub setting_answered :
      (seen : ProfilePage Num) (name value : String)
      → Result (Unit {0})
      → ProfilePage Num
      → ProfilePage Num
  setting_answered seen name value answer p =
      settle
        (bind answer λ _. bind (elements R seen.settings) λ rows.
          bind (traverse (changed_setting name value) rows)
            λ settings. ok (record p { settings = array settings }))
        p

  -- `settings.find((s) => s.setting_name === name)?.setting_value === "true"`
  abbrev pub find_setting : String → List (Value Num) → Result Bool
  find_setting name [] = ok false
  find_setting name (s ∷ settings) = elim (get "setting_name" s) [
    | throw e ↦ throw e
    | ok own_name ↦
        let rest = find_setting name settings in
        if strict_eq R own_name (str name)
        then bind (get "setting_value" s) (λ v. ok (strict_eq R v (str "true")))
        else rest
  ]

  unfoldable pub get_setting : ProfilePage Num → String → Result Bool
  get_setting p name = bind (elements R p.settings) (find_setting name)

-- `handleLogout`
unfoldable pub handle_logout : Browser → Browser
handle_logout b = record { token = none; user = none; pushed = "/login" ∷ b.pushed }
