-- ===== src/Pages/Profile/Saving.antt =====
-- What the profile page shows behind the change of a setting.
use wwfsdb.Base.{
  ◌≡◌, ◌≢◌, refl, ap, Bool, true, false, ◌&&◌, ◌==◌, eq_iff, String, List, [], ◌∷◌, map, arith,
  Bool-cases, inl, inr, if◌then◌else◌,
}
use wwfsdb.Js.Value.{
  Value, undefined, null, bool, num, str, arr, obj, Fields, ok, array, traverse, set_field,
  get_field,
}
use wwfsdb.Js.Convert.{strict_eq}
use wwfsdb.Js.Runtime.{Runtime}
use wwfsdb.Js.Traversal.{get_field-set_field}
use wwfsdb.Pages.Settling.{items-array_items}
use wwfsdb.Pages.Profile.{ProfilePage, changed_setting, setting_answered, find_setting, get_setting}

module _ (R : Runtime) where
  open R use {Num}

  -- Whether the row is the one of the setting.
  abbrev pub is_row : String → Fields Num → Bool
  is_row name fs = strict_eq R (get_field "setting_name" fs) (str name)

  -- Whether the setting has a row.
  abbrev pub is_listed : String → List (Fields Num) → Bool
  is_listed name [] = false
  is_listed name (fs ∷ fss) = if is_row name fs then true else is_listed name fss

  abbrev pub rows_of : List (Fields Num) → List (Value Num)
  rows_of fss = map obj fss

  abbrev with_value : (name value : String) → Fields Num → Fields Num
  with_value name value fs = if is_row name fs then set_field "setting_value" (str value) fs else fs

  changed_rows :
      (name value : String) (fss : List (Fields Num))
      → traverse (changed_setting R name value) (rows_of fss)
        ≡ ok (rows_of (map (with_value name value) fss))
  changed_rows name value [] = refl
  changed_rows name value (fs ∷ fss) =
      elim (Bool-cases (strict_eq R (get_field "setting_name" fs) (str name))) [
        | inl e ↦ rw (e, changed_rows name value fss, changed_setting, e)
        | inr e ↦ rw (e, changed_rows name value fss, changed_setting, e)
      ]

  same_name :
      (value : String) (fs : Fields Num)
      → get_field "setting_name" (set_field "setting_value" (str value) fs)
        ≡ get_field "setting_name" fs
  same_name value fs = get_field-set_field "setting_name" "setting_value" (str value) fs

  new_value :
      (value : String) (fs : Fields Num)
      → get_field "setting_value" (set_field "setting_value" (str value) fs) ≡ str value
  new_value value fs = get_field-set_field "setting_value" "setting_value" (str value) fs

  found_changed :
      (name value : String) (fss : List (Fields Num))
      → find_setting R name (rows_of (map (with_value name value) fss))
        ≡ ok (is_listed name fss && (value == "true"))
  found_changed name value [] = refl
  found_changed name value (fs ∷ fss) =
      elim (Bool-cases (strict_eq R (get_field "setting_name" fs) (str name))) [
        | inl e ↦ rw (e, find_setting, same_name value fs, new_value value fs, e)
        | inr e ↦ rw (e, find_setting, e) (found_changed name value fss)
      ]

  only_text : (v : Value Num) (s : String) → strict_eq R v (str s) ≡ true → v ≡ str s
  only_text undefined s h = ground arith
  only_text null s h = ground arith
  only_text (bool true) s h = ground arith
  only_text (bool false) s h = ground arith
  only_text (num n) s h = ground arith
  only_text (str t) s h = ap str ((eq_iff t s).0 h)
  only_text (arr vs) s h = ground arith
  only_text (obj fs) s h = ground arith

  found_other :
      (name value other : String) (ne : other ≢ name) (fss : List (Fields Num))
      → find_setting R other (rows_of (map (with_value name value) fss))
        ≡ find_setting R other (rows_of fss)
  found_other name value other ne [] = refl
  found_other name value other ne (fs ∷ fss) =
      elim (Bool-cases (strict_eq R (get_field "setting_name" fs) (str name))) [
        | inr e ↦ rw (e, find_setting, found_other name value other ne fss)
        | inl e ↦
            let is_name = only_text (get_field "setting_name" fs) name e in
            let no : (name == other) ≡ false = ground (arith, eq_iff name other) in
            rw (e, find_setting, same_name value fs, is_name, no)
              (found_other name value other ne fss)
      ]

-- Whatever the server answers to the change of a setting, a refusal included, the page then shows the
-- setting as on exactly if it has a row in the render and the new value is "true"; the other settings
-- are shown as in that render.
pub get_setting-setting_answered :
    (R : Runtime) (seen p : ProfilePage R.Num) (name value : String) (fss : List (Fields R.Num))
    → seen.settings ≡ array (rows_of R fss)
    → (get_setting R (setting_answered R seen name value (ok tt) p) name
        ≡ ok (is_listed R name fss && (value == "true")))
      × ((other : String)
          → other ≢ name
          → get_setting R (setting_answered R seen name value (ok tt) p) other
            ≡ get_setting R seen other)
unfolding setting_answered get_setting
get_setting-setting_answered R seen p name value fss e = (
  rw
      (
        e,
        items-array_items (rows_of R fss),
        changed_rows R name value fss,
        items-array_items (rows_of R (map (with_value R name value) fss)),
      )
      (found_changed R name value fss),
  λ other ne.
      rw
        (
          e,
          items-array_items (rows_of R fss),
          changed_rows R name value fss,
          items-array_items (rows_of R (map (with_value R name value) fss)),
        )
        (found_other R name value other ne fss),
)
