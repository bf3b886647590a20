-- ===== src/Examples/Toasts.antt =====
-- The notifications at concrete inputs.
use wwfsdb.Base.{◌+◌, ◌≡◌, ◌≢◌, true, List, [], ◌∷◌, All, none, some, filter, not, arith, String}
use wwfsdb.Toast.{◌==◌, Store, has, dispatch, dismiss_toast, fire, toast}
use wwfsdb.Toast.Slot.{
  Event, Slot, Implements, shows, dismisses, expires, mounts, run, play, run-Implements,
  start-Implements,
}
use wwfsdb.Toast.Drain.{fire_all, fire_all-IsDrained}
use wwfsdb.Toast.Invariant.{show, dismiss, here, next, start, IsValid, Reach-IsValid}
use wwfsdb.Toast.Lifetime.{nth_id, nth_id-ne, fire-dismiss}

abbrev shown : Store String
shown = (toast "saved" start).1

Reach-IsValid_example : IsValid (dispatch (dismiss_toast none) shown)
Reach-IsValid_example = Reach-IsValid (next (next here (show "saved" start)) (dismiss none shown))

distinct_ids : nth_id (1 + 2) 0 ≢ nth_id 1 0
distinct_ids = nth_id-ne 0 1 2 (omega arith) (omega arith) (omega arith)

dismissed_and_fired :
    ((fire 1 (dispatch (dismiss_toast (some 1)) shown)).toasts
      ≡ filter (λ t. not (t.id == 1)) shown.toasts)
    × ((fire 1 (dispatch (dismiss_toast (some 1)) shown)).timeouts
        ≡ filter (λ i. not (i == 1)) shown.timeouts)
dismissed_and_fired = fire-dismiss 1 shown

abbrev events : List (Event String)
events = mounts 7 ∷ shows "saved" ∷ shows "again" ∷ dismisses none ∷ expires 2 ∷ []

abbrev empty_slot : Slot String
empty_slot = record { count = 0; held = none }

run-Implements_example : Implements (run events start) (play events empty_slot)
run-Implements_example = run-Implements events start empty_slot start-Implements

abbrev dismissed : Store String
dismissed = dispatch (dismiss_toast none) shown

fire_all-IsDrained_example :
    ((fire_all dismissed.timeouts dismissed).timeouts ≡ [])
    × All (λ t. t.open_now ≡ true) (fire_all dismissed.timeouts dismissed).toasts
    × ((fire_all dismissed.timeouts dismissed).toasts
        ≡ filter (λ t. not (has t.id dismissed.timeouts)) dismissed.toasts)
fire_all-IsDrained_example =
    fire_all-IsDrained dismissed (next (next here (show "saved" start)) (dismiss none shown))
