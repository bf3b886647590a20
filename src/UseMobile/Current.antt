-- ===== src/UseMobile/Current.antt =====
-- What the hook gives is about the window as it is.
use wwfsdb.Base.{◌≡◌, refl, arith, ℕ, true, false, none, some, List, [], ◌∷◌, ltb}
use wwfsdb.UseMobile.{Hook, mobile_breakpoint, mount, unmount, resize, on_change, use_is_mobile}

pub data Event : Type 0 where
  mounts unmounts : Event
  resizes : ℕ → Event

abbrev pub happen : Event → Hook → Hook
happen mounts h = mount h
happen unmounts h = unmount h
happen (resizes width) h = resize width h

abbrev pub run : List Event → Hook → Hook
run [] h = h
run (e ∷ es) h = run es (happen e h)

-- A window of some width, in which the component has not been mounted.
abbrev pub unmounted : ℕ → Hook
unmounted width = record { inner_width = width; is_mobile = none; listening = false }

-- While the effect is in force, the state is about the width as it is.
abbrev IsCurrent : Hook → Type 0
IsCurrent h = h.listening ≡ true → h.is_mobile ≡ some (ltb h.inner_width mobile_breakpoint)

happen-IsCurrent : (e : Event) (h : Hook) → IsCurrent h → IsCurrent (happen e h)
unfolding mount unmount resize on_change
happen-IsCurrent mounts h c l = refl
happen-IsCurrent unmounts h c l = ground arith
happen-IsCurrent (resizes width) h c l = ground (arith, c)

run-IsCurrent : (es : List Event) (h : Hook) → IsCurrent h → IsCurrent (run es h)
run-IsCurrent [] h c = c
run-IsCurrent (e ∷ es) h c = run-IsCurrent es (happen e h) (happen-IsCurrent e h c)

-- Whatever has happened to the window and the component, while the component is mounted the hook gives
-- whether the window is narrower than 768 pixels, although it only hears of the changes that cross this
-- width.
pub use_is_mobile-run :
    (es : List Event) (width : ℕ)
    → (run es (unmounted width)).listening ≡ true
    → use_is_mobile (run es (unmounted width)) ≡ ltb (run es (unmounted width)).inner_width 768
use_is_mobile-run es width l =
    let c = run-IsCurrent es (unmounted width) (λ k. absurd (ground arith)) l in
    rw (use_is_mobile, c)
