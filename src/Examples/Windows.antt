-- ===== src/Examples/Windows.antt =====
-- The hook for narrow windows at a concrete course.
use wwfsdb.Base.{◌≡◌, refl, List, true, [], ◌∷◌, ltb}
use wwfsdb.UseMobile.{use_is_mobile, mount, resize, on_change}
use wwfsdb.UseMobile.Current.{Event, mounts, resizes, run, unmounted, use_is_mobile-run}

abbrev course : List Event
course = resizes 500 ∷ mounts ∷ resizes 900 ∷ resizes 1000 ∷ resizes 767 ∷ []

listens : (run course (unmounted 1200)).listening ≡ true
unfolding mount resize on_change
listens = refl

after_resizes :
    use_is_mobile (run course (unmounted 1200)) ≡ ltb (run course (unmounted 1200)).inner_width 768
after_resizes = use_is_mobile-run course 1200 listens
