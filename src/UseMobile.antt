-- ===== src/UseMobile.antt =====
-- ssql_tests/mobile-banking-app/hooks/use-mobile.ts: whether the window is narrow, kept up to date by a
-- listener on a media query.
pub mod Current
use wwfsdb.Base.{
  ℕ, ◌-◌, Bool, true, false, not, ◌&&◌, Option, none, some, if◌then◌else◌, ltb, List, [], ◌∷◌,
}

abbrev pub mobile_breakpoint : ℕ
mobile_breakpoint = 768

-- The window, of which the width is a whole number of pixels, and the hook's state: `listening` is
-- whether its effect is in force.
pub record Hook : Type 0 where
  pub inner_width : ℕ
  pub is_mobile : Option Bool
  pub listening : Bool

-- Whether `(max-width: ${MOBILE_BREAKPOINT - 1}px)` matches.
abbrev pub media_matches : ℕ → Bool
media_matches width = not (ltb (mobile_breakpoint - 1) width)

-- `setIsMobile(window.innerWidth < MOBILE_BREAKPOINT)`
unfoldable pub on_change : Hook → Hook
on_change h = record h { is_mobile = some (ltb h.inner_width mobile_breakpoint) }

-- The effect, and its cleanup.
unfoldable pub mount : Hook → Hook
unfolding on_change
mount h = on_change (record h { listening = true })

unfoldable pub unmount : Hook → Hook
unmount h = record h { listening = false }

-- `a !== b` of two truth values
abbrev differs : Bool → Bool → Bool
differs true b = not b
differs false b = b

-- The window gets a new width: the query's listeners hear of it when the query begins or ceases to match.
unfoldable pub resize : ℕ → Hook → Hook
unfolding on_change
resize width h =
    let resized = record h { inner_width = width } in
    if h.listening && differs (media_matches h.inner_width) (media_matches width)
    then on_change resized
    else resized

-- `!!isMobile`
abbrev pub use_is_mobile : Hook → Bool
use_is_mobile h = elim h.is_mobile [ none ↦ false | some b ↦ b ]
