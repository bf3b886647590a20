-- ===== src/Toast/Drain.antt =====
-- The timers that are pending run out.
use wwfsdb.Base.{arith, ◌≡◌, refl, ap, sym, ◌∙◌, ℕ, true, not, List, [], ◌∷◌, filter, All}
use wwfsdb.Toast.{◌==◌, ToasterToast, Store, has, fire, dispatch, reducer}
use wwfsdb.Toast.Invariant.{Reach, start, IsQueued, Reach-IsValid}

fuse :
    {A : Type 0} (key : A → ℕ) (id : ℕ) (ids : List ℕ) (xs : List A)
    → filter (λ x. not (has (key x) ids)) (filter (λ x. not (key x == id)) xs)
      ≡ filter (λ x. not (has (key x) (id ∷ ids))) xs
unfolding has
fuse key id ids [] = refl
fuse key id ids (x ∷ xs) = ground (arith, fuse key id ids xs)

-- No timer has this identifier: every one stays.
kept_all : {A : Type 0} (key : A → ℕ) (xs : List A) → filter (λ x. not (has (key x) [])) xs ≡ xs
unfolding has
kept_all key [] = refl
kept_all key (x ∷ xs) = ap (λ ys. x ∷ ys) (kept_all key xs)

has-more : (i j : ℕ) (ids : List ℕ) → has i ids ≡ true → has i (j ∷ ids) ≡ true
unfolding has
has-more i j ids h = ground arith

none_left :
    (ids js : List ℕ) → All (λ j. has j ids ≡ true) js → filter (λ j. not (has j ids)) js ≡ []
none_left ids [] h = refl
none_left ids (j ∷ js) (p, h) = rw p (none_left ids js h)

have_more :
    (i : ℕ) (ids js : List ℕ)
    → All (λ j. has j ids ≡ true) js
    → All (λ j. has j (i ∷ ids) ≡ true) js
have_more i ids [] h = tt
have_more i ids (j ∷ js) (p, h) = (has-more j i ids p, have_more i ids js h)

has_self : (ids : List ℕ) → All (λ j. has j ids ≡ true) ids
unfolding has
has_self [] = tt
has_self (i ∷ ids) = (ground arith, have_more i ids ids (has_self ids))

module _ {P : Type 0} where
  abbrev pub fire_all : List ℕ → Store P → Store P
  fire_all [] s = s
  fire_all (id ∷ ids) s = fire_all ids (fire id s)

  fire_all-toasts :
      (ids : List ℕ) (s : Store P)
      → (fire_all ids s).toasts ≡ filter (λ t. not (has t.id ids)) s.toasts
  unfolding fire dispatch reducer
  fire_all-toasts [] s = sym (kept_all (λ (t : ToasterToast P). t.id) s.toasts)
  fire_all-toasts (id ∷ ids) s =
      fire_all-toasts ids (fire id s) ∙ fuse (λ (t : ToasterToast P). t.id) id ids s.toasts

  fire_all-timeouts :
      (ids : List ℕ) (s : Store P)
      → (fire_all ids s).timeouts ≡ filter (λ i. not (has i ids)) s.timeouts
  unfolding fire dispatch
  fire_all-timeouts [] s = sym (kept_all (λ i. i) s.timeouts)
  fire_all-timeouts (id ∷ ids) s =
      fire_all-timeouts ids (fire id s) ∙ fuse (λ i. i) id ids s.timeouts

  open_left :
      (ids : List ℕ) (toasts : List (ToasterToast P))
      → All (IsQueued ids) toasts
      → All (λ t. t.open_now ≡ true) (filter (λ t. not (has t.id ids)) toasts)
  open_left ids [] h = tt
  open_left ids (t ∷ toasts) (p, h) = ground (arith, open_left ids toasts h)

-- From every store that is reached, once the timers that are pending have run out, no timer is left,
-- every toast that is left is open, and the toasts that are left are those that no timer was for: a
-- toast that was dismissed does not stay.
pub fire_all-IsDrained :
    {P : Type 0} (s : Store P)
    → Reach start s
    → ((fire_all s.timeouts s).timeouts ≡ [])
      × All (λ t. t.open_now ≡ true) (fire_all s.timeouts s).toasts
      × ((fire_all s.timeouts s).toasts ≡ filter (λ t. not (has t.id s.timeouts)) s.toasts)
fire_all-IsDrained s r = (
  fire_all-timeouts s.timeouts s ∙ none_left s.timeouts s.timeouts (has_self s.timeouts),
  rw (fire_all-toasts s.timeouts s) (open_left s.timeouts s.toasts (Reach-IsValid r).queued),
  fire_all-toasts s.timeouts s,
)
