-- ===== src/Toast/Lifetime.antt =====
-- The identifiers of toasts, and their removal.
use wwfsdb.Base.{
  arith, ◌≡◌, refl, ◌≢◌, ◌<◌, ℕ, zero, suc, ◌+◌, ◌%◌, not, some, List, [], ◌∷◌, map, filter, ◌++◌,
  Bool-cases, inl, inr,
}
use wwfsdb.Toast.{
  ◌==◌, ToasterToast, Store, gen_id, max_safe_integer, has, dispatch, dismiss_toast, fire, reducer,
  closed, add_to_remove_queue,
}

-- The identifier of the `n`-th call of `genId` from now on.
abbrev pub nth_id : ℕ → ℕ → ℕ
nth_id zero count = count
nth_id (suc n) count = gen_id (nth_id n count)

nth_id-eq :
    (n count : ℕ) → count < max_safe_integer → nth_id n count ≡ (count + n) % max_safe_integer
unfolding gen_id
nth_id-eq zero count h = omega arith
nth_id-eq (suc n) count h = omega (arith, nth_id-eq n count h)

-- Two identifiers differ unless `Number.MAX_SAFE_INTEGER` calls or more of `genId` lie between them.
pub nth_id-ne :
    (count n k : ℕ)
    → count < max_safe_integer
    → 0 < k
    → k < max_safe_integer
    → nth_id (n + k) count ≢ nth_id n count
nth_id-ne count n k h p q = omega (arith, nth_id-eq (n + k) count h, nth_id-eq n count h)

filter-add_to_remove_queue :
    (id : ℕ) (ids : List ℕ)
    → filter (λ i. not (i == id)) (add_to_remove_queue id ids) ≡ filter (λ i. not (i == id)) ids
unfolding add_to_remove_queue
filter-add_to_remove_queue id ids = elim (Bool-cases (has id ids)) [
  | inl there ↦ rw there
  | inr new ↦ rw new (filter-concat ids)
]
  where
    filter-concat :
        (js : List ℕ) → filter (λ i. not (i == id)) (js ++ id ∷ []) ≡ filter (λ i. not (i == id)) js
    filter-concat [] = ground arith
    filter-concat (j ∷ js) = ground (arith, filter-concat js)

module _ {P : Type 0} where
  filter-closed :
      (id : ℕ) (toasts : List (ToasterToast P))
      → filter (λ t. not (t.id == id)) (map (closed (some id)) toasts)
        ≡ filter (λ t. not (t.id == id)) toasts
  unfolding closed
  filter-closed id [] = refl
  filter-closed id (t ∷ toasts) = ground (arith, filter-closed id toasts)

  -- When a toast has been dismissed and its timer has run out, exactly the toasts and the timers of
  -- that identifier are gone, and nothing else has changed in them.
  pub fire-dismiss :
      (id : ℕ) (s : Store P)
      → ((fire id (dispatch (dismiss_toast (some id)) s)).toasts
          ≡ filter (λ t. not (t.id == id)) s.toasts)
        × ((fire id (dispatch (dismiss_toast (some id)) s)).timeouts
            ≡ filter (λ i. not (i == id)) s.timeouts)
  unfolding fire dispatch reducer
  fire-dismiss id s = (filter-closed id s.toasts, filter-add_to_remove_queue id s.timeouts)
