-- ===== src/Toast/Invariant.antt =====
-- What holds of the store whatever happens to it.
use wwfsdb.Base.{
  arith, ◌≡◌, refl, ◌≤◌, ℕ, Bool, true, false, not, Option, none, some, List, [], ◌∷◌, ◌++◌, map,
  filter, length, All, ◌||◌, ◌⊎◌, inl, inr,
}
use wwfsdb.Toast.{
  ◌==◌, ToasterToast, update_toast, dismiss_toast, Store, has, add_to_remove_queue, queue_all,
  updated, closed, dispatch, toast, fire, subscribe, unsubscribe, remove_first,
}

-- What happens to the store: a call of `toast`, of a toast's `update` or of a `dismiss`, a timer
-- that is pending, a component that subscribes with what it shows still current, or unsubscribes.
-- An update that closes a toast without dismissing it is left out.
pub data Step {P : Type 0} : Store P → Store P → Type 0 where
  show : (props : P) (s : Store P) → Step s (toast props s).1
  change : (id : ℕ) (f : P → P) (s : Store P) → Step s (dispatch (update_toast id none f) s)
  dismiss : (id : Option ℕ) (s : Store P) → Step s (dispatch (dismiss_toast id) s)
  expire : (id : ℕ) (s : Store P) → has id s.timeouts ≡ true → Step s (fire id s)
  mount : (me : ℕ) (s : Store P) → Step s (subscribe me s.toasts s)
  unmount : (me : ℕ) (s : Store P) → Step s (unsubscribe me s)

pub data Reach {P : Type 0} (s : Store P) : Store P → Type 0 where
  here : Reach s s
  next : {t u : Store P} → Reach s t → Step t u → Reach s u

abbrev pub start : {P : Type 0} → Store P
start = record { count = 0; toasts = []; timeouts = []; listeners = [] }

-- A toast that is closed is waiting to be removed.
abbrev pub IsQueued : {P : Type 0} → List ℕ → ToasterToast P → Type 0
IsQueued timeouts t = (t.open_now ≡ true) ⊎ (has t.id timeouts ≡ true)

-- Every listener was last called with these toasts.
abbrev pub AreSynced :
    {P : Type 0} → List (ToasterToast P) → List (ℕ × List (ToasterToast P)) → Type 0
AreSynced toasts = All (λ l. l.1 ≡ toasts)

pub record IsValid {P : Type 0} (s : Store P) : Type 0 where
  pub one : length s.toasts ≤ 1
  pub queued : All (IsQueued s.timeouts) s.toasts
  pub synced : AreSynced s.toasts s.listeners

has-concat : (i id : ℕ) (ids : List ℕ) → has i (ids ++ id ∷ []) ≡ (has i ids || id == i)
unfolding has
has-concat i id [] = ground arith
has-concat i id (x ∷ ids) = ground (arith, has-concat i id ids)

has-add_to_remove_queue_self : (id : ℕ) (ids : List ℕ) → has id (add_to_remove_queue id ids) ≡ true
unfolding add_to_remove_queue
has-add_to_remove_queue_self id ids = ground (arith, has-concat id id ids)

has-add_to_remove_queue :
    (i id : ℕ) (ids : List ℕ) → has i ids ≡ true → has i (add_to_remove_queue id ids) ≡ true
unfolding add_to_remove_queue
has-add_to_remove_queue i id ids h = ground (arith, has-concat i id ids)

has-filter :
    (i id : ℕ) (ids : List ℕ)
    → (i == id) ≡ false
    → has i ids ≡ true
    → has i (filter (λ j. not (j == id)) ids) ≡ true
unfolding has
has-filter i id [] ne h = cc
has-filter i id (x ∷ ids) ne h = ground (arith, has-filter i id ids ne)

module _ {P : Type 0} where
  has-queue_all :
      (i : ℕ) (toasts : List (ToasterToast P)) (ids : List ℕ)
      → has i ids ≡ true
      → has i (queue_all toasts ids) ≡ true
  unfolding queue_all
  has-queue_all i [] ids h = h
  has-queue_all i (t ∷ toasts) ids h =
      has-queue_all i toasts (add_to_remove_queue t.id ids) (has-add_to_remove_queue i t.id ids h)

  IsQueued-queue_all :
      (toasts : List (ToasterToast P)) (ids : List ℕ)
      → All (IsQueued (queue_all toasts ids)) (map (closed none) toasts)
  unfolding queue_all closed
  IsQueued-queue_all [] ids = tt
  IsQueued-queue_all (t ∷ toasts) ids = (
    inr (
        has-queue_all t.id toasts (add_to_remove_queue t.id ids)
          (has-add_to_remove_queue_self t.id ids)),
    IsQueued-queue_all toasts (add_to_remove_queue t.id ids),
  )

  length-map_le :
      (f : ToasterToast P → ToasterToast P) (toasts : List (ToasterToast P))
      → length (map f toasts) ≡ length toasts
  length-map_le f [] = refl
  length-map_le f (t ∷ toasts) = omega (arith, length-map_le f toasts)

  length-filter_le :
      (p : ToasterToast P → Bool) (toasts : List (ToasterToast P))
      → length (filter p toasts) ≤ length toasts
  length-filter_le p [] = omega arith
  length-filter_le p (t ∷ toasts) = ground (arith, length-filter_le p toasts)

  IsQueued-updated :
      (id : ℕ) (f : P → P) (ids : List ℕ) (toasts : List (ToasterToast P))
      → All (IsQueued ids) toasts
      → All (IsQueued ids) (map (updated id none f) toasts)
  unfolding updated
  IsQueued-updated id f ids [] h = tt
  IsQueued-updated id f ids (t ∷ toasts) (p, h) = ground (arith, IsQueued-updated id f ids toasts h)

  IsQueued-closed :
      (id : ℕ) (ids : List ℕ) (toasts : List (ToasterToast P))
      → All (IsQueued ids) toasts
      → All (IsQueued (add_to_remove_queue id ids)) (map (closed (some id)) toasts)
  unfolding closed
  IsQueued-closed id ids [] h = tt
  IsQueued-closed id ids (t ∷ toasts) (p, h) = ground (
    arith,
    IsQueued-closed id ids toasts h,
    has-add_to_remove_queue_self id ids,
    has-add_to_remove_queue t.id id ids,
  )

  IsQueued-removed :
      (id : ℕ) (ids : List ℕ) (toasts : List (ToasterToast P))
      → All (IsQueued ids) toasts
      → All (IsQueued (filter (λ i. not (i == id)) ids)) (filter (λ t. not (t.id == id)) toasts)
  IsQueued-removed id ids [] h = tt
  IsQueued-removed id ids (t ∷ toasts) (p, h) =
      ground (arith, IsQueued-removed id ids toasts h, has-filter t.id id ids)

  pub synced-map :
      (toasts : List (ToasterToast P)) (listeners : List (ℕ × List (ToasterToast P)))
      → AreSynced toasts (map (λ l. (l.0, toasts)) listeners)
  synced-map toasts [] = tt
  synced-map toasts (l ∷ listeners) = (refl, synced-map toasts listeners)

  pub synced-concat :
      (toasts : List (ToasterToast P)) (listeners : List (ℕ × List (ToasterToast P))) (me : ℕ)
      → AreSynced toasts listeners
      → AreSynced toasts (listeners ++ (me, toasts) ∷ [])
  synced-concat toasts [] me h = (refl, tt)
  synced-concat toasts (l ∷ listeners) me (p, h) = (p, synced-concat toasts listeners me h)

  pub synced-remove_first :
      (toasts : List (ToasterToast P)) (listeners : List (ℕ × List (ToasterToast P))) (me : ℕ)
      → AreSynced toasts listeners
      → AreSynced toasts (remove_first me listeners)
  synced-remove_first toasts [] me h = tt
  synced-remove_first toasts (l ∷ listeners) me (p, h) =
      ground (arith, synced-remove_first toasts listeners me h)

  Step-IsValid : {s t : Store P} → Step s t → IsValid s → IsValid t
  unfolding dispatch toast fire subscribe unsubscribe
  Step-IsValid (show props s) v = record {
    one = omega arith;
    queued = (inl refl, tt);
    synced = synced-map _ s.listeners;
  }
  Step-IsValid (change id f s) v = record {
    one = omega (arith, length-map_le (updated id none f) s.toasts, v.one);
    queued = IsQueued-updated id f s.timeouts s.toasts v.queued;
    synced = synced-map _ s.listeners;
  }
  Step-IsValid (dismiss none s) v = record {
    one = omega (arith, length-map_le (closed none) s.toasts, v.one);
    queued = IsQueued-queue_all s.toasts s.timeouts;
    synced = synced-map _ s.listeners;
  }
  Step-IsValid (dismiss (some id) s) v = record {
    one = omega (arith, length-map_le (closed (some id)) s.toasts, v.one);
    queued = IsQueued-closed id s.timeouts s.toasts v.queued;
    synced = synced-map _ s.listeners;
  }
  Step-IsValid (expire id s h) v = record {
    one = omega (arith, length-filter_le (λ t. not (t.id == id)) s.toasts, v.one);
    queued = IsQueued-removed id s.timeouts s.toasts v.queued;
    synced = synced-map _ s.listeners;
  }
  Step-IsValid (mount me s) v = record {
    one = v.one;
    queued = v.queued;
    synced = synced-concat s.toasts s.listeners me v.synced;
  }
  Step-IsValid (unmount me s) v = record {
    one = v.one;
    queued = v.queued;
    synced = synced-remove_first s.toasts s.listeners me v.synced;
  }

-- After any sequence of the steps of `Step` (calls of `toast`, `update` and `dismiss`, timers that run
-- out, components that subscribe or unsubscribe; no update that closes a toast), at most one toast is
-- kept, every toast that is closed has a timer that will remove it, and every listener has been given
-- the current toasts.
pub Reach-IsValid : {P : Type 0} {s : Store P} → Reach start s → IsValid s
Reach-IsValid here = record { one = omega arith; queued = tt; synced = tt }
Reach-IsValid (next r st) = Step-IsValid st (Reach-IsValid r)
