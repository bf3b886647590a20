-- ===== src/Toast/Slot.antt =====
-- The store as its users know it: a slot that holds one notification or none.
use wwfsdb.Base.{
  arith, ◌≡◌, refl, ℕ, ◌+◌, ◌%◌, Bool, true, false, not, Option, none, some, List, [], ◌∷◌, map,
  filter, if◌then◌else◌,
}
use wwfsdb.Toast.{
  ◌==◌, ToasterToast, update_toast, dismiss_toast, Store, closed, updated, gen_id, dispatch,
  reducer, toast, fire, subscribe, unsubscribe,
}
use wwfsdb.Toast.Invariant.{AreSynced, start, synced-map, synced-concat, synced-remove_first}

-- What the application, its components and its timers do to the store.
pub data Event (P : Type 0) : Type 0 where
  shows : P → Event P
  changes : ℕ → Option Bool → (P → P) → Event P
  dismisses : Option ℕ → Event P
  expires : ℕ → Event P
  mounts : ℕ → Event P
  unmounts : ℕ → Event P

-- The counter of the identifiers, and what is in the slot.
pub record Slot (P : Type 0) : Type 0 where
  pub count : ℕ
  pub held : Option (ToasterToast P)

module _ {P : Type 0} where
  abbrev pub happen : Event P → Store P → Store P
  happen (shows props) s = (toast props s).1
  happen (changes id b f) s = dispatch (update_toast id b f) s
  happen (dismisses id) s = dispatch (dismiss_toast id) s
  happen (expires id) s = fire id s
  happen (mounts me) s = subscribe me s.toasts s
  happen (unmounts me) s = unsubscribe me s

  abbrev pub run : List (Event P) → Store P → Store P
  run [] s = s
  run (e ∷ es) s = run es (happen e s)

  abbrev on_held :
      (ToasterToast P → Option (ToasterToast P)) → Option (ToasterToast P) → Option (ToasterToast P)
  on_held f none = none
  on_held f (some t) = f t

  -- What `f` makes of the notification with this identifier.
  abbrev if_named : ℕ → (ToasterToast P → ToasterToast P) → ToasterToast P → ToasterToast P
  if_named id f t = if t.id == id then f t else t

  abbrev edited : Option Bool → (P → P) → ToasterToast P → ToasterToast P
  edited none f t = record { id = t.id; open_now = t.open_now; props = f t.props }
  edited (some b) f t = record { id = t.id; open_now = b; props = f t.props }

  abbrev shut : ToasterToast P → ToasterToast P
  shut t = record { id = t.id; open_now = false; props = t.props }

  -- A new notification takes the place of the one in the slot, open and with the next number (the
  -- numbers stay below 2 ^ 53 - 1, then start again from 0). A change and a dismissal are of the one in
  -- the slot if it has the identifier; a dismissal of all closes it. A timer empties the slot if its
  -- notification is still there.
  abbrev pub move : Event P → Slot P → Slot P
  move (shows props) a = record {
    count = (a.count + 1) % 9007199254740991;
    held = some (record { id = (a.count + 1) % 9007199254740991; open_now = true; props = props });
  }
  move (changes id b f) a = record a {
    held = on_held (λ t. some (if_named id (edited b f) t)) a.held;
  }
  move (dismisses none) a = record a { held = on_held (λ t. some (shut t)) a.held }
  move (dismisses (some id)) a = record a { held = on_held (λ t. some (if_named id shut t)) a.held }
  move (expires id) a = record a {
    held = on_held (λ t. if t.id == id then none else some t) a.held;
  }
  move (mounts me) a = a
  move (unmounts me) a = a

  abbrev pub play : List (Event P) → Slot P → Slot P
  play [] a = a
  play (e ∷ es) a = play es (move e a)

  abbrev pub toasts_of : Option (ToasterToast P) → List (ToasterToast P)
  toasts_of none = []
  toasts_of (some t) = t ∷ []

  -- The store has the slot's counter and content, and all its listeners have been given the content.
  pub record Implements (s : Store P) (a : Slot P) : Type 0 where
    pub count : s.count ≡ a.count
    pub content : s.toasts ≡ toasts_of a.held
    pub listeners : AreSynced (toasts_of a.held) s.listeners

  changed :
      (id : ℕ) (b : Option Bool) (f : P → P) (o : Option (ToasterToast P))
      → map (updated id b f) (toasts_of o)
        ≡ toasts_of (on_held (λ t. some (if_named id (edited b f) t)) o)
  unfolding updated
  changed id b f none = refl
  changed id none f (some t) = refl
  changed id (some b) f (some t) = refl

  dismissed :
      (id : Option ℕ) (s : Slot P)
      → map (closed id) (toasts_of s.held) ≡ toasts_of (move (dismisses id) s).held
  unfolding closed
  dismissed none s = go s.held
    where
      go :
          (o : Option (ToasterToast P))
          → map (closed none) (toasts_of o) ≡ toasts_of (on_held (λ t. some (shut t)) o)
      go none = refl
      go (some t) = refl
  dismissed (some id) s = go s.held
    where
      go :
          (o : Option (ToasterToast P))
          → map (closed (some id)) (toasts_of o)
            ≡ toasts_of (on_held (λ t. some (if_named id shut t)) o)
      go none = refl
      go (some t) = refl

  filtered :
      (id : ℕ) (o : Option (ToasterToast P))
      → filter (λ t. not (t.id == id)) (toasts_of o)
        ≡ toasts_of (on_held (λ t. if t.id == id then none else some t) o)
  filtered id none = refl
  filtered id (some t) = ground arith

  happen-Implements :
      (e : Event P) (s : Store P) (a : Slot P) → Implements s a → Implements (happen e s) (move e a)
  unfolding dispatch reducer toast fire subscribe unsubscribe gen_id
  happen-Implements (shows props) s a i =
      rw i.count (record { count = refl; content = refl; listeners = synced-map _ s.listeners })
  happen-Implements (changes id b f) s a i = record {
    count = i.count;
    content = rw (i.content, changed id b f a.held);
    listeners = rw (i.content, changed id b f a.held) (synced-map _ s.listeners);
  }
  happen-Implements (dismisses none) s a i = record {
    count = i.count;
    content = rw (i.content, dismissed none a);
    listeners = rw (i.content, dismissed none a) (synced-map _ s.listeners);
  }
  happen-Implements (dismisses (some id)) s a i = record {
    count = i.count;
    content = rw (i.content, dismissed (some id) a);
    listeners = rw (i.content, dismissed (some id) a) (synced-map _ s.listeners);
  }
  happen-Implements (expires id) s a i = record {
    count = i.count;
    content = rw (i.content, filtered id a.held);
    listeners = rw (i.content, filtered id a.held) (synced-map _ s.listeners);
  }
  happen-Implements (mounts me) s a i = record {
    count = i.count;
    content = i.content;
    listeners = rw i.content (synced-concat _ s.listeners me i.listeners);
  }
  happen-Implements (unmounts me) s a i = record {
    count = i.count;
    content = i.content;
    listeners = synced-remove_first _ s.listeners me i.listeners;
  }

  -- Let notifications be shown, changed, dismissed and expire, and let components mount, each with the
  -- toasts of that time as its state, and unmount, in any order, from the start on or from any store that
  -- stands for a slot. The store then stands for the slot to which the same has happened, so that the
  -- store and all its listeners have exactly the content of the slot.
  pub run-Implements :
      (es : List (Event P)) (s : Store P) (a : Slot P)
      → Implements s a
      → Implements (run es s) (play es a)
  run-Implements [] s a i = i
  run-Implements (e ∷ es) s a i =
      run-Implements es (happen e s) (move e a) (happen-Implements e s a i)

  pub start-Implements : Implements start (record { count = 0; held = none })
  start-Implements = record { count = refl; content = refl; listeners = tt }
