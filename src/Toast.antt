-- ===== src/Toast.antt =====
-- ssql_tests/mobile-banking-app/hooks/use-toast.ts (components/ui/use-toast.ts is the same text):
-- the store of the notifications, its timers and its listeners. A toast's other properties are of a
-- type `P`, and a partial update is a function on them.
pub mod Invariant
pub mod Lifetime
pub mod Slot
pub mod Drain
use wwfsdb.Base.{
  ℕ, suc, ◌+◌, ◌-◌, ◌%◌, ◌^◌, Bool, true, false, not, ◌||◌, Option, none, some, List, [], ◌∷◌, ◌++◌,
  map, take, filter, any, if◌then◌else◌,
}
use Prim.Native.Nat.{compare, Ordering}

infix 50 ◌==◌
abbrev pub ◌==◌ : ℕ → ℕ → Bool
a == b = elim (compare a b) [ Ordering.eq ↦ true | _ ↦ false ]

abbrev pub toast_limit : ℕ
toast_limit = 1

-- `Number.MAX_SAFE_INTEGER`
abbrev pub max_safe_integer : ℕ
max_safe_integer = 2 ^ 53 - 1

-- `id` is the counter's value, whose decimal text is the identifier; it is never empty.
pub record ToasterToast (P : Type 0) : Type 0 where
  pub id : ℕ
  pub open_now : Bool
  pub props : P

-- An update names its toast, and sets `open` and the other properties that it gives.
pub data Action (P : Type 0) : Type 0 where
  add_toast : ToasterToast P → Action P
  update_toast : ℕ → Option Bool → (P → P) → Action P
  dismiss_toast : Option ℕ → Action P
  remove_toast : Option ℕ → Action P

-- The module's variables: `count`, `memoryState.toasts`, the keys of `toastTimeouts`, and of each
-- listener its identity and the state that it was last called with.
pub record Store (P : Type 0) : Type 0 where
  pub count : ℕ
  pub toasts : List (ToasterToast P)
  pub timeouts : List ℕ
  pub listeners : List (ℕ × List (ToasterToast P))

unfoldable pub gen_id : ℕ → ℕ
gen_id count = (count + 1) % max_safe_integer

unfoldable pub has : ℕ → List ℕ → Bool
has id ids = any (λ i. i == id) ids

-- `addToRemoveQueue`
unfoldable pub add_to_remove_queue : ℕ → List ℕ → List ℕ
unfolding has
add_to_remove_queue id timeouts = if has id timeouts then timeouts else timeouts ++ id ∷ []

module _ {P : Type 0} where
  unfoldable pub queue_all : List (ToasterToast P) → List ℕ → List ℕ
  unfolding add_to_remove_queue
  queue_all [] timeouts = timeouts
  queue_all (t ∷ toasts) timeouts = queue_all toasts (add_to_remove_queue t.id timeouts)

  -- `t.id === action.toast.id ? { ...t, ...action.toast } : t`
  unfoldable pub updated : ℕ → Option Bool → (P → P) → ToasterToast P → ToasterToast P
  updated id none f t = if t.id == id then record t { props = f t.props } else t
  updated id (some b) f t = if t.id == id then record t { open_now = b; props = f t.props } else t

  unfoldable pub closed : Option ℕ → ToasterToast P → ToasterToast P
  closed none t = record t { open_now = false }
  closed (some id) t = if t.id == id then record t { open_now = false } else t

  -- `reducer`: the new toasts, and the timeouts that its side effects have set
  unfoldable pub reducer : List (ToasterToast P) → Action P → List (ToasterToast P)
  unfolding updated closed
  reducer toasts (add_toast t) = take toast_limit (t ∷ toasts)
  reducer toasts (update_toast id b f) = map (updated id b f) toasts
  reducer toasts (dismiss_toast id) = map (closed id) toasts
  reducer toasts (remove_toast none) = []
  reducer toasts (remove_toast (some id)) = filter (λ t. not (t.id == id)) toasts

  unfoldable pub effects : List (ToasterToast P) → List ℕ → Action P → List ℕ
  unfolding add_to_remove_queue queue_all
  effects toasts timeouts (dismiss_toast (some id)) = add_to_remove_queue id timeouts
  effects toasts timeouts (dismiss_toast none) = queue_all toasts timeouts
  effects toasts timeouts _ = timeouts

  -- `dispatch`: the reducer, then every listener is called with the new state
  unfoldable pub dispatch : Action P → Store P → Store P
  unfolding reducer effects
  dispatch action s =
      let toasts = reducer s.toasts action in
      record s {
        toasts = toasts;
        timeouts = effects s.toasts s.timeouts action;
        listeners = map (λ l. (l.0, toasts)) s.listeners;
      }

  -- `toast(props)`: the new id comes back
  unfoldable pub toast : P → Store P → ℕ × Store P
  unfolding gen_id dispatch
  toast props s =
      let id = gen_id s.count in
      (
        id,
        dispatch (add_toast (record { id = id; open_now = true; props = props }))
            (record s { count = id }),
      )

  -- the callback of `setTimeout`
  unfoldable pub fire : ℕ → Store P → Store P
  unfolding dispatch
  fire id s =
      dispatch (remove_toast (some id))
        (record s { timeouts = filter (λ i. not (i == id)) s.timeouts })

  -- the effect of `useToast` and its cleanup: `listeners.push(setState)` by a component that shows
  -- `seen`, and the removal of the first entry of this identity
  unfoldable pub subscribe : ℕ → List (ToasterToast P) → Store P → Store P
  subscribe me seen s = record s { listeners = s.listeners ++ (me, seen) ∷ [] }

  abbrev pub remove_first : ℕ → List (ℕ × List (ToasterToast P)) → List (ℕ × List (ToasterToast P))
  remove_first me [] = []
  remove_first me (l ∷ ls) = if l.0 == me then ls else l ∷ remove_first me ls

  unfoldable pub unsubscribe : ℕ → Store P → Store P
  unsubscribe me s = record s { listeners = remove_first me s.listeners }
