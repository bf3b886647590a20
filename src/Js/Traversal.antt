-- ===== src/Js/Traversal.antt =====
-- What `xs.map(f)` does for an `f` that may throw, and what reading a property gives.
use wwfsdb.Base.{
  ◌≡◌, refl, subst, String, List, [], ◌∷◌, All, ◌⊎◌, arith, inl, inr, ◌==◌, eq_iff, if◌then◌else◌,
}
use wwfsdb.Js.Value.{
  Value, undefined, null, bool, num, str, arr, obj, Fields, end, field, Exn, Result, ok, throw,
  traverse, get, own, get_field, set_field,
}

pub Returns-cases :
    {A : Type 0} (r : Result A) → ((a : A) × (r ≡ ok a)) ⊎ ((e : Exn) × (r ≡ throw e))
Returns-cases (ok a) = inl (a, refl)
Returns-cases (throw e) = inr (e, refl)

pub traverse-All :
    {A B : Type 0} (f : A → Result B) (P : B → Type 0)
    → ((a : A) (b : B) → f a ≡ ok b → P b)
    → (xs : List A) (ys : List B) → traverse f xs ≡ ok ys
    → All P ys
traverse-All f P good [] [] h = tt
traverse-All f P good [] (y ∷ ys) h = absurd (ground arith)
traverse-All f P good (x ∷ xs) ys h = elim (Returns-cases (f x)) [
  | inr (e, p) ↦ absurd (let m = rw (traverse, p) at h in ground arith)
  | inl (y, p) ↦ elim (Returns-cases (traverse f xs)) [
    | inr (e, q) ↦ absurd (let m = rw (traverse, p, q) at h in ground arith)
    | inl (zs, q) ↦
        let m = rw (traverse, p, q) at h in
        let same : y ∷ zs ≡ ys = ground arith in
        subst (All P) same (good x y p, traverse-All f P good xs zs q)
  ]
]

-- Over objects, a function that never throws on one never throws.
pub traverse-ok :
    {A B : Type 0} (f : A → Result B) (P : A → Type 0)
    → ((a : A) → P a → (b : B) × (f a ≡ ok b))
    → (xs : List A) → All P xs
    → (ys : List B) × (traverse f xs ≡ ok ys)
traverse-ok f P good [] tt = ([], refl)
traverse-ok f P good (x ∷ xs) (p, ps) =
    let (y, e) = good x p in
    let (ys, es) = traverse-ok f P good xs ps in (y ∷ ys, rw (traverse, e, es) refl)

-- It only returns if `f` does so on each element.
pub traverse-eq-ok :
    {A B : Type 0} (f : A → Result B) (xs : List A) {ys : List B}
    → traverse f xs ≡ ok ys
    → All (λ x. (y : B) × (f x ≡ ok y)) xs
traverse-eq-ok f [] h = tt
traverse-eq-ok f (x ∷ xs) h = elim (Returns-cases (f x)) [
  | inr (e, p) ↦ absurd (let m = rw (traverse, p) at h in ground arith)
  | inl (y, p) ↦ elim (Returns-cases (traverse f xs)) [
    | inr (e, q) ↦ absurd (let m = rw (traverse, p, q) at h in ground arith)
    | inl (zs, q) ↦ ((y, p), traverse-eq-ok f xs q)
  ]
]

-- Two lists of one length, element by element.
abbrev pub Pairwise : {A B : Type 0} → (A → B → Type 0) → List A → List B → Type 0
Pairwise P [] [] = Unit
Pairwise P (x ∷ xs) (y ∷ ys) = P x y × Pairwise P xs ys
Pairwise P _ _ = ⊥

pub traverse-Pairwise :
    {A B : Type 0} (f : A → Result B) (P : A → B → Type 0)
    → ((a : A) (b : B) → f a ≡ ok b → P a b)
    → (xs : List A) (ys : List B) → traverse f xs ≡ ok ys
    → Pairwise P xs ys
traverse-Pairwise f P good [] [] h = tt
traverse-Pairwise f P good [] (y ∷ ys) h = absurd (ground arith)
traverse-Pairwise f P good (x ∷ xs) ys h = elim (Returns-cases (f x)) [
  | inr (e, p) ↦ absurd (let m = rw (traverse, p) at h in ground arith)
  | inl (y, p) ↦ elim (Returns-cases (traverse f xs)) [
    | inr (e, q) ↦ absurd (let m = rw (traverse, p, q) at h in ground arith)
    | inl (zs, q) ↦
        let m = rw (traverse, p, q) at h in
        let same : y ∷ zs ≡ ys = ground arith in
        subst (Pairwise P (x ∷ xs)) same (good x y p, traverse-Pairwise f P good xs zs q)
  ]
]

-- A property that was read is the own one.
pub own-get :
    {N : Type 0} (key : String) (v : Value N) {x : Value N} → get key v ≡ ok x → own key v ≡ x
own-get key undefined e = absurd (ground arith)
own-get key null e = absurd (ground arith)
own-get key (bool b) e = ground arith
own-get key (num n) e = ground arith
own-get key (str s) e = ground arith
own-get key (arr vs) e = ground arith
own-get key (obj fs) e = ground arith

-- A property after it, or another one, has been set.
pub get_field-set_field :
    {N : Type 0} (k key : String) (v : Value N) (fs : Fields N)
    → get_field k (set_field key v fs) ≡ (if key == k then v else get_field k fs)
get_field-set_field k key v end = ground arith
get_field-set_field k key v (field j w fs) =
    ground (arith, get_field-set_field k key v fs, eq_iff j key, eq_iff j k, eq_iff key k)
