-- ===== src/Js/Action/Inversion.antt =====
-- What a result says of the steps that led to it.
use wwfsdb.Base.{◌≡◌, refl, ◌⊎◌, inl, inr}
use wwfsdb.Js.Value.{Exn, Result, ok, throw}
use wwfsdb.Js.Action.{Action, World, lift, catch, ◌>>=◌}

module _ {S A B : Type 0} where
  -- A bind that returns: its first part returned, and the second part ran where that left off.
  pub record Ran (m : Action S A) (f : A → Action S B) (w : World S) (r : B) : Type 0 where
    pub value : A
    pub first : (m w).0 ≡ ok value
    pub then_result : (f value (m w).1).0 ≡ ok r
    pub world : ((m >>= f) w).1 ≡ (f value (m w).1).1

  pub >>=-eq-ok :
      (m : Action S A) (f : A → Action S B) (w : World S) {r : B}
      → ((m >>= f) w).0 ≡ ok r
      → Ran m f w r
  unfolding ◌>>=◌
  >>=-eq-ok m f w {r} h =
      let (a, p, q, e) = go (m w).0 (m w).1 h in
      record { value = a; first = p; then_result = q; world = e }
    where
      go :
          (x : Result A) (w' : World S)
          → ((lift x >>= f) w').0 ≡ ok r
          → (a : A) × (x ≡ ok a) × ((f a w').0 ≡ ok r) × (((lift x >>= f) w').1 ≡ (f a w').1)
      go (ok a) w' h = (a, refl, h, refl)
      go (throw e) w' h = cc

module _ {S A : Type 0} where
  -- A `try` that throws: its handler threw, in the world where the body left off.
  pub catch-eq-throw :
      (m : Action S A) (h : Exn → Action S A) (w : World S) {e : Exn}
      → (catch m h w).0 ≡ throw e
      → (x : Exn) × ((m w).0 ≡ throw x) × ((h x (m w).1).0 ≡ throw e)
  unfolding catch lift
  catch-eq-throw m h w {e} t = let (r, w') = m w in go r w' t
    where
      go :
          (r : Result A) (w' : World S)
          → (catch (lift r) h w').0 ≡ throw e
          → (x : Exn) × (r ≡ throw x) × ((h x w').0 ≡ throw e)
      go (ok a) w' t = cc
      go (throw x) w' t = (x, refl, t)

module _ {S A B : Type 0} where
  -- A bind, whatever comes of it: its first part threw and that was all, or the second part ran where
  -- the first left off.
  pub >>=-cases :
      (m : Action S A) (f : A → Action S B) (w : World S)
      → ((e : Exn) × ((m w).0 ≡ throw e) × (((m >>= f) w).1 ≡ (m w).1))
        ⊎ ((a : A) × ((m w).0 ≡ ok a) × (((m >>= f) w).1 ≡ (f a (m w).1).1))
  unfolding ◌>>=◌
  >>=-cases m f w = let (r, w') = m w in go r w'
    where
      go :
          (r : Result A) (w' : World S)
          → ((e : Exn) × (r ≡ throw e) × (((lift r >>= f) w').1 ≡ w'))
            ⊎ ((a : A) × (r ≡ ok a) × (((lift r >>= f) w').1 ≡ (f a w').1))
      go (ok a) w' = inr (a, refl, refl)
      go (throw e) w' = inl (e, refl, refl)

module _ {S A B : Type 0} where
  -- The same for the outcome as a whole.
  pub >>=-course :
      (m : Action S A) (f : A → Action S B) (w : World S)
      → ((e : Exn) × ((m w).0 ≡ throw e) × ((m >>= f) w ≡ (throw e, (m w).1)))
        ⊎ ((a : A) × ((m w).0 ≡ ok a) × ((m >>= f) w ≡ f a (m w).1))
  unfolding ◌>>=◌
  >>=-course m f w = let (r, w') = m w in go r w'
    where
      go :
          (r : Result A) (w' : World S)
          → ((e : Exn) × (r ≡ throw e) × ((lift r >>= f) w' ≡ (throw e, w')))
            ⊎ ((a : A) × (r ≡ ok a) × ((lift r >>= f) w' ≡ f a w'))
      go (ok a) w' = inr (a, refl, refl)
      go (throw e) w' = inl (e, refl, refl)

module _ {S A : Type 0} where
  -- A `try`, whatever comes of it.
  pub catch-course :
      (m : Action S A) (h : Exn → Action S A) (w : World S)
      → ((e : Exn) × ((m w).0 ≡ throw e) × (catch m h w ≡ h e (m w).1))
        ⊎ ((a : A) × ((m w).0 ≡ ok a) × (catch m h w ≡ (ok a, (m w).1)))
  unfolding catch lift
  catch-course m h w = let (r, w') = m w in go r w'
    where
      go :
          (r : Result A) (w' : World S)
          → ((e : Exn) × (r ≡ throw e) × (catch (lift r) h w' ≡ h e w'))
            ⊎ ((a : A) × (r ≡ ok a) × (catch (lift r) h w' ≡ (ok a, w')))
      go (ok a) w' = inr (a, refl, refl)
      go (throw e) w' = inl (e, refl, refl)
