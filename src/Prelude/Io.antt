-- ===== src/Prelude/Io.antt =====
-- Code that acts on a world `W`: what it returns, and the world after. A panic ends the run with
-- the world as it then is.
use Prim.Native.String.{String}
use azure_aci.Prelude.Errors.{Error, Result, ok, err, panics, wrapped, wrapped-eq-ok}
use mathlib.Core.Path.{◌≡◌, refl, ap, ◌∙◌}

abbrev pub Io : Type 0 → Type 0 → Type 0
Io W A = W → Result A × W

-- What a call that is looked at has returned: a value, or a non-nil error.
pub data Answer (A : Type 0) : Type 0 where
  returned : A → Answer A
  failed_with : Error → Answer A

module _ {W A : Type 0} where
  abbrev pub pure : A → Io W A
  pure a w = (ok a, w)

  abbrev pub raise : Error → Io W A
  raise e w = (err e, w)

  -- A computation that neither reads nor changes the world.
  abbrev pub lift : Result A → Io W A
  lift r w = (r, w)

  abbrev attempt_case : Result A → W → Result (Answer A) × W
  attempt_case (ok a) w = (ok (returned a), w)
  attempt_case (err e) w = (ok (failed_with e), w)
  attempt_case panics w = (panics, w)

  -- `a, err := m()` where the code goes on with the error in hand.
  abbrev pub attempt : Io W A → Io W (Answer A)
  attempt m w = let (r, w') = m w in attempt_case r w'

module _ {W : Type 0} where
  abbrev pub act : (W → W) → Io W (Unit {0})
  act f w = (ok tt, f w)

module _ {W A B : Type 0} where
  abbrev bind_case : Result A → W → (A → Io W B) → Result B × W
  bind_case (ok a) w f = f a w
  bind_case (err e) w f = (err e, w)
  bind_case panics w f = (panics, w)

  infixl 5 ◌>>=◌
  abbrev pub ◌>>=◌ : Io W A → (A → Io W B) → Io W B
  ◌>>=◌ m f w = let (r, w') = m w in bind_case r w' f

module _ {W B : Type 0} where
  infixl 5 ◌>>◌
  abbrev pub ◌>>◌ : Io W (Unit {0}) → Io W B → Io W B
  ◌>>◌ m k = m >>= λ _. k

module _ {W A B : Type 0} (m : Io W A) (f : A → Io W B) {w w' : W} where
  pub >>=-ok : {a : A} → m w ≡ (ok a, w') → (m >>= f) w ≡ f a w'
  >>=-ok {a} h = rw h refl

  pub >>=-err : {e : Error} → m w ≡ (err e, w') → (m >>= f) w ≡ (err e, w')
  >>=-err h = rw h refl

  pub >>=-panics : m w ≡ (panics, w') → (m >>= f) w ≡ (panics, w')
  >>=-panics h = rw h refl

-- An error of `m` is wrapped in a text.
abbrev pub wrapped_io : {W A : Type 0} → String → Io W A → Io W A
wrapped_io text m w = let (r, w') = m w in (wrapped text r, w')

pub wrapped_io-eq-ok :
    {W A : Type 0} (text : String) (m : Io W A) (w : W) {a : A} {w' : W}
    → wrapped_io text m w ≡ (ok a, w')
    → m w ≡ (ok a, w')
wrapped_io-eq-ok text m w {a} {w'} h =
    ap (λ r. (r, (m w).1)) (wrapped-eq-ok text (m w).0 (ap (λ x. x.0) h))
    ∙ ap (λ v. (ok a, v)) (ap (λ x. x.1) h)

bind_case-eq-ok :
    {W A B : Type 0} (r : Result A) (w1 : W) (f : A → Io W B) (b : B) (w' : W)
    → bind_case r w1 f ≡ (ok b, w')
    → (a : A) × (r ≡ ok a) × (f a w1 ≡ (ok b, w'))
bind_case-eq-ok (ok a) w1 f b w' h = (a, refl, h)
bind_case-eq-ok (err e) w1 f b w' h = cc
bind_case-eq-ok panics w1 f b w' h = cc

-- A chain that returns went through its first step.
pub >>=-eq-ok :
    {W A B : Type 0} (m : Io W A) (f : A → Io W B) (w : W) {b : B} {w' : W}
    → (m >>= f) w ≡ (ok b, w')
    → (a : A) × (w1 : W) × (m w ≡ (ok a, w1)) × (f a w1 ≡ (ok b, w'))
>>=-eq-ok m f w {b} {w'} h =
    let (a, p, q) = bind_case-eq-ok (m w).0 (m w).1 f b w' h in
    (a, (m w).1, ap (λ r. (r, (m w).1)) p, q)

pub lift->>=-eq-ok :
    {W A B : Type 0} (r : Result A) (f : A → Io W B) (w : W) {b : B} {w' : W}
    → (lift r >>= f) w ≡ (ok b, w')
    → (a : A) × (r ≡ ok a) × (f a w ≡ (ok b, w'))
lift->>=-eq-ok r f w {b} {w'} h = bind_case-eq-ok r w f b w' h

module _ {W A : Type 0} (m : Io W A) {w w' : W} where
  pub attempt-ok : {a : A} → m w ≡ (ok a, w') → attempt m w ≡ (ok (returned a), w')
  attempt-ok h = rw h refl

  pub attempt-err : {e : Error} → m w ≡ (err e, w') → attempt m w ≡ (ok (failed_with e), w')
  attempt-err h = rw h refl

attempt_case-returned :
    {W A : Type 0} (r : Result A) (w w' : W) (a : A)
    → attempt_case r w ≡ (ok (returned a), w')
    → ◌≡◌ {A = Result A × W} (r, w) (ok a, w')
attempt_case-returned (ok b) w w' a h = cc
attempt_case-returned (err e) w w' a h = cc
attempt_case-returned panics w w' a h = cc

-- An attempt that has a value is a call that returned it.
pub attempt-returned :
    {W A : Type 0} (m : Io W A) (w w' : W) (a : A)
    → attempt m w ≡ (ok (returned a), w')
    → m w ≡ (ok a, w')
attempt-returned m w w' a h = attempt_case-returned (m w).0 (m w).1 w' a h

-- `m` keeps `Inv`, whether it returns, fails or panics.
pub record Keeps {W A : Type 0} (Inv : W → Type 0) (m : Io W A) : Type 0 where
  pub at : (w : W) → Inv w → Inv (m w).1

attempt_case-world : {W A : Type 0} (r : Result A) (w : W) → (attempt_case r w).1 ≡ w
attempt_case-world (ok a) w = refl
attempt_case-world (err e) w = refl
attempt_case-world panics w = refl

module _ {W : Type 0} {Inv : W → Type 0} where
  pub Keeps-pure : {A : Type 0} (a : A) → Keeps Inv (pure a)
  Keeps-pure a = record { at = λ w h. h }

  pub Keeps-attempt : {A : Type 0} (m : Io W A) → Keeps Inv m → Keeps Inv (attempt m)
  Keeps-attempt m k = record { at = λ w h. rw attempt_case-world (k.at w h) }

  bind_case-keeps :
      {A B : Type 0} (r : Result A) (w : W) (f : A → Io W B)
      → Inv w
      → ((a : A) → Keeps Inv (f a))
      → Inv (bind_case r w f).1
  bind_case-keeps (ok a) w f h k = (k a).at w h
  bind_case-keeps (err e) w f h k = h
  bind_case-keeps panics w f h k = h

  pub Keeps->>= :
      {A B : Type 0} (m : Io W A) (f : A → Io W B)
      → Keeps Inv m
      → ((a : A) → Keeps Inv (f a))
      → Keeps Inv (m >>= f)
  Keeps->>= m f km kf = record { at = λ w h. bind_case-keeps (m w).0 (m w).1 f (km.at w h) kf }

  pub Keeps->> :
      {B : Type 0} (m : Io W (Unit {0})) (k : Io W B)
      → Keeps Inv m
      → Keeps Inv k
      → Keeps Inv (m >> k)
  Keeps->> m k km kk = Keeps->>= m (λ _. k) km (λ _. kk)

  -- A value that is computed from what `m` returns, and then acted on.
  pub Keeps-map->>= :
      {A B C : Type 0} (m : Io W A) (g : A → B) (f : B → Io W C)
      → Keeps Inv m
      → ((a : A) → Keeps Inv (f (g a)))
      → Keeps Inv ((m >>= λ a. pure (g a)) >>= f)
  Keeps-map->>= {A} {B} {C} m g f km kf = record { at = λ w h. go (m w).0 (m w).1 (km.at w h) }
    where
      go : (r : Result A) (w : W) → Inv w → Inv (((lift r >>= λ a. pure (g a)) >>= f) w).1
      go (ok a) w h = (kf a).at w h
      go (err e) w h = h
      go panics w h = h
