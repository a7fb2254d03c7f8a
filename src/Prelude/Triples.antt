-- ===== src/Prelude/Triples.antt =====
-- Code that acts on a world, with what holds of the value that it returns.
use azure_aci.Prelude.Errors.{Error, Result, ok, err, panics, OnOk, OnOk-trivial}
use azure_aci.Prelude.Io.{
  Io, pure, raise, lift, attempt, Answer, returned, failed_with, ◌>>=◌, Keeps,
}
use azure_aci.Prelude.Tests.{if◌then◌else◌}
use mathlib.Core.Bool.{Bool, true, false}

-- From a world with `Inv`, `m` leaves one with `Inv`, however it ends; and a value that it returns has `P`.
pub record Ensures {W A : Type 0} (Inv : W → Type 0) (P : A → Type 0) (m : Io W A) : Type 0 where
  pub at : (w : W) → Inv w → Inv (m w).1 × OnOk P (m w).0

-- What is said of an answer: `P` of a value.
abbrev pub OnReturned : {A : Type 0} → (A → Type 0) → Answer A → Type 0
OnReturned P (returned a) = P a
OnReturned P (failed_with e) = Unit

attempt_ensures :
    {W A : Type 0} (Inv : W → Type 0) (P : A → Type 0) (r : Result A) (w : W)
    → Inv w × OnOk P r
    → Inv (attempt (lift r) w).1 × OnOk (OnReturned P) (attempt (lift r) w).0
attempt_ensures Inv P (ok a) w h = h
attempt_ensures Inv P (err e) w h = (h.0, tt)
attempt_ensures Inv P panics w h = (h.0, tt)

module _ {W : Type 0} {Inv : W → Type 0} where
  pub Ensures-pure : {A : Type 0} {P : A → Type 0} (a : A) → P a → Ensures Inv P (pure a)
  Ensures-pure a p = record { at = λ w h. (h, p) }

  pub Ensures-raise : {A : Type 0} {P : A → Type 0} (e : Error) → Ensures Inv P (raise e)
  Ensures-raise e = record { at = λ w h. (h, tt) }

  pub Ensures-lift :
      {A : Type 0} {P : A → Type 0} (r : Result A) → OnOk P r → Ensures Inv P (lift r)
  Ensures-lift r p = record { at = λ w h. (h, p) }

  bind-Ensures :
      {A B : Type 0} {P : A → Type 0} {Q : B → Type 0} (r : Result A) (w : W) (f : A → Io W B)
      → Inv w × OnOk P r
      → ((a : A) → P a → Ensures Inv Q (f a))
      → Inv ((lift r >>= f) w).1 × OnOk Q ((lift r >>= f) w).0
  bind-Ensures (ok a) w f h k = (k a h.1).at w h.0
  bind-Ensures (err e) w f h k = (h.0, tt)
  bind-Ensures panics w f h k = (h.0, tt)

  pub Ensures->>= :
      {A B : Type 0} (P : A → Type 0) {Q : B → Type 0} (m : Io W A) (f : A → Io W B)
      → Ensures Inv P m
      → ((a : A) → P a → Ensures Inv Q (f a))
      → Ensures Inv Q (m >>= f)
  Ensures->>= P m f em ef = record {
    at = λ w h. bind-Ensures {P = P} (m w).0 (m w).1 f (em.at w h) ef;
  }

  pub Ensures-attempt :
      {A : Type 0} (P : A → Type 0) (m : Io W A)
      → Ensures Inv P m
      → Ensures Inv (OnReturned P) (attempt m)
  Ensures-attempt P m em = record { at = λ w h. attempt_ensures Inv P (m w).0 (m w).1 (em.at w h) }

  -- What keeps the invariant ensures nothing more.
  pub Ensures-of_Keeps : {A : Type 0} (m : Io W A) → Keeps Inv m → Ensures Inv (λ _. Unit) m
  Ensures-of_Keeps m k = record { at = λ w h. (k.at w h, OnOk-trivial (m w).0) }

  pub Ensures-if :
      {A : Type 0} {P : A → Type 0} (b : Bool) (m n : Io W A)
      → Ensures Inv P m
      → Ensures Inv P n
      → Ensures Inv P (if b then m else n)
  Ensures-if true m n em en = em
  Ensures-if false m n em en = en
