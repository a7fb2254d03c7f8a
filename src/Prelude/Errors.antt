-- ===== src/Prelude/Errors.antt =====
-- Go's way to fail. An error value is seen through what the program asks of it: its text, and
-- whether `errdefs.IsNotFound`, the Kubernetes `IsNotFound` or a status code says "not found".
-- `panics` is a run-time panic, such as a read through a nil pointer.
use Prim.Native.Nat.{ℕ}
use Prim.Native.String.{String, ◌++◌ as append}
use mathlib.Core.Path.{◌≡◌, refl}
use mathlib.Core.Logic.{◌⊎◌, inl, inr}
use mathlib.Core.Bool.{Bool, true, false, not}
use mathlib.Core.Option.{Option, none, some}
use azure_aci.Prelude.Tests.{if◌then◌else◌}

pub data Error : Type 0 where
  plain : String → Error  -- fmt.Errorf, errors.New, errors.Errorf
  not_found : String → Error  -- errdefs.NotFound
  invalid_input : String → Error  -- errdefs.InvalidInput
  k8s : Bool → String → Error  -- of the API server, with what its IsNotFound says
  azure : ℕ → String → Error  -- of the Azure SDK, with the status code of the response
  api : ℕ → String → Error  -- *api.Error of the REST client in client/api, with its status code

-- The text of an error.
abbrev pub message_of : Error → String
message_of (plain s) = s
message_of (not_found s) = s
message_of (invalid_input s) = s
message_of (k8s _ s) = s
message_of (azure _ s) = s
message_of (api _ s) = s

-- errdefs.IsNotFound
abbrev pub is_not_found : Error → Bool
is_not_found (not_found _) = true
is_not_found _ = false

-- k8serr.IsNotFound
abbrev pub is_k8s_missing : Error → Bool
is_k8s_missing (k8s b _) = b
is_k8s_missing _ = false

pub data Result {ℓ} (A : Type ℓ) : Type ℓ where
  panics : Result A
  err : Error → Result A
  ok : A → Result A

infixl 5 ◌>>=◌
abbrev pub ◌>>=◌ {ℓ κ} : {A : Type ℓ} {B : Type κ} → Result A → (A → Result B) → Result B
panics >>= next = panics
err e >>= next = err e
ok a >>= next = next a

infixl 5 ◌>>◌
abbrev pub ◌>>◌ {ℓ} : {B : Type ℓ} → Result (Unit {0}) → Result B → Result B
first >> second = first >>= λ _. second

-- `if b { return nil, e }`
abbrev pub fail_if : Bool → Error → Result (Unit {0})
fail_if true e = err e
fail_if false e = ok tt

-- `*p`
abbrev pub deref {ℓ} : {A : Type ℓ} → Option A → Result A
deref none = panics
deref (some a) = ok a

-- A bind that has returned: what its first part returned, and that the second returned from it.
module _ {ℓ κ} {A : Type ℓ} {B : Type κ} {b : B} where
  pub >>=-eq-ok :
      (r : Result A) (next : A → Result B)
      → (r >>= next) ≡ ok b
      → (a : A) × (r ≡ ok a) × (next a ≡ ok b)
  >>=-eq-ok panics next returned = cc
  >>=-eq-ok (err e) next returned = cc
  >>=-eq-ok (ok a) next returned = (a, refl, returned)

pub ok-injective {ℓ} : {A : Type ℓ} (a b : A) → ok a ≡ ok b → a ≡ b
ok-injective a b h = cc

pub deref-eq-ok {ℓ} : {A : Type ℓ} (o : Option A) {a : A} → deref o ≡ ok a → o ≡ some a
deref-eq-ok none h = cc
deref-eq-ok (some b) h = cc

abbrev pub is_ok {ℓ} : {A : Type ℓ} → Result A → Bool
is_ok (ok _) = true
is_ok _ = false

abbrev pub is_panic {ℓ} : {A : Type ℓ} → Result A → Bool
is_panic panics = true
is_panic _ = false

pub Result-cases {ℓ} :
    {A : Type ℓ} (r : Result A)
    → ((a : A) × (r ≡ ok a)) ⊎ ((e : Error) × (r ≡ err e)) ⊎ (r ≡ panics)
Result-cases (ok a) = inl (a, refl)
Result-cases (err e) = inr (inl (e, refl))
Result-cases panics = inr (inr refl)

-- What is said of the value of a run, if there is one.
abbrev pub OnOk : {A : Type 0} → (A → Type 0) → Result A → Type 0
OnOk P (ok a) = P a
OnOk P (err e) = Unit
OnOk P panics = Unit

pub OnOk-two :
    {A B C : Type 0} (P : C → Type 0) (f : A → B → C) (r : Result A) (q : Result B)
    → ((a : A) (b : B) → P (f a b))
    → OnOk P (r >>= λ a. q >>= λ b. ok (f a b))
OnOk-two P f (ok a) (ok b) h = h a b
OnOk-two P f (ok a) (err e) h = tt
OnOk-two P f (ok a) panics h = tt
OnOk-two P f (err e) q h = tt
OnOk-two P f panics q h = tt

pub OnOk-trivial : {A : Type 0} (r : Result A) → OnOk (λ _. Unit) r
OnOk-trivial (ok a) = tt
OnOk-trivial (err e) = tt
OnOk-trivial panics = tt

-- A test that did not fail.
pub fail_if-eq-ok : (b : Bool) (e : Error) {u : Unit {0}} → fail_if b e ≡ ok u → b ≡ false
fail_if-eq-ok true e h = cc
fail_if-eq-ok false e h = refl

pub fail_if-not-eq-ok : (b : Bool) (e : Error) {u : Unit {0}} → fail_if (not b) e ≡ ok u → b ≡ true
fail_if-not-eq-ok true e h = refl
fail_if-not-eq-ok false e h = cc

-- A branch that fails was not taken.
pub else_err-eq-ok :
    {A : Type 0} {a : A} (b : Bool) (r : Result A) (e : Error)
    → (if b then r else err e) ≡ ok a
    → r ≡ ok a
else_err-eq-ok true r e h = h
else_err-eq-ok false r e h = cc

-- The branch that was taken.
pub if-eq-ok :
    {A : Type 0} {a : A} (b : Bool) (r s : Result A)
    → (if b then r else s) ≡ ok a
    → ((b ≡ true) × (r ≡ ok a)) ⊎ ((b ≡ false) × (s ≡ ok a))
if-eq-ok true r s h = inl (refl, h)
if-eq-ok false r s h = inr (refl, h)

-- An error of `r` is wrapped in a text.
abbrev pub wrapped {ℓ} : {A : Type ℓ} → String → Result A → Result A
wrapped text (ok a) = ok a
wrapped text (err e) = err (plain (append text (message_of e)))
wrapped text panics = panics

pub wrapped-eq-ok :
    {A : Type 0} {a : A} (text : String) (r : Result A) → wrapped text r ≡ ok a → r ≡ ok a
wrapped-eq-ok text (ok b) h = h
wrapped-eq-ok text (err e) h = cc
wrapped-eq-ok text panics h = cc
