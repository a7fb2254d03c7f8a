-- ===== src/Rest/Backoff.antt =====
-- How long backoff of client/client.go waits.
use azure_aci.Prelude.{
  ℕ, suc, ◌*◌, ◌^◌, ◌≤◌, ◌<◌, ◌≡◌, refl, ap, ◌∙◌, ◌⊎◌, inl, inr, arith, ltb, leb, if◌then◌else◌,
  Result, ok, err, panics, Option, none, some, ok-injective, subst,
}
use native.Mathlib.Nat.{pow-succ', mul_assoc}
use azure_aci.Rest.{Matching, Attempted, doubled, backoff, retry_after}

abbrev capped : ℕ → ℕ → ℕ
capped max mult = if ltb mult (2 ^ 63) then (if ltb max mult then max else mult) else max

capped-le : (max mult : ℕ) → capped max mult ≤ max
capped-le max mult = ground arith

capped-double :
    (max mult : ℕ)
    → max < 2 ^ 63
    → capped max (2 * mult) ≡ (if leb (2 * capped max mult) max then 2 * capped max mult else max)
capped-double max mult fits = ground (arith, fits)

twice : (n min : ℕ) → 2 ^ suc n * min ≡ 2 * (2 ^ n * min)
twice n min = ap (λ v. v * min) (pow-succ' 2 n) ∙ mul_assoc 2 (2 ^ n) min

-- Where the greatest interval fits an int64, each wait is twice the one before it, as long as that does not
-- exceed the greatest interval, and then the greatest interval.
pub doubled-twice :
    (min max n : ℕ)
    → max < 2 ^ 63
    → doubled min max (suc n)
      ≡ (if leb (2 * doubled min max n) max then 2 * doubled min max n else max)
doubled-twice min max n fits = ap (capped max) (twice n min) ∙ capped-double max (2 ^ n * min) fits

-- A wait is never longer than the greatest interval, unless the service has asked for it.
pub backoff-le :
    {B : Type 0} (m : Matching) (min max n : ℕ) (resp : Attempted B) (wait : ℕ)
    → backoff m min max n resp ≡ ok wait
    → (wait ≤ max) ⊎ (retry_after m resp ≡ ok (some wait))
unfolding backoff
backoff-le m min max n resp wait h = go (retry_after m resp) refl h
  where
    go :
        (asked : Result (Option ℕ))
        → retry_after m resp ≡ asked
        → (elim asked [
          | panics ↦ panics
          | err e ↦ err e
          | ok (some wait) ↦ ok wait
          | ok none ↦ ok (doubled min max n)
        ])
          ≡ ok wait
        → (wait ≤ max) ⊎ (retry_after m resp ≡ ok (some wait))
    go panics same h = cc
    go (err e) same h = cc
    go (ok none) same h =
        inl (subst (λ v. v ≤ max) (ok-injective _ wait h) (capped-le max (2 ^ n * min)))
    go (ok (some v)) same h = inr (same ∙ ap (λ v. ok (some v)) (ok-injective v wait h))
