-- ===== src/Rest/Attempts.antt =====
-- How often RoundTrip of client/client.go sends a request.
use azure_aci.Prelude.{
  ℕ, zero, suc, ◌+◌, ◌≤◌, ◌<◌, ◌≡◌, sym, ap, ◌∙◌, false, ◌⊎◌, inl, inr, arith, some, Result, ok,
  err, panics, ok-injective, if-eq, subst,
}
use azure_aci.Rest.{
  Attempted, Request, UserAgentTransport, retry_policy, waited, retried, token_refreshed,
  after_refresh, round_trip, round_trip_over,
}

-- `count` tells how often the base transport was called: a call adds one, waiting and refreshing none.
pub record Counts {W B : Type 0} (t : UserAgentTransport W B) (base : Request → W → Attempted B × W)
    (count : W → ℕ) : Type 0 where
  pub is_base : t.base ≡ some base
  pub calling : (req : Request) (w : W) → count (base req w).1 ≡ suc (count w)
  pub sleeping : (wait : ℕ) (w : W) → count (t.sleep wait w) ≡ count w
  pub refreshing : (w : W) → count (token_refreshed t t.refresher w).1 ≡ count w

module _ {W B : Type 0} (t : UserAgentTransport W B) where
  waited-eq-ok :
      (r : Result ℕ) (again : W → Result (Attempted B) × W) (w : W) {out : Attempted B} {w' : W}
      → waited t r again w ≡ (ok out, w')
      → (wait : ℕ) × (again (t.sleep wait w) ≡ (ok out, w'))
  waited-eq-ok (ok wait) again w h = (wait, h)
  waited-eq-ok (err e) again w h = cc
  waited-eq-ok panics again w h = cc

module _ {W B : Type 0} (t : UserAgentTransport W B) (base : Request → W → Attempted B × W)
    (count : W → ℕ) (counts : Counts t base count) where
  -- The calls that `left` iterations may make, and that the answer is final if there were fewer.
  abbrev IsCounted : ℕ → ℕ → ℕ → Attempted B → Type 0
  IsCounted left before after answer =
      (before < after)
      × (after ≤ before + suc left)
      × ((retry_policy t.matching answer ≡ false) ⊎ (after ≡ before + suc left))

  retried-IsCounted :
      (left retries : ℕ) (req : Request) (w w' : W) (answer : Attempted B)
      → retried t base left retries req w ≡ (ok answer, w')
      → IsCounted left (count w) (count w') answer
  unfolding retried
  retried-IsCounted zero retries req w w' answer h =
      let called = sym (ap (λ x. count x.1) h) ∙ counts.calling req w in
      (omega (arith, called), omega (arith, called), inr (omega (arith, called)))
  retried-IsCounted (suc left) retries req w w' answer h =
      elim (if-eq (retry_policy t.matching (base req w).0) _ _ h) [
        | inl (again, waiting) ↦
            let (wait, next) = waited-eq-ok t _ (retried t base left (suc retries) req) _ waiting in
            let (more, few, last) = retried-IsCounted left (suc retries) req _ w' answer next in
            let slept = counts.sleeping wait (base req w).1 in
            (
              omega (arith, called, slept, more),
              omega (arith, called, slept, few),
              elim last [
                | inl final ↦ inl final
                | inr all ↦ inr (omega (arith, called, slept, all))
              ],
            )
        | inr (final, same) ↦
            let returned = ap (λ x. count x.1) same in
            (
              omega (arith, called, returned),
              omega (arith, called, returned),
              inl (
                  subst (λ a. retry_policy t.matching a ≡ false)
                    (ok-injective _ answer (ap (λ x. x.0) same)) final),
            )
      ]
    where
      called : count (base req w).1 ≡ suc (count w)
      called = counts.calling req w

  after_refresh-IsCounted :
      (req : Request) (fresh : Result (Unit {0})) (w w' : W) (answer : Attempted B)
      → after_refresh t base req fresh w ≡ (ok answer, w')
      → IsCounted t.retry_config.retry_max (count w) (count w') answer
  after_refresh-IsCounted req (ok u) w w' answer h =
      retried-IsCounted t.retry_config.retry_max 0 _ w w' answer h
  after_refresh-IsCounted req (err e) w w' answer h = cc
  after_refresh-IsCounted req panics w w' answer h = cc

  -- A round trip that returns an answer has sent the request at least once, and at most once more than
  -- the configured number of retries; if the answer is still one to be retried, exactly that often.
  pub round_trip-IsCounted :
      (req : Request) (w w' : W) (answer : Attempted B)
      → round_trip t req w ≡ (ok answer, w')
      → (count w < count w')
        × (count w' ≤ count w + suc t.retry_config.retry_max)
        × ((retry_policy t.matching answer ≡ false)
            ⊎ (count w' ≡ count w + suc t.retry_config.retry_max))
  unfolding round_trip
  round_trip-IsCounted req w w' answer h =
      let through = sym (ap (λ b. round_trip_over t b req w) counts.is_base) ∙ h in
      let (more, few, last) = after_refresh-IsCounted req _ _ w' answer through in
      let same = counts.refreshing w in
      (
        omega (arith, same, more),
        omega (arith, same, few),
        elim last [ inl final ↦ inl final | inr all ↦ inr (omega (arith, same, all)) ],
      )
