-- ===== src/Rest.antt =====
-- The REST client library in client/: how a request is sent (client/client.go), and, in the children, what
-- the clients of container groups, subnets and resource groups ask for and make of the answers.
pub mod Attempts
pub mod Backoff
pub mod Api
pub mod Groups
pub mod Containers
pub mod Resources
pub mod Answered
pub mod Clouds
pub mod Clients
mod Examples
use azure_aci.Prelude.{
  ℕ, zero, suc, ◌*◌, ◌^◌, ◌%◌, String, ◌==◌, ◌<>◌, join, Bool, true, false, not, ◌||◌, Option, none,
  some, List, [], ◌∷◌, eqb, ltb, if◌then◌else◌, lookup, Error, plain, Result, ok, err, panics,
  message_of, wrapped,
}
use azure_aci.Prelude.Io.{Io, attempt, Answer, returned, failed_with}

-- HTTPRetryConfig; the durations are in nanoseconds and not negative.
pub record HttpRetryConfig : Type 0 where
  pub retry_wait_min : ℕ
  pub retry_wait_max : ℕ
  pub retry_max : ℕ

abbrev pub default_retry_config : HttpRetryConfig
default_retry_config = record {
  retry_wait_min = 1000000000;
  retry_wait_max = 60000000000;
  retry_max = 40;
}

-- A header or query: its keys with their values.
abbrev pub Header : Type 0
Header = List (String × List String)

-- An error of the transport: its text, and if it is a *url.Error, whether the error within is an
-- x509.UnknownAuthorityError.
pub record TransportError : Type 0 where
  pub error_text : String
  pub url_error : Option Bool

pub record HttpResponse (B : Type 0) : Type 0 where
  pub status_code : ℕ
  pub status : String
  pub header : Header
  pub body : B

-- What a round trip returns.
pub data Attempted (B : Type 0) : Type 0 where
  answered : HttpResponse B → Attempted B
  failed : TransportError → Attempted B

-- Regular expressions for the texts of errors, and `strconv.ParseInt(s, 10, 64)`, whose value is given as its
-- 64-bit word.
pub record Matching : Type 0 where
  pub matches_redirects : String → Bool
  pub matches_scheme : String → Bool
  pub parse_int : String → Option ℕ

-- StatusCodesForRetry
abbrev pub status_codes_for_retry : List ℕ
status_codes_for_retry = 408 ∷ 429 ∷ 500 ∷ 502 ∷ 503 ∷ 504 ∷ []

abbrev pub has_code : ℕ → List ℕ → Bool
has_code code [] = false
has_code code (retriable_code ∷ codes) = eqb code retriable_code || has_code code codes

-- The doubled wait. It is computed in float64, exactly, since only the exponent grows; where it does
-- not fit an int64, the conversion does not give it back, and `max` is taken (for `min` below 2 ^ 53, and
-- fewer than a thousand attempts).
abbrev pub doubled : ℕ → ℕ → ℕ → ℕ
doubled min max attempt_num =
    let mult = 2 ^ attempt_num * min in
    if ltb mult (2 ^ 63) then (if ltb max mult then max else mult) else max

module _ (m : Matching) where
  -- Whether an error of the type *url.Error is final.
  abbrev pub is_final : TransportError → Option Bool → Bool
  is_final e none = false
  is_final e (some is_unknown_authority) =
      m.matches_redirects e.error_text || m.matches_scheme e.error_text || is_unknown_authority

  -- The wait that the service asks for; a header without a value is read out of bounds.
  abbrev pub asked_wait : Option (List String) → Result (Option ℕ)
  asked_wait none = ok none
  asked_wait (some []) = panics
  asked_wait (some (s ∷ rest)) = elim (m.parse_int s) [
    | none ↦ ok none
    | some sleep ↦ ok (some (1000000000 * sleep % 2 ^ 64))
  ]

module _ {B : Type 0} (m : Matching) where
  -- retryPolicy, without the error that it gives as a reason.
  unfoldable pub retry_policy : Attempted B → Bool
  retry_policy (failed e) = not (is_final m e e.url_error)
  retry_policy (answered resp) = has_code resp.status_code status_codes_for_retry

  abbrev pub retry_after : Attempted B → Result (Option ℕ)
  retry_after (failed e) = ok none
  retry_after (answered resp) =
      if eqb resp.status_code 429 then asked_wait m (lookup resp.header "Retry-After") else ok none

  -- backoff, as the 64-bit word of the duration.
  unfoldable pub backoff : ℕ → ℕ → ℕ → Attempted B → Result ℕ
  backoff min max attempt_num resp = elim (retry_after resp) [
    | panics ↦ panics
    | err e ↦ err e
    | ok (some wait) ↦ ok wait
    | ok none ↦ ok (doubled min max attempt_num)
  ]

pub record Request : Type 0 where
  pub verb : String
  pub url : String
  pub header : Header
  pub body : Option String

abbrev without : String → Header → Header
without key [] = []
without key (entry ∷ rest) =
    let others = without key rest in if entry.0 == key then others else entry ∷ others

-- `header[key] = values`
abbrev pub set_header : String → List String → Header → Header
set_header key values header = (key, values) ∷ without key header

-- userAgentTransport: the transport below it, EnsureFresh if the token provider is a Refresher, its
-- OAuthToken, and time.Sleep.
pub record UserAgentTransport (W B : Type 0) : Type 0 where
  pub user_agent : List String
  pub base : Option (Request → W → Attempted B × W)
  pub refresher : Option (Io W (Unit {0}))
  pub o_auth_token : W → String
  pub sleep : ℕ → W → W
  pub retry_config : HttpRetryConfig
  pub matching : Matching

-- The agents that NewClient keeps.
abbrev pub non_empty_user_agent : List String → List String
non_empty_user_agent [] = []
non_empty_user_agent (ua ∷ user_agent) =
    let rest = non_empty_user_agent user_agent in if ua == "" then rest else ua ∷ rest

module _ {W B : Type 0} (t : UserAgentTransport W B) where
  abbrev pub with_header : String → Request → Request
  with_header token req = record req {
    header = set_header "Authorization" (("Bearer " <> token) ∷ []) (
        set_header "Content-Type" ("application/json" ∷ [])
          (set_header "User-Agent" (join " " t.user_agent ∷ []) req.header));
  }

  -- After an attempt that is to be retried: the wait, and the next one.
  abbrev pub waited : Result ℕ → (W → Result (Attempted B) × W) → W → Result (Attempted B) × W
  waited (ok wait) again w = again (t.sleep wait w)
  waited (err e) again w = (err e, w)
  waited panics again w = (panics, w)

  -- The loop of RoundTrip, with the iterations that are left and those that were made; after it there is
  -- one more attempt.
  unfoldable pub retried :
      (Request → W → Attempted B × W) → ℕ → ℕ → Request → W → Result (Attempted B) × W
  unfolding retry_policy backoff
  retried base zero retries new_req w = let (answer, w') = base new_req w in (ok answer, w')
  retried base (suc left) retries new_req w =
      let (answer, w') = base new_req w in
      let again = retried base left (suc retries) new_req in
      (if retry_policy t.matching answer
        then waited
            (backoff t.matching t.retry_config.retry_wait_min t.retry_config.retry_wait_max retries
              answer)
            again w'
        else (ok answer, w'))

  abbrev pub token_refreshed : Option (Io W (Unit {0})) → Io W (Unit {0})
  token_refreshed none w = (ok tt, w)
  token_refreshed (some ensure_fresh) w = ensure_fresh w

  abbrev pub after_refresh :
      (Request → W → Attempted B × W) → Request → Result (Unit {0}) → W → Result (Attempted B) × W
  after_refresh base req (ok u) w =
      retried base t.retry_config.retry_max 0 (with_header (t.o_auth_token w) req) w
  after_refresh base req (err e) w = (
    err (
        plain (
          "Failed to refresh the authorization token for request to "
          <> (req.url <> (": " <> message_of e)))),
    w,
  )
  after_refresh base req panics w = (panics, w)

  -- RoundTrip
  abbrev pub round_trip_over :
      Option (Request → W → Attempted B × W) → Request → W → Result (Attempted B) × W
  round_trip_over none req w = (err (plain "RoundTrip: no Transport specified"), w)
  round_trip_over (some base) req w =
      let (fresh, w') = token_refreshed t.refresher w in after_refresh base req fresh w'

  unfoldable pub round_trip : Request → W → Result (Attempted B) × W
  unfolding retried
  round_trip req w = round_trip_over t.base req w
