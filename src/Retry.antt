-- ===== src/Retry.antt =====
-- pkg/client/retry.go: SetupRetry. An int is an int64, and a duration counts nanoseconds in an int64.
use azure_aci.Prelude.{
  ℕ, suc, ◌-◌, ◌*◌, ◌%◌, ◌^◌, String, Bool, true, false, not, ◌&&◌, ◌||◌, ◌==◌, ◌≡◌, refl, Result,
  ok, err, plain, is_ok, ◌>>=◌, if◌then◌else◌, ◌∙◌, panics,
}
use azure_aci.K8s.{ℤ, pos, negsuc, to_int64}

-- os.Getenv, and strconv.Atoi with the value that it returns beside an error, if there is one. The
-- flag says whether the text was converted.
pub record Environment : Type 0 where
  pub getenv : String → String
  pub atoi : String → ℤ × Bool

pub record HttpRetryConfig : Type 0 where
  pub retry_wait_min : ℤ
  pub retry_wait_max : ℤ
  pub retry_max : ℤ

abbrev second : ℕ
second = 1000000000

abbrev pub default_retry_interval_min : ℤ
default_retry_interval_min = pos 1000000000

abbrev pub default_retry_interval_max : ℤ
default_retry_interval_max = pos 60000000000

abbrev pub default_retry_max : ℤ
default_retry_max = pos 40

-- time.Duration(ret) * time.Second, which wraps around.
pub seconds : ℤ → ℤ
seconds (pos n) = to_int64 ((n * second) % 2 ^ 64)
seconds (negsuc n) = to_int64 ((2 ^ 64 - ((suc n * second) % 2 ^ 64)) % 2 ^ 64)

-- The test of the error is `err == nil` here, so a text that was converted is refused.
pub wait_min : Environment → String → Result ℤ
unfolding seconds
wait_min e value =
    if value == ""
    then ok default_retry_interval_min
    else if (e.atoi value).1
    then err (
        plain "env RETRY_MINIMUM_INTERVAL_IN_SECOND is not able to convert to int, err: %!s(<nil>)")
    else ok (seconds (e.atoi value).0)

pub wait_max : Environment → String → Result ℤ
unfolding seconds
wait_max e value =
    if value == ""
    then ok default_retry_interval_max
    else if not (e.atoi value).1
    then err (plain "env RETRY_MAXIMUM_INTERVAL_IN_SECOND is not able to convert to int")
    else ok (seconds (e.atoi value).0)

pub max_count : Environment → String → Result ℤ
max_count e value =
    if value == ""
    then ok default_retry_max
    else if not (e.atoi value).1
    then err (plain "env RETRY_MAXIMUM_COUNT is not able to convert to int")
    else ok (e.atoi value).0

-- The texts of the errors leave out what Atoi says.
unfoldable pub setup_retry : Environment → Result HttpRetryConfig
unfolding wait_min wait_max max_count
setup_retry e = do
  retry_wait_min ← wait_min e (e.getenv "RETRY_MINIMUM_INTERVAL_IN_SECOND")
  retry_wait_max ← wait_max e (e.getenv "RETRY_MAXIMUM_INTERVAL_IN_SECOND")
  retry_max ← max_count e (e.getenv "RETRY_MAXIMUM_COUNT")
  ok (record {
    retry_wait_min = retry_wait_min;
    retry_wait_max = retry_wait_max;
    retry_max = retry_max;
  })

is_ok-three :
    {A B C D : Type 0} (f : A → B → C → D) (r : Result A) (q : Result B) (s : Result C)
    → is_ok (r >>= λ a. q >>= λ b. s >>= λ c. ok (f a b c)) ≡ (is_ok r && (is_ok q && is_ok s))
is_ok-three f panics q s = refl
is_ok-three f (err x) q s = refl
is_ok-three f (ok a) panics s = refl
is_ok-three f (ok a) (err x) s = refl
is_ok-three f (ok a) (ok b) panics = refl
is_ok-three f (ok a) (ok b) (err x) = refl
is_ok-three f (ok a) (ok b) (ok c) = refl

-- Whether a variable is unset or empty, and whether its value is a number.
abbrev pub is_unset : Environment → String → Bool
is_unset e name = e.getenv name == ""

abbrev pub is_number : Environment → String → Bool
is_number e name = (e.atoi (e.getenv name)).1

is_ok-test :
    {A : Type 0} (unset bad : Bool) (usual given : A) (text : String)
    → is_ok (if unset then ok usual else if bad then err (plain text) else ok given)
      ≡ (unset || not bad)
is_ok-test true bad usual given text = refl
is_ok-test false true usual given text = refl
is_ok-test false false usual given text = refl

not-not : (b : Bool) → not (not b) ≡ b
not-not true = refl
not-not false = refl

-- The configuration is read if the maximal interval and the count are unset or numbers, and the
-- minimal interval is unset or not a number. Otherwise it is refused.
setup_retry-accepts :
    (e : Environment)
    → is_ok (setup_retry e) ≡ (
        (is_unset e "RETRY_MINIMUM_INTERVAL_IN_SECOND"
          || not (is_number e "RETRY_MINIMUM_INTERVAL_IN_SECOND"))
        && ((is_unset e "RETRY_MAXIMUM_INTERVAL_IN_SECOND"
              || is_number e "RETRY_MAXIMUM_INTERVAL_IN_SECOND")
            && (is_unset e "RETRY_MAXIMUM_COUNT" || is_number e "RETRY_MAXIMUM_COUNT")))
unfolding setup_retry wait_min wait_max max_count
setup_retry-accepts e =
    is_ok-three (λ a b c. record { retry_wait_min = a; retry_wait_max = b; retry_max = c })
      (wait_min e (e.getenv "RETRY_MINIMUM_INTERVAL_IN_SECOND"))
      (wait_max e (e.getenv "RETRY_MAXIMUM_INTERVAL_IN_SECOND"))
      (max_count e (e.getenv "RETRY_MAXIMUM_COUNT"))
    ∙ rw
        (
          is_ok-test (is_unset e "RETRY_MINIMUM_INTERVAL_IN_SECOND"),
          is_ok-test (is_unset e "RETRY_MAXIMUM_INTERVAL_IN_SECOND"),
          is_ok-test (is_unset e "RETRY_MAXIMUM_COUNT"),
          not-not (is_number e "RETRY_MAXIMUM_INTERVAL_IN_SECOND"),
          not-not (is_number e "RETRY_MAXIMUM_COUNT"),
        )
        refl
