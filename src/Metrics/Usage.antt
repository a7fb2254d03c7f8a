-- ===== src/Metrics/Usage.antt =====
-- calculateUsageNanoCores and populateUsageNanocores of pkg/metrics/real_time.go.
use azure_aci.Prelude.{
  ℕ, ◌+◌, ◌-◌, ◌/◌, ◌%◌, ◌^◌, String, Bool, true, false, ◌&&◌, ◌||◌, Option, none, some, List, [],
  ◌∷◌, ◌≡◌, refl, sym, not, ◌==◌, Result, ok, err, panics, is_panic, is_ok, ◌≢◌, ◌>>=◌,
  if◌then◌else◌, eqb, ltb, Bool-cases, inl, inr, arith,
}
use azure_aci.Metrics.{ContainerStats, ExtensionPodStats, ContainerReport, PodReport}

-- a - b on uint64
unfoldable pub sub64 : ℕ → ℕ → ℕ
sub64 a b = (a + 2 ^ 64 - b) % 2 ^ 64

-- a / b, which panics where b is 0
unfoldable pub div64 : ℕ → ℕ → Result ℕ
div64 a b = if eqb b 0 then panics else ok (a / b)

-- The loop that looks for a container. The pointer that a match sets is one to the loop's variable, so it
-- is kept as the fact that there was a match; `variable` is the usage that stands in the variable.
pub find_usage : String → List ContainerStats → Bool → ℕ → Option ℕ
find_usage name [] found variable = if found then some variable else none
find_usage name (c ∷ cs) found variable = find_usage name cs (found || (c.name == name)) c.cpu

-- The usage of a container that both statistics have.
container_usage : Option ℕ → Option ℕ → ℕ → Result ℕ
unfolding sub64 div64
container_usage none new_usage seconds = ok 0
container_usage (some old_usage) none seconds = ok 0
container_usage (some old_usage) (some new_usage) seconds =
    div64 (sub64 new_usage old_usage) seconds

-- The usage of the pod, or of a container, over a window of `seconds`.
usage_over : Option String → ExtensionPodStats → ExtensionPodStats → ℕ → Result ℕ
unfolding container_usage find_usage
usage_over none last new seconds = div64 (sub64 new.cpu last.cpu) seconds
usage_over (some name) last new seconds =
    container_usage (find_usage name last.containers false 0)
      (find_usage name new.containers false 0) seconds

unfoldable pub calculate_usage_nano_cores :
    Option String → Option ExtensionPodStats → Option ExtensionPodStats → Result ℕ
unfolding usage_over
calculate_usage_nano_cores name none new = ok 0
calculate_usage_nano_cores name (some last) none = ok 0
calculate_usage_nano_cores name (some last) (some new) =
    let window = sub64 new.timestamp last.timestamp in
    if eqb window 0 then ok 0 else usage_over name last new (window / 1000000000)

-- The usage of each container is written through the pointer `CPU` of its report.
pub populate_containers :
    ExtensionPodStats → ExtensionPodStats → List ContainerReport → Result (List ContainerReport)
unfolding calculate_usage_nano_cores
populate_containers last new [] = ok []
populate_containers last new (c ∷ cs) = do
  usage ← calculate_usage_nano_cores (some c.name) (some last) (some new)
  rest ← populate_containers last new cs
  ok (record c { cpu = record c.cpu { usage_nano_cores = usage } } ∷ rest)

-- populateUsageNanocores for what the cache holds of the pod.
unfoldable pub populate_from :
    Option ExtensionPodStats → ExtensionPodStats → PodReport → Result PodReport
unfolding populate_containers
populate_from none new report = ok report
populate_from (some last) new report = do
  usage ← calculate_usage_nano_cores none (some last) (some new)
  containers ← populate_containers last new report.containers
  ok (record report {
    cpu = record report.cpu { usage_nano_cores = usage };
    containers = containers;
  })

-- Less than a second, but not the same moment.
abbrev pub is_short : ExtensionPodStats → ExtensionPodStats → Bool
is_short last new =
    ltb 0 (sub64 new.timestamp last.timestamp)
    && ltb (sub64 new.timestamp last.timestamp) 1000000000

div64-zero : (a b : ℕ) → b ≡ 0 → div64 a b ≡ panics
unfolding div64
div64-zero a b h = ground arith

div64-pos : (a b : ℕ) → b ≢ 0 → is_ok (div64 a b) ≡ true
unfolding div64
div64-pos a b h = ground arith

is_ok-bind-bind :
    {A B C : Type 0} (f : A → B → C) (r : Result A) (q : Result B)
    → is_ok r ≡ true
    → is_ok q ≡ true
    → is_ok (r >>= λ a. q >>= λ b. ok (f a b)) ≡ true
is_ok-bind-bind f (ok a) (ok b) hr hq = refl
is_ok-bind-bind f (ok a) (err e) hr hq = hq
is_ok-bind-bind f (ok a) panics hr hq = hq
is_ok-bind-bind f (err e) q hr hq = hr
is_ok-bind-bind f panics q hr hq = hr

is_panic_of_ok : {A : Type 0} (r : Result A) → is_ok r ≡ true → is_panic r ≡ false
is_panic_of_ok (ok a) h = refl
is_panic_of_ok (err e) h = refl
is_panic_of_ok panics h = sym h

module _ (last new : ExtensionPodStats) where
  abbrev whole_seconds : ℕ
  whole_seconds = sub64 new.timestamp last.timestamp / 1000000000

  whole_seconds-zero :
      is_short last new ≡ true
      → (whole_seconds ≡ 0) × (eqb (sub64 new.timestamp last.timestamp) 0 ≡ false)
  whole_seconds-zero h = ground arith

  whole_seconds-pos :
      is_short last new ≡ false
      → eqb (sub64 new.timestamp last.timestamp) 0 ≡ false
      → whole_seconds ≢ 0
  whole_seconds-pos h e = ground arith

  calculate_usage-short :
      is_short last new ≡ true → calculate_usage_nano_cores none (some last) (some new) ≡ panics
  unfolding calculate_usage_nano_cores usage_over
  calculate_usage-short h =
      let (zero_seconds, moved) = whole_seconds-zero h in
      rw moved (div64-zero (sub64 new.cpu last.cpu) whole_seconds zero_seconds)

  container_usage-pos :
      (old_usage new_usage : Option ℕ) (seconds : ℕ)
      → seconds ≢ 0
      → is_ok (container_usage old_usage new_usage seconds) ≡ true
  unfolding container_usage
  container_usage-pos none new_usage seconds pos = refl
  container_usage-pos (some o) none seconds pos = refl
  container_usage-pos (some o) (some n) seconds pos = div64-pos (sub64 n o) seconds pos

  usage_over-pos :
      (name : Option String) (seconds : ℕ)
      → seconds ≢ 0
      → is_ok (usage_over name last new seconds) ≡ true
  unfolding usage_over
  usage_over-pos none seconds pos = div64-pos (sub64 new.cpu last.cpu) seconds pos
  usage_over-pos (some name) seconds pos = container_usage-pos _ _ seconds pos

  calculate_usage-long :
      (name : Option String)
      → is_short last new ≡ false
      → is_ok (calculate_usage_nano_cores name (some last) (some new)) ≡ true
  unfolding calculate_usage_nano_cores
  calculate_usage-long name h = elim (Bool-cases (eqb (sub64 new.timestamp last.timestamp) 0)) [
    | inl e ↦ rw e refl
    | inr e ↦ rw e (usage_over-pos name whole_seconds (whole_seconds-pos h e))
  ]

  populate_containers-long :
      (cs : List ContainerReport)
      → is_short last new ≡ false
      → is_ok (populate_containers last new cs) ≡ true
  unfolding populate_containers
  populate_containers-long [] h = refl
  populate_containers-long (c ∷ cs) h =
      is_ok-bind-bind _ (calculate_usage_nano_cores (some c.name) (some last) (some new))
        (populate_containers last new cs) (calculate_usage-long (some c.name) h)
        (populate_containers-long cs h)

  populate_from-short :
      (report : PodReport)
      → is_short last new ≡ true
      → populate_from (some last) new report ≡ panics
  unfolding populate_from
  populate_from-short report short = rw (calculate_usage-short short) refl

  populate_from-long :
      (report : PodReport)
      → is_short last new ≡ false
      → is_ok (populate_from (some last) new report) ≡ true
  unfolding populate_from
  populate_from-long report long =
      is_ok-bind-bind _ (calculate_usage_nano_cores none (some last) (some new))
        (populate_containers last new report.containers) (calculate_usage-long none long)
        (populate_containers-long report.containers long)

  -- With earlier statistics of the pod at hand, the new ones are filled in, unless they are less than a
  -- second apart but not of one moment: then the whole seconds between them are 0, and the division
  -- panics.
  pub populate_from-panics :
      (report : PodReport)
      → (is_panic (populate_from (some last) new report) ≡ is_short last new)
        × (is_ok (populate_from (some last) new report) ≡ not (is_short last new))
  populate_from-panics report = elim (Bool-cases (is_short last new)) [
    | inl e ↦ let p = populate_from-short report e in rw (p, e) (refl, refl)
    | inr e ↦
        let fine = populate_from-long report e in
        rw e (is_panic_of_ok (populate_from (some last) new report) fine, fine)
  ]
