-- ===== src/Metrics/Decider/Remembered.antt =====
-- Statistics that were found once are found again, without asking, while the caches keep them.
use azure_aci.Prelude.{
  In, eq_iff, ◌==◌, ◌||◌, ◌⊎◌, Bool-cases, Option, none, [], ◌∷◌, Result, arith, String, ◌≡◌, refl,
  sym, ap, ◌∙◌, subst, Bool, true, false, Option-cases, inl, inr, some, ok, ok-injective,
}
use azure_aci.Prelude.Io.{
  pure, attempt, Answer, returned, failed_with, ◌>>=◌, >>=-ok, >>=-eq-ok, lift->>=-eq-ok,
  attempt-returned,
}
use azure_aci.K8s.{Pod}
use azure_aci.Metrics.Insights.{PodUsage}
use azure_aci.Metrics.{PodReport, MeasuredPod}
use azure_aci.Metrics.Getters.{Cache, finds_real_time, wrapped_answer}
use azure_aci.Metrics.Decider.{
  CachedGetter, from_cache, get_cached, Decider, ExtensionTypes, from_group_cache, group_of_pod,
  stats_from, decided_stats, PodStats, real_time_stats, insights_stats, group_answer,
}

-- An entry that was set is found.
pub record Finds {W V : Type 0} (c : Cache W V) : Type 0 where
  pub found : (key : String) (v : V) (w : W) → c.get key (c.set key v w) ≡ some v

-- A getter whose cache finds what was set, and that leaves another cache as it is.
pub record Leaves {W V G : Type 0} (other : Cache W G) (g : CachedGetter W V) : Type 0 where
  pub finds : Finds g.cache
  pub setting :
      (key key' : String) (v : V) (w : W) → other.get key (g.cache.set key' v w) ≡ other.get key w
  pub getting :
      (key : String) (p : MeasuredPod) (w : W)
      → other.get key (g.wrapped_getter p w).1 ≡ other.get key w

module _ {W V : Type 0} (g : CachedGetter W V) (p : MeasuredPod) where
  -- What a cached getter returns is in its cache, and another cache is as it was.
  get_cached-Leaves :
      {G : Type 0} (other : Cache W G) (key : String) (w w' : W) (v : V)
      → Leaves other g
      → get_cached g p w ≡ (ok v, w')
      → (g.cache.get p.pod.uid w' ≡ some v) × (other.get key w' ≡ other.get key w)
  unfolding get_cached from_cache
  get_cached-Leaves other key w w' v leaves h = elim (Option-cases (g.cache.get p.pod.uid w)) [
    | inr (stats, at) ↦
        let same : (ok stats, w) ≡ (ok v, w') = ap (λ o. from_cache g p o w) (sym at) ∙ h in
        (
          subst (λ x. g.cache.get p.pod.uid x ≡ some v) (ap (λ x. x.1) same)
              (at ∙ ap some (ok-injective stats v (ap (λ x. x.0) same))),
          ap (λ x. other.get key x.1) (sym same),
        )
    | inl absent ↦
        let fresh = ap (λ o. from_cache g p o w) (sym absent) ∙ h in
        let (stats, w1, got, h1) = >>=-eq-ok (g.wrapped_getter p) _ w fresh in
        let stored : g.cache.set p.pod.uid stats w1 ≡ w' = ap (λ x. x.1) h1 in
        let value = ok-injective stats v (ap (λ x. x.0) h1) in
        (
          ap (g.cache.get p.pod.uid) (sym stored)
              ∙ leaves.finds.found p.pod.uid stats w1
              ∙ ap some value,
          ap (other.get key) (sym stored)
              ∙ leaves.setting key p.pod.uid stats w1
              ∙ ap (λ x. other.get key x.1) (sym got)
              ∙ leaves.getting key p w,
        )
  ]

  get_cached-again :
      (w : W) (v : V) → g.cache.get p.pod.uid w ≡ some v → get_cached g p w ≡ (ok v, w)
  unfolding get_cached from_cache
  get_cached-again w v at = ap (λ o. from_cache g p o w) at

  stored-again :
      {G S : Type 0} (other : Cache W G) (key : String) (f : V → S) (w w' : W) (s : S)
      → Leaves other g
      → (get_cached g p >>= λ v. pure (f v)) w ≡ (ok s, w')
      → ((get_cached g p >>= λ v. pure (f v)) w' ≡ (ok s, w'))
        × (other.get key w' ≡ other.get key w)
  stored-again other key f w w' s leaves h =
      let (v, w1, got, h1) = >>=-eq-ok (get_cached g p) (λ v. pure (f v)) w h in
      let (kept, apart) = get_cached-Leaves other key w w1 v leaves got in
      let same : w1 ≡ w' = ap (λ x. x.1) h1 in
      (
        subst (λ x. (get_cached g p >>= λ v. pure (f v)) x ≡ (ok s, x)) same
            (>>=-ok (get_cached g p) (λ v. pure (f v)) (get_cached-again w1 v kept)
              ∙ ap (λ r. (r, w1)) (ap (λ x. x.0) h1)),
        ap (other.get key) (sym same) ∙ apart,
      )

abbrev pub realtime_metrics : Option String
realtime_metrics = some "realtime-metrics"

finds-true :
    (es : ExtensionTypes) (b : Bool)
    → finds_real_time es b ≡ ok true
    → (b ≡ true) ⊎ In realtime_metrics es
unfolding finds_real_time
finds-true [] b h = inl (ok-injective b true h)
finds-true (none ∷ es) b h = cc
finds-true (some kind ∷ es) b h = elim (Bool-cases (kind == "realtime-metrics")) [
  | inl same ↦ inr (inl (ap some (sym ((eq_iff kind "realtime-metrics").0 same))))
  | inr other ↦ elim (finds-true es (b || (kind == "realtime-metrics")) h) [
    | inl e ↦ inl (ground (arith, e, other))
    | inr i ↦ inr (inr i)
  ]
]

finds-false :
    (es : ExtensionTypes) (b : Bool)
    → finds_real_time es b ≡ ok false
    → (b ≡ false) × ¬ In realtime_metrics es
unfolding finds_real_time
finds-false [] b h = (ok-injective b false h, λ i. i)
finds-false (none ∷ es) b h = cc
finds-false (some kind ∷ es) b h =
    let (e, absent) = finds-false es (b || (kind == "realtime-metrics")) h in
    (
      ground (arith, e),
      λ i. elim i [ inl same ↦ apart kind b e (some-injective same) | inr later ↦ absent later ],
    )
  where
    some-injective : {a c : String} → some a ≡ some c → a ≡ c
    some-injective e = cc

    apart :
        (kind : String) (b : Bool)
        → (b || (kind == "realtime-metrics")) ≡ false
        → ¬ ("realtime-metrics" ≡ kind)
    apart kind b e same = ground (arith, e, (eq_iff kind "realtime-metrics").1 (sym same))

module _ {W : Type 0} (d : Decider W) where
  -- Statistics of the source that the extensions of the group ask for, as its cache has them.
  pub data FromSource (p : MeasuredPod) (group : ExtensionTypes) (w : W) : PodStats → Type 0 where
    from_real_time :
        (report : PodReport)
        → In realtime_metrics group
        → d.real_time_getter.cache.get p.pod.uid w ≡ some report
        → FromSource p group w (real_time_stats report)
    from_insights :
        (usage : PodUsage)
        → ¬ In realtime_metrics group
        → d.container_insights_getter.cache.get p.pod.uid w ≡ some usage
        → FromSource p group w (insights_stats usage)

  -- The cache of groups finds what was set, and the getters leave it as it is.
  pub record Remembers : Type 0 where
    pub groups : Finds d.group_cache
    pub insights : Leaves d.group_cache d.container_insights_getter
    pub real_time : Leaves d.group_cache d.real_time_getter

  group_of_pod-found :
      (pod : Pod) (w w' : W) (group : ExtensionTypes)
      → Remembers
      → group_of_pod d pod w ≡ (ok group, w')
      → d.group_cache.get pod.uid w' ≡ some group
  unfolding group_of_pod from_group_cache
  group_of_pod-found pod w w' group r h = elim (Option-cases (d.group_cache.get pod.uid w)) [
    | inr (known, at) ↦
        let same : (ok known, w) ≡ (ok group, w') =
          ap (λ o. from_group_cache d pod o w) (sym at) ∙ h in
        subst (λ x. d.group_cache.get pod.uid x ≡ some group) (ap (λ x. x.1) same)
          (at ∙ ap some (ok-injective known group (ap (λ x. x.0) same)))
    | inl absent ↦
        let fresh = ap (λ o. from_group_cache d pod o w) (sym absent) ∙ h in
        let (asked, w1, got, h1) = >>=-eq-ok (d.get_container_group d.rg_name _) _ w fresh in
        let (answered, w2, read, h2) = >>=-eq-ok (group_answer d _ asked.0 asked.1) _ w1 h1 in
        ap (d.group_cache.get pod.uid) (sym (ap (λ x. x.1) h2))
        ∙ r.groups.found pod.uid answered w2
        ∙ ap some (ok-injective answered group (ap (λ x. x.0) h2))
  ]

  stats_from-again :
      (p : MeasuredPod) (b : Bool) (w w' : W) (s : PodStats)
      → Remembers
      → stats_from d p b w ≡ (ok s, w')
      → (stats_from d p b w' ≡ (ok s, w'))
        × (d.group_cache.get p.pod.uid w' ≡ d.group_cache.get p.pod.uid w)
  unfolding stats_from
  stats_from-again p true w w' s r h =
      stored-again d.real_time_getter p d.group_cache p.pod.uid real_time_stats w w' s r.real_time h
  stats_from-again p false w w' s r h =
      stored-again d.container_insights_getter p d.group_cache p.pod.uid insights_stats w w' s
        r.insights h

  asks :
      (group : ExtensionTypes) → finds_real_time group false ≡ ok true → In realtime_metrics group
  asks group found = elim (finds-true group false found) [ inl e ↦ cc | inr i ↦ i ]

  FromSource-moved :
      (p : MeasuredPod) (group : ExtensionTypes) (w1 w' : W) (s1 s : PodStats)
      → ◌≡◌ {A = Result PodStats × W} (ok s1, w1) (ok s, w')
      → FromSource p group w1 s1
      → FromSource p group w' s
  FromSource-moved p group w1 w' s1 s h f =
      subst (λ v. FromSource p group v s) (ap (λ x. x.1) h)
        (subst (FromSource p group w1) (ok-injective s1 s (ap (λ x. x.0) h)) f)

  stats_from-FromSource :
      (p : MeasuredPod) (group : ExtensionTypes) (b : Bool) (w w' : W) (s : PodStats)
      → Remembers
      → finds_real_time group false ≡ ok b
      → stats_from d p b w ≡ (ok s, w')
      → FromSource p group w' s
  unfolding stats_from
  stats_from-FromSource p group true w w' s r found h =
      let (report, w1, got, h1) =
        >>=-eq-ok (get_cached d.real_time_getter p) (λ v. pure (real_time_stats v)) w h in
      let (kept, apart) =
        get_cached-Leaves d.real_time_getter p d.group_cache p.pod.uid w w1 report r.real_time
          got in
      FromSource-moved p group w1 w' (real_time_stats report) s h1
        (from_real_time report (asks group found) kept)
  stats_from-FromSource p group false w w' s r found h =
      let (usage, w1, got, h1) =
        >>=-eq-ok (get_cached d.container_insights_getter p) (λ v. pure (insights_stats v)) w h in
      let (kept, apart) =
        get_cached-Leaves d.container_insights_getter p d.group_cache p.pod.uid w w1 usage
          r.insights got in
      FromSource-moved p group w1 w' (insights_stats usage) s h1
        (from_insights usage (finds-false group false found).1 kept)

  wrapped_answer-eq-ok :
      {A : Type 0} (text : String) (answer : Answer A) (w w' : W) (a : A)
      → wrapped_answer text answer w ≡ (ok a, w')
      → (answer ≡ returned a) × (w ≡ w')
  wrapped_answer-eq-ok text (returned b) w w' a h =
      (ap returned (ok-injective b a (ap (λ x. x.0) h)), ap (λ x. x.1) h)
  wrapped_answer-eq-ok text (failed_with e) w w' a h = cc

  -- For a group that is cached, the statistics are those of its source.
  decided_stats-known :
      (p : MeasuredPod) (group : ExtensionTypes) (use_real_time : Bool) (w : W)
      → d.group_cache.get p.pod.uid w ≡ some group
      → finds_real_time group false ≡ ok use_real_time
      → decided_stats d p w ≡ stats_from d p use_real_time w
  unfolding decided_stats group_of_pod from_group_cache
  decided_stats-known p group use_real_time w known found = rw (known, found) refl

  -- Statistics that are returned are, while the caches keep what was set in them, those of the real-time
  -- extension if the cached group has the extension "realtime-metrics", and else those of Container Insights; they
  -- are in the cache of that source, and are returned again, without a change of the world.
  pub decided_stats-again :
      (p : MeasuredPod) (w w' : W) (s : PodStats)
      → Remembers
      → decided_stats d p w ≡ (ok s, w')
      → (group : ExtensionTypes) × (d.group_cache.get p.pod.uid w' ≡ some group)
        × FromSource p group w' s
        × (decided_stats d p w' ≡ (ok s, w'))
  unfolding decided_stats
  decided_stats-again p w w' s r h =
      let (answer, w1, tried, h1) = >>=-eq-ok (attempt (group_of_pod d p.pod)) _ w h in
      let (group, w2, read, h2) =
        >>=-eq-ok (wrapped_answer "failed to query Container Group" answer) _ w1 h1 in
      let (use_real_time, decided, h3) = lift->>=-eq-ok (finds_real_time group false) _ w2 h2 in
      let (is_returned, same) = wrapped_answer-eq-ok _ answer w1 w2 group read in
      let looked_up =
        attempt-returned (group_of_pod d p.pod) w w1 group
          (tried ∙ ap (λ a. (ok a, w1)) is_returned) in
      let known = group_of_pod-found p.pod w w1 group r looked_up in
      let (again, kept) = stats_from-again p use_real_time w2 w' s r h3 in
      let cached = kept ∙ ap (d.group_cache.get p.pod.uid) (sym same) ∙ known in
      (
        group,
        cached,
        stats_from-FromSource p group use_real_time w2 w' s r decided h3,
        decided_stats-known p group use_real_time w' cached decided ∙ again,
      )
