-- ===== src/Metrics/Getters.antt =====
-- The getters of statistics: GetPodStats of pkg/metrics/real_time.go, of pkg/metrics/cache.go and of the decider
-- in pkg/metrics/metrics.go, as NewACIPodMetricsProvider puts them together.
use azure_aci.Prelude.{
  String, Bool, true, false, ◌||◌, ◌==◌, ◌<>◌, Option, none, some, List, [], ◌∷◌, Error, plain,
  Result, ok, panics, if◌then◌else◌, message_of,
}
use azure_aci.Prelude.Io.{
  Io, pure, raise, lift, attempt, act, Answer, returned, failed_with, ◌>>=◌, ◌>>◌,
}
use azure_aci.K8s.{Pod}
use azure_aci.Tracker.{is_running}
use azure_aci.Client.{container_group_name}
use azure_aci.Metrics.{
  ExtensionPodStats, PodReport, MeasuredPod, extension_pod_stats_to_kubelet_pod_stats,
  filter_out_container_not_in_pod,
}
use azure_aci.Metrics.Usage.{populate_from}

-- A cache of go-cache: an entry that is found is one that was set and has not expired.
pub record Cache (W V : Type 0) : Type 0 where
  pub get : String → W → Option V
  pub set : String → V → W → W

-- ContainerGroupWrapper, of which the type of each extension is read. Its properties, and those of an
-- extension, may be nil.
pub record ContainerGroupWrapper : Type 0 where
  pub extensions : Option (List (Option String))

-- The metrics provider, its caches and what it asks: Azure for a group, and the extension of a pod, by its
-- URL, for the statistics (the request, its body and the decoding of it).
pub record Metering (W : Type 0) : Type 0 where
  pub rg_name : String
  pub get_container_group : String → String → Io W ContainerGroupWrapper
  pub fetch : String → Io W ExtensionPodStats
  pub cg_cache : Cache W ContainerGroupWrapper
  pub stats_cache : Cache W PodReport
  pub cpu_stats_cache : Cache W ExtensionPodStats

-- errors.Wrapf
abbrev pub wrap : String → Error → Error
wrap text e = plain (text <> (": " <> message_of e))

-- `return nil, errors.Wrapf(err, text)` where there is an error.
abbrev pub wrapped_answer : {W A : Type 0} → String → Answer A → Io W A
wrapped_answer text (returned a) = pure a
wrapped_answer text (failed_with e) = raise (wrap text e)

-- The loop over the extensions: a type is read through the pointer to the properties.
unfoldable pub finds_real_time : List (Option String) → Bool → Result Bool
finds_real_time [] use_real_time = ok use_real_time
finds_real_time (none ∷ extensions) use_real_time = panics
finds_real_time (some kind ∷ extensions) use_real_time =
    finds_real_time extensions (use_real_time || (kind == "realtime-metrics"))

-- The extensions of a group, behind a pointer.
unfoldable pub uses_real_time : ContainerGroupWrapper → Result Bool
unfolding finds_real_time
uses_real_time cg = elim cg.extensions [ none ↦ panics | some es ↦ finds_real_time es false ]

module _ {W : Type 0} (m : Metering W) where
  unfoldable pub get_real_time_extension_pod_stats : MeasuredPod → Io W ExtensionPodStats
  get_real_time_extension_pod_stats p =
      if is_running p.pod.status.phase
      then (do
        s ← m.fetch ("http://" <> (p.pod.status.pod_ip <> ":18899/v1/stats"))
        pure (filter_out_container_not_in_pod s p))
      else raise (
          plain
            "invalid parameter in getRealTimePodStats, only Running pod allow to query realtime statistics")

  -- The new statistics are cached when the function returns, and also when it panics.
  unfoldable pub populate_usage_nanocores : Pod → ExtensionPodStats → PodReport → Io W PodReport
  populate_usage_nanocores pod s report w =
      (populate_from (m.cpu_stats_cache.get pod.uid w) s report, m.cpu_stats_cache.set pod.uid s w)

  unfoldable pub get_real_time_pod_stats : MeasuredPod → Io W PodReport
  unfolding get_real_time_extension_pod_stats populate_usage_nanocores
  get_real_time_pod_stats p = do
    answer ← attempt (get_real_time_extension_pod_stats p)
    s ←
        wrapped_answer
          ("error fetching pod '" <> (p.pod.name <> "' statsistics from Real Time Extension"))
          answer
    populate_usage_nanocores p.pod s (extension_pod_stats_to_kubelet_pod_stats p.pod s)

  -- The cached getter, for what its cache holds of the pod.
  unfoldable pub from_stats_cache : MeasuredPod → Option PodReport → Io W PodReport
  unfolding get_real_time_pod_stats
  from_stats_cache p (some report) = pure report
  from_stats_cache p none = do
    report ← get_real_time_pod_stats p
    act (m.stats_cache.set p.pod.uid report)
    pure report

  unfoldable pub get_cached_pod_stats : MeasuredPod → Io W PodReport
  unfolding from_stats_cache
  get_cached_pod_stats p w = from_stats_cache p (m.stats_cache.get p.pod.uid w) w

  unfoldable pub from_cg_cache : Pod → Option ContainerGroupWrapper → Io W ContainerGroupWrapper
  from_cg_cache pod (some cg) = pure cg
  from_cg_cache pod none = do
    -- The client returns no group beside an error, so the case of status 404 does not arise.
    answer ← attempt (m.get_container_group m.rg_name (container_group_name pod.namespace pod.name))
    cg ←
        wrapped_answer
          ("failed to query Container Group " <> container_group_name pod.namespace pod.name) answer
    act (m.cg_cache.set pod.uid cg)
    pure cg

  unfoldable pub get_container_group_from_pod : Pod → Io W ContainerGroupWrapper
  unfolding from_cg_cache
  get_container_group_from_pod pod w = from_cg_cache pod (m.cg_cache.get pod.uid w) w

  -- Nil and no error for a group without the extension.
  unfoldable pub decided : MeasuredPod → Bool → Io W (Option PodReport)
  unfolding get_cached_pod_stats
  decided p true = do report ← get_cached_pod_stats p; pure (some report)
  decided p false = pure none

  unfoldable pub get_pod_stats : MeasuredPod → Io W (Option PodReport)
  unfolding get_container_group_from_pod decided
  get_pod_stats p = do
    answer ← attempt (get_container_group_from_pod p.pod)
    cg ← wrapped_answer "failed to query Container Group" answer
    use_real_time ← lift (uses_real_time cg)
    decided p use_real_time
