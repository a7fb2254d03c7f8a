-- ===== src/Metrics/Decider.antt =====
-- provider/metrics of the old provider, where a pod has statistics from Container Insights or from the
-- real-time extension: the decider and GetStatsSummary of provider/metrics/metrics.go, and
-- provider/metrics/cache.go.
pub mod Remembered
mod Examples
use azure_aci.Prelude.{
  ℕ, String, Bool, true, false, ◌<>◌, eqb, Option, none, some, List, [], ◌∷◌, Error, plain, err,
  if◌then◌else◌, keep,
}
use azure_aci.Prelude.Io.{
  Io, pure, raise, lift, attempt, act, Answer, returned, failed_with, ◌>>=◌, ◌>>◌,
}
use azure_aci.K8s.{Pod}
use azure_aci.Tracker.{is_running}
use azure_aci.Client.{container_group_name}
use azure_aci.Metrics.{PodReport, MeasuredPod}
use azure_aci.Metrics.Getters.{Cache, finds_real_time, wrapped_answer, wrap}
use azure_aci.Metrics.Insights.{PodUsage}

-- The statistics of a pod, as the one source or the other fills them in.
pub data PodStats : Type 0 where
  insights_stats : PodUsage → PodStats
  real_time_stats : PodReport → PodStats

-- The types of a group's extensions; the pointer to the properties of an extension may be nil.
abbrev pub ExtensionTypes : Type 0
ExtensionTypes = List (Option String)

-- A getter behind its cache.
pub record CachedGetter (W V : Type 0) : Type 0 where
  pub wrapped_getter : MeasuredPod → Io W V
  pub cache : Cache W V

module _ {W V : Type 0} (g : CachedGetter W V) where
  unfoldable pub from_cache : MeasuredPod → Option V → Io W V
  from_cache p (some stats) = pure stats
  from_cache p none = do stats ← g.wrapped_getter p; act (g.cache.set p.pod.uid stats); pure stats

  unfoldable pub get_cached : MeasuredPod → Io W V
  unfolding from_cache
  get_cached p w = from_cache p (g.cache.get p.pod.uid w) w

-- podStatsGetterDecider, with what Azure answers about a group: the status code of the response, if there
-- was one, and the types of the extensions or an error.
pub record Decider (W : Type 0) : Type 0 where
  pub container_insights_getter : CachedGetter W PodUsage
  pub real_time_getter : CachedGetter W PodReport
  pub rg_name : String
  pub get_container_group : String → String → Io W (Option ℕ × Answer ExtensionTypes)
  pub group_cache : Cache W ExtensionTypes

abbrev pub is_not_there : Option ℕ → Bool
is_not_there none = false
is_not_there (some http_status) = eqb http_status 404

module _ {W : Type 0} (d : Decider W) where
  abbrev pub group_answer : String → Option ℕ → Answer ExtensionTypes → Io W ExtensionTypes
  group_answer cg_name http_status (returned group) = pure group
  group_answer cg_name http_status (failed_with e) =
      if is_not_there http_status
      then raise (wrap ("failed to query Container Group " <> cg_name <> ", not found it") e)
      else raise (wrap ("failed to query Container Group " <> cg_name) e)

  unfoldable pub from_group_cache : Pod → Option ExtensionTypes → Io W ExtensionTypes
  from_group_cache pod (some group) = pure group
  from_group_cache pod none = do
    asked ← d.get_container_group d.rg_name (container_group_name pod.namespace pod.name)
    group ← group_answer (container_group_name pod.namespace pod.name) asked.0 asked.1
    act (d.group_cache.set pod.uid group)
    pure group

  unfoldable pub group_of_pod : Pod → Io W ExtensionTypes
  unfolding from_group_cache
  group_of_pod pod w = from_group_cache pod (d.group_cache.get pod.uid w) w

  unfoldable pub stats_from : MeasuredPod → Bool → Io W PodStats
  unfolding get_cached
  stats_from p true = do report ← get_cached d.real_time_getter p; pure (real_time_stats report)
  stats_from p false = do
    usage ← get_cached d.container_insights_getter p
    pure (insights_stats usage)

  -- getPodStats
  unfoldable pub decided_stats : MeasuredPod → Io W PodStats
  unfolding group_of_pod stats_from
  decided_stats p = do
    answer ← attempt (group_of_pod p.pod)
    group ← wrapped_answer "failed to query Container Group" answer
    use_real_time ← lift (finds_real_time group false)
    stats_from p use_real_time

-- stats.Summary, and what the goroutines leave: the statistics in the channel, and the first error.
pub record StatsSummary : Type 0 where
  pub node_name : String
  pub pods : List PodStats

pub record Gathered : Type 0 where
  pub stats : List PodStats
  pub first_error : Option Error

-- The pods of the node, whether the context is done, whether a goroutine takes the branch of a done context,
-- and the order in which the goroutines run.
pub record Around (W : Type 0) : Type 0 where
  pub node_name : String
  pub get_pods : W → List MeasuredPod
  pub is_done : W → Bool
  pub gives_up : MeasuredPod → W → Bool
  pub schedule : List MeasuredPod → List MeasuredPod

module _ {W : Type 0} (d : Decider W) (o : Around W) where
  unfoldable pub measured : MeasuredPod → Io W PodStats
  measured p w = if o.gives_up p w then (err (plain "context canceled"), w) else decided_stats d p w

  -- A goroutine sends its statistics, or leaves its error if it is the first.
  abbrev pub gathered_with : MeasuredPod → Answer PodStats → Gathered → Gathered
  gathered_with p (returned s) g = record g { stats = s ∷ g.stats }
  gathered_with p (failed_with e) g = record g {
    first_error = some (wrap ("error fetching metrics for pods '" <> (p.pod.name <> "'")) e);
  }

  -- The goroutines, one after the other in the order in which they run.
  unfoldable pub gather : List MeasuredPod → Io W Gathered
  unfolding measured
  gather [] = pure (record { stats = []; first_error = none })
  gather (p ∷ ps) = do
    answer ← attempt (measured p)
    rest ← gather ps
    pure (gathered_with p answer rest)

  abbrev pub summarized : Option Error → List PodStats → Io W StatsSummary
  summarized (some e) stats = raise (wrap "error in request to fetch container group metrics" e)
  summarized none stats = pure (record { node_name = o.node_name; pods = stats })

  -- GetStatsSummary
  unfoldable pub stats_summary : Io W StatsSummary
  unfolding gather
  stats_summary w =
      if o.is_done w
      then (err (plain "context canceled"), w)
      else (do
        gathered ← gather (o.schedule (keep (λ p. is_running p.pod.status.phase) (o.get_pods w)))
        summarized gathered.first_error gathered.stats)
          w
