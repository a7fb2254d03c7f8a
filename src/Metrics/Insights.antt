-- ===== src/Metrics/Insights.antt =====
-- The statistics of pods from Container Insights: provider/metrics/container_insights.go. An average, a
-- floating-point number of the source that is not negative, is counted in millionths, and cut down to
-- what a uint64 holds where the source converts it. `time.Now` is asked for once.
pub mod Cumulative
pub mod Overlap
pub mod Counted
mod Examples
use azure_aci.Prelude.{
  ℕ, ◌+◌, ◌-◌, ◌*◌, ◌/◌, ◌%◌, ◌^◌, String, Bool, true, false, ◌==◌, ◌<>◌, Option, none, some, List,
  [], ◌∷◌, ◌++◌, map, lookup, if◌then◌else◌,
}
use azure_aci.Prelude.Io.{Io, pure, attempt, ◌>>=◌}
use azure_aci.K8s.{Time, Pod, ContainerStatus}
use azure_aci.Metrics.Getters.{wrapped_answer}

-- aci.TimeSeriesEntry
pub record Entry : Type 0 where
  pub timestamp : Time
  pub average : ℕ

-- A time series of an answer, with its metadata, and a metric with its series.
pub record Series : Type 0 where
  pub metadata_values : List (String × String)
  pub entries : List Entry

pub record Metric : Type 0 where
  pub kind : String
  pub timeseries : List Series

-- aci.MetricsRequest, always for averages.
pub record MetricsRequest : Type 0 where
  pub dimension : String
  pub start : Time
  pub until : Time
  pub types : List String

-- containerInsightsMetricsWrapper
pub record InsightsMetrics : Type 0 where
  pub network_rx : List Entry
  pub network_tx : List Entry
  pub cpu : List (String × List Entry)
  pub memory : List (String × List Entry)

-- MetricsGetter
abbrev pub MetricsGetter : Type 0 → Type 0
MetricsGetter W = String → String → MetricsRequest → Io W (List Metric)

abbrev pub set_named :
    Option String → List Entry → List (String × List Entry) → List (String × List Entry)
set_named none entries m = m
set_named (some name) entries m = (name, entries) ∷ m

-- The series of the containers that are named; funk.Find takes the first entry of the metadata.
pub index_series : List Series → List (String × List Entry) → List (String × List Entry)
index_series [] m = m
index_series (t ∷ ts) m =
    index_series ts (set_named (lookup t.metadata_values "containername") t.entries m)

pub index_system : List Metric → InsightsMetrics → InsightsMetrics
unfolding index_series
index_system [] w = w
index_system (metric ∷ metrics) w = index_system metrics (
    if metric.kind == "CpuUsage"
    then record w { cpu = index_series metric.timeseries w.cpu }
    else if metric.kind == "MemoryUsage"
    then record w { memory = index_series metric.timeseries w.memory }
    else w)

abbrev pub first_entries : List Series → List Entry → List Entry
first_entries [] before = before
first_entries (t ∷ ts) before = t.entries

pub index_network : List Metric → InsightsMetrics → InsightsMetrics
index_network [] w = w
index_network (metric ∷ metrics) w = index_network metrics (
    if metric.kind == "NetworkBytesReceivedPerSecond"
    then record w { network_rx = first_entries metric.timeseries w.network_rx }
    else if metric.kind == "NetworkBytesTransmittedPerSecond"
    then record w { network_tx = first_entries metric.timeseries w.network_tx }
    else w)

unfoldable pub query_container_insights_metrics :
    {W : Type 0} → MetricsGetter W → String → String → Time → Time → Io W InsightsMetrics
unfolding index_system index_network
query_container_insights_metrics get resource_group container_group start until = do
  sys ← attempt (
      get resource_group container_group (record {
        dimension = "containerName eq '*'";
        start = start;
        until = until;
        types = "CpuUsage" ∷ "MemoryUsage" ∷ [];
      }))
  system_stats ←
      wrapped_answer ("error fetching cpu/mem stats for container group " <> container_group) sys
  net ← attempt (
      get resource_group container_group (record {
        dimension = "";
        start = start;
        until = until;
        types = "NetworkBytesReceivedPerSecond" ∷ "NetworkBytesTransmittedPerSecond" ∷ [];
      }))
  net_stats ←
      wrapped_answer ("error fetching network stats for container group " <> container_group) net
  pure (
      index_network net_stats (
        index_system system_stats
          (record { network_rx = []; network_tx = []; cpu = []; memory = [] })))

-- stats.ContainerStats and stats.PodStats, as they are filled here. The memory in use of a container is
-- nil until it is known.
pub record ContainerUsage : Type 0 where
  pub name : String
  pub start_time : Time
  pub cpu_time : Time
  pub usage_nano_cores : ℕ
  pub usage_core_nano_seconds : ℕ
  pub memory_time : Time
  pub usage_bytes : Option ℕ
  pub rss_bytes : ℕ
  pub working_set_bytes : ℕ

pub record PodUsage : Type 0 where
  pub name : String
  pub namespace : String
  pub uid : String
  pub start_time : Time
  pub cpu_time : Time
  pub usage_nano_cores : ℕ
  pub usage_core_nano_seconds : ℕ
  pub memory_time : Time
  pub usage_bytes : ℕ
  pub working_set_bytes : ℕ
  pub network_time : Time
  pub rx_bytes : ℕ
  pub tx_bytes : ℕ
  pub containers : List ContainerUsage

abbrev pub to_uint64 : ℕ → ℕ
to_uint64 n = n % 2 ^ 64

-- `series[len(series)-1]` of a series that is there and not empty
abbrev pub last_entry : List Entry → Option Entry
last_entry [] = none
last_entry (r ∷ []) = some r
last_entry (r ∷ s ∷ rs) = last_entry (s ∷ rs)

abbrev pub latest : Option (List Entry) → Option Entry
latest none = none
latest (some series) = last_entry series

-- A container and the pod, after the latest entry of the container.
abbrev pub with_cpu : Option Entry → ContainerUsage × PodUsage → ContainerUsage × PodUsage
with_cpu none (c, p) = (c, p)
with_cpu (some r) (c, p) = (
  record c { usage_nano_cores = to_uint64 r.average; cpu_time = r.timestamp },
  record p {
    usage_nano_cores = to_uint64 (p.usage_nano_cores + to_uint64 r.average);
    cpu_time = r.timestamp;
  },
)

abbrev pub with_memory : Option Entry → ContainerUsage × PodUsage → ContainerUsage × PodUsage
with_memory none (c, p) = (c, p)
with_memory (some r) (c, p) =
    let bytes = to_uint64 (r.average / 1000000) in
    let total = to_uint64 (p.usage_bytes + bytes) in
    (
      record c { usage_bytes = some bytes; working_set_bytes = bytes; memory_time = r.timestamp },
      record p { usage_bytes = total; working_set_bytes = total; memory_time = r.timestamp },
    )

abbrev pub no_usage : Pod → Time → String → ContainerUsage
no_usage pod now name = record {
  name = name;
  start_time = pod.creation_timestamp;
  cpu_time = now;
  usage_nano_cores = 0;
  usage_core_nano_seconds = 0;
  memory_time = now;
  usage_bytes = none;
  rss_bytes = 0;
  working_set_bytes = 0;
}

-- The loop over the container statuses, with the containers that are finished.
pub collect_containers :
    Pod
    → Time
    → InsightsMetrics
    → List String
    → List ContainerUsage × PodUsage
    → List ContainerUsage × PodUsage
collect_containers pod now m [] (finished, p) = (finished, p)
collect_containers pod now m (name ∷ names) (finished, p) =
    let (c, p') =
      with_memory (latest (lookup m.memory name))
        (with_cpu (latest (lookup m.cpu name)) (no_usage pod now name, p)) in
    collect_containers pod now m names (finished ++ (c ∷ []), p')

unfoldable pub collect_metrics : Pod → Time → InsightsMetrics → PodUsage
unfolding collect_containers
collect_metrics pod now m =
    let (containers, p) =
      collect_containers pod now m
        (map (λ (s : ContainerStatus). s.name) pod.status.container_statuses)
        (
          [],
          record {
            name = pod.name;
            namespace = pod.namespace;
            uid = pod.uid;
            start_time = pod.creation_timestamp;
            cpu_time = now;
            usage_nano_cores = 0;
            usage_core_nano_seconds = 0;
            memory_time = now;
            usage_bytes = 0;
            working_set_bytes = 0;
            network_time = now;
            rx_bytes = 0;
            tx_bytes = 0;
            containers = [];
          },
        ) in
    record p { containers = containers }
