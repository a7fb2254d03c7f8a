-- ===== src/Metrics.antt =====
-- pkg/metrics: the statistics of pods. This file is the conversion of what the metrics extension of a
-- pod reports, in pkg/metrics/real_time.go.
-- Counters are uint64. The program is built as Go 1.18, where the variable of a `for range` loop is one
-- variable for all rounds: a pointer to it reads what the last round left there.
pub mod Usage
pub mod Getters
pub mod Summary
pub mod Owned
pub mod OneEach
pub mod Aliased
pub mod Insights
pub mod Decider
mod Examples
use azure_aci.Prelude.{
  ℕ, String, Bool, true, false, List, [], ◌∷◌, map, ◌==◌, if◌then◌else◌, keep, contains, Option,
  none, some,
}
use azure_aci.K8s.{ℤ, to_int64, Time, Pod}

-- memoryStats
pub record MemoryStats : Type 0 where
  pub usage_bytes : ℕ
  pub working_set_bytes : ℕ
  pub rss_bytes : ℕ

-- containerStats, with the one field of cpuStats
pub record ContainerStats : Type 0 where
  pub name : String
  pub cpu : ℕ
  pub memory : MemoryStats

-- interfaceStats
pub record InterfaceStats : Type 0 where
  pub name : String
  pub rx_bytes : ℕ
  pub rx_errors : ℕ
  pub tx_bytes : ℕ
  pub tx_errors : ℕ

-- realtimeMetricsExtensionPodStats, with the fields of networkStats
pub record ExtensionPodStats : Type 0 where
  pub timestamp : ℕ
  pub containers : List ContainerStats
  pub cpu : ℕ
  pub memory : MemoryStats
  pub network : InterfaceStats
  pub interfaces : List InterfaceStats

-- stats.CPUStats of the kubelet
pub record CpuReport : Type 0 where
  pub time : ℤ
  pub usage_nano_cores : ℕ
  pub usage_core_nano_seconds : ℕ

-- stats.MemoryStats
pub record MemoryReport : Type 0 where
  pub time : ℤ
  pub values : MemoryStats

-- stats.ContainerStats
pub record ContainerReport : Type 0 where
  pub name : String
  pub start_time : Time
  pub cpu : CpuReport
  pub memory : MemoryReport

-- stats.PodStats, whose PodRef names the pod
pub record PodReport : Type 0 where
  pub name : String
  pub namespace : String
  pub uid : String
  pub start_time : Time
  pub cpu : CpuReport
  pub memory : MemoryReport
  pub network_time : ℤ
  pub network : InterfaceStats
  pub interfaces : List InterfaceStats
  pub containers : List ContainerReport

-- A pod, with the names of the containers in its specification.
pub record MeasuredPod : Type 0 where
  pub pod : Pod
  pub container_names : List String

-- The report that a round of the loop appends: the name is copied, and the numbers are pointers to the
-- loop's variable, so the report is a function of what stands there.
abbrev pub container_view : Pod → ℤ → String → ContainerStats → ContainerReport
container_view pod stats_time name variable = record {
  name = name;
  start_time = pod.creation_timestamp;
  cpu = record { time = stats_time; usage_nano_cores = 0; usage_core_nano_seconds = variable.cpu };
  memory = record { time = stats_time; values = variable.memory };
}

-- The loop over the containers: the reports, and the variable after the last round.
pub container_views :
    Pod
    → ℤ
    → List ContainerStats
    → ContainerStats
    → List (ContainerStats → ContainerReport) × ContainerStats
container_views pod stats_time [] variable = ([], variable)
container_views pod stats_time (c ∷ cs) variable =
    let (views, after) = container_views pod stats_time cs c in
    (container_view pod stats_time c.name ∷ views, after)

abbrev zero_stats : ContainerStats
zero_stats = record {
  name = "";
  cpu = 0;
  memory = record { usage_bytes = 0; working_set_bytes = 0; rss_bytes = 0 };
}

-- What the reports say once the function has returned.
pub container_reports : Pod → ℤ → List ContainerStats → List ContainerReport
unfolding container_views
container_reports pod stats_time cs =
    let (views, after) = container_views pod stats_time cs zero_stats in
    map (λ view. view after) views

-- The loop over the interfaces copies its variable first.
unfoldable pub extension_pod_stats_to_kubelet_pod_stats : Pod → ExtensionPodStats → PodReport
unfolding container_reports
extension_pod_stats_to_kubelet_pod_stats pod s =
    let stats_time = to_int64 s.timestamp in
    record {
      name = pod.name;
      namespace = pod.namespace;
      uid = pod.uid;
      start_time = pod.creation_timestamp;
      cpu = record { time = stats_time; usage_nano_cores = 0; usage_core_nano_seconds = s.cpu };
      memory = record { time = stats_time; values = s.memory };
      network_time = stats_time;
      network = s.network;
      interfaces = s.interfaces;
      containers = container_reports pod stats_time s.containers;
    }

-- Containers of the extension that the pod does not have are left out.
unfoldable pub filter_out_container_not_in_pod : ExtensionPodStats → MeasuredPod → ExtensionPodStats
filter_out_container_not_in_pod s pod = record s {
  containers = keep (λ c. contains pod.container_names c.name) s.containers;
}
