-- ===== src/Metrics/Examples.antt =====
-- One running pod with two containers, measured twice half a second apart.
use azure_aci.Prelude.{
  ℕ, Bool-cases, if◌then◌else◌, String, true, false, none, some, List, [], ◌∷◌, ◌≡◌, refl, ◌⊎◌, inl,
  inr, ok, is_panic, is_ok, lookup, ◌==◌, eq_iff, arith, map, All,
}
use mathlib.Core.List.{Perm}
use mathlib.Core.List.Perm
use azure_aci.K8s.{Pod, running}
use azure_aci.Metrics.{
  ContainerStats, ExtensionPodStats, PodReport, MeasuredPod, MemoryStats, ContainerReport,
  extension_pod_stats_to_kubelet_pod_stats, filter_out_container_not_in_pod,
}
use azure_aci.Metrics.Usage.{populate_from, populate_from-panics, sub64}
use azure_aci.Metrics.Getters.{
  ContainerGroupWrapper, Metering, get_pod_stats, get_container_group_from_pod, from_cg_cache,
  uses_real_time, finds_real_time, decided, get_cached_pod_stats, from_stats_cache,
  get_real_time_pod_stats, get_real_time_extension_pod_stats, populate_usage_nanocores,
}
use azure_aci.Metrics.Owned.{IsOwned, MeteringLaws}
use azure_aci.Metrics.Summary.{
  Summary, Surroundings, measure, noted, collect, summarize, running_pods, get_stats_summary,
}
use azure_aci.Metrics.OneEach.{report_uid, uid_of, get_stats_summary-running}
use azure_aci.Metrics.Aliased.{HasNumbersOf, extension_pod_stats-last}

abbrev memory : MemoryStats
memory = record { usage_bytes = 1; working_set_bytes = 1; rss_bytes = 1 }

abbrev container : String → ContainerStats
container name = record { name = name; cpu = if name == "web" then 7 else 9; memory = memory }

abbrev stats_at : ℕ → ExtensionPodStats
stats_at t = record {
  timestamp = t;
  containers = container "web" ∷ container "log" ∷ [];
  cpu = 16;
  memory = memory;
  network = record { name = "eth0"; rx_bytes = 0; rx_errors = 0; tx_bytes = 0; tx_errors = 0 };
  interfaces = [];
}

abbrev pod : Pod
pod = record {
  name = "web";
  namespace = "ns";
  uid = "u1";
  cluster_name = "";
  resource_version = "";
  creation_timestamp = 3;
  deletion_timestamp = none;
  annotations = [];
  status = record {
    phase = running;
    conditions = [];
    message = "";
    reason = "";
    host_ip = "";
    pod_ip = "10.0.0.4";
    start_time = none;
    container_statuses = [];
  };
}

abbrev measured_pod : MeasuredPod
measured_pod = record { pod = pod; container_names = "web" ∷ "log" ∷ [] }

abbrev pod_report : PodReport
pod_report = extension_pod_stats_to_kubelet_pod_stats pod (stats_at 500000000)

populate_from-panics_example :
    (is_panic (populate_from (some (stats_at 0)) (stats_at 500000000) pod_report) ≡ true)
    × (is_ok (populate_from (some (stats_at 0)) (stats_at 500000000) pod_report) ≡ false)
unfolding sub64
populate_from-panics_example = populate_from-panics (stats_at 0) (stats_at 500000000) pod_report

extension_pod_stats-last_example :
    (map
        (λ (r : ContainerReport). r.name)
        (extension_pod_stats_to_kubelet_pod_stats pod (stats_at 5)).containers
      ≡ map (λ (c : ContainerStats). c.name) (stats_at 5).containers)
    × All
        (HasNumbersOf (container "log"))
        (extension_pod_stats_to_kubelet_pod_stats pod (stats_at 5)).containers
extension_pod_stats-last_example =
    extension_pod_stats-last pod (stats_at 5) (container "web" ∷ []) (container "log") refl

-- Caches without expiry.
record Caches : Type 0 where
  groups : List (String × ContainerGroupWrapper)
  reports : List (String × PodReport)
  usages : List (String × ExtensionPodStats)

abbrev metering : Metering Caches
metering = record {
  rg_name = "rg";
  get_container_group =
      λ rg name w. (ok (record { extensions = some (some "realtime-metrics" ∷ []) }), w);
  fetch = λ url w. (ok (stats_at 5), w);
  cg_cache = record {
    get = λ k w. lookup w.groups k;
    set = λ k v w. record w { groups = (k, v) ∷ w.groups };
  };
  stats_cache = record {
    get = λ k w. lookup w.reports k;
    set = λ k v w. record w { reports = (k, v) ∷ w.reports };
  };
  cpu_stats_cache = record {
    get = λ k w. lookup w.usages k;
    set = λ k v w. record w { usages = (k, v) ∷ w.usages };
  };
}

lookup_front :
    (k j : String) (v x : PodReport) (m : List (String × PodReport))
    → lookup ((k, v) ∷ m) j ≡ some x
    → ((j ≡ k) × (x ≡ v)) ⊎ (lookup m j ≡ some x)
lookup_front k j v x m h = elim (Bool-cases (k == j)) [
  | inl e ↦ inl (ground (arith, eq_iff k j), ground (arith, e))
  | inr e ↦ inr (ground (arith, e))
]

metering-MeteringLaws : MeteringLaws metering
metering-MeteringLaws = record {
  stats_set = λ k j v x w h. lookup_front k j v x w.reports h;
  cg_set = λ k j v w. refl;
  cpu_set = λ k j v w. refl;
  asked = λ j rg name w. refl;
  fetched = λ j url w. refl;
}

abbrev surroundings : Surroundings Caches
surroundings = record {
  node_name = "vk";
  get_pods = λ w. measured_pod ∷ [];
  is_done = λ w. false;
  gives_up = λ p w. false;
  schedule = λ ps. ps;
}

abbrev no_caches : Caches
no_caches = record { groups = []; reports = []; usages = [] }

no_caches-IsOwned : IsOwned metering no_caches
unfolding IsOwned
no_caches-IsOwned uid r found = cc

abbrev summary : Summary
summary = record {
  node_name = "vk";
  pods = extension_pod_stats_to_kubelet_pod_stats pod (stats_at 5) ∷ [];
}

summary_is_made : (get_stats_summary metering surroundings no_caches).0 ≡ ok summary
unfolding get_stats_summary collect measure noted summarize get_pod_stats
    get_container_group_from_pod from_cg_cache uses_real_time finds_real_time decided
    get_cached_pod_stats from_stats_cache get_real_time_pod_stats get_real_time_extension_pod_stats
    populate_usage_nanocores populate_from filter_out_container_not_in_pod
summary_is_made = refl

get_stats_summary-running_example :
    Perm
      (map report_uid summary.pods)
      (map uid_of (running_pods metering surroundings (measured_pod ∷ [])))
get_stats_summary-running_example =
    get_stats_summary-running metering metering-MeteringLaws surroundings (λ ps. Perm.refl ps)
      no_caches summary no_caches-IsOwned summary_is_made
