-- ===== src/Metrics/Decider/Examples.antt =====
-- A pod whose group has the real-time extension; the world is what the caches hold.
use azure_aci.Prelude.{
  String, eq_refl, none, some, List, [], ◌∷◌, ◌≡◌, refl, ok, err, plain, lookup,
}
use azure_aci.Prelude.Io.{pure, returned}
use azure_aci.K8s.{running, Pod}
use azure_aci.Metrics.{
  PodReport, MeasuredPod, ExtensionPodStats, MemoryStats, extension_pod_stats_to_kubelet_pod_stats,
}
use azure_aci.Metrics.Getters.{finds_real_time}
use azure_aci.Metrics.Insights.{PodUsage}
use azure_aci.Metrics.Decider.{
  CachedGetter, get_cached, from_cache, Decider, ExtensionTypes, decided_stats, group_of_pod,
  from_group_cache, stats_from, real_time_stats,
}
use azure_aci.Metrics.Decider.Remembered.{Remembers, FromSource, decided_stats-again}

record World : Type 0 where
  groups : List (String × ExtensionTypes)
  reports : List (String × PodReport)
  usages : List (String × PodUsage)

abbrev memory : MemoryStats
memory = record { usage_bytes = 1; working_set_bytes = 1; rss_bytes = 1 }

abbrev stats : ExtensionPodStats
stats = record {
  timestamp = 5;
  containers = [];
  cpu = 16;
  memory = memory;
  network = record { name = "eth0"; rx_bytes = 0; rx_errors = 0; tx_bytes = 0; tx_errors = 0 };
  interfaces = [];
}

abbrev pod : Pod
pod = record {
  name = "web";
  namespace = "ns";
  uid = "u1";
  cluster_name = "";
  resource_version = "";
  creation_timestamp = 3;
  deletion_timestamp = none;
  annotations = [];
  status = record {
    phase = running;
    conditions = [];
    message = "";
    reason = "";
    host_ip = "";
    pod_ip = "10.0.0.4";
    start_time = none;
    container_statuses = [];
  };
}

abbrev pod_report : PodReport
pod_report = extension_pod_stats_to_kubelet_pod_stats pod stats

abbrev measured_pod : MeasuredPod
measured_pod = record { pod = pod; container_names = [] }

abbrev from_real_time : CachedGetter World PodReport
from_real_time = record {
  wrapped_getter = λ p. pure pod_report;
  cache = record {
    get = λ key w. lookup w.reports key;
    set = λ key v w. record w { reports = (key, v) ∷ w.reports };
  };
}

abbrev from_insights : CachedGetter World PodUsage
from_insights = record {
  wrapped_getter = λ p w. (err (plain "no metrics"), w);
  cache = record {
    get = λ key w. lookup w.usages key;
    set = λ key v w. record w { usages = (key, v) ∷ w.usages };
  };
}

abbrev decider : Decider World
decider = record {
  container_insights_getter = from_insights;
  real_time_getter = from_real_time;
  rg_name = "rg";
  get_container_group = λ rg name. pure (some 200, returned (some "realtime-metrics" ∷ []));
  group_cache = record {
    get = λ key w. lookup w.groups key;
    set = λ key v w. record w { groups = (key, v) ∷ w.groups };
  };
}

remembers : Remembers decider
remembers = record {
  groups = record { found = λ key v w. rw (eq_refl key) refl };
  insights = record {
    finds = record { found = λ key v w. rw (eq_refl key) refl };
    setting = λ key key' v w. refl;
    getting = λ key p w. refl;
  };
  real_time = record {
    finds = record { found = λ key v w. rw (eq_refl key) refl };
    setting = λ key key' v w. refl;
    getting = λ key p w. refl;
  };
}

abbrev empty : World
empty = record { groups = []; reports = []; usages = [] }

abbrev filled : World
filled = record {
  groups = ("u1", some "realtime-metrics" ∷ []) ∷ [];
  reports = ("u1", pod_report) ∷ [];
  usages = [];
}

measured_once : decided_stats decider measured_pod empty ≡ (ok (real_time_stats pod_report), filled)
unfolding decided_stats group_of_pod from_group_cache finds_real_time stats_from get_cached
    from_cache
measured_once = refl

decided_stats-again_example :
    (group : ExtensionTypes) × (decider.group_cache.get measured_pod.pod.uid filled ≡ some group)
    × FromSource decider measured_pod group filled (real_time_stats pod_report)
    × (decided_stats decider measured_pod filled ≡ (ok (real_time_stats pod_report), filled))
decided_stats-again_example =
    decided_stats-again decider measured_pod empty filled (real_time_stats pod_report) remembers
      measured_once
