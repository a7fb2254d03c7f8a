-- ===== src/Metrics/Insights/Cumulative.antt =====
-- Container Insights gives averages over a minute; the totals of the kubelet are summed up from them:
-- updateCumulativeUsage, updateCumulativeValues and getPodStats of provider/metrics/container_insights.go.
use azure_aci.Prelude.{
  ℕ, ◌+◌, ◌-◌, ◌*◌, ◌/◌, String, ◌<>◌, Option, none, some, List, [], ◌∷◌, lookup, ltb,
  if◌then◌else◌,
}
use azure_aci.Prelude.Io.{Io, pure, attempt, act, ◌>>=◌, ◌>>◌}
use azure_aci.K8s.{Time, Pod}
use azure_aci.Client.{container_group_name}
use azure_aci.Metrics.Getters.{Cache, wrapped_answer}
use azure_aci.Metrics.Insights.{
  Entry, InsightsMetrics, MetricsGetter, ContainerUsage, PodUsage, to_uint64, last_entry,
  collect_metrics, query_container_insights_metrics,
}

-- cumulativeUsage
pub record Cumulative : Type 0 where
  pub last_update_time : Time
  pub value : ℕ

abbrev pub no_cumulative : Cumulative
no_cumulative = record { last_update_time = 0; value = 0 }

-- time.Minute, in nanoseconds
abbrev pub minute : ℕ
minute = 60000000000

-- An entry that is newer than the last update adds its average for sixty seconds.
unfoldable pub add_entry : ℕ → Entry → Cumulative → Cumulative
add_entry multiple r c =
    if ltb c.last_update_time r.timestamp
    then record {
      last_update_time = r.timestamp;
      value = to_uint64 (c.value + to_uint64 (r.average / 1000000) * 60 * multiple);
    }
    else c

unfoldable pub add_entries : ℕ → List Entry → Cumulative → Cumulative
unfolding add_entry
add_entries multiple [] c = c
add_entries multiple (r ∷ rs) c = add_entries multiple rs (add_entry multiple r c)

-- The total starts anew after a gap of more than a minute.
unfoldable pub restarted : Entry → Cumulative → Cumulative
restarted first c = if ltb (c.last_update_time + minute) first.timestamp then no_cumulative else c

-- updateCumulativeUsage for the series `first ∷ rest`; it is called with no empty series.
unfoldable pub update_cumulative_usage : ℕ → Entry → List Entry → Cumulative → Cumulative
unfolding restarted add_entries
update_cumulative_usage multiple first rest c =
    add_entries multiple (first ∷ rest) (restarted first c)

-- podCumulativeUsage
pub record PodCumulative : Type 0 where
  pub pod_uid : String
  pub containers : List (String × Cumulative)
  pub network_rx : Cumulative
  pub network_tx : Cumulative

abbrev pub or_new : String → Option PodCumulative → PodCumulative
or_new uid none = record {
  pod_uid = uid;
  containers = [];
  network_rx = no_cumulative;
  network_tx = no_cumulative;
}
or_new uid (some c) = c

abbrev pub or_zero : Option Cumulative → Cumulative
or_zero none = no_cumulative
or_zero (some c) = c

abbrev pub time_of : Option Entry → Time → Time
time_of none before = before
time_of (some r) before = r.timestamp

-- What has been received and sent, where there are series of it.
abbrev pub with_received : List Entry → PodCumulative × PodUsage → PodCumulative × PodUsage
with_received [] (c, p) = (c, p)
with_received (first ∷ rest) (c, p) =
    let rx = update_cumulative_usage 1 first rest c.network_rx in
    (
      record c { network_rx = rx },
      record p {
        rx_bytes = rx.value;
        network_time = time_of (last_entry (first ∷ rest)) p.network_time;
      },
    )

abbrev pub with_sent : List Entry → PodCumulative × PodUsage → PodCumulative × PodUsage
with_sent [] (c, p) = (c, p)
with_sent (first ∷ rest) (c, p) =
    let tx = update_cumulative_usage 1 first rest c.network_tx in
    (
      record c { network_tx = tx },
      record p {
        tx_bytes = tx.value;
        network_time = time_of (last_entry (first ∷ rest)) p.network_time;
      },
    )

-- The total of one container.
unfoldable pub with_total :
    Option (List Entry) → PodCumulative → ContainerUsage → PodCumulative × ContainerUsage
unfolding update_cumulative_usage
with_total none c u = (c, u)
with_total (some []) c u = (c, u)
with_total (some (first ∷ rest)) c u =
    let v = update_cumulative_usage 1000000 first rest (or_zero (lookup c.containers u.name)) in
    (
      record c { containers = (u.name, v) ∷ c.containers },
      record u { usage_core_nano_seconds = v.value },
    )

unfoldable pub with_totals :
    InsightsMetrics → List ContainerUsage → PodCumulative → PodCumulative × List ContainerUsage
unfolding with_total
with_totals m [] c = (c, [])
with_totals m (u ∷ us) c =
    let (c1, u1) = with_total (lookup m.cpu u.name) c u in
    let (c2, us1) = with_totals m us c1 in (c2, u1 ∷ us1)

unfoldable pub total_of : List ContainerUsage → ℕ → ℕ
total_of [] sum = sum
total_of (u ∷ us) sum = total_of us (to_uint64 (sum + u.usage_core_nano_seconds))

-- The cached totals after the metrics, and the statistics with them. The total of the pod is the sum of those of
-- its containers.
unfoldable pub update_cumulative_values :
    InsightsMetrics → PodCumulative → PodUsage → PodCumulative × PodUsage
unfolding with_totals total_of
update_cumulative_values m c p =
    let (c1, p1) = with_sent m.network_tx (with_received m.network_rx (c, p)) in
    let (c2, us) = with_totals m p1.containers c1 in
    (c2, record p1 { containers = us; usage_core_nano_seconds = total_of us 0 })

-- insightsGetter
pub record Insights (W : Type 0) : Type 0 where
  pub metrics_getter : MetricsGetter W
  pub resource_group : String
  pub now : W → Time
  pub cumulative_usage_cache : Cache W PodCumulative

-- Five minutes
abbrev pub window : ℕ
window = 5 * minute

module _ {W : Type 0} (g : Insights W) where
  unfoldable pub cached_totals : Pod → InsightsMetrics → Time → Io W PodUsage
  unfolding update_cumulative_values
  cached_totals pod m now w =
      let (c, p) =
        update_cumulative_values m (or_new pod.uid (g.cumulative_usage_cache.get pod.uid w))
          (collect_metrics pod now m) in
      (act (g.cumulative_usage_cache.set pod.uid c) >> pure p) w

  unfoldable pub get_insights_pod_stats : Pod → Io W PodUsage
  unfolding cached_totals
  get_insights_pod_stats pod w =
      let now = g.now w in
      let cg_name = container_group_name pod.namespace pod.name in
      (attempt (
            query_container_insights_metrics g.metrics_getter g.resource_group cg_name
              (now - window) now)
          >>= λ answer.
              wrapped_answer
                ("error fetching metrics from Container Insights for container group " <> cg_name)
                answer
              >>= λ m. cached_totals pod m now)
        w
