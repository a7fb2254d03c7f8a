-- ===== src/Metrics/Aliased.antt =====
-- The reports of the containers point to the loop's variable.
use azure_aci.Prelude.{List, [], ◌∷◌, ◌++◌, ◌≡◌, refl, subst, map, ap, All, ◌∙◌}
use azure_aci.K8s.{ℤ, to_int64, Pod}
use azure_aci.Metrics.{
  ContainerStats, ContainerReport, ExtensionPodStats, container_views, container_reports,
  zero_stats, extension_pod_stats_to_kubelet_pod_stats,
}

-- The numbers of the container `last`.
abbrev pub HasNumbersOf : ContainerStats → ContainerReport → Type 0
HasNumbersOf last r = (r.cpu.usage_core_nano_seconds ≡ last.cpu) × (r.memory.values ≡ last.memory)

module _ (pod : Pod) (stats_time : ℤ) where
  variable-last :
      (cs : List ContainerStats) (last variable : ContainerStats)
      → (container_views pod stats_time (cs ++ (last ∷ [])) variable).1 ≡ last
  unfolding container_views
  variable-last [] last variable = refl
  variable-last (c ∷ cs) last variable = variable-last cs last c

  views-names :
      (cs : List ContainerStats) (variable after : ContainerStats)
      → map
          (λ (r : ContainerReport). r.name)
          (map (λ view. view after) (container_views pod stats_time cs variable).0)
        ≡ map (λ (c : ContainerStats). c.name) cs
  unfolding container_views
  views-names [] variable after = refl
  views-names (c ∷ cs) variable after = ap (λ names. c.name ∷ names) (views-names cs c after)

  views-numbers :
      (cs : List ContainerStats) (variable after : ContainerStats)
      → All
          (HasNumbersOf after)
          (map (λ view. view after) (container_views pod stats_time cs variable).0)
  unfolding container_views
  views-numbers [] variable after = tt
  views-numbers (c ∷ cs) variable after = ((refl, refl), views-numbers cs c after)

-- A pod's report has one report for each of its containers, under its name; but all of them have the
-- usage and the memory of the last container.
pub extension_pod_stats-last :
    (pod : Pod) (s : ExtensionPodStats) (cs : List ContainerStats) (last : ContainerStats)
    → s.containers ≡ cs ++ (last ∷ [])
    → (map
          (λ (r : ContainerReport). r.name)
          (extension_pod_stats_to_kubelet_pod_stats pod s).containers
        ≡ map (λ (c : ContainerStats). c.name) s.containers)
      × All (HasNumbersOf last) (extension_pod_stats_to_kubelet_pod_stats pod s).containers
unfolding extension_pod_stats_to_kubelet_pod_stats container_reports
extension_pod_stats-last pod s cs last e = (
  views-names pod (to_int64 s.timestamp) s.containers zero_stats _,
  subst
      (λ after.
        All (HasNumbersOf after) (container_reports pod (to_int64 s.timestamp) s.containers))
      (ap (λ containers. (container_views pod (to_int64 s.timestamp) containers zero_stats).1) e
        ∙ variable-last pod (to_int64 s.timestamp) cs last zero_stats)
      (views-numbers pod (to_int64 s.timestamp) s.containers zero_stats _),
)
