-- ===== src/Metrics/Summary.antt =====
-- GetStatsSummary of pkg/metrics/metrics.go.
use azure_aci.Prelude.{
  String, Bool, ◌<>◌, Option, none, some, List, [], ◌∷◌, Error, plain, err, panics, if◌then◌else◌,
  keep,
}
use azure_aci.Prelude.Io.{Io, pure, raise, lift, attempt, Answer, returned, failed_with, ◌>>=◌}
use azure_aci.Tracker.{is_running}
use azure_aci.Metrics.{PodReport, MeasuredPod}
use azure_aci.Metrics.Getters.{Metering, get_pod_stats, wrap}

-- stats.Summary
pub record Summary : Type 0 where
  pub node_name : String
  pub pods : List PodReport

-- What stands outside of the getter: the pods of the node, whether the context is done, whether a
-- goroutine takes the branch of a done context, and the order in which the goroutines run.
pub record Surroundings (W : Type 0) : Type 0 where
  pub node_name : String
  pub get_pods : W → List MeasuredPod
  pub is_done : W → Bool
  pub gives_up : MeasuredPod → W → Bool
  pub schedule : List MeasuredPod → List MeasuredPod

-- What the goroutines leave: the statistics in the channel, and the first error.
pub record Collected : Type 0 where
  pub reports : List PodReport
  pub first_error : Option Error

module _ {W : Type 0} (m : Metering W) (o : Surroundings W) where
  -- The body of a goroutine.
  unfoldable pub measure : MeasuredPod → Io W (Option PodReport)
  measure p w = if o.gives_up p w then (err (plain "context canceled"), w) else get_pod_stats m p w

  -- A goroutine sends its statistics through a pointer, which must not be nil, or leaves its error if
  -- it is the first. `rest` is what runs after it.
  unfoldable pub noted : MeasuredPod → Answer (Option PodReport) → Io W Collected → Io W Collected
  noted p (returned none) rest = lift panics
  noted p (returned (some report)) rest = do
    c ← rest
    pure (record c { reports = report ∷ c.reports })
  noted p (failed_with e) rest = do
    c ← rest
    pure (record c {
      first_error = some (wrap ("error fetching metrics for pods '" <> (p.pod.name <> "'")) e);
    })

  -- The goroutines, one after the other in the order in which they run.
  unfoldable pub collect : List MeasuredPod → Io W Collected
  unfolding measure noted
  collect [] = pure (record { reports = []; first_error = none })
  collect (p ∷ ps) = do answer ← attempt (measure p); noted p answer (collect ps)

  abbrev pub running_pods : List MeasuredPod → List MeasuredPod
  running_pods pods = keep (λ p. is_running p.pod.status.phase) pods

  -- What is made of the first error, and of the channel once it is closed.
  unfoldable pub summarize : Option Error → List PodReport → Io W Summary
  summarize (some e) reports = raise (wrap "error in request to fetch container group metrics" e)
  summarize none reports = pure (record { node_name = o.node_name; pods = reports })

  unfoldable pub get_stats_summary : Io W Summary
  unfolding collect summarize
  get_stats_summary w =
      if o.is_done w
      then (err (plain "context canceled"), w)
      else (do
        collected ← collect (o.schedule (running_pods (o.get_pods w)))
        summarize collected.first_error collected.reports)
          w
