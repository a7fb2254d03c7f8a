-- ===== src/Create/Shared.antt =====
-- The diagnostics of a pod: getDiagnostics of pkg/provider/aci.go, whose shallow copy shares the map.
use azure_aci.Prelude.{
  String, ◌==◌, Option, none, some, List, ◌∷◌, Result, ok, panics, if◌then◌else◌, ◌>>=◌,
}

-- azaci.LogAnalytics; its metadata is a map, which may be nil.
pub record LogAnalytics : Type 0 where
  pub workspace_id : String
  pub workspace_key : String
  pub log_type : String
  pub metadata : Option (List (String × String))

-- azaci.ContainerGroupDiagnostics
pub record Diagnostics : Type 0 where
  pub log_analytics : Option LogAnalytics

abbrev pub log_analytics_metadata_key_pod_uuid : String
log_analytics_metadata_key_pod_uuid = "pod-uuid"

abbrev pub container_insights : String
container_insights = "ContainerInsights"

-- What getDiagnostics makes of the diagnostics of the provider. The copy that it takes is a shallow one: it
-- shares the map of the metadata, which must not be nil where the UID is written to it.
unfoldable pub with_pod_uid :
    String → LogAnalytics → Option (List (String × String)) → Result LogAnalytics
with_pod_uid uid la none = panics
with_pod_uid uid la (some metadata) =
    ok (record la { metadata = some ((log_analytics_metadata_key_pod_uuid, uid) ∷ metadata) })

unfoldable pub pod_diagnostics : String → Option LogAnalytics → Result Diagnostics
unfolding with_pod_uid
pod_diagnostics uid none = ok (record { log_analytics = none })
pod_diagnostics uid (some la) =
    if la.log_type == container_insights
    then (do la' ← with_pod_uid uid la la.metadata; ok (record { log_analytics = some la' }))
    else ok (record { log_analytics = some la })

unfoldable pub shared_diagnostics : String → Option Diagnostics → Result (Option Diagnostics)
unfolding pod_diagnostics
shared_diagnostics uid none = ok none
shared_diagnostics uid (some d) = do d' ← pod_diagnostics uid d.log_analytics; ok (some d')
