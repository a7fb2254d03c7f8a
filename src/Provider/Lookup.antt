-- ===== src/Provider/Lookup.antt =====
-- The provider over the clients of pkg/client: how one group is looked up, and what follows for pods.
use azure_aci.Prelude.{
  ℕ, String, Bool, true, false, none, some, List, ◌≡◌, refl, Error, ok, err, panics, ◌∙◌, ap, plain,
  not_found, ◌<>◌,
}
use azure_aci.Prelude.Io.{>>=-ok, >>=-err, attempt-err}
use azure_aci.K8s.{Time, Pod, running, ContainerStatus}
use azure_aci.Validation.{validate_container_group}
use azure_aci.Client.{
  Sdk, Got, container_group_name, get_container_group_info, get_container_group_list_result,
  delete_container_group, list_logs,
}
use azure_aci.Client.Answers.{get_container_group_info_missing}
use azure_aci.Tracker.{
  Reporter, should_skip_pod_status_update, process_pod_updates, lost_termination,
}
use azure_aci.Tracker.Outcome.{
  LostAll, lost_status, process_pod_updates-Processed, Processed-not_found,
}
use azure_aci.Provider.{AzClients, AciProvider, get_pod_status, get_container_logs, notify_pods}

-- AzClientsAPIs as the interface that the provider uses.
unfoldable pub az_clients_apis : {W G : Type 0} → Sdk W G → AzClients W
az_clients_apis sdk = record {
  get_container_group_info = get_container_group_info sdk;
  get_container_group_list_result = get_container_group_list_result sdk;
  delete_container_group = delete_container_group sdk;
  list_logs = list_logs sdk;
}

module _ {W : Type 0} (p : AciProvider W) (namespace name : String) (w w' : W) where
  -- Where the lookup returns neither a group nor an error, as it does for a group of another node,
  -- reading logs panics, and the status is an error that is not "not found".
  no_group_no_error :
      p.az_clients.get_container_group_info p.resource_group namespace name p.node_name w
        ≡ (ok none, w')
      → ((container : String) (tail : ℕ)
          → get_container_logs p namespace name container tail w ≡ (panics, w'))
        × (get_pod_status p namespace name w ≡ (err (plain "container group cannot be nil"), w'))
  unfolding get_container_logs get_pod_status validate_container_group
  no_group_no_error h = (
    λ container tail.
        >>=-ok (p.az_clients.get_container_group_info p.resource_group namespace name p.node_name) _
          h,
    >>=-ok (p.az_clients.get_container_group_info p.resource_group namespace name p.node_name) _ h,
  )

-- A pod that Kubernetes has as running and whose group Azure answers with status 404 is reported by
-- the next status update as failed, with every running container terminated.
module _ {W G : Type 0} (sdk : Sdk W G) (p : AciProvider W) (now : Time) (reporter : Reporter W)
    (pod : Pod) (w : W) (e : Error) where
  abbrev pub answer : Got × W
  answer = sdk.get p.resource_group (container_group_name pod.namespace pod.name) w

  -- FetchPodStatus says "not found".
  fetched_missing :
      p.az_clients ≡ az_clients_apis sdk
      → answer.0.error ≡ some e
      → answer.0.status_code ≡ 404
      → get_pod_status p pod.namespace pod.name w
        ≡ (err (not_found ("container group " <> pod.name <> " is not found")), answer.1)
  unfolding az_clients_apis get_pod_status
  fetched_missing same failing missing =
      >>=-err
        (p.az_clients.get_container_group_info p.resource_group pod.namespace pod.name p.node_name)
        _
        (rw same (
          get_container_group_info_missing sdk p.resource_group pod.namespace pod.name p.node_name w
            e failing missing))

  pub lost_in_azure :
      p.az_clients ≡ az_clients_apis sdk
      → should_skip_pod_status_update pod ≡ false
      → pod.status.phase ≡ running
      → answer.0.error ≡ some e
      → answer.0.status_code ≡ 404
      → (cs : List ContainerStatus) × LostAll
          (lost_termination now)
          pod.status.container_statuses
          cs
        × (process_pod_updates (notify_pods p now reporter) now pod w
            ≡ (ok (record pod { status = lost_status pod.status cs }, true), answer.1))
  unfolding notify_pods
  lost_in_azure same due up failing missing =
      let asked =
        attempt-err (get_pod_status p pod.namespace pod.name)
          (fetched_missing same failing missing) in
      let (out, ran, how) =
        process_pod_updates-Processed (notify_pods p now reporter) now pod w _ answer.1 due asked in
      let (cs, l, eq) = Processed-not_found refl up how in
      (cs, l, ran ∙ ap (λ (o : Pod × Bool). (ok o, answer.1)) eq)
