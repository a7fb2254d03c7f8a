-- ===== src/Provider.antt =====
-- The part of pkg/provider/aci.go that reads, lists, deletes and tracks pods. The clients of Azure
-- are the interface AzClientsInterface, as it is used here.
pub mod Listing
pub mod Deleting
pub mod Lookup
pub mod Exec
mod Examples
use azure_aci.Prelude.{
  ℕ, String, Bool, true, false, Option, none, some, List, [], ◌∷◌, ◌==◌, ◌<>◌, ◌&&◌, eqb, map,
  if◌then◌else◌, is_some, Error, plain, not_found, Result, ok, err, panics, deref, lookup,
}
use azure_aci.Prelude.Io.{
  Io, pure, raise, lift, attempt, Answer, returned, failed_with, ◌>>=◌, ◌>>◌,
}
use azure_aci.K8s.{ℤ, pos, Time, Terminated, PodStatus, Pod}
use azure_aci.Azure.{ContainerGroup, Pointer}
use azure_aci.Validation.{validate_container_group}
use azure_aci.Status.{Outside, tag, get_pod_status_from_container_group}
use azure_aci.Client.{container_group_name}
use azure_aci.Tracker.{
  PodIdentifier, PodsTrackerHandler, Reporter, PodsTracker, terminate, update_pod_status,
}

pub record AzClients (W : Type 0) : Type 0 where
  pub get_container_group_info : String → String → String → String → Io W (Option ContainerGroup)
  pub get_container_group_list_result : String → Io W (Option (List ContainerGroup))
  pub delete_container_group : String → String → Io W (Unit {0})
  pub list_logs : String → String → String → ℕ → Io W (Option String)

-- The fields of ACIProvider that are read here. `node_name_address` is where the field `nodeName`
-- stands; `get_pod` is the resource manager's GetPod; `tracker` is what NotifyPods has set up.
pub record AciProvider (W : Type 0) : Type 0 where
  pub az_clients : AzClients W
  pub get_pod : String → String → W → Result Pod
  pub outside : Outside
  pub resource_group : String
  pub node_name : String
  pub node_name_address : ℕ
  pub internal_ip : String
  pub tracker : Option (Reporter W)

-- The status code and texts of a pod that the provider has deleted.
abbrev pub deleted_termination : Time → Terminated
deleted_termination now = record {
  exit_code = pos 0;
  reason = "NotFound";
  message = "The pod may have been deleted from the provider";
  started_at = 0;
  finished_at = now;
  container_id = "";
}

abbrev pub delete_update : Time → PodStatus → PodStatus
delete_update now st = record st {
  container_statuses = map (terminate (deleted_termination now)) st.container_statuses;
}

-- Whether `&p.nodeName` is the very pointer that stands in a tag.
abbrev pub is_pointer_to : ℕ → Option Pointer → Bool
is_pointer_to address none = false
is_pointer_to address (some p) = eqb p.address address

module _ {W : Type 0} (p : AciProvider W) where
  container_group_to_pod : ContainerGroup → Io W Pod
  container_group_to_pod cg w =
      (do
        name ← lift (deref cg.name)
        namespace ← lift (deref (tag cg "Namespace"))
        pod ← (λ w. (p.get_pod name namespace.value w, w))
        status ← lift (get_pod_status_from_container_group p.outside p.internal_ip cg)
        pure (record pod { status = status }))
        w

  unfoldable pub get_pod_status : String → String → Io W (Option PodStatus)
  get_pod_status namespace name = do
    cg ← p.az_clients.get_container_group_info p.resource_group namespace name p.node_name
    checked ← lift (validate_container_group cg)
    status ← lift (get_pod_status_from_container_group p.outside p.internal_ip checked)
    pure (some status)

  unfoldable pub get_provider_pod : String → String → Io W Pod
  unfolding container_group_to_pod
  get_provider_pod namespace name = do
    cg ← p.az_clients.get_container_group_info p.resource_group namespace name p.node_name
    checked ← lift (validate_container_group cg)
    container_group_to_pod checked

  -- `*cg.Name` is read whether or not there is a group.
  unfoldable pub get_container_logs : String → String → String → ℕ → Io W (Option String)
  get_container_logs namespace pod_name container_name tail = do
    info ← p.az_clients.get_container_group_info p.resource_group namespace pod_name p.node_name
    cg ← lift (deref info)
    cg_name ← lift (deref cg.name)
    p.az_clients.list_logs p.resource_group cg_name container_name tail

  -- The answer of the check is dropped, and the error that is tested after it is the nil one of the
  -- listing; what is left of the check is a panic, and the address that it fills in.
  recheck : ContainerGroup → Result ContainerGroup
  recheck cg = elim (validate_container_group (some cg)) [
    | ok checked ↦ ok checked
    | err e ↦ ok cg
    | panics ↦ panics
  ]

  -- A group that cannot be converted is logged and left out.
  keep_pod : Answer Pod → List Pod → List Pod
  keep_pod (returned pod) pods = pod ∷ pods
  keep_pod (failed_with e) pods = pods

  -- The body of the loop of GetPods, for the groups from here on.
  pods_of : List ContainerGroup → Io W (List Pod)
  unfolding recheck keep_pod container_group_to_pod
  pods_of [] = pure []
  pods_of (cg ∷ cgs) = do
    checked ← lift (recheck cg)
    let rest = pods_of cgs
    (if is_pointer_to p.node_name_address (tag checked "NodeName")
        then (do
          pod ← attempt (container_group_to_pod checked)
          pods ← rest
          pure (keep_pod pod pods))
        else rest)

  unfoldable pub get_pods : Io W (List Pod)
  unfolding pods_of
  get_pods = do
    cgs ← p.az_clients.get_container_group_list_result p.resource_group
    elim cgs [ none ↦ pure [] | some list ↦ pods_of list ]

  unfoldable pub list_active_pods : Io W (List PodIdentifier)
  unfolding get_pods
  list_active_pods = do
    provider_pods ← get_pods
    pure (map (λ pod. record { namespace = pod.namespace; name = pod.name }) provider_pods)

  -- The update of the status after a deletion; its failure is logged.
  note_deleted : Time → String → String → Option (Reporter W) → Io W (Unit {0})
  note_deleted now pod_ns pod_name none = pure tt
  note_deleted now pod_ns pod_name (some tracker) = do
    answer ← attempt (update_pod_status tracker pod_ns pod_name (delete_update now) false)
    pure tt

  -- deleteContainerGroup, which DeletePod and CleanupPod call.
  unfoldable pub delete_pod_group : Time → String → String → Io W (Unit {0})
  unfolding note_deleted
  delete_pod_group now pod_ns pod_name = do
    p.az_clients.delete_container_group p.resource_group (container_group_name pod_ns pod_name)
    note_deleted now pod_ns pod_name p.tracker

  unfoldable pub delete_pod : Time → Pod → Io W (Unit {0})
  unfolding delete_pod_group
  delete_pod now pod = delete_pod_group now pod.namespace pod.name

  -- UpdatePod
  unfoldable pub update_pod : Pod → Io W (Unit {0})
  update_pod pod = pure tt

  -- The provider as the tracker's handler: ListActivePods, FetchPodStatus, CleanupPod.
  unfoldable pub provider_handler : Time → PodsTrackerHandler W
  unfolding list_active_pods get_pod_status delete_pod_group
  provider_handler now = record {
    list_active_pods = list_active_pods;
    fetch_pod_status = get_pod_status;
    cleanup_pod = delete_pod_group now;
  }

  -- NotifyPods: the tracker that it starts.
  unfoldable pub notify_pods : Time → Reporter W → PodsTracker W
  unfolding provider_handler
  notify_pods now reporter = record { reporter = reporter; handler = provider_handler now }
