-- ===== src/Old/Reading.antt =====
-- The reading, listing and deleting of pods in provider/aci.go, over the client of client/aci.
use azure_aci.Prelude.{
  ℕ, zero, suc, String, ◌==◌, Bool, false, eqb, if◌then◌else◌, Option, none, some, List, [], ◌∷◌,
  map, not_found, Result, ok, err,
}
use azure_aci.Prelude.Io.{Io, pure, lift, attempt, act, Answer, returned, failed_with, ◌>>=◌, ◌>>◌}
use azure_aci.K8s.{Time, PodStatus, Pod}
use azure_aci.Status.{Outside}
use azure_aci.Client.{container_group_name}
use azure_aci.Tracker.{PodIdentifier, Reporter, PodsTracker, update_pod_status}
use azure_aci.Provider.{delete_update}
use azure_aci.Old.{RestGroup, rest_tag, rest_pod_status, rest_group_to_pod}

-- The provider: how resource.MustParse reads a quantity, its client, whose GetContainerGroup gives the status of a response too, time.Sleep, the
-- resource group and the node, and what NotifyPods has set up.
pub record OldProvider (W : Type 0) : Type 0 where
  pub get_container_group : String → String → Io W (Option ℕ × Answer RestGroup)
  pub list_container_groups : String → Io W (List RestGroup)
  pub delete_container_group : String → String → Io W (Unit {0})
  pub get_container_logs : String → String → String → ℕ → Io W String
  pub sleep : ℕ → W → W
  pub outside : Outside
  pub parse_quantity : String → Option ℕ
  pub resource_group : String
  pub node_name : String
  pub tracker : Option (Reporter W)

abbrev pub says_not_found : Option ℕ → Bool
says_not_found none = false
says_not_found (some status) = eqb status 404

module _ {W : Type 0} (p : OldProvider W) where
  -- getContainerGroup, after the answer: a group of another node is "not found".
  unfoldable pub rest_group_answer : Option ℕ → Answer RestGroup → Result RestGroup
  rest_group_answer status (failed_with e) =
      if says_not_found status then err (not_found "cg not found") else err e
  rest_group_answer status (returned cg) =
      if rest_tag cg "NodeName" == p.node_name
      then ok cg
      else err (not_found "cg found with mismatching node")

  unfoldable pub find_rest_group : String → String → Io W RestGroup
  unfolding rest_group_answer
  find_rest_group namespace name = do
    asked ← p.get_container_group p.resource_group (container_group_name namespace name)
    lift (rest_group_answer asked.0 asked.1)

  unfoldable pub get_rest_pod : String → String → Io W Pod
  unfolding find_rest_group
  get_rest_pod namespace name = do
    cg ← find_rest_group namespace name
    lift (rest_group_to_pod p.parse_quantity p.outside cg)

  unfoldable pub get_rest_pod_status : String → String → Io W (Option PodStatus)
  unfolding find_rest_group
  get_rest_pod_status namespace name = do
    cg ← find_rest_group namespace name
    status ← lift (rest_pod_status p.outside cg cg.containers)
    pure (some status)

  -- The loop of GetContainerLogs. The error of an attempt is one of the loop's body: after the last, it
  -- is forgotten, and what is returned is the empty log.
  unfoldable pub try_logs : ℕ → String → String → ℕ → Io W String
  try_logs zero cg_name container_name tail = pure ""
  try_logs (suc left) cg_name container_name tail = do
    let again = try_logs left cg_name container_name tail
    answer ← attempt (p.get_container_logs p.resource_group cg_name container_name tail)
    elim answer [
      | returned content ↦ pure content
      | failed_with e ↦ act (p.sleep 5000000000) >> again
    ]

  unfoldable pub get_rest_logs : String → String → String → ℕ → Io W String
  unfolding find_rest_group try_logs
  get_rest_logs namespace pod_name container_name tail = do
    cg ← find_rest_group namespace pod_name
    try_logs 10 cg.name container_name tail

  -- The loop of GetPods.
  unfoldable pub rest_pods_of : List RestGroup → Io W (List Pod)
  rest_pods_of [] = pure []
  rest_pods_of (cg ∷ cgs) =
      let rest = rest_pods_of cgs in
      if rest_tag cg "NodeName" == p.node_name
      then (do
        pod ← attempt (lift (rest_group_to_pod p.parse_quantity p.outside cg))
        pods ← rest
        pure (elim pod [ returned made ↦ made ∷ pods | failed_with e ↦ pods ]))
      else rest

  unfoldable pub get_rest_pods : Io W (List Pod)
  unfolding rest_pods_of
  get_rest_pods = do cgs ← p.list_container_groups p.resource_group; rest_pods_of cgs

  unfoldable pub list_rest_pods : Io W (List PodIdentifier)
  unfolding get_rest_pods
  list_rest_pods = do
    provider_pods ← get_rest_pods
    pure (map (λ pod. record { namespace = pod.namespace; name = pod.name }) provider_pods)

  -- The update of the status after a deletion; its failure is logged, if at all.
  unfoldable pub note_rest_deleted : Time → String → String → Option (Reporter W) → Io W (Unit {0})
  note_rest_deleted now pod_ns pod_name none = pure tt
  note_rest_deleted now pod_ns pod_name (some tracker) = do
    answer ← attempt (update_pod_status tracker pod_ns pod_name (delete_update now) false)
    pure tt

  -- deleteContainerGroup, which DeletePod and CleanupPod call.
  unfoldable pub delete_rest_group : Time → String → String → Io W (Unit {0})
  unfolding note_rest_deleted
  delete_rest_group now pod_ns pod_name = do
    p.delete_container_group p.resource_group (container_group_name pod_ns pod_name)
    note_rest_deleted now pod_ns pod_name p.tracker

  unfoldable pub delete_rest_pod : Time → Pod → Io W (Unit {0})
  unfolding delete_rest_group
  delete_rest_pod now pod = delete_rest_group now pod.namespace pod.name

  -- The provider as the tracker's handler, and the tracker that NotifyPods starts.
  unfoldable pub notify_rest_pods : Time → Reporter W → PodsTracker W
  unfolding list_rest_pods get_rest_pod_status delete_rest_group
  notify_rest_pods now reporter = record {
    reporter = reporter;
    handler = record {
      list_active_pods = list_rest_pods;
      fetch_pod_status = get_rest_pod_status;
      cleanup_pod = delete_rest_group now;
    };
  }
