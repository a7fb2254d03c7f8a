-- ===== src/Old/Lost.antt =====
-- What the old provider makes of a group that it does not find, and of logs that it cannot read.
use azure_aci.Prelude.{
  ℕ, zero, suc, String, ◌==◌, ◌≡◌, refl, ap, ◌∙◌, Bool, true, false, Option, some, List, Error,
  not_found, ok, err, is_not_found,
}
use azure_aci.Prelude.Io.{>>=-ok, Answer, returned, failed_with, attempt-err}
use azure_aci.K8s.{Time, Pod, running, ContainerStatus}
use azure_aci.Client.{container_group_name}
use azure_aci.Tracker.{
  Reporter, should_skip_pod_status_update, process_pod_updates, lost_termination,
}
use azure_aci.Tracker.Outcome.{
  LostAll, lost_status, process_pod_updates-Processed, Processed-not_found,
}
use azure_aci.Old.{RestGroup, rest_tag}
use azure_aci.Old.Reading.{
  OldProvider, rest_group_answer, find_rest_group, get_rest_pod_status, try_logs, get_rest_logs,
  notify_rest_pods,
}

module _ {W : Type 0} (p : OldProvider W) where
  -- An answer that the group is not there: status 404, or a group of another node.
  pub data IsElsewhere : Option ℕ × Answer RestGroup → Type 0 where
    missing : (e : Error) → IsElsewhere (some 404, failed_with e)
    of_other_node :
        {status : Option ℕ} {cg : RestGroup}
        → (rest_tag cg "NodeName" == p.node_name) ≡ false
        → IsElsewhere (status, returned cg)

  rest_group_answer-not_found :
      (asked : Option ℕ × Answer RestGroup)
      → IsElsewhere asked
      → (e : Error) × (is_not_found e ≡ true) × (rest_group_answer p asked.0 asked.1 ≡ err e)
  unfolding rest_group_answer
  rest_group_answer-not_found _ (missing e) = (not_found "cg not found", refl, refl)
  rest_group_answer-not_found _ (of_other_node other) =
      (not_found "cg found with mismatching node", refl, rw other refl)

  status-not_found :
      (namespace name : String) (w w' : W) (asked : Option ℕ × Answer RestGroup) (e : Error)
      → p.get_container_group p.resource_group (container_group_name namespace name) w
        ≡ (ok asked, w')
      → rest_group_answer p asked.0 asked.1 ≡ err e
      → get_rest_pod_status p namespace name w ≡ (err e, w')
  unfolding get_rest_pod_status find_rest_group
  status-not_found namespace name w w' asked e found is_err = rw (found, is_err) refl

  -- A pod that is due for an update and running in Kubernetes, and whose group is not there, or is of another
  -- node, is reported by the tracker of the old provider as failed, with every running container
  -- terminated.
  pub lost_in_old_provider :
      (now : Time) (reporter : Reporter W) (pod : Pod) (w w' : W)
      (asked : Option ℕ × Answer RestGroup)
      → p.get_container_group p.resource_group (container_group_name pod.namespace pod.name) w
        ≡ (ok asked, w')
      → IsElsewhere asked
      → should_skip_pod_status_update pod ≡ false
      → pod.status.phase ≡ running
      → (cs : List ContainerStatus) × LostAll
          (lost_termination now)
          pod.status.container_statuses
          cs
        × (process_pod_updates (notify_rest_pods p now reporter) now pod w
            ≡ (ok (record pod { status = lost_status pod.status cs }, true), w'))
  unfolding notify_rest_pods
  lost_in_old_provider now reporter pod w w' asked found elsewhere due up =
      let (e, is_gone, is_err) = rest_group_answer-not_found asked elsewhere in
      let failed =
        attempt-err (get_rest_pod_status p pod.namespace pod.name)
          (status-not_found pod.namespace pod.name w w' asked e found is_err) in
      let (out, ran, how) =
        process_pod_updates-Processed (notify_rest_pods p now reporter) now pod w _ w' due failed in
      let (cs, l, eq) = Processed-not_found is_gone up how in
      (cs, l, ran ∙ ap (λ (o : Pod × Bool). (ok o, w')) eq)

  module _ (container_name : String) (tail : ℕ) (cg_name : String) (e : W → Error)
      (failing : (w : W)
        → (p.get_container_logs p.resource_group cg_name container_name tail w).0 ≡ err (e w)) where
    try_logs-empty : (left : ℕ) (w : W) → (try_logs p left cg_name container_name tail w).0 ≡ ok ""
    unfolding try_logs
    try_logs-empty zero w = refl
    try_logs-empty (suc left) w = rw (failing w) (try_logs-empty left _)

  -- Where every attempt to read the logs of a group that was found fails, the logs are empty, and there is no
  -- error.
  pub get_rest_logs-empty :
      (namespace pod_name container_name : String) (tail : ℕ) (w w' : W) (cg : RestGroup)
      (e : W → Error)
      → find_rest_group p namespace pod_name w ≡ (ok cg, w')
      → ((w : W)
          → (p.get_container_logs p.resource_group cg.name container_name tail w).0 ≡ err (e w))
      → (get_rest_logs p namespace pod_name container_name tail w).0 ≡ ok ""
  unfolding get_rest_logs
  get_rest_logs-empty namespace pod_name container_name tail w w' cg e found failing =
      ap (λ x. x.0) (>>=-ok (find_rest_group p namespace pod_name) _ found)
      ∙ try_logs-empty container_name tail cg.name e failing 10 w'
