-- ===== src/Provider/Deleting.antt =====
-- What a deletion does.
use azure_aci.Prelude.{String, Option, none, some, List, In, ◌≡◌, Error, err}
use azure_aci.Prelude.Io.{Io, >>=-err}
use azure_aci.K8s.{Time, pos, Terminated, ContainerStatus, Pod}
use azure_aci.Client.{container_group_name}
use azure_aci.Tracker.{Reporter}
use azure_aci.Tracker.Outcome.{LostAll}
use azure_aci.Tracker.Cleanup.{Names, Found}
use azure_aci.Provider.{AciProvider, note_deleted, delete_pod}

-- How a container of a deleted pod has ended.
abbrev pub gone : Time → Terminated
gone now = record {
  exit_code = pos 0;
  reason = "NotFound";
  message = "The pod may have been deleted from the provider";
  started_at = 0;
  finished_at = now;
  container_id = "";
}

-- The world after the note of a deletion: at most one pod is reported, the first of the name, with its running
-- containers terminated and nothing else changed.
pub data Noted {W : Type 0} (now : Time) (ns name : String) (w : W)
    : Option (Reporter W) → W → Type 0 where
  untracked : Noted now ns name w none w
  tracked :
      (rep : Reporter W) (pod : Pod) (cs : List ContainerStatus)
      → Found ns name (rep.get_pods w) (some pod)
      → LostAll (gone now) pod.status.container_statuses cs
      → Noted now ns name w
          (some rep)
          (rep.update_cb (record pod { status = record pod.status { container_statuses = cs } }) w)
  unknown_pod :
      (rep : Reporter W)
      → ((pod : Pod) → In pod (rep.get_pods w) → ¬ Names pod ns name)
      → Noted now ns name w (some rep) w

module _ {W : Type 0} (p : AciProvider W) (now : Time) (pod : Pod) (w w' : W) where
  abbrev asked : Io W (Unit {0})
  asked =
      p.az_clients.delete_container_group p.resource_group
        (container_group_name pod.namespace pod.name)

  abbrev noting : Unit {0} → Io W (Unit {0})
  noting _ = note_deleted p now pod.namespace pod.name p.tracker

  -- Deleting a pod deletes the container group "namespace-name" of the resource group. If Azure
  -- refuses, its error is returned and the pod's status is not touched.
  pub delete_pod_refused :
      (e : Error)
      → p.az_clients.delete_container_group p.resource_group
          (container_group_name pod.namespace pod.name)
          w
        ≡ (err e, w')
      → delete_pod p now pod w ≡ (err e, w')
  unfolding delete_pod
  delete_pod_refused e h = >>=-err asked noting h
