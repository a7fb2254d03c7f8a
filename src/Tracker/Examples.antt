-- ===== src/Tracker/Examples.antt =====
-- A cluster of two pods, one running and one that has succeeded, with one more active in Azure.
use azure_aci.Prelude.{
  String, Bool, true, false, none, some, List, [], ◌∷◌, ◌≡◌, refl, inl, All, In, not_found, plain,
  ok, err,
}
use azure_aci.Prelude.Io.{failed_with, Keeps, pure, raise}
use azure_aci.K8s.{PodPhase, running, succeeded, ContainerStatus, PodStatus, Pod}
use azure_aci.Tracker.{
  PodIdentifier, PodsTrackerHandler, Reporter, PodsTracker, done, status_updates, cleanup,
  get_pod_from_list, should_skip_pod_status_update, process_pod_updates, cleanup_dangling_pods,
  start_tracking,
}
use azure_aci.Tracker.Outcome.{
  Processed, process_pod_updates-Processed, process_pod_updates_skipped,
}
use azure_aci.Tracker.Swept.{Swept, cleanup_dangling_pods-Swept}
use azure_aci.Tracker.Cleanup.{Names, Found, get_pod_from_list-Found, SparesKnown}
use azure_aci.Tracker.Loop.{Serves, start_tracking-Keeps}

-- What the tracker has asked for.
record Log : Type 0 where
  deleted : List PodIdentifier
  posted : List Pod

abbrev web_container : ContainerStatus
web_container = record {
  name = "nginx";
  state = record { waiting = none; running = some (record { started_at = 7 }); terminated = none };
  last_termination_state = record { waiting = none; running = none; terminated = none };
  ready = true;
  restart_count = 0;
  image = "nginx:1";
  image_id = "";
  container_id = "aci://1";
}

abbrev status_of : PodPhase → List ContainerStatus → PodStatus
status_of phase cs = record {
  phase = phase;
  conditions = [];
  message = "";
  reason = "";
  host_ip = "";
  pod_ip = "";
  start_time = none;
  container_statuses = cs;
}

abbrev pod_of : String → PodStatus → Pod
pod_of name st = record {
  name = name;
  namespace = "ns";
  uid = "";
  cluster_name = "";
  resource_version = "12";
  creation_timestamp = 0;
  deletion_timestamp = none;
  annotations = [];
  status = st;
}

abbrev web : Pod
web = pod_of "web" (status_of running (web_container ∷ []))

abbrev job : Pod
job = pod_of "job" (status_of succeeded [])

abbrev id_of : String → PodIdentifier
id_of name = record { namespace = "ns"; name = name }

-- Azure has lost every pod's status; it lists three pods, and refuses to delete the second of them.
abbrev handler : PodsTrackerHandler Log
handler = record {
  list_active_pods = pure (id_of "web" ∷ id_of "old" ∷ id_of "older" ∷ []);
  fetch_pod_status = λ ns name. raise (not_found name);
  cleanup_pod = λ ns name w. (
    err (plain "busy"),
    record w { deleted = record { namespace = ns; name = name } ∷ w.deleted },
  );
}

abbrev reporter : Reporter Log
reporter = record {
  get_pods = λ _. web ∷ job ∷ [];
  update_cb = λ pod w. record w { posted = pod ∷ w.posted };
}

abbrev tracker : PodsTracker Log
tracker = record { reporter = reporter; handler = handler }

abbrev start : Log
start = record { deleted = []; posted = [] }

process_pod_updates-Processed_example :
    (out : Pod × Bool) × (process_pod_updates tracker 100 web start ≡ (ok out, start))
    × Processed 100 web (failed_with (not_found "web")) out
unfolding should_skip_pod_status_update
process_pod_updates-Processed_example =
    process_pod_updates-Processed tracker 100 web start (failed_with (not_found "web")) start refl
      refl

process_pod_updates_skipped_example :
    process_pod_updates tracker 100 job start ≡ (ok (job, false), start)
process_pod_updates_skipped_example = process_pod_updates_skipped tracker 100 job start (inl refl)

get_pod_from_list-Found_example :
    Found "ns" "job" (web ∷ job ∷ []) (get_pod_from_list (web ∷ job ∷ []) "ns" "job")
get_pod_from_list-Found_example = get_pod_from_list-Found (web ∷ job ∷ []) "ns" "job"

cleanup_dangling_pods-Swept_example :
    Swept tracker
      (web ∷ job ∷ [])
      (id_of "web" ∷ id_of "old" ∷ id_of "older" ∷ [])
      start
      (cleanup_dangling_pods tracker start)
cleanup_dangling_pods-Swept_example =
    cleanup_dangling_pods-Swept tracker (id_of "web" ∷ id_of "old" ∷ id_of "older" ∷ []) start start
      refl

-- No deletion was asked for a pod that Kubernetes knows.
abbrev NoneKnown : Log → Type 0
NoneKnown w =
    All
      (λ (id : PodIdentifier).
        (pod : Pod) → In pod (web ∷ job ∷ []) → ¬ Names pod id.namespace id.name)
      w.deleted

spares : SparesKnown tracker NoneKnown (web ∷ job ∷ [])
spares = record {
  listing = record { at = λ w h. h };
  deletion = λ active unknown. record { at = λ w h. (unknown, h) };
}

serves : Serves tracker NoneKnown
serves = record {
  asking = λ pod. record { at = λ w h. h };
  reporting = λ now pod p answer due h. record { at = λ w k. k };
  cleaning = λ w. spares;
}

start_tracking-Keeps_example :
    Keeps NoneKnown (start_tracking tracker (status_updates 5 ∷ cleanup ∷ done ∷ []))
start_tracking-Keeps_example =
    start_tracking-Keeps tracker NoneKnown (status_updates 5 ∷ cleanup ∷ done ∷ []) serves
