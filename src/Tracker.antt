-- ===== src/Tracker.antt =====
-- pkg/provider/podsTracker.go (provider/podsTracker.go is its copy): the background tracking of
-- pods. `W` is the world that the calls below change: the API server behind the resource manager
-- and the update callback, and Azure behind the handler. `time.Now()` is the argument `now`.
pub mod Outcome
pub mod Cleanup
pub mod Swept
pub mod Loop
mod Examples
use azure_aci.Prelude.{
  String, Bool, true, false, Option, none, some, List, [], ◌∷◌, ◌&&◌, ◌||◌, map, ◌==◌,
  if◌then◌else◌, is_some, not_found, is_not_found,
}
use azure_aci.Prelude.Io.{Io, Answer, returned, failed_with, pure, raise, attempt, act, ◌>>=◌, ◌>>◌}
use azure_aci.K8s.{
  Time, ℤ, negsuc, PodPhase, running, succeeded, failed, Running, Terminated, ContainerStatus,
  PodStatus, Pod,
}

abbrev pub pod_status_reason_provider_failed : String
pod_status_reason_provider_failed = "ProviderFailed"

abbrev pub status_reason_not_found : String
status_reason_not_found = "NotFound"

abbrev pub status_message_not_found : String
status_message_not_found = "The pod may have been deleted from the provider"

-- -137
abbrev pub container_exit_code_not_found : ℤ
container_exit_code_not_found = negsuc 136

pub record PodIdentifier : Type 0 where
  pub namespace : String
  pub name : String

-- The interface PodsTrackerHandler.
pub record PodsTrackerHandler (W : Type 0) : Type 0 where
  pub list_active_pods : Io W (List PodIdentifier)
  pub fetch_pod_status : String → String → Io W (Option PodStatus)
  pub cleanup_pod : String → String → Io W (Unit {0})

-- The fields `rm` and `updateCb` of PodsTracker: the resource manager's pods, and the callback.
pub record Reporter (W : Type 0) : Type 0 where
  pub get_pods : W → List Pod
  pub update_cb : Pod → W → W

pub record PodsTracker (W : Type 0) : Type 0 where
  pub reporter : Reporter W
  pub open reporter use *
  pub handler : PodsTrackerHandler W

-- What the `select` of StartTracking receives: the context is done, or a timer fired at a time.
pub data Signal : Type 0 where
  done : Signal
  status_updates : Time → Signal
  cleanup : Signal

abbrev pub is_running : PodPhase → Bool
is_running running = true
is_running _ = false

-- Succeeded or Failed.
abbrev pub is_finished : PodPhase → Bool
is_finished succeeded = true
is_finished failed = true
is_finished _ = false

unfoldable pub get_pod_from_list : List Pod → String → String → Option Pod
get_pod_from_list [] ns name = none
get_pod_from_list (pod ∷ list) ns name =
    if pod.namespace == ns && pod.name == name then some pod else get_pod_from_list list ns name

unfoldable pub should_skip_pod_status_update : Pod → Bool
should_skip_pod_status_update pod =
    is_finished pod.status.phase
    || pod.status.reason == pod_status_reason_provider_failed
    || is_some pod.deletion_timestamp

-- One round of the loop over `ContainerStatuses`, given what `State.Running` is: a running
-- container is terminated.
terminate_running : Terminated → ContainerStatus → Option Running → ContainerStatus
terminate_running t c none = c
terminate_running t c (some r) = record c {
  state = record {
    waiting = c.state.waiting;
    running = none;
    terminated = some (record t { started_at = r.started_at; container_id = c.container_id });
  };
}

unfoldable pub terminate : Terminated → ContainerStatus → ContainerStatus
unfolding terminate_running
terminate t c = terminate_running t c c.state.running

-- The termination that is written; `terminate` fills in the start and the container.
abbrev pub lost_termination : Time → Terminated
lost_termination now = record {
  exit_code = container_exit_code_not_found;
  reason = status_reason_not_found;
  message = status_message_not_found;
  started_at = 0;
  finished_at = now;
  container_id = "";
}

-- The pod is gone from the provider.
lose_pod : Time → Pod → Pod × Bool
unfolding terminate
lose_pod now pod =
    if is_running pod.status.phase
    then (
      record pod {
        status = record status {
          phase = failed;
          reason = status_reason_not_found;
          message = status_message_not_found;
          container_statuses = map (terminate (lost_termination now)) status.container_statuses;
        };
      },
      true,
    )
    else (pod, false)
  where
    open pod use {status}

-- What is done with the answer of FetchPodStatus.
pub apply_fetched : Time → Pod → Answer (Option PodStatus) → Pod × Bool
unfolding lose_pod
apply_fetched now pod (returned (some st)) = (record pod { status = st }, true)
apply_fetched now pod (returned none) = lose_pod now pod
apply_fetched now pod (failed_with e) = if is_not_found e then lose_pod now pod else (pod, false)

module _ {W : Type 0} (rep : Reporter W) where
  -- UpdatePodStatus after the pod has been looked for.
  post_update : (PodStatus → PodStatus) → Bool → Option Pod → Io W (Unit {0})
  post_update update_handler force none = raise (not_found "pod not found")
  post_update update_handler force (some pod) = act (
      rep.update_cb (record pod {
        resource_version = if force then "" else pod.resource_version;
        status = update_handler pod.status;
      }))

  unfoldable pub update_pod_status :
      String → String → (PodStatus → PodStatus) → Bool → Io W (Unit {0})
  unfolding post_update
  update_pod_status ns name update_handler force w =
      post_update update_handler force (get_pod_from_list (rep.get_pods w) ns name) w

module _ {W : Type 0} (pt : PodsTracker W) where
  -- The pod as it is after the call, and whether it is to be reported.
  pub process_pod_updates : Time → Pod → Io W (Pod × Bool)
  process_pod_updates now pod = if should_skip_pod_status_update pod then pure (pod, false) else do
    answer ← attempt (pt.handler.fetch_pod_status pod.namespace pod.name)
    pure (apply_fetched now pod answer)

  pub report : Pod × Bool → Io W (Unit {0})
  report (updated_pod, true) = act (pt.update_cb updated_pod)
  report (updated_pod, false) = pure tt

  -- One round of the loop of updatePodsLoop.
  pub update_one : Time → Pod → Io W (Unit {0})
  unfolding process_pod_updates
  update_one now pod = do processed ← process_pod_updates now pod; report processed

  pub update_each : Time → List Pod → Io W (Unit {0})
  unfolding update_one
  update_each now [] = pure tt
  update_each now (pod ∷ pods) = do update_one now pod; update_each now pods

  pub update_pods_loop : Time → Io W (Unit {0})
  unfolding update_each
  update_pods_loop now w = update_each now (pt.get_pods w) w

  -- A failed cleanup is logged, and the loop goes on.
  pub cleanup_one : PodIdentifier → Io W (Unit {0})
  cleanup_one active = do
    answer ← attempt (pt.handler.cleanup_pod active.namespace active.name)
    pure tt

  -- The loop over `activePods`.
  pub cleanup_each : List Pod → List PodIdentifier → Io W (Unit {0})
  cleanup_each k8s_pods [] = pure tt
  cleanup_each k8s_pods (active ∷ rest) = do
    (if is_some (get_pod_from_list k8s_pods active.namespace active.name)
        then pure tt
        else cleanup_one active)
    cleanup_each k8s_pods rest

  -- cleanupDanglingPods after the list of active pods is there, or could not be had.
  cleanup_listed : List Pod → Answer (List PodIdentifier) → Io W (Unit {0})
  unfolding cleanup_each
  cleanup_listed k8s_pods (returned active_pods) = cleanup_each k8s_pods active_pods
  cleanup_listed k8s_pods (failed_with e) = pure tt

  pub cleanup_dangling_pods : Io W (Unit {0})
  unfolding cleanup_listed
  cleanup_dangling_pods w =
      (do
        active_pods ← attempt pt.handler.list_active_pods
        cleanup_listed (pt.get_pods w) active_pods)
        w

  -- StartTracking over what its `select` receives: the loop returns on `done`, and each timer is
  -- armed again only after its work is done.
  pub start_tracking : List Signal → Io W (Unit {0})
  unfolding update_pods_loop cleanup_dangling_pods
  start_tracking [] = pure tt
  start_tracking (done ∷ rest) = pure tt
  start_tracking (status_updates now ∷ rest) = do update_pods_loop now; start_tracking rest
  start_tracking (cleanup ∷ rest) = do cleanup_dangling_pods; start_tracking rest
