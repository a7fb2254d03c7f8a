-- ===== src/Tracker/Outcome.antt =====
-- What one round of the status updates does to one pod.
use azure_aci.Prelude.{
  Bool, true, false, Option, none, some, List, [], ◌∷◌, map, ◌≡◌, refl, ◌⊎◌, inl, inr, arith,
  Bool-cases, is_not_found, ok, ◌≢◌, Error, eq_iff,
}
use azure_aci.Prelude.Io.{Answer, returned, failed_with, attempt, >>=-ok}
use azure_aci.K8s.{
  Time, Running, Terminated, ContainerStatus, PodStatus, Pod, PodPhase, running, failed, succeeded,
}
use azure_aci.Tracker.{
  PodsTracker, is_running, pod_status_reason_provider_failed, status_reason_not_found,
  status_message_not_found, should_skip_pod_status_update, terminate, terminate_running,
  lost_termination, lose_pod, apply_fetched, process_pod_updates,
}

-- Azure says that the pod is not there.
abbrev pub IsGone : Answer (Option PodStatus) → Type 0
IsGone (returned none) = Unit
IsGone (returned (some st)) = ⊥
IsGone (failed_with e) = is_not_found e ≡ true

-- How a container's status may change when its pod is lost.
pub data Lost (end : Terminated) (c : ContainerStatus) : ContainerStatus → Type 0 where
  idle : c.state.running ≡ none → Lost end c c
  stopped :
      (r : Running) (t : Terminated) (d : ContainerStatus)
      → c.state.running ≡ some r
      → d.state.running ≡ none
      → d.state.terminated ≡ some t
      → t.exit_code ≡ end.exit_code
      → t.started_at ≡ r.started_at
      → t.finished_at ≡ end.finished_at
      → t.reason ≡ end.reason
      → t.message ≡ end.message
      → t.container_id ≡ c.container_id
      → d.name ≡ c.name
      → Lost end c d

pub data LostAll (end : Terminated) : List ContainerStatus → List ContainerStatus → Type 0 where
  nil : LostAll end [] []
  cons :
      {c d : ContainerStatus} {cs ds : List ContainerStatus}
      → Lost end c d
      → LostAll end cs ds
      → LostAll end (c ∷ cs) (d ∷ ds)

terminate_running-Lost :
    (end : Terminated) (c : ContainerStatus) (o : Option Running)
    → c.state.running ≡ o
    → Lost end c (terminate_running end c o)
unfolding terminate_running
terminate_running-Lost end c none e = idle e
terminate_running-Lost end c (some r) e =
    stopped r _ _ e refl refl refl refl refl refl refl refl refl

pub terminate-LostAll :
    (end : Terminated) (cs : List ContainerStatus) → LostAll end cs (map (terminate end) cs)
unfolding terminate
terminate-LostAll end [] = nil
terminate-LostAll end (c ∷ cs) =
    cons (terminate_running-Lost end c c.state.running refl) (terminate-LostAll end cs)

abbrev pub lost_status : PodStatus → List ContainerStatus → PodStatus
lost_status st cs = record st {
  phase = failed;
  reason = status_reason_not_found;
  message = status_message_not_found;
  container_statuses = cs;
}

-- What becomes of a pod whose status was asked for, and whether it is reported.
pub data Processed (now : Time) (pod : Pod) : Answer (Option PodStatus) → Pod × Bool → Type 0 where
  refreshed :
      (st : PodStatus) → Processed now pod (returned (some st)) (record pod { status = st }, true)
  lost :
      {answer : Answer (Option PodStatus)} (cs : List ContainerStatus)
      → IsGone answer
      → pod.status.phase ≡ running
      → LostAll (lost_termination now) pod.status.container_statuses cs
      → Processed now pod answer (record pod { status = lost_status pod.status cs }, true)
  never_ran :
      {answer : Answer (Option PodStatus)}
      → IsGone answer
      → pod.status.phase ≢ running
      → Processed now pod answer (pod, false)
  kept : {e : Error} → is_not_found e ≡ false → Processed now pod (failed_with e) (pod, false)

running_of_test : (p : PodPhase) → is_running p ≡ true → p ≡ running
running_of_test p h = ground arith

ne-running_of_test : (p : PodPhase) → is_running p ≡ false → p ≢ running
ne-running_of_test p h e = ground arith

lose_pod-Processed :
    (now : Time) (pod : Pod) (answer : Answer (Option PodStatus))
    → IsGone answer
    → Processed now pod answer (lose_pod now pod)
unfolding lose_pod
lose_pod-Processed now pod answer gone = elim (Bool-cases (is_running pod.status.phase)) [
  | inl e ↦ rw e (
      lost _ gone (running_of_test pod.status.phase e)
        (terminate-LostAll (lost_termination now) pod.status.container_statuses))
  | inr e ↦ rw e (never_ran gone (ne-running_of_test pod.status.phase e))
]

pub apply_fetched-Processed :
    (now : Time) (pod : Pod) (answer : Answer (Option PodStatus))
    → Processed now pod answer (apply_fetched now pod answer)
unfolding apply_fetched
apply_fetched-Processed now pod (returned (some st)) = refreshed st
apply_fetched-Processed now pod (returned none) = lose_pod-Processed now pod (returned none) tt
apply_fetched-Processed now pod (failed_with e) = elim (Bool-cases (is_not_found e)) [
  | inl h ↦ rw h (lose_pod-Processed now pod (failed_with e) h)
  | inr h ↦ rw h (kept h)
]

module _ {W : Type 0} (pt : PodsTracker W) (now : Time) (pod : Pod) (w : W) where
  -- For a pod that is not skipped, whatever Azure answers, the call returns and one of four things
  -- has happened: the pod got Azure's status and is reported; it was running and is gone, and is
  -- reported as failed with every running container terminated; it is gone, was not running, and
  -- stays as it is; or another error came, and it stays as it is.
  pub process_pod_updates-Processed :
      (answer : Answer (Option PodStatus)) (w' : W)
      → should_skip_pod_status_update pod ≡ false
      → attempt (pt.handler.fetch_pod_status pod.namespace pod.name) w ≡ (ok answer, w')
      → (out : Pod × Bool) × (process_pod_updates pt now pod w ≡ (ok out, w'))
        × Processed now pod answer out
  unfolding process_pod_updates
  process_pod_updates-Processed answer w' due asked = (
    apply_fetched now pod answer,
    rw due (>>=-ok (attempt (pt.handler.fetch_pod_status pod.namespace pod.name)) _ asked),
    apply_fetched-Processed now pod answer,
  )

  -- A pod that was reported as lost is skipped from then on.
  pub lost_is_skipped :
      (cs : List ContainerStatus)
      → should_skip_pod_status_update (record pod { status = lost_status pod.status cs }) ≡ true
  unfolding should_skip_pod_status_update
  lost_is_skipped cs = refl

  -- A pod that has succeeded or failed, that the provider has failed, or that is being deleted, is
  -- left alone, and Azure is not asked about it.
  pub process_pod_updates_skipped :
      (pod.status.phase ≡ succeeded)
        ⊎ (pod.status.phase ≡ failed)
        ⊎ (pod.status.reason ≡ pod_status_reason_provider_failed)
        ⊎ ((t : Time) × (pod.deletion_timestamp ≡ some t))
      → process_pod_updates pt now pod w ≡ (ok (pod, false), w)
  unfolding process_pod_updates should_skip_pod_status_update
  process_pod_updates_skipped h =
      ground (arith, eq_iff pod.status.reason pod_status_reason_provider_failed)

-- A running pod that is not found is lost.
pub Processed-not_found :
    {now : Time} {pod : Pod} {e : Error} {out : Pod × Bool}
    → is_not_found e ≡ true
    → pod.status.phase ≡ running
    → Processed now pod (failed_with e) out
    → (cs : List ContainerStatus) × LostAll (lost_termination now) pod.status.container_statuses cs
      × (out ≡ (record pod { status = lost_status pod.status cs }, true))
Processed-not_found gone up (lost cs _ _ l) = (cs, l, refl)
Processed-not_found gone up (never_ran _ n) = absurd (n up)
Processed-not_found gone up (kept k) = cc
