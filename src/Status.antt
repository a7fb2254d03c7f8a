-- ===== src/Status.antt =====
-- pkg/provider/containergroup_to_pod.go and getContainerID of pkg/provider/aci_utils.go.
pub mod States
pub mod Described
pub mod Group
pub mod Total
mod Examples
use azure_aci.Prelude.{
  ℕ, String, Bool, true, false, ◌&&◌, ◌||◌, Option, none, some, List, [], ◌∷◌, ◌==◌, ◌<>◌, lookup,
  if◌then◌else◌, Result, ok, err, panics, plain, deref, ◌>>=◌,
}
use azure_aci.K8s.{
  Time, ℤ, pos, PodPhase, pending, running, succeeded, failed, unknown, ContainerState,
  ContainerStatus, PodCondition, pod_ready, pod_initialized, pod_scheduled, PodStatus,
}
use azure_aci.Azure.{
  ContainerProperties, AciState, InstanceView, Container, Pointer, GroupProperties, ContainerGroup,
}
use azure_aci.Validation.{validate_container}

-- What is taken from outside: `strings.ToUpper`, the SHA-256 digest in hexadecimal, and
-- `time.Parse` with the layout of pkg/tests, which fails on a text of another form.
pub record Outside : Type 0 where
  pub to_upper : String → String
  pub sha256_hex : String → String
  pub parse_time : String → Option Time

unfoldable pub get_container_id : Outside → Option String → String → String
get_container_id out none container_name = ""
get_container_id out (some cg_id) container_name =
    "aci://" <> out.sha256_hex (out.to_upper (cg_id <> "/containers/" <> container_name))

unfoldable pub get_pod_phase_from_aci_state : String → PodPhase
get_pod_phase_from_aci_state state =
    if state == "Running"
    then running
    else if state == "Succeeded"
    then succeeded
    else if state == "Failed"
    then failed
    else if state == "Canceled"
    then failed
    else if state == "Creating"
    then pending
    else if state == "Repairing"
    then pending
    else if state == "Pending"
    then pending
    else if state == "Accepted"
    then pending
    else unknown

running_state : AciState → Result ContainerState
running_state cs = do
  started ← deref cs.start_time
  ok (record {
    waiting = none;
    running = some (record { started_at = started });
    terminated = none;
  })

succeeded_state : AciState → Result ContainerState
succeeded_state cs = do
  started ← deref cs.start_time
  finished ← deref cs.finish_time
  ok (record {
    waiting = none;
    running = none;
    terminated = some (record {
      exit_code = pos 0;
      reason = "Completed";
      message = "";
      started_at = started;
      finished_at = finished;
      container_id = "";
    });
  })

failed_state : String → AciState → Result ContainerState
failed_state state cs = do
  code ← deref cs.exit_code
  detail ← deref cs.detail_status
  started ← deref cs.start_time
  finished ← deref cs.finish_time
  ok (record {
    waiting = none;
    running = none;
    terminated = some (record {
      exit_code = code;
      reason = state;
      message = detail;
      started_at = started;
      finished_at = finished;
      container_id = "";
    });
  })

waiting_state : String → AciState → Result ContainerState
waiting_state state cs = do
  detail ← deref cs.detail_status
  ok (record {
    waiting = some (record { reason = state; message = detail });
    running = none;
    terminated = none;
  })

unfoldable pub aci_container_state_to_container_state : AciState → Result ContainerState
unfolding running_state succeeded_state failed_state waiting_state
aci_container_state_to_container_state cs = do
  state ← deref cs.state
  (if state == "Running"
      then running_state cs
      else if state == "Succeeded"
      then succeeded_state cs
      else if state == "Failed" || state == "Canceled"
      then failed_state state cs
      else waiting_state state cs)

unfoldable pub get_pod_conditions_from_aci_state : String → Time → Time → Bool → List PodCondition
get_pod_conditions_from_aci_state state creation_time last_update_time all_ready =
    if state == "Running" || state == "Succeeded"
    then record {
      kind = pod_ready;
      status = all_ready;
      last_transition_time = if all_ready then last_update_time else creation_time;
    }
      ∷ record { kind = pod_initialized; status = true; last_transition_time = creation_time }
      ∷ record { kind = pod_scheduled; status = true; last_transition_time = creation_time }
      ∷ []
    else []

-- The state of the group and its creation time.
pub parse_creation_time : Outside → Option String → String → Result Time
parse_creation_time out name ts = if ts == "" then ok 0 else elim (out.parse_time ts) [
  | some t ↦ ok t
  | none ↦ do
    cg_name ← deref name
    err (plain ("unable to parse the creation timestamp for container group " <> cg_name))
]

abbrev pub tag : ContainerGroup → String → Option Pointer
tag cg key = elim cg.tags [ none ↦ none | some tags ↦ lookup tags key ]

unfoldable pub get_aci_resource_meta_from_container_group :
    Outside → ContainerGroup → Result (Option String × Time)
unfolding parse_creation_time
get_aci_resource_meta_from_container_group out cg = do
  properties ← deref cg.properties
  provisioning_state ← deref properties.provisioning_state
  aci_state ←
      if provisioning_state == "Succeeded"
      then deref properties.instance_state
      else ok (some provisioning_state)
  ts ← deref (tag cg "CreationTimestamp")
  creation_time ← parse_creation_time out cg.name ts.value
  ok (aci_state, creation_time)

abbrev pub is_phase_running : PodPhase → Bool
is_phase_running running = true
is_phase_running _ = false

abbrev pub is_phase_ready : PodPhase → Bool
is_phase_ready running = true
is_phase_ready succeeded = true
is_phase_ready _ = false

-- The status from the two states of a container, and its phase.
pub stated_status :
    Outside
    → Option String
    → String
    → ContainerProperties
    → InstanceView
    → AciState
    → AciState
    → Result (ContainerStatus × Bool)
stated_status out cg_id name properties view current previous = do
  state ← aci_container_state_to_container_state current
  last_state ← aci_container_state_to_container_state previous
  current_state ← deref current.state
  restart_count ← deref view.restart_count
  image ← deref properties.image
  let phase = get_pod_phase_from_aci_state current_state
  ok (
    record {
      name = name;
      state = state;
      last_termination_state = last_state;
      ready = is_phase_running phase;
      restart_count = restart_count;
      image = image;
      image_id = "";
      container_id = get_container_id out cg_id name;
    },
    is_phase_ready phase,
  )

-- The rest of one round of the loop, after the container has passed the check.
checked_status : Outside → Option String → Container → Result (ContainerStatus × Bool)
unfolding stated_status
checked_status out cg_id checked = do
  name ← deref checked.name
  properties ← deref checked.properties
  view ← deref properties.instance_view
  current ← deref view.current_state
  previous ← deref view.previous_state
  stated_status out cg_id name properties view current previous

-- One round of the loop over the containers: the status, and whether the container leaves
-- `allReady` as it is. The start times that the loop computes are variables of the loop's body,
-- and nothing outside reads them.
unfoldable pub container_status :
    Outside → Option String → Container → Result (ContainerStatus × Bool)
unfolding checked_status
container_status out cg_id container = do
  checked ← validate_container container
  checked_status out cg_id checked

unfoldable pub container_statuses :
    Outside → Option String → List Container → Result (List ContainerStatus × Bool)
unfolding container_status
container_statuses out cg_id [] = ok ([], true)
container_statuses out cg_id (container ∷ rest) = do
  first ← container_status out cg_id container
  others ← container_statuses out cg_id rest
  ok (first.0 ∷ others.0, first.1 && others.1)

-- `firstContainerStartTime` and `lastUpdateTime` are declared again inside the loop, so those that
-- the status is built from keep Go's zero time.
unfoldable pub get_pod_status_from_container_group :
    Outside → String → ContainerGroup → Result PodStatus
unfolding container_statuses get_aci_resource_meta_from_container_group
    get_pod_conditions_from_aci_state
get_pod_status_from_container_group out internal_ip cg = do
  properties ← deref cg.properties
  containers ← deref properties.containers
  statuses ← container_statuses out cg.id containers
  meta ← get_aci_resource_meta_from_container_group out cg
  aci_state ← deref meta.0
  ip_address ← deref properties.ip_address
  ip ← deref ip_address
  ok (record {
    phase = get_pod_phase_from_aci_state aci_state;
    conditions = get_pod_conditions_from_aci_state aci_state meta.1 0 statuses.1;
    message = "";
    reason = "";
    host_ip = internal_ip;
    pod_ip = ip;
    start_time = some 0;
    container_statuses = statuses.0;
  })
