-- ===== src/Old.antt =====
-- The old provider, provider/aci.go, which runs unless USE_VK_VERSION_2 is set: how a container group of its
-- client, client/aci, becomes a pod. The phases and the conditions are made by functions with the text of
-- those in pkg/provider/containergroup_to_pod.go.
pub mod Reading
pub mod Listed
pub mod Lost
mod Examples
use azure_aci.Prelude.{
  ℕ, String, ◌==◌, ◌<>◌, Bool, true, false, ◌&&◌, ◌||◌, not, ltb, if◌then◌else◌, Option, none, some,
  List, [], ◌∷◌, lookup, map, Result, ok, panics, deref, ◌>>=◌,
}
use azure_aci.K8s.{Time, ℤ, pos, PodPhase, ContainerState, ContainerStatus, PodStatus, Pod}
use azure_aci.Tracker.{is_running}
use azure_aci.Status.{
  Outside, get_pod_phase_from_aci_state, get_pod_conditions_from_aci_state, get_container_id,
  is_phase_ready,
}

-- ContainerState of client/aci; its fields are values, not pointers.
pub record RestState : Type 0 where
  pub state : String
  pub start_time : Time
  pub exit_code : ℤ
  pub finish_time : Time
  pub detail_status : String

-- ComputeResources of client/aci, as they are printed: with `%g`, and the count of GPUs with `%d`.
pub record ComputeResources : Type 0 where
  pub cpu : String
  pub memory_in_gb : String
  pub gpu : Option String

pub record RestContainer : Type 0 where
  pub name : String
  pub image : String
  pub restart_count : ℕ
  pub current_state : RestState
  pub previous_state : RestState
  pub requests : Option ComputeResources
  pub limits : Option ComputeResources

pub record RestGroup : Type 0 where
  pub id : String
  pub name : String
  pub tags : List (String × String)
  pub provisioning_state : String
  pub instance_state : String
  pub containers : List RestContainer
  pub ip_address : Option String

abbrev pub text_or_empty : Option String → String
text_or_empty none = ""
text_or_empty (some s) = s

-- `cg.Tags[key]`, which is empty for a missing key.
abbrev pub rest_tag : RestGroup → String → String
rest_tag cg key = text_or_empty (lookup cg.tags key)

abbrev pub waiting_reason : String → String
waiting_reason state = if state == "" then "Creating" else state

-- aciContainerStateToContainerState
unfoldable pub rest_container_state : RestState → ContainerState
rest_container_state cs =
    if cs.state == "Running"
    then record {
      waiting = none;
      running = some (record { started_at = cs.start_time });
      terminated = none;
    }
    else if cs.state == "Succeeded"
    then record {
      waiting = none;
      running = none;
      terminated = some (record {
        exit_code = pos 0;
        reason = "Completed";
        message = "";
        started_at = cs.start_time;
        finished_at = cs.finish_time;
        container_id = "";
      });
    }
    else if cs.state == "Failed" || cs.state == "Canceled"
    then record {
      waiting = none;
      running = none;
      terminated = some (record {
        exit_code = cs.exit_code;
        reason = cs.state;
        message = cs.detail_status;
        started_at = cs.start_time;
        finished_at = cs.finish_time;
        container_id = "";
      });
    }
    else record {
      waiting = some (record { reason = waiting_reason cs.state; message = cs.detail_status });
      running = none;
      terminated = none;
    }

-- `time.Parse` of the tag, unless it is empty or of another form.
abbrev pub creation_time_of : Outside → String → Time
creation_time_of out text =
    if text == "" then 0 else elim (out.parse_time text) [ none ↦ 0 | some t ↦ t ]

-- aciResourceMetaFromContainerGroup
abbrev pub rest_resource_meta : Outside → RestGroup → String × Time
rest_resource_meta out cg = (
  if cg.provisioning_state == "Succeeded" then cg.instance_state else cg.provisioning_state,
  creation_time_of out (rest_tag cg "CreationTimestamp"),
)

-- An empty ID of a group has no IDs of containers.
abbrev pub rest_container_id : Outside → String → String → String
rest_container_id out cg_id name =
    get_container_id out (if cg_id == "" then none else some cg_id) name

abbrev pub rest_container_status : Outside → RestGroup → RestContainer → ContainerStatus
rest_container_status out cg c = record {
  name = c.name;
  state = rest_container_state c.current_state;
  last_termination_state = rest_container_state c.previous_state;
  ready = is_running (get_pod_phase_from_aci_state c.current_state.state);
  restart_count = c.restart_count;
  image = c.image;
  image_id = "";
  container_id = rest_container_id out cg.id c.name;
}

-- The loop's `allReady` and `lastUpdateTime`.
abbrev pub all_ready : List RestContainer → Bool
all_ready [] = true
all_ready (c ∷ cs) =
    is_phase_ready (get_pod_phase_from_aci_state c.current_state.state) && all_ready cs

abbrev pub last_update_time : Time → List RestContainer → Time
last_update_time latest [] = latest
last_update_time latest (c ∷ cs) =
    last_update_time
      (if ltb latest c.current_state.start_time then c.current_state.start_time else latest) cs

-- podStatusFromContainerGroup; the first container is read whether or not there is one.
unfoldable pub rest_pod_status : Outside → RestGroup → List RestContainer → Result PodStatus
unfolding rest_container_state
rest_pod_status out cg [] = panics
rest_pod_status out cg (c ∷ cs) =
    let (aci_state, creation_time) = rest_resource_meta out cg in
    let first_start = c.current_state.start_time in
    ok (record {
      phase = get_pod_phase_from_aci_state aci_state;
      conditions =
          get_pod_conditions_from_aci_state aci_state creation_time
            (last_update_time first_start (c ∷ cs)) (all_ready (c ∷ cs));
      message = "";
      reason = "";
      host_ip = "";
      pod_ip = text_or_empty cg.ip_address;
      start_time = some first_start;
      container_statuses = map (rest_container_status out cg) (c ∷ cs);
    })

-- v1.ResourceList
pub record Amounts : Type 0 where
  pub cpu : ℕ
  pub memory : ℕ
  pub gpu : Option ℕ

-- `parse` reads a quantity; resource.MustParse panics where it cannot be read.
module _ (parse : String → Option ℕ) where
  -- The GPUs are those of `gpus`, if `r` has any.
  abbrev pub gpu_amount : Option String → Option String → Result (Option ℕ)
  gpu_amount none gpus = ok none
  gpu_amount (some own) gpus = do text ← deref gpus; count ← deref (parse text); ok (some count)

  unfoldable pub amounts : ComputeResources → Option String → Result Amounts
  amounts r gpus = do
    cpu ← deref (parse r.cpu)
    memory ← deref (parse (r.memory_in_gb <> "G"))
    gpu ← gpu_amount r.gpu gpus
    ok (record { cpu = cpu; memory = memory; gpu = gpu })

  -- The limits of a container: with a GPU among them, the count is read from the requests.
  abbrev pub limits_of : Option ComputeResources → Option String → Result (Option Amounts)
  limits_of none requested_gpus = ok none
  limits_of (some r) requested_gpus = do limits ← amounts r requested_gpus; ok (some limits)

  -- The requests, which are read through their pointer, and the limits of each container.
  abbrev pub resources_of : List RestContainer → Result (List (Amounts × Option Amounts))
  resources_of [] = ok []
  resources_of (c ∷ cs) = do
    r ← deref c.requests
    requests ← amounts r r.gpu
    limits ← limits_of c.limits r.gpu
    rest ← resources_of cs
    ok ((requests, limits) ∷ rest)

-- containerGroupToPod, without the specification, of which the resources are made first.
unfoldable pub rest_group_to_pod : (String → Option ℕ) → Outside → RestGroup → Result Pod
unfolding amounts rest_pod_status
rest_group_to_pod parse out cg = do
  resources ← resources_of parse cg.containers
  status ← rest_pod_status out cg cg.containers
  ok (record {
    name = rest_tag cg "PodName";
    namespace = rest_tag cg "Namespace";
    uid = rest_tag cg "UID";
    cluster_name = rest_tag cg "ClusterName";
    resource_version = "";
    creation_timestamp = (rest_resource_meta out cg).1;
    deletion_timestamp = none;
    annotations = [];
    status = status;
  })
