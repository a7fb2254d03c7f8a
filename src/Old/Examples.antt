-- ===== src/Old/Examples.antt =====
-- One group of the node "vk", and logs that cannot be read. The world counts the seconds slept.
use azure_aci.Prelude.{
  ℕ, ◌+◌, String, none, some, List, [], ◌∷◌, ◌≡◌, refl, Option, ok, plain, true, keep, ◌==◌,
}
use azure_aci.Prelude.Io.{pure, raise, Answer, returned, failed_with}
use azure_aci.K8s.{pos, running, Pod, ContainerStatus}
use azure_aci.Samples.{outside}
use azure_aci.Status.{
  get_pod_phase_from_aci_state, get_pod_conditions_from_aci_state, get_container_id,
}
use azure_aci.Tracker.{
  Reporter, should_skip_pod_status_update, process_pod_updates, lost_termination,
}
use azure_aci.Tracker.Outcome.{LostAll, lost_status}
use azure_aci.Old.{
  RestState, RestContainer, RestGroup, rest_tag, rest_group_to_pod, rest_pod_status,
  rest_container_state,
}
use azure_aci.Old.Reading.{
  OldProvider, get_rest_pods, rest_pods_of, find_rest_group, rest_group_answer, get_rest_logs,
  notify_rest_pods,
}
use azure_aci.Old.Listed.{AllConverted, get_rest_pods-AllConverted}
use azure_aci.Old.Lost.{missing, lost_in_old_provider, get_rest_logs-empty}

abbrev running_since : RestState
running_since = record {
  state = "Running";
  start_time = 7;
  exit_code = pos 0;
  finish_time = 0;
  detail_status = "";
}

abbrev app : RestContainer
app = record {
  name = "app";
  image = "nginx";
  restart_count = 0;
  current_state = running_since;
  previous_state = running_since;
  requests = some (record { cpu = "1"; memory_in_gb = "1.5"; gpu = none });
  limits = none;
}

abbrev rest_group_of : String → RestGroup
rest_group_of node = record {
  id = "";
  name = "ns-web";
  tags = ("NodeName", node) ∷ ("PodName", "web") ∷ ("Namespace", "ns") ∷ [];
  provisioning_state = "Succeeded";
  instance_state = "Running";
  containers = app ∷ [];
  ip_address = none;
}

abbrev old_provider : Option ℕ × Answer RestGroup → OldProvider ℕ
old_provider asked = record {
  get_container_group = λ rg name. pure asked;
  parse_quantity = λ text. some 1;
  list_container_groups = λ rg. pure (rest_group_of "other" ∷ rest_group_of "vk" ∷ []);
  delete_container_group = λ rg name. pure tt;
  get_container_logs = λ rg name c tail. raise (plain "busy");
  sleep = λ wait w. w + 5;
  outside = outside;
  resource_group = "rg";
  node_name = "vk";
  tracker = none;
}

abbrev found : OldProvider ℕ
found = old_provider (some 200, returned (rest_group_of "vk"))

abbrev gone : OldProvider ℕ
gone = old_provider (some 404, failed_with (plain "gone"))

abbrev web_pod : Pod
web_pod = record {
  name = "web";
  namespace = "ns";
  uid = "";
  cluster_name = "";
  resource_version = "";
  creation_timestamp = 0;
  deletion_timestamp = none;
  annotations = [];
  status = record {
    phase = running;
    conditions = get_pod_conditions_from_aci_state "Running" 0 7 true;
    message = "";
    reason = "";
    host_ip = "";
    pod_ip = "";
    start_time = some 7;
    container_statuses =
        record {
          name = "app";
          state = rest_container_state running_since;
          last_termination_state = rest_container_state running_since;
          ready = true;
          restart_count = 0;
          image = "nginx";
          image_id = "";
          container_id = "";
        }
        ∷ [];
  };
}

listed : get_rest_pods found 0 ≡ (ok (web_pod ∷ []), 0)
unfolding get_rest_pods rest_pods_of rest_group_to_pod rest_pod_status get_pod_phase_from_aci_state
    get_container_id
listed = refl

get_rest_pods-AllConverted_example :
    (cgs : List RestGroup) × (found.list_container_groups "rg" 0 ≡ (ok cgs, 0))
    × AllConverted
        (λ text. some 1)
        outside
        (keep (λ cg. rest_tag cg "NodeName" == "vk") cgs)
        (web_pod ∷ [])
get_rest_pods-AllConverted_example = get_rest_pods-AllConverted found 0 0 (web_pod ∷ []) listed

abbrev reporter : Reporter ℕ
reporter = record { get_pods = λ w. []; update_cb = λ pod w. w }

lost_in_old_provider_example :
    (cs : List ContainerStatus) × LostAll (lost_termination 9) web_pod.status.container_statuses cs
    × (process_pod_updates (notify_rest_pods gone 9 reporter) 9 web_pod 0
        ≡ (ok (record web_pod { status = lost_status web_pod.status cs }, true), 0))
unfolding should_skip_pod_status_update
lost_in_old_provider_example =
    lost_in_old_provider gone 9 reporter web_pod 0 0 (some 404, failed_with (plain "gone")) refl
      (missing (plain "gone")) refl refl

found_web : find_rest_group found "ns" "web" 0 ≡ (ok (rest_group_of "vk"), 0)
unfolding find_rest_group rest_group_answer
found_web = refl

get_rest_logs-empty_example : (get_rest_logs found "ns" "web" "app" 0 0).0 ≡ ok ""
get_rest_logs-empty_example =
    get_rest_logs-empty found "ns" "web" "app" 0 0 0 (rest_group_of "vk") (λ w. plain "busy")
      found_web (λ w. refl)
