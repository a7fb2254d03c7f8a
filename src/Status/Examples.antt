-- ===== src/Status/Examples.antt =====
use azure_aci.Prelude.{true, none, some, [], ◌∷◌, ◌≡◌, ◌≢◌, ◌↔◌, refl, ok, err, panics, is_ok}
use azure_aci.K8s.{PodStatus, running}
use azure_aci.Azure.{Container}
use azure_aci.Samples.{outside, nginx, pointer_to, group_properties, web_group}
use azure_aci.Validation.{validate_container, validate_container_group}
use azure_aci.Validation.Checked.{
  fill_address, is_group_complete, validate_container_panics, validate_container_group_exact,
}
use azure_aci.Status.{
  aci_container_state_to_container_state, container_status, get_pod_status_from_container_group,
}
use azure_aci.Status.Group.{Describes, get_pod_status-Describes}
use azure_aci.Status.Total.{container_status-ok, IsReadableGroup, get_pod_status-ne-panics}

abbrev bare : Container
bare = record { name = some "bare"; properties = none }

validate_container_panics_example :
    (validate_container bare ≡ panics) ↔ ((true ≡ true) × (bare.properties ≡ none))
validate_container_panics_example = validate_container_panics bare

validate_container_group_exact_example :
    (validate_container_group (some web_group) ≡ ok web_group) ↔ (
      (is_group_complete web_group ≡ true)
      × (web_group ≡ record web_group { properties = fill_address web_group.properties }))
validate_container_group_exact_example = validate_container_group_exact web_group web_group

abbrev web_status : PodStatus
web_status = elim (get_pod_status_from_container_group outside "10.1.1.1" web_group) [
  | ok st ↦ st
  | err e ↦ record {
    phase = running;
    conditions = [];
    message = "";
    reason = "";
    host_ip = "";
    pod_ip = "";
    start_time = none;
    container_statuses = [];
  }
  | panics ↦ record {
    phase = running;
    conditions = [];
    message = "";
    reason = "";
    host_ip = "";
    pod_ip = "";
    start_time = none;
    container_statuses = [];
  }
]

get_pod_status-Describes_example : Describes outside "10.1.1.1" web_group web_status
unfolding get_pod_status_from_container_group validate_container
    aci_container_state_to_container_state
get_pod_status-Describes_example =
    get_pod_status-Describes outside "10.1.1.1" web_group web_status refl

container_status-ok_example : is_ok (container_status outside (some "/cg/1") nginx) ≡ true
container_status-ok_example = container_status-ok outside (some "/cg/1") nginx refl refl

readable : IsReadableGroup web_group
readable = record {
  properties = group_properties (nginx ∷ []);
  containers = nginx ∷ [];
  provisioning_state = "Succeeded";
  instance_state = "Running";
  ip = "10.0.0.4";
  stamp = pointer_to "2022";
  group_name = "ns-web";
  at_properties = refl;
  at_containers = refl;
  at_provisioning = refl;
  at_instance = refl;
  at_ip = refl;
  at_stamp = refl;
  at_name = refl;
  each = ((refl, refl), tt);
}

get_pod_status-ne-panics_example :
    get_pod_status_from_container_group outside "10.1.1.1" web_group ≢ panics
get_pod_status-ne-panics_example = get_pod_status-ne-panics outside "10.1.1.1" web_group readable
