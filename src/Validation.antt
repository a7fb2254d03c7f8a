-- ===== src/Validation.antt =====
-- pkg/validation/validator.go. A check that fills in a missing field does so behind a pointer that
-- the caller shares, so it returns what it checked as the caller then sees it. A read of an
-- embedded field goes through the pointer to the properties, and panics where that is nil.
pub mod Checked
use azure_aci.Prelude.{
  String, Option, none, some, List, ◌==◌, ◌<>◌, if◌then◌else◌, is_none, Result, ok, err, panics,
  plain, fail_if, deref, ◌>>=◌, ◌>>◌,
}
use azure_aci.Azure.{
  AciState, InstanceView, ContainerProperties, Container, Pointer, GroupProperties, ContainerGroup,
}

-- What ValidateContainer puts for a missing previous state.
abbrev pub blank_state : AciState → AciState
blank_state current = record {
  state = some "";
  start_time = current.start_time;
  exit_code = none;
  finish_time = none;
  detail_status = some "";
}

-- The checks after `CurrentState.StartTime`.
validate_previous : String → AciState → InstanceView → Option AciState → Result InstanceView
validate_previous name current view none =
    ok (record view { previous_state = some (blank_state current) })
validate_previous name current view (some _) = do
  fail_if (is_none view.restart_count)
      (plain ("container " <> name <> " properties RestartCount cannot be nil"))
  fail_if (is_none view.events) (plain ("container " <> name <> " properties Events cannot be nil"))
  ok view

validate_state : String → InstanceView → Option AciState → Result InstanceView
unfolding validate_previous
validate_state name view none =
    err (plain ("container " <> name <> " properties CurrentState cannot be nil"))
validate_state name view (some current) = do
  fail_if (is_none current.start_time)
      (plain ("container " <> name <> " properties CurrentState StartTime cannot be nil"))
  validate_previous name current view view.previous_state

validate_view : String → Option InstanceView → Result InstanceView
unfolding validate_state
validate_view name none =
    err (plain ("container " <> name <> " properties InstanceView cannot be nil"))
validate_view name (some view) = validate_state name view view.current_state

-- `container.Ports` is read before `ContainerProperties` is compared with nil.
validate_properties : String → Option ContainerProperties → Result ContainerProperties
unfolding validate_view
validate_properties name none = panics
validate_properties name (some properties) = do
  fail_if (is_none properties.ports) (plain ("container " <> name <> " Ports cannot be nil"))
  fail_if (is_none properties.image) (plain ("container " <> name <> " Image cannot be nil"))
  view ← validate_view name properties.instance_view
  ok (record properties { instance_view = some view })

validate_named : Option String → Option ContainerProperties → Result Container
unfolding validate_properties
validate_named none properties = err (plain "container name cannot be nil")
validate_named (some name) properties = do
  checked ← validate_properties name properties
  ok (record { name = some name; properties = some checked })

unfoldable pub validate_container : Container → Result Container
unfolding validate_named
validate_container container = validate_named container.name container.properties

-- The check of `IPAddress.IP`, which fills in an empty address.
validate_ip : String → String → Option String → Result (Option String)
validate_ip name aci_state none =
    if aci_state == "Running"
    then err (
        plain (
          "podIP cannot be nil for container group " <> name <> " while state is " <> aci_state
          <> " "))
    else ok (some "")
validate_ip name aci_state (some ip) = ok (some ip)

validate_address : String → Option String → Option (Option String) → Result (Option String)
unfolding validate_ip
validate_address name provisioning_state none =
    err (plain ("IPAddress cannot be nil for container group " <> name))
validate_address name provisioning_state (some ip) = do
  aci_state ← deref provisioning_state
  validate_ip name aci_state ip

validate_group_properties :
    String → Option (List (String × Pointer)) → Option GroupProperties → Result GroupProperties
unfolding validate_address
validate_group_properties name tags none =
    err (plain ("container group properties cannot be nil, name: " <> name))
validate_group_properties name tags (some properties) = do
  fail_if (is_none properties.containers)
      (plain ("containers list cannot be nil for container group " <> name))
  fail_if (is_none tags) (plain ("tags list cannot be nil for container group " <> name))
  ip ← validate_address name properties.provisioning_state properties.ip_address
  ok (record properties { ip_address = some ip })

validate_named_group : Option String → ContainerGroup → Result ContainerGroup
unfolding validate_group_properties
validate_named_group none cg = err (plain "container group Name cannot be nil")
validate_named_group (some name) cg = do
  fail_if (is_none cg.id) (plain ("container group ID cannot be nil, name: " <> name))
  checked ← validate_group_properties name cg.tags cg.properties
  ok (record cg { properties = some checked })

-- `none` is a nil pointer to a group.
unfoldable pub validate_container_group : Option ContainerGroup → Result ContainerGroup
unfolding validate_named_group
validate_container_group none = err (plain "container group cannot be nil")
validate_container_group (some cg) = validate_named_group cg.name cg
