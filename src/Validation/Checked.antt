-- ===== src/Validation/Checked.antt =====
-- Which containers and groups pass the checks, and what is filled in for them.
use azure_aci.Prelude.{
  String, Bool, true, false, Option, none, some, ◌&&◌, ◌||◌, ◌==◌, ◌≡◌, arith, ok, panics, is_some,
  is_none, not, ◌↔◌,
}
use azure_aci.Azure.{
  AciState, InstanceView, ContainerProperties, Container, GroupProperties, ContainerGroup,
}
use azure_aci.Validation.{blank_state, validate_container, validate_container_group}

-- The parts that must be there; the restart count and the events only beside a previous state.
abbrev pub is_state_complete : InstanceView → Option AciState → Bool
is_state_complete view none = false
is_state_complete view (some current) =
    is_some current.start_time
    && (is_none view.previous_state || is_some view.restart_count && is_some view.events)

abbrev pub is_view_complete : Option InstanceView → Bool
is_view_complete none = false
is_view_complete (some view) = is_state_complete view view.current_state

abbrev pub are_properties_complete : Option ContainerProperties → Bool
are_properties_complete none = false
are_properties_complete (some p) =
    is_some p.ports && is_some p.image && is_view_complete p.instance_view

abbrev pub is_complete : Container → Bool
is_complete c = is_some c.name && are_properties_complete c.properties

-- The container with a missing previous state filled in from the current one.
abbrev pub fill_state : InstanceView → Option AciState → Option AciState → InstanceView
fill_state view (some current) none = record view { previous_state = some (blank_state current) }
fill_state view _ _ = view

abbrev pub fill_view : Option InstanceView → Option InstanceView
fill_view none = none
fill_view (some view) = some (fill_state view view.current_state view.previous_state)

abbrev pub fill_properties : Option ContainerProperties → Option ContainerProperties
fill_properties none = none
fill_properties (some p) = some (record p { instance_view = fill_view p.instance_view })

abbrev pub fill_previous : Container → Container
fill_previous c = record c { properties = fill_properties c.properties }

-- A container passes exactly when every part that must be there is there, and it is then returned
-- with a missing previous state filled in and nothing else changed.
pub validate_container_exact :
    (c checked : Container)
    → (validate_container c ≡ ok checked) ↔ ((is_complete c ≡ true) × (checked ≡ fill_previous c))
unfolding validate_container
validate_container_exact c checked = (λ h. (ground arith, ground arith), λ h. ground arith)

-- The check of a container panics for exactly those that have a name and no properties: the ports,
-- which are a field of the properties, are read before the properties are compared with nil.
pub validate_container_panics :
    (c : Container)
    → (validate_container c ≡ panics) ↔ ((is_some c.name ≡ true) × (c.properties ≡ none))
unfolding validate_container
validate_container_panics c = (λ h. (ground arith, ground arith), λ h. ground arith)

-- An address that Azure has not given yet may be missing unless the group is running.
abbrev pub is_address_complete : Option String → Option (Option String) → Bool
is_address_complete state none = false
is_address_complete none (some ip) = false
is_address_complete (some state) (some ip) = is_some ip || not (state == "Running")

abbrev pub is_group_complete : ContainerGroup → Bool
is_group_complete cg = is_some cg.name && is_some cg.id && is_some cg.tags && (elim cg.properties [
  | none ↦ false
  | some p ↦ is_some p.containers && is_address_complete p.provisioning_state p.ip_address
])

abbrev pub fill_ip : Option (Option String) → Option (Option String)
fill_ip (some none) = some (some "")
fill_ip ip = ip

abbrev pub fill_address : Option GroupProperties → Option GroupProperties
fill_address none = none
fill_address (some p) = some (record p { ip_address = fill_ip p.ip_address })

-- A group passes exactly when its name, ID, tags, containers and address are there, where the IP may
-- be missing while the provisioning state is not "Running"; it is then returned with a missing IP
-- made empty and nothing else changed.
pub validate_container_group_exact :
    (cg checked : ContainerGroup)
    → (validate_container_group (some cg) ≡ ok checked) ↔ (
        (is_group_complete cg ≡ true)
        × (checked ≡ record cg { properties = fill_address cg.properties }))
unfolding validate_container_group
validate_container_group_exact cg checked = (λ h. (ground arith, ground arith), λ h. ground arith)
