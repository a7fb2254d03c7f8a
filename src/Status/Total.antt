-- ===== src/Status/Total.antt =====
-- Which groups can be turned into a pod's status without a panic.
use azure_aci.Prelude.{
  String, Bool, true, false, Option, none, some, List, [], ◌∷◌, ◌&&◌, ◌||◌, ◌==◌, ◌≡◌, ◌≢◌, arith,
  ok, panics, is_some, is_ok, if◌then◌else◌, All, Option-cases, inl, inr, refl, ◌⊎◌,
}
use azure_aci.Azure.{
  AciState, InstanceView, ContainerProperties, Container, Pointer, GroupProperties, ContainerGroup,
}
use azure_aci.Validation.{blank_state, validate_container}
use azure_aci.Validation.Checked.{
  are_properties_complete, is_complete, fill_view, fill_properties, fill_previous,
  validate_container_exact,
}
use azure_aci.Status.{
  Outside, aci_container_state_to_container_state, container_status, checked_status,
  container_statuses, get_aci_resource_meta_from_container_group,
  get_pod_status_from_container_group, tag,
}

-- The fields that a state of this name is read for.
abbrev pub is_state_readable : Option String → AciState → Bool
is_state_readable none cs = false
is_state_readable (some name) cs =
    if name == "Running"
    then is_some cs.start_time
    else if name == "Succeeded"
    then is_some cs.start_time && is_some cs.finish_time
    else if name == "Failed" || name == "Canceled"
    then is_some cs.exit_code
      && is_some cs.detail_status
      && is_some cs.start_time
      && is_some cs.finish_time
    else is_some cs.detail_status

abbrev pub is_previous_readable : Option AciState → Bool
is_previous_readable none = true
is_previous_readable (some cs) = is_state_readable cs.state cs

abbrev pub is_current_readable : Option AciState → Bool
is_current_readable none = false
is_current_readable (some cs) = is_state_readable cs.state cs

abbrev pub is_view_readable : Option InstanceView → Bool
is_view_readable none = false
is_view_readable (some v) =
    is_some v.restart_count
    && is_current_readable v.current_state
    && is_previous_readable v.previous_state

abbrev pub is_readable : Container → Bool
is_readable c = elim c.properties [ none ↦ false | some p ↦ is_view_readable p.instance_view ]

state-ok :
    (cs : AciState)
    → is_state_readable cs.state cs ≡ true
    → is_ok (aci_container_state_to_container_state cs) ≡ true
unfolding aci_container_state_to_container_state
state-ok cs h = ground arith

module _ (out : Outside) (cg_id : Option String) (name : String) where
  view_status-ok :
      (p : ContainerProperties) (v : InstanceView) (current previous : AciState)
      → is_some p.image ≡ true
      → p.instance_view ≡ some v
      → v.current_state ≡ some current
      → v.previous_state ≡ some previous
      → is_some v.restart_count ≡ true
      → is_some current.state ≡ true
      → is_ok (aci_container_state_to_container_state current) ≡ true
      → is_ok (aci_container_state_to_container_state previous) ≡ true
      → is_ok (checked_status out cg_id (record { name = some name; properties = some p })) ≡ true
  unfolding checked_status
  view_status-ok p v current previous a b c d e f g h = ground arith

  filled_view-ok :
      (p : ContainerProperties) (v : InstanceView) (current : AciState) (before : Option AciState)
      → p.instance_view ≡ some v
      → v.current_state ≡ some current
      → v.previous_state ≡ before
      → is_some p.image ≡ true
      → is_some v.restart_count ≡ true
      → is_state_readable current.state current ≡ true
      → is_previous_readable before ≡ true
      → is_ok (
          checked_status out cg_id
            (record { name = some name; properties = fill_properties (some p) }))
        ≡ true
  filled_view-ok p v current none a b c d e f g =
      view_status-ok (record p { instance_view = fill_view p.instance_view })
        (record v { previous_state = some (blank_state current) }) current (blank_state current) d
        (ground arith) b refl e (ground arith) (state-ok current f)
        (state-ok (blank_state current) refl)
  filled_view-ok p v current (some previous) a b c d e f g =
      view_status-ok (record p { instance_view = fill_view p.instance_view }) v current previous d
        (ground arith) b c e (ground arith) (state-ok current f) (state-ok previous g)

  properties-ok :
      (p : ContainerProperties) (v : Option InstanceView)
      → p.instance_view ≡ v
      → are_properties_complete (some p) ≡ true
      → is_view_readable p.instance_view ≡ true
      → is_ok (
          checked_status out cg_id
            (record { name = some name; properties = fill_properties (some p) }))
        ≡ true
  properties-ok p none e full readable = ground arith
  properties-ok p (some v) e full readable = elim (Option-cases v.current_state) [
    | inl c ↦ ground arith
    | inr (current, c) ↦
        filled_view-ok p v current v.previous_state e c refl (ground arith) (ground arith)
          (ground arith) (ground arith)
  ]

fields-ok :
    (out : Outside) (cg_id : Option String) (name : Option String)
    (properties : Option ContainerProperties)
    → is_complete (record { name = name; properties = properties }) ≡ true
    → is_readable (record { name = name; properties = properties }) ≡ true
    → is_ok
        (checked_status out cg_id (fill_previous (record { name = name; properties = properties })))
      ≡ true
fields-ok out cg_id none properties full readable = cc
fields-ok out cg_id (some name) none full readable = cc
fields-ok out cg_id (some name) (some p) full readable =
    properties-ok out cg_id name p p.instance_view refl full readable

-- A container that has every part which the check asks for, a restart count, and every field that its
-- two states are read for, gets a status.
pub container_status-ok :
    (out : Outside) (cg_id : Option String) (c : Container)
    → is_complete c ≡ true
    → is_readable c ≡ true
    → is_ok (container_status out cg_id c) ≡ true
unfolding container_status
container_status-ok out cg_id c full readable =
    rw ((validate_container_exact c (fill_previous c)).1 (full, refl))
      (fields-ok out cg_id c.name c.properties full readable)

container_statuses-ok :
    (out : Outside) (cg_id : Option String) (cs : List Container)
    → All (λ c. (is_complete c ≡ true) × (is_readable c ≡ true)) cs
    → is_ok (container_statuses out cg_id cs) ≡ true
unfolding container_statuses
container_statuses-ok out cg_id [] h = refl
container_statuses-ok out cg_id (c ∷ cs) h =
    ground
      (arith, container_status-ok out cg_id c h.0.0 h.0.1, container_statuses-ok out cg_id cs h.1)

-- What Azure documents of a group that it returns: its containers, address, states and tags are
-- there, and each container has what it is read for.
pub record IsReadableGroup (cg : ContainerGroup) : Type 0 where
  pub properties : GroupProperties
  pub containers : List Container
  pub provisioning_state : String
  pub instance_state : String
  pub ip : String
  pub stamp : Pointer
  pub group_name : String
  pub at_properties : cg.properties ≡ some properties
  pub at_containers : properties.containers ≡ some containers
  pub at_provisioning : properties.provisioning_state ≡ some provisioning_state
  pub at_instance : properties.instance_state ≡ some (some instance_state)
  pub at_ip : properties.ip_address ≡ some (some ip)
  pub at_stamp : tag cg "CreationTimestamp" ≡ some stamp
  pub at_name : cg.name ≡ some group_name
  pub each : All (λ c. (is_complete c ≡ true) × (is_readable c ≡ true)) containers

-- A group that has what Azure documents is turned into a status without a panic: the only failure
-- left is a creation timestamp that cannot be parsed.
pub get_pod_status-ne-panics :
    (out : Outside) (internal_ip : String) (cg : ContainerGroup)
    → IsReadableGroup cg
    → get_pod_status_from_container_group out internal_ip cg ≢ panics
unfolding get_pod_status_from_container_group get_aci_resource_meta_from_container_group
get_pod_status-ne-panics out internal_ip cg r h =
    ground (arith, container_statuses-ok out cg.id r.containers r.each)

-- A conversion returns or panics.
state-cases :
    (cs : AciState)
    → (aci_container_state_to_container_state cs ≡ panics)
      ⊎ (is_ok (aci_container_state_to_container_state cs) ≡ true)
unfolding aci_container_state_to_container_state
state-cases cs = ground arith

checked_status_no_count :
    (out : Outside) (cg_id : Option String) (c : Container) (p : ContainerProperties)
    (v : InstanceView) (current previous : Option AciState)
    → c.properties ≡ some p
    → p.instance_view ≡ some v
    → v.current_state ≡ current
    → v.previous_state ≡ previous
    → v.restart_count ≡ none
    → checked_status out cg_id c ≡ panics
unfolding checked_status
checked_status_no_count out cg_id c p v none previous a b d e h = ground arith
checked_status_no_count out cg_id c p v (some current) none a b d e h =
    ground (arith, state-cases current)
checked_status_no_count out cg_id c p v (some current) (some previous) a b d e h =
    ground (arith, state-cases current, state-cases previous)

-- The check lets a container without a restart count pass if it has no previous state either, and
-- reading the count then panics.
container_status_no_restart_count :
    (out : Outside) (cg_id : Option String) (c checked : Container) (p : ContainerProperties)
    (v : InstanceView)
    → validate_container c ≡ ok checked
    → checked.properties ≡ some p
    → p.instance_view ≡ some v
    → v.restart_count ≡ none
    → container_status out cg_id c ≡ panics
unfolding container_status
container_status_no_restart_count out cg_id c checked p v pass a b h =
    rw pass (
      checked_status_no_count out cg_id checked p v v.current_state v.previous_state a b refl refl
        h)
