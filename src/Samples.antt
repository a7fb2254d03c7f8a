-- ===== src/Samples.antt =====
-- Sample data for the tests: a group of one running container.
use azure_aci.Prelude.{String, none, some, List, [], ◌∷◌}
use azure_aci.Azure.{
  AciState, InstanceView, ContainerProperties, Container, Pointer, GroupProperties, ContainerGroup,
}
use azure_aci.Status.{Outside}

abbrev pub outside : Outside
outside = record { to_upper = λ s. s; sha256_hex = λ s. s; parse_time = λ s. some 42 }

abbrev pub running_now : AciState
running_now = record {
  state = some "Running";
  start_time = some 7;
  exit_code = none;
  finish_time = none;
  detail_status = some "";
}

abbrev pub view_of : AciState → InstanceView
view_of current = record {
  restart_count = some 0;
  current_state = some current;
  previous_state = none;
  events = none;
}

abbrev pub properties_of : InstanceView → ContainerProperties
properties_of view = record {
  image = some "nginx:1";
  ports = some (80 ∷ []);
  instance_view = some view;
}

abbrev pub container_of : String → InstanceView → Container
container_of name view = record { name = some name; properties = some (properties_of view) }

abbrev pub nginx : Container
nginx = container_of "nginx" (view_of running_now)

abbrev pub pointer_to : String → Pointer
pointer_to s = record { address = 100; value = s }

abbrev pub group_properties : List Container → GroupProperties
group_properties cs = record {
  provisioning_state = some "Succeeded";
  containers = some cs;
  ip_address = some (some "10.0.0.4");
  instance_state = some (some "Running");
}

abbrev pub group_of : List Container → ContainerGroup
group_of cs = record {
  id = some "/cg/1";
  name = some "ns-web";
  tags = some (
      ("Namespace", pointer_to "ns")
      ∷ ("NodeName", pointer_to "vk")
      ∷ ("CreationTimestamp", pointer_to "2022")
      ∷ []);
  properties = some (group_properties cs);
}

abbrev pub web_group : ContainerGroup
web_group = group_of (nginx ∷ [])
