-- ===== src/Workload/Containers.antt =====
-- getInitContainers and getContainers of pkg/provider/aci.go.
use azure_aci.Prelude.{
  ℕ, String, ◌&&◌, not, Option, none, some, List, [], ◌∷◌, ◌++◌, map, Result, ok, invalid_input,
  fail_if, is_some, ◌>>=◌, ◌>>◌,
}
use azure_aci.Workload.{
  Protocol, ContainerPort, VolumeMount, ContainerSpec, EnvironmentVariable, AciProbe, Probe,
  verify_container, get_command, get_volume_mounts, get_environment_variables, get_protocol,
  is_empty, args_without_command,
}
use azure_aci.Workload.Probes.{get_probe}
use azure_aci.Workload.Resources.{GpuInput, AciResources, get_resources}

-- azaci.InitContainerDefinition
pub record InitContainerDefinition : Type 0 where
  pub name : String
  pub image : String
  pub command : List String
  pub volume_mounts : List VolumeMount
  pub environment_variables : List EnvironmentVariable

-- azaci.ContainerPort
pub record AciPort : Type 0 where
  pub port : ℕ
  pub protocol : Protocol

-- azaci.Container, as it is sent.
pub record AciContainer : Type 0 where
  pub name : String
  pub image : String
  pub command : List String
  pub ports : List AciPort
  pub volume_mounts : List VolumeMount
  pub environment_variables : List EnvironmentVariable
  pub resources : AciResources
  pub liveness_probe : Option AciProbe
  pub readiness_probe : Option AciProbe

unfoldable pub init_container : ContainerSpec → Result InitContainerDefinition
init_container c = do
  verify_container c
  fail_if (is_some c.ports)
      (invalid_input "azure container instances initContainers do not support ports")
  fail_if (is_some c.requests)
      (invalid_input "azure container instances initContainers do not support resources requests")
  fail_if (is_some c.limits)
      (invalid_input "azure container instances initContainers do not support resources limits")
  fail_if (is_some c.liveness_probe)
      (invalid_input "azure container instances initContainers do not support livenessProbe")
  fail_if (is_some c.readiness_probe)
      (invalid_input "azure container instances initContainers do not support readinessProbe")
  ok (record {
    name = c.name;
    image = c.image;
    command = get_command c;
    volume_mounts = get_volume_mounts c;
    environment_variables = get_environment_variables c.env;
  })

unfoldable pub get_init_containers : List ContainerSpec → Result (List InitContainerDefinition)
unfolding init_container
get_init_containers [] = ok []
get_init_containers (c ∷ cs) = do
  made ← init_container c
  rest ← get_init_containers cs
  ok (made ∷ rest)

-- The ports of a container; a nil list has none.
abbrev pub ports_of : Option (List ContainerPort) → List ContainerPort
ports_of none = []
ports_of (some ports) = ports

unfoldable pub aci_port : ContainerPort → AciPort
unfolding get_protocol
aci_port p = record { port = p.container_port; protocol = get_protocol p.protocol }

unfoldable pub optional_probe : Option Probe → List ContainerPort → Result (Option AciProbe)
optional_probe none ports = ok none
optional_probe (some probe) ports = do made ← get_probe probe ports; ok (some made)

-- The body of the loop of getContainers.
unfoldable pub make_container : GpuInput → ContainerSpec → Result AciContainer
unfolding aci_port optional_probe
make_container g c = do
  fail_if (is_empty c.command && not (is_empty c.args)) args_without_command
  resources ← get_resources g c.requests c.limits
  liveness_probe ← optional_probe c.liveness_probe (ports_of c.ports)
  readiness_probe ← optional_probe c.readiness_probe (ports_of c.ports)
  ok (record {
    name = c.name;
    image = c.image;
    command = c.command ++ c.args;
    ports = map aci_port (ports_of c.ports);
    volume_mounts = get_volume_mounts c;
    environment_variables = get_environment_variables c.env;
    resources = resources;
    liveness_probe = liveness_probe;
    readiness_probe = readiness_probe;
  })

unfoldable pub get_containers : GpuInput → List ContainerSpec → Result (List AciContainer)
unfolding make_container
get_containers g [] = ok []
get_containers g (c ∷ cs) = do
  made ← make_container g c
  rest ← get_containers g cs
  ok (made ∷ rest)
