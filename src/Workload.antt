-- ===== src/Workload.antt =====
-- The containers of a pod's specification, and what they become in a container group: lines 852-1146 and
-- 1185-1200 of pkg/provider/aci.go, and getProtocol of pkg/provider/aci_network.go. This file holds the
-- objects and the parts that init containers and containers share.
pub mod Probes
pub mod Resources
pub mod Containers
pub mod Built
pub mod Init
pub mod Windows
mod Examples
use azure_aci.Prelude.{
  ℕ, String, Bool, true, false, not, ◌&&◌, Option, none, some, List, [], ◌∷◌, ◌++◌, map, ◌==◌,
  Result, ok, err, Error, invalid_input, fail_if, if◌then◌else◌, keep, is_some,
}

pub data Protocol : Type 0 where
  tcp udp sctp unset : Protocol

pub record ContainerPort : Type 0 where
  pub name : String
  pub container_port : ℕ
  pub protocol : Protocol

pub record VolumeMount : Type 0 where
  pub name : String
  pub mount_path : String
  pub read_only : Bool

-- v1.EnvVar; of ValueFrom only whether it is a SecretKeyRef.
pub record EnvVar : Type 0 where
  pub name : String
  pub value : String
  pub from_secret : Bool

-- intstr.IntOrString
pub data IntOrString : Type 0 where
  int : ℕ → IntOrString
  text : String → IntOrString

pub record HttpGet : Type 0 where
  pub port : IntOrString
  pub path : String
  pub scheme : String

pub record Timing : Type 0 where
  pub initial_delay_seconds : ℕ
  pub failure_threshold : ℕ
  pub success_threshold : ℕ
  pub timeout_seconds : ℕ
  pub period_seconds : ℕ

-- v1.Probe; a nil `Exec` or `HTTPGet` is `none`.
pub record Probe : Type 0 where
  pub exec : Option (List String)
  pub http_get : Option HttpGet
  pub timing : Timing

-- The three entries of v1.ResourceList that are read: thousandths of a CPU, bytes, GPUs. The API
-- server admits no negative quantity.
pub record ResourceList : Type 0 where
  pub cpu : Option ℕ
  pub memory : Option ℕ
  pub gpu : Option ℕ

-- v1.Container. A map, a probe or the list of ports may be nil.
pub record ContainerSpec : Type 0 where
  pub name : String
  pub image : String
  pub command : List String
  pub args : List String
  pub ports : Option (List ContainerPort)
  pub volume_mounts : List VolumeMount
  pub env : List EnvVar
  pub requests : Option ResourceList
  pub limits : Option ResourceList
  pub liveness_probe : Option Probe
  pub readiness_probe : Option Probe

-- azaci.EnvironmentVariable
pub record EnvironmentVariable : Type 0 where
  pub name : String
  pub value : Option String
  pub secure_value : Option String

-- azaci.ContainerHTTPGet
pub record AciHttpGet : Type 0 where
  pub port : ℕ
  pub path : String
  pub scheme : String

-- azaci.ContainerProbe
pub record AciProbe : Type 0 where
  pub exec : Option (List String)
  pub http_get : Option AciHttpGet
  pub timing : Timing

abbrev pub args_without_command : Error
args_without_command =
    invalid_input
      "ACI does not support providing args without specifying the command. Please supply both command and args to the pod spec."

abbrev pub is_empty : {A : Type 0} → List A → Bool
is_empty [] = true
is_empty (x ∷ xs) = false

unfoldable pub verify_container : ContainerSpec → Result (Unit {0})
verify_container c = fail_if (is_empty c.command && not (is_empty c.args)) args_without_command

abbrev pub get_command : ContainerSpec → List String
get_command c = c.command ++ c.args

-- The fields are copied one by one, so a mount is the same record on both sides.
abbrev pub get_volume_mounts : ContainerSpec → List VolumeMount
get_volume_mounts c =
    map (λ m. record { name = m.name; mount_path = m.mount_path; read_only = m.read_only })
      c.volume_mounts

unfoldable pub get_aci_env_var : EnvVar → EnvironmentVariable
get_aci_env_var e =
    if e.from_secret
    then record { name = e.name; value = none; secure_value = some e.value }
    else record { name = e.name; value = some e.value; secure_value = none }

unfoldable pub get_environment_variables : List EnvVar → List EnvironmentVariable
get_environment_variables [] = []
get_environment_variables (e ∷ env) =
    let rest = get_environment_variables env in
    if e.value == "" then rest else get_aci_env_var e ∷ rest

unfoldable pub get_protocol : Protocol → Protocol
get_protocol udp = udp
get_protocol _ = tcp
