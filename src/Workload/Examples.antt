-- ===== src/Workload/Examples.antt =====
-- A web server with a secret, a named probe and a small memory request.
use azure_aci.Prelude.{true, false, none, some, List, [], ◌∷◌, ◌≡◌, refl, ok, inl, In}
use azure_aci.Workload.{
  VolumeMount, ContainerSpec, ContainerPort, tcp, unset, EnvVar, EnvironmentVariable, Probe, text,
  Timing, get_environment_variables, get_aci_env_var, get_protocol,
}
use azure_aci.Workload.Probes.{
  get_probe, get_http_get, port_value, named_port, Probed, get_probe-Probed, http_probe,
}
use azure_aci.Workload.Resources.{GpuInput, get_resources, with_limits, cpu_request, memory_request}
use azure_aci.Workload.Containers.{
  AciContainer, get_containers, make_container, aci_port, optional_probe,
}
use azure_aci.Workload.Built.{
  AllBuilt, get_containers-AllBuilt, Sent, get_environment_variables-Sent,
}

abbrev gpus : GpuInput
gpus = record { gpu_skus = []; region = "westus"; desired_sku = none; equal_fold = λ s t. true }

abbrev ports : List ContainerPort
ports = record { name = "http"; container_port = 80; protocol = unset } ∷ []

abbrev timing : Timing
timing = record {
  initial_delay_seconds = 1;
  failure_threshold = 2;
  success_threshold = 3;
  timeout_seconds = 4;
  period_seconds = 5;
}

abbrev probe : Probe
probe = record {
  exec = none;
  http_get = some (record { port = text "http"; path = "/"; scheme = "HTTP" });
  timing = timing;
}

abbrev env : List EnvVar
env =
    record { name = "KEY"; value = "k"; from_secret = true }
    ∷ record { name = "EMPTY"; value = ""; from_secret = false }
    ∷ record { name = "MODE"; value = "m"; from_secret = false }
    ∷ []

abbrev web : ContainerSpec
web = record {
  name = "web";
  image = "nginx";
  command = "run" ∷ [];
  args = "-v" ∷ [];
  ports = some ports;
  volume_mounts = [];
  env = env;
  requests = some (record { cpu = some 255; memory = some 50000000; gpu = none });
  limits = none;
  liveness_probe = some probe;
  readiness_probe = none;
}

abbrev sent_key : EnvironmentVariable
sent_key = record { name = "KEY"; value = none; secure_value = some "k" }

abbrev sent_web : AciContainer
sent_web = record {
  name = "web";
  image = "nginx";
  command = "run" ∷ "-v" ∷ [];
  ports = record { port = 80; protocol = tcp } ∷ [];
  volume_mounts = [];
  environment_variables =
      sent_key ∷ record { name = "MODE"; value = some "m"; secure_value = none } ∷ [];
  resources = record { requests = record { cpu = 250; memory = 1; gpu = none }; limits = none };
  liveness_probe = some (record {
    exec = none;
    http_get = some (record { port = 80; path = "/"; scheme = "HTTP" });
    timing = timing;
  });
  readiness_probe = none;
}

web_is_sent : get_containers gpus (web ∷ []) ≡ ok (sent_web ∷ [])
unfolding get_containers make_container aci_port get_protocol optional_probe get_probe get_http_get
    port_value named_port get_resources with_limits cpu_request memory_request
    get_environment_variables get_aci_env_var
web_is_sent = refl

get_containers-AllBuilt_example : AllBuilt (web ∷ []) (sent_web ∷ [])
get_containers-AllBuilt_example =
    get_containers-AllBuilt gpus (web ∷ []) (sent_web ∷ []) web_is_sent

get_environment_variables-Sent_example : (e : EnvVar) × In e env × Sent e sent_key
unfolding get_environment_variables get_aci_env_var
get_environment_variables-Sent_example = get_environment_variables-Sent env sent_key (inl refl)

probe_is_made :
    get_probe probe ports
    ≡ ok (http_probe probe (record { port = text "http"; path = "/"; scheme = "HTTP" }) 80)
unfolding get_probe get_http_get port_value named_port
probe_is_made = refl

get_probe-Probed_example :
    Probed probe ports
      (http_probe probe (record { port = text "http"; path = "/"; scheme = "HTTP" }) 80)
get_probe-Probed_example = get_probe-Probed probe ports _ probe_is_made

abbrev token : VolumeMount
token = record {
  name = "token";
  mount_path = "/var/run/secrets/kubernetes.io/serviceaccount";
  read_only = true;
}
