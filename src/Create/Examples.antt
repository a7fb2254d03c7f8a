-- ===== src/Create/Examples.antt =====
-- A pod with one container that listens on a port, on a provider without a virtual network whose
-- diagnostics are of container cluster_insights.
use azure_aci.Prelude.{String, Option, false, none, some, List, [], ◌∷◌, ok, err, plain, ◌==◌}
use azure_aci.K8s.{pending}
use azure_aci.Dns.{cluster_first}
use azure_aci.Workload.{ContainerSpec, unset}
use azure_aci.Create.Shared.{Diagnostics}
use azure_aci.Create.{NewPod, NewGroup, Creator, with_client, create_pod}
use azure_aci.Create.Created.{Created}
use azure_aci.Client.{Sdk, create_container_group}
use azure_aci.Samples.{web_group}

-- What the provider keeps, and the groups that Azure has made.
abbrev Azure : Type 0
Azure = Option Diagnostics × List NewGroup

abbrev cluster_insights : String → Diagnostics
cluster_insights uid = record {
  log_analytics = some (record {
    workspace_id = "id";
    workspace_key = "key";
    log_type = "ContainerInsights";
    metadata = some (("pod-uuid", uid) ∷ []);
  });
}

abbrev creator : Creator Azure
creator = record {
  resource_group = "rg";
  region = "westus";
  operating_system = "Linux";
  gpu_skus = [];
  vnet_subscription_id = "";
  vnet_resource_group = "";
  vnet_name = "";
  subnet_name = "";
  kube_dns_ip = "";
  cluster_domain = "";
  max_subdomain = 253;
  container_group_extensions = [];
  secrets = record {
    base64 = record {
      std_encode = λ s. s;
      std_decode = λ s. ok s;
      raw_std_decode = λ s. ok s;
      has_padding = λ s. false;
    };
    parse_auth_configs = λ text. err (plain "no JSON");
    parse_docker_config = λ text. err (plain "no JSON");
    get_secret = λ name namespace. ok none;
  };
  resources = λ namespace. record {
    base64 = record {
      std_encode = λ s. s;
      std_decode = λ s. ok s;
      raw_std_decode = λ s. ok s;
      has_padding = λ s. false;
    };
    get_secret = λ name. record { object = none; error = none };
    get_config_map = λ name. record { object = none; error = none };
    get_secrets = ok [];
  };
  equal_fold = λ s t. s == t;
  time_string = λ t. "now";
  create_container_group = λ group namespace name g w. (ok tt, (w.0, g ∷ w.1));
  diagnostics = λ w. w.0;
  set_diagnostics = λ d w. (d, w.1);
}

abbrev sdk : Sdk Azure NewGroup
sdk = record {
  get = λ group name w.
      (record { status_code = 404; group = web_group; error = some (plain "missing") }, w);
  list_by_resource_group = λ group w. (ok [], w);
  prepare = λ group name g. ok tt;
  send = λ group name g w. (record { error = none; status_code = some 201 }, (w.0, g ∷ w.1));
  delete = λ group name w. (ok tt, w);
  wait_for_completion = λ w. (ok tt, w);
  list_logs = λ group name container tail w. (ok none, w);
  show_code = λ n. "";
  is_cancelled = λ w. false;
  on_error = λ retriable m. m;
}

abbrev web : ContainerSpec
web = record {
  name = "web";
  image = "nginx";
  command = [];
  args = [];
  ports = some (record { name = "http"; container_port = 80; protocol = unset } ∷ []);
  volume_mounts = [];
  env = [];
  requests = none;
  limits = none;
  liveness_probe = none;
  readiness_probe = none;
}

abbrev pod : NewPod
pod = record {
  pod = record {
    name = "web";
    namespace = "default";
    uid = "1";
    cluster_name = "";
    resource_version = "";
    creation_timestamp = 5;
    deletion_timestamp = none;
    annotations = [];
    status = record {
      phase = pending;
      conditions = [];
      message = "";
      reason = "";
      host_ip = "";
      pod_ip = "";
      start_time = none;
      container_statuses = [];
    };
  };
  node_name = "aci";
  restart_policy = "Always";
  containers = web ∷ [];
  init_containers = [];
  image_pull_secrets = [];
  volumes = [];
  service_account_name = "default";
  dns_policy = cluster_first;
  dns_config = none;
}

abbrev after : Azure
after = (create_pod (with_client creator sdk) pod (some (cluster_insights ""), [])).1
