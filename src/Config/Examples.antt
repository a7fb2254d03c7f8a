-- ===== src/Config/Examples.antt =====
-- A provider whose subnet is found by its name and is delegated already, and one whose subnet is missing.
use azure_aci.Prelude.{
  ℕ, suc, String, Option, false, none, some, List, [], ◌∷◌, ◌≡◌, refl, ok, err, plain, azure,
  lookup, ◌⊎◌,
}
use azure_aci.Auth.{AuthSettings, azure_public}
use azure_aci.Extensions.{
  kube_proxy, get_kube_proxy_extension, from_kubeconfig, found_or_secret, from_service_account,
}
use azure_aci.Config.{AciProviderSettings, Host, zero_provider}
use azure_aci.Config.Loaded.{check_cidr, is_valid_aci_region, setup_node_capacity}
use azure_aci.Config.Network.{
  Subnet, Subnets, with_vnet_variables, with_subnet_cidr, setup_network, set_vnet_config,
  in_network, proxy_extension, looked_up, use_found, examine, no_route_table, must_delegate,
  search_delegations,
}
use azure_aci.Config.Network.Delegated.{SetUp, setup_network-SetUp}
use azure_aci.Config.Network.Missing.{set_vnet_config-missing}
use azure_aci.Config.Started.{
  Arguments, settled, from_config, with_diagnostics, file_diagnostics, key_diagnostics,
  cluster_diagnostics, with_place, new_aci_provider,
}
use azure_aci.Config.Settled.{Usable, HasProxy}
use azure_aci.Config.Node.{Node, configure_node}
use azure_aci.Config.Node.Configured.{Schedulable, configure_node-Schedulable}
use azure_aci.Config.Usable.{new_aci_provider-Usable}

abbrev or_empty : Option String → String
or_empty none = ""
or_empty (some v) = v

abbrev variables : List (String × String)
variables =
    ("ACI_RESOURCE_GROUP", "rg")
    ∷ ("ACI_REGION", "westus")
    ∷ ("ACI_VNET_NAME", "net")
    ∷ ("ACI_SUBNET_NAME", "pods")
    ∷ ("ACI_SUBNET_CIDR", "10.1.0.0/16")
    ∷ []

abbrev host : Host
host = record {
  kube = record {
    getenv = λ name. or_empty (lookup variables name);
    file_exists = λ path. false;
    load_from_file = λ path. err (plain "no file");
    read_file = λ path. ok "text";
    encode_json = λ config. ok "json";
    base64_encode = λ s. s;
  };
  open_file = λ path. err (plain "no file");
  decode_toml = λ text. err (plain "no TOML");
  parse_cidr = λ cidr. none;
  quoted = λ s. s;
  valid_operating_systems = "Linux" ∷ "Windows" ∷ [];
  to_lower = λ s. s;
  without_spaces = λ s. s;
  file_size = λ path. err (plain "no file");
  read_file = λ path. err (plain "no file");
  unmarshal_log_analytics = λ text. err (plain "no JSON");
}

abbrev pods : Subnet
pods = record {
  name = some "pods";
  properties = some (record {
    address_prefix = some "10.1.0.0/16";
    route_table = none;
    service_association_links = none;
    delegations = some (
        record { name = none; properties = none }
        ∷ record {
          name = none;
          properties = some (record {
            service_name = some "Microsoft.ContainerInstance/containerGroups";
            actions = none;
          });
        }
        ∷ []);
  });
}

-- The world counts the calls.
abbrev found : Subnets ℕ
found = record {
  get = λ subscription group net name w. (ok pods, suc w);
  create_or_update = λ subscription group net name subnet w. (ok tt, suc w);
  show_link = λ l. "";
}

abbrev missing : Subnets ℕ
missing = record found {
  get = λ subscription group net name w. (err (azure 404 "ResourceNotFound"), suc w);
}

abbrev in_net : AciProviderSettings
in_net = record zero_provider {
  subnet_name = "pods";
  vnet_name = "net";
  vnet_resource_group = "rg";
  subnet_cidr = "10.1.0.0/16";
}

setup_network-SetUp_example : SetUp found "sub" in_net in_net 0 1
unfolding setup_network looked_up examine no_route_table must_delegate search_delegations use_found
setup_network-SetUp_example = setup_network-SetUp found "sub" in_net in_net 0 1 refl

abbrev named : AciProviderSettings
named = with_vnet_variables host missing "sub" zero_provider

set_vnet_config-missing_example :
    set_vnet_config host missing "sub" zero_provider 0
    ≡ (err (plain "error setting up network: error while looking up subnet: ResourceNotFound"), 1)
unfolding with_vnet_variables with_subnet_cidr
set_vnet_config-missing_example =
    set_vnet_config-missing host missing "sub" zero_provider
      (record named { subnet_cidr = "10.1.0.0/16" }) 0 1 404 "ResourceNotFound" refl refl refl

abbrev arguments : Arguments
arguments = record {
  config = "";
  node_name = "aci";
  operating_system = "Linux";
  internal_ip = "10.0.0.4";
  daemon_endpoint_port = 10250;
  cluster_domain = "cluster.local";
}

abbrev signed_in : AuthSettings String
signed_in = record {
  aks_credential = none;
  auth_config = record {
    client_id = "client";
    client_secret = "secret";
    subscription_id = "sub";
    tenant_id = "tenant";
    user_identity_client_id = "";
  };
  cloud = azure_public;
  authorizer = some "token";
}

abbrev provider : AciProviderSettings
provider = record in_net {
  container_group_extensions =
      record {
        name = "kube-proxy";
        properties = record {
          kind = kube_proxy;
          version = "1.0";
          settings = ("clusterCidr", "10.240.0.0/16") ∷ ("kubeVersion", "v1.9.10") ∷ [];
          protected_settings = ("kubeConfig", "json") ∷ [];
        };
      }
      ∷ [];
  resource_group = "rg";
  region = "westus";
  node_name = "aci";
  operating_system = "Linux";
  cpu = "10000";
  memory = "4Ti";
  pods = "5000";
  internal_ip = "10.0.0.4";
  daemon_endpoint_port = 10250;
  vnet_subscription_id = "sub";
  vnet_resource_group = "";
  cluster_domain = "cluster.local";
}

provider_starts : new_aci_provider host arguments found signed_in 0 ≡ (ok provider, 1)
unfolding new_aci_provider settled from_config with_diagnostics file_diagnostics key_diagnostics
    cluster_diagnostics with_place is_valid_aci_region setup_node_capacity set_vnet_config
    with_vnet_variables with_subnet_cidr check_cidr in_network setup_network looked_up examine
    no_route_table must_delegate search_delegations use_found proxy_extension
    get_kube_proxy_extension from_kubeconfig found_or_secret from_service_account
provider_starts = refl

new_aci_provider-Usable_example :
    Usable host arguments found "sub" provider
    × ((provider.subnet_name ≡ "") ⊎ HasProxy host arguments found "sub" provider)
new_aci_provider-Usable_example =
    new_aci_provider-Usable host arguments found signed_in provider 0 1 provider_starts

abbrev node : Node String
node = record {
  labels = some [];
  capacity = [];
  allocatable = [];
  conditions = [];
  addresses = [];
  kubelet_port = 0;
  operating_system = "";
}

configure_node-Schedulable_example :
    (node' : Node String) × (configure_node some provider 5 node ≡ ok node')
    × Schedulable "10000" "4Ti" "5000" provider node'
configure_node-Schedulable_example =
    configure_node-Schedulable host arguments found "sub" some provider 5 node [] "10000" "4Ti"
      "5000" new_aci_provider-Usable_example.0 refl refl refl refl refl
