-- ===== src/Config.antt =====
-- How the provider is configured: NewACIProvider of pkg/provider/aci.go with the files that it calls. Here are
-- the state that is filled in and what is outside of the program.
pub mod Loaded
pub mod Network
pub mod Started
pub mod Settled
pub mod Usable
pub mod Node
mod Examples
use azure_aci.Prelude.{ℕ, String, ◌==◌, if◌then◌else◌, Option, none, List, [], Result, Error}
use azure_aci.Prelude.Io.{Io}
use azure_aci.Auth.{AksCredential}
use azure_aci.Extensions.{Extension, Kube}
use azure_aci.Create.Shared.{Diagnostics, LogAnalytics}

-- ACIProvider, without the clients and without what keeps the pods.
pub record AciProviderSettings : Type 0 where
  pub container_group_extensions : List Extension
  pub resource_group : String
  pub region : String
  pub node_name : String
  pub operating_system : String
  pub cpu : String
  pub memory : String
  pub pods : String
  pub gpu : String
  pub internal_ip : String
  pub daemon_endpoint_port : ℕ
  pub diagnostics : Option Diagnostics
  pub subnet_name : String
  pub subnet_cidr : String
  pub vnet_subscription_id : String
  pub vnet_name : String
  pub vnet_resource_group : String
  pub cluster_domain : String
  pub kube_dns_ip : String

-- `var p ACIProvider`
abbrev pub zero_provider : AciProviderSettings
zero_provider = record {
  container_group_extensions = [];
  resource_group = "";
  region = "";
  node_name = "";
  operating_system = "";
  cpu = "";
  memory = "";
  pods = "";
  gpu = "";
  internal_ip = "";
  daemon_endpoint_port = 0;
  diagnostics = none;
  subnet_name = "";
  subnet_cidr = "";
  vnet_subscription_id = "";
  vnet_name = "";
  vnet_resource_group = "";
  cluster_domain = "";
  kube_dns_ip = "";
}

-- providerConfig
pub record ProviderConfig : Type 0 where
  pub resource_group : String
  pub region : String
  pub operating_system : String
  pub cpu : String
  pub memory : String
  pub pods : String
  pub subnet_name : String
  pub subnet_cidr : String

-- The environment and the files, and the packages that read them. `parse_cidr` is the error of net.ParseCIDR.
pub record Host : Type 0 where
  pub kube : Kube
  pub open_file : String → Result String
  pub decode_toml : String → Result ProviderConfig
  pub parse_cidr : String → Option Error
  pub quoted : String → String
  pub valid_operating_systems : List String
  pub to_lower : String → String
  pub without_spaces : String → String
  pub file_size : String → Result ℕ
  pub read_file : String → Result String
  pub unmarshal_log_analytics : String → Result LogAnalytics

-- `if v := os.Getenv(name); v != "" { field = v }`
abbrev pub set_by : Host → String → String → String
set_by h name field = if h.kube.getenv name == "" then field else h.kube.getenv name
