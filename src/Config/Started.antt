-- ===== src/Config/Started.antt =====
-- NewACIProvider of pkg/provider/aci.go, in the order of the source.
use azure_aci.Prelude.{
  ℕ, String, not, ◌==◌, ◌<>◌, Option, none, some, [], ◌∷◌, Result, ok, plain, join, if◌then◌else◌,
  ◌>>=◌, fail_if,
}
use azure_aci.Prelude.Io
use azure_aci.Prelude.Io.{Io, lift}
use azure_aci.Auth.{AksCredential, AuthSettings}
use azure_aci.Create.Shared.{Diagnostics, LogAnalytics}
use azure_aci.Config.{AciProviderSettings, Host, set_by, zero_provider}
use azure_aci.Config.Loaded.{
  load_config, setup_node_capacity, new_container_group_diagnostics,
  new_container_group_diagnostics_from_file, valid_aci_regions, is_valid_aci_region,
}
use azure_aci.Config.Network.{Subnets, set_vnet_config}

-- The arguments of NewACIProvider that are values.
pub record Arguments : Type 0 where
  pub config : String
  pub node_name : String
  pub operating_system : String
  pub internal_ip : String
  pub daemon_endpoint_port : ℕ
  pub cluster_domain : String

module _ (h : Host) (args : Arguments) where
  unfoldable pub from_config : Result AciProviderSettings
  from_config =
      let loaded = h.open_file args.config >>= load_config h zero_provider in
      if args.config == "" then ok zero_provider else loaded

  abbrev pub with_arguments : AciProviderSettings → AciProviderSettings
  with_arguments p = record p {
    cluster_domain = args.cluster_domain;
    operating_system = args.operating_system;
    node_name = args.node_name;
    internal_ip = args.internal_ip;
    daemon_endpoint_port = args.daemon_endpoint_port;
  }

  abbrev pub with_credential : Option AksCredential → AciProviderSettings → AciProviderSettings
  with_credential none p = p
  with_credential (some cred) p = record p {
    resource_group = cred.resource_group;
    region = cred.region;
    vnet_name = cred.vnet_name;
    vnet_resource_group = cred.vnet_resource_group;
  }

  abbrev pub with_vnet_group : AciProviderSettings → AciProviderSettings
  with_vnet_group p = record p {
    vnet_resource_group =
        if p.vnet_resource_group == "" then p.resource_group else p.vnet_resource_group;
  }

  -- The diagnostics of the file and then those of the ID and the key, if they are named.
  unfoldable pub file_diagnostics : Option Diagnostics → Result (Option Diagnostics)
  file_diagnostics d =
      let file = h.kube.getenv "LOG_ANALYTICS_AUTH_LOCATION" in
      let from_file = new_container_group_diagnostics_from_file h file >>= λ made. ok (some made) in
      if file == "" then ok d else from_file

  unfoldable pub key_diagnostics : Option Diagnostics → Result (Option Diagnostics)
  key_diagnostics d =
      let id = h.kube.getenv "LOG_ANALYTICS_ID" in
      let key = h.kube.getenv "LOG_ANALYTICS_KEY" in
      let made = new_container_group_diagnostics h id key >>= λ made. ok (some made) in
      if id == "" then ok d else if key == "" then ok d else made

  abbrev pub insights : LogAnalytics → LogAnalytics
  insights la = record la {
    log_type = "ContainerInsights";
    metadata = some (
        ("cluster-resource-id", h.kube.getenv "CLUSTER_RESOURCE_ID")
        ∷ ("node-name", args.node_name)
        ∷ []);
  }

  abbrev pub with_insights : Option LogAnalytics → Option LogAnalytics
  with_insights none = none
  with_insights (some la) = some (insights la)

  abbrev pub for_cluster : Option Diagnostics → Option Diagnostics
  for_cluster none = none
  for_cluster (some d) = some (record { log_analytics = with_insights d.log_analytics })

  unfoldable pub cluster_diagnostics : Option Diagnostics → Option Diagnostics
  cluster_diagnostics d = if h.kube.getenv "CLUSTER_RESOURCE_ID" == "" then d else for_cluster d

  abbrev pub invalid_region : String → String
  invalid_region r =
      "Region "
      <> (r <> (" is invalid. Current supported regions are: " <> join ", " valid_aci_regions))

  -- The resource group and the region, which must be known.
  unfoldable pub with_place : AciProviderSettings → Result AciProviderSettings
  with_place p = do
    let resource_group = set_by h "ACI_RESOURCE_GROUP" p.resource_group
    let region = set_by h "ACI_REGION" p.region
    has_group ←
        fail_if (resource_group == "")
          (plain "Resource group can not be empty please set ACI_RESOURCE_GROUP")
    has_region ← fail_if (region == "") (plain "Region can not be empty please set ACI_REGION")
    is_valid ← fail_if (not (is_valid_aci_region h region)) (plain (invalid_region region))
    ok (record p { resource_group = resource_group; region = region })

  unfoldable pub with_diagnostics : AciProviderSettings → Result AciProviderSettings
  unfolding file_diagnostics key_diagnostics cluster_diagnostics
  with_diagnostics p = do
    d ← file_diagnostics p.diagnostics
    d1 ← key_diagnostics d
    ok (record p { diagnostics = cluster_diagnostics d1 })

  abbrev pub before_diagnostics : Option AksCredential → AciProviderSettings → AciProviderSettings
  before_diagnostics cred p = with_vnet_group (with_credential cred (with_arguments p))

  -- All that is settled before the network is.
  unfoldable pub settled : Option AksCredential → Result AciProviderSettings
  unfolding from_config with_place with_diagnostics
  settled cred = do
    p ← from_config
    p1 ← with_diagnostics (before_diagnostics cred p)
    p2 ← with_place p1
    ok (setup_node_capacity h p2)

  unfoldable pub new_aci_provider :
      {W Token : Type 0} → Subnets W → AuthSettings Token → Io W AciProviderSettings
  unfolding settled
  new_aci_provider s auth =
      Io.◌>>=◌ (lift (settled auth.aks_credential))
        (set_vnet_config h s auth.auth_config.subscription_id)
