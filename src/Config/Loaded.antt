-- ===== src/Config/Loaded.antt =====
-- The file of the configuration (pkg/provider/config.go) and that of log analytics
-- (pkg/analytics/analytics.go), the regions (pkg/provider/aci.go) and the capacity (pkg/provider/vk_node.go).
use azure_aci.Prelude.{
  String, Bool, ◌||◌, ◌==◌, ◌<>◌, none, some, List, [], ◌∷◌, Result, ok, err, plain, message_of,
  wrapped, contains, join, if◌then◌else◌, ◌>>=◌, ◌>>◌, fail_if, eqb,
}
use azure_aci.Create.Shared.{Diagnostics}
use azure_aci.Config.{AciProviderSettings, ProviderConfig, Host, set_by}

abbrev pub or_default : String → String → String
or_default value default = if value == "" then default else value

module _ (h : Host) where
  unfoldable pub valid_system : String → Result String
  valid_system os =
      let text =
        h.quoted os
        <> (" is not a valid operating system, try one of the following instead: "
            <> join " | " h.valid_operating_systems) in
      if os == ""
      then ok "Linux"
      else if contains h.valid_operating_systems os
      then ok os
      else err (plain text)

  -- nil, or the error of a text that is no CIDR.
  unfoldable pub check_cidr : String → String → Result (Unit {0})
  check_cidr prefix cidr = elim (h.parse_cidr cidr) [
    | none ↦ ok tt
    | some e ↦ err (plain (prefix <> message_of e))
  ]

  unfoldable pub check_subnet : ProviderConfig → Result (Unit {0})
  unfolding check_cidr
  check_subnet config =
      let checked =
        fail_if (config.subnet_name == "") (
          plain
            "subnet CIDR is set but no subnet name provided, must provide a subnet name in order to set a subnet CIDR")
        >> check_cidr "error parsing provided subnet CIDR: " config.subnet_cidr in
      if config.subnet_cidr == "" then ok tt else checked

  unfoldable pub load_config : AciProviderSettings → String → Result AciProviderSettings
  unfolding valid_system check_subnet
  load_config p text = do
    config ← h.decode_toml text
    os ← valid_system config.operating_system
    check_subnet config
        >> ok (record p {
          region = config.region;
          resource_group = config.resource_group;
          cpu = or_default config.cpu "20";
          memory = or_default config.memory "100Gi";
          pods = or_default config.pods "20";
          subnet_name = or_default config.subnet_name p.subnet_name;
          operating_system = os;
        })

  unfoldable pub setup_node_capacity : AciProviderSettings → AciProviderSettings
  setup_node_capacity p = record p {
    cpu = set_by h "ACI_QUOTA_CPU" "10000";
    memory = set_by h "ACI_QUOTA_MEMORY" "4Ti";
    pods = set_by h "ACI_QUOTA_POD" "5000";
  }

  abbrev pub new_container_group_diagnostics : String → String → Result Diagnostics
  new_container_group_diagnostics id key =
      if (id == "") || (key == "")
      then err (plain "log Analytics configuration requires both the workspace ID and Key")
      else ok (record {
        log_analytics =
            some
              (record { workspace_id = id; workspace_key = key; log_type = ""; metadata = none });
      })

  unfoldable pub new_container_group_diagnostics_from_file : String → Result Diagnostics
  new_container_group_diagnostics_from_file filepath = do
    let failed = "reading Log Analytics Auth file " <> (h.quoted filepath <> " failed: ")
    opened ← wrapped failed (h.open_file filepath)
    size ← wrapped failed (h.file_size filepath)
    nonempty ←
        fail_if (eqb size 0)
          (plain ("log analytics auth file " <> (h.quoted filepath <> " cannot be empty")))
    data_read ← wrapped failed (h.read_file filepath)
    log_analytics ← h.unmarshal_log_analytics data_read
    ok (record { log_analytics = some log_analytics })

abbrev pub valid_aci_regions : List String
valid_aci_regions =
    "australiaeast" ∷ "australiasoutheast" ∷ "brazilsouth" ∷ "canadacentral" ∷ "canadaeast"
    ∷ "centralindia" ∷ "centralus" ∷ "centraluseuap" ∷ "eastasia" ∷ "eastus" ∷ "eastus2"
    ∷ "eastus2euap" ∷ "francecentral" ∷ "germanywestcentral" ∷ "japaneast" ∷ "japanwest"
    ∷ "jioindiawest" ∷ "koreacentral" ∷ "northcentralus" ∷ "northeurope" ∷ "norwayeast"
    ∷ "norwaywest" ∷ "southafricanorth" ∷ "southcentralus" ∷ "southindia" ∷ "southeastasia"
    ∷ "swedencentral" ∷ "swedensouth" ∷ "switzerlandnorth" ∷ "switzerlandwest" ∷ "uaenorth"
    ∷ "uksouth" ∷ "ukwest" ∷ "westcentralus" ∷ "westeurope" ∷ "westindia" ∷ "westus" ∷ "westus2"
    ∷ "westus3" ∷ "usgovvirginia" ∷ "usgovarizona" ∷ []

unfoldable pub is_valid_aci_region : Host → String → Bool
is_valid_aci_region h region = contains valid_aci_regions (h.without_spaces (h.to_lower region))
