-- ===== src/Rest/Clients.antt =====
-- How the clients of the REST library are made: NewClient of client/client.go, client/aci,
-- client/resourcegroups and client/network, and the writing of a subnet.
use azure_aci.Prelude.{
  String, ◌==◌, if◌then◌else◌, Option, none, some, List, [], ◌∷◌, plain, Result, ok, err, wrapped,
  ◌>>=◌,
}
use azure_aci.Rest.{HttpRetryConfig, non_empty_user_agent}
use azure_aci.Rest.Clouds.{Authentication}

-- The package adal: its configurations and tokens, for a service principal and for a managed identity.
pub record Adal (C K : Type 0) : Type 0 where
  pub new_oauth_config : String → String → Result C
  pub new_service_principal_token : C → String → String → String → Result K
  pub get_msi_vm_endpoint : Result String
  pub msi_token : String → String → String → Result K

-- A client: its token, the agents that it names itself as, and its retries.
pub record ArmClient (K : Type 0) : Type 0 where
  pub authentication : Authentication
  pub base_uri : String
  pub token : K
  pub user_agent : List String
  pub retry_config : HttpRetryConfig

module _ {C K : Type 0} (adal : Adal C K) where
  abbrev pub principal_token : Authentication → Result K
  principal_token auth = do
    config ←
        wrapped "Creating new OAuth config for active directory failed: "
          (adal.new_oauth_config auth.active_directory_endpoint auth.tenant_id)
    wrapped "Creating new service principal token failed: " (
        adal.new_service_principal_token config auth.client_id auth.client_secret
          auth.resource_manager_endpoint)

  abbrev pub identity_token : Authentication → Result K
  identity_token auth = do
    endpoint ← wrapped "Unable to retrieve managed identity endpoint: " adal.get_msi_vm_endpoint
    wrapped "Unable to create token provider with managed identity: "
        (adal.msi_token endpoint auth.management_endpoint auth.user_identity_client_id)

  unfoldable pub new_client : Authentication → List String → HttpRetryConfig → Result (ArmClient K)
  new_client auth user_agent retry_config = do
    token ← (if auth.use_user_identity then identity_token auth else principal_token auth)
    ok (record {
      authentication = auth;
      base_uri = auth.resource_manager_endpoint;
      token = token;
      user_agent = non_empty_user_agent user_agent;
      retry_config = retry_config;
    })

  abbrev pub named_agents : String → String → List String
  named_agents default_user_agent extra_user_agent =
      default_user_agent ∷ (if extra_user_agent == "" then [] else extra_user_agent ∷ [])

  -- NewClient of the packages, which differ in the agent that they name themselves as.
  abbrev pub new_named_client :
      String → Option Authentication → String → HttpRetryConfig → Result (ArmClient K)
  new_named_client default_user_agent none extra_user_agent retry_config =
      err (plain "Authentication is not supplied for the Azure client")
  new_named_client default_user_agent (some auth) extra_user_agent retry_config =
      wrapped "Creating Azure client failed: "
        (new_client auth (named_agents default_user_agent extra_user_agent) retry_config)

  unfoldable pub new_aci_client :
      Option Authentication → String → HttpRetryConfig → Result (ArmClient K)
  unfolding new_client
  new_aci_client auth extra_user_agent retry_config =
      new_named_client "virtual-kubelet/azure-arm-aci/2021-07-01" auth extra_user_agent retry_config

  unfoldable pub new_resource_groups_client :
      Option Authentication → String → HttpRetryConfig → Result (ArmClient K)
  unfolding new_client
  new_resource_groups_client auth extra_user_agent retry_config =
      new_named_client "virtual-kubelet/azure-arm-resourcegroups/2017-12-01" auth extra_user_agent
        retry_config

-- autorest's ClientCredentialsConfig and MSIConfig.
pub record ClientCredentialsConfig : Type 0 where
  pub client_id : String
  pub client_secret : String
  pub tenant_id : String
  pub resource : String
  pub aad_endpoint : String

pub record MsiConfig : Type 0 where
  pub resource : String
  pub client_id : String

abbrev pub new_client_config_by_cloud : Authentication → ClientCredentialsConfig
new_client_config_by_cloud az_auth = record {
  client_id = az_auth.client_id;
  client_secret = az_auth.client_secret;
  tenant_id = az_auth.tenant_id;
  resource = az_auth.resource_manager_endpoint;
  aad_endpoint = az_auth.active_directory_endpoint;
}

abbrev pub new_msi_config_by_cloud : Authentication → MsiConfig
new_msi_config_by_cloud az_auth = record {
  resource = az_auth.resource_manager_endpoint;
  client_id = az_auth.user_identity_client_id;
}

-- The Authorizer methods of the configurations.
pub record Authorizers (Z : Type 0) : Type 0 where
  pub of_credentials : ClientCredentialsConfig → Result Z
  pub of_identity : MsiConfig → Result Z

-- NewClient of client/network: the client, and the authorizer of its subnets client.
unfoldable pub new_network_client :
    {C K Z : Type 0}
    → Adal C K
    → Authorizers Z
    → Option Authentication
    → String
    → HttpRetryConfig
    → Result (ArmClient K × Z)
unfolding new_client
new_network_client adal authorizers auth extra_user_agent retry_config = do
  client ←
      new_named_client adal "virtual-kubelet/azure-arm-network/2018-08-01" auth extra_user_agent
        retry_config
  let az_auth = client.authentication
  authorizer ←
      (if az_auth.use_user_identity
        then authorizers.of_identity (new_msi_config_by_cloud az_auth)
        else authorizers.of_credentials (new_client_config_by_cloud az_auth))
  ok (client, authorizer)
