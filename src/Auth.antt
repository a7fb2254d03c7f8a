-- ===== src/Auth.antt =====
-- The settings for signing in to Azure: pkg/auth/auth.go.
pub mod Decode
pub mod Settled
mod Examples
use azure_aci.Prelude.{
  ℕ, ◌<>◌, String, Bool, true, false, ◌==◌, Option, none, some, List, Result, ok, err, panics,
  plain, Error, message_of, wrapped, if◌then◌else◌, ◌>>=◌, ◌>>◌, fail_if, ◌&&◌,
}
use azure_aci.Auth.Decode.{Bytes, Utf, decode}

-- Authentication
pub record Authentication : Type 0 where
  pub client_id : String
  pub client_secret : String
  pub subscription_id : String
  pub tenant_id : String
  pub user_identity_client_id : String

-- aksCredential
pub record AksCredential : Type 0 where
  pub cloud : String
  pub tenant_id : String
  pub subscription_id : String
  pub client_id : String
  pub client_secret : String
  pub resource_group : String
  pub region : String
  pub vnet_name : String
  pub vnet_resource_group : String
  pub user_assigned_identity_id : String

-- The three configurations of the Azure SDK.
pub data Cloud : Type 0 where
  azure_public azure_government azure_china : Cloud

-- Config. `AuthConfig` may be nil only before SetAuthConfig.
pub record AuthSettings (Token : Type 0) : Type 0 where
  pub aks_credential : Option AksCredential
  pub auth_config : Authentication
  pub cloud : Cloud
  pub authorizer : Option Token

-- The environment, the files, JSON, and the tokens of the `adal` package. Unmarshalling keeps the fields of its
-- first argument that the text does not name.
pub record SignIn (Oauth Token : Type 0) : Type 0 where
  pub getenv : String → String
  pub quoted : String → String
  pub equal_fold : String → String → Bool
  pub read_file : String → Result Bytes
  pub utf : Utf
  pub unmarshal_authentication : Authentication → Bytes → Result Authentication
  pub unmarshal_credential : Bytes → Result AksCredential
  pub endpoint : Cloud → String
  pub authority_host : Cloud → String
  pub token_from_managed_identity : String → String → Result Token
  pub new_oauth_config : String → String → Result Oauth
  pub new_service_principal_token : Oauth → String → String → String → Result Token

abbrev pub no_authentication : Authentication
no_authentication = record {
  client_id = "";
  client_secret = "";
  subscription_id = "";
  tenant_id = "";
  user_identity_client_id = "";
}

abbrev pub new_authentication : String → String → String → String → String → Authentication
new_authentication client_id client_secret subscription_id tenant_id user_assigned_identity_id =
    record {
      client_id = client_id;
      client_secret = client_secret;
      subscription_id = subscription_id;
      tenant_id = tenant_id;
      user_identity_client_id = user_assigned_identity_id;
    }

-- It panics on any other name.
unfoldable pub get_cloud_configuration : String → Result Cloud
get_cloud_configuration cloud_name =
    if cloud_name == "AzurePublicCloud"
    then ok azure_public
    else if cloud_name == "AzureUSGovernment"
    then ok azure_government
    else if cloud_name == "AzureChina"
    then ok azure_china
    else panics

-- `if v := os.Getenv(name); v != "" { field = v }`
abbrev pub overridden : String → String → String
overridden v field = if v == "" then field else v

abbrev pub identity_unset : Error
identity_unset = plain "neither AZURE_CLIENT_ID or VIRTUALNODE_USER_IDENTITY_CLIENTID is being set"

module _ {Oauth Token : Type 0} (s : SignIn Oauth Token) where
  unfoldable pub new_authentication_from_file : Authentication → String → Result Authentication
  new_authentication_from_file a filepath = do
    b ←
        wrapped ("reading Authentication file " <> (s.quoted filepath <> " failed: "))
          (s.read_file filepath)
    decoded ←
        wrapped ("decoding Authentication file " <> (s.quoted filepath <> " failed: "))
          (decode s.utf b)
    s.unmarshal_authentication a decoded

  unfoldable pub new_aks_credential : String → Result AksCredential
  new_aks_credential file_path = do
    b ←
        wrapped ("reading AKS credential file " <> (s.quoted file_path <> " failed: "))
          (s.read_file file_path)
    s.unmarshal_credential b

  unfoldable pub get_authorizer : Cloud → Authentication → String → Result Token
  get_authorizer cloud a resource =
      if a.client_id == ""
      then s.token_from_managed_identity resource a.user_identity_client_id
      else (do
        oauth_config ← s.new_oauth_config (s.authority_host cloud) a.tenant_id
        s.new_service_principal_token oauth_config a.client_id a.client_secret resource)

  -- The settings that the file of AZURE_AUTH_LOCATION gives, if it is named.
  unfoldable pub from_auth_location : String → Result Authentication
  from_auth_location filepath =
      if filepath == ""
      then ok no_authentication
      else new_authentication_from_file no_authentication filepath

  -- Those of AKS_CREDENTIAL_LOCATION take their place, if it is named.
  unfoldable pub aks_settings : String → Result (AuthSettings Token)
  aks_settings filepath = do
    cred ← new_aks_credential filepath
    cloud ← get_cloud_configuration cred.cloud
    ok (record {
      aks_credential = some cred;
      auth_config =
          new_authentication (if s.equal_fold cred.client_id "msi" then "" else cred.client_id)
            cred.client_secret cred.subscription_id cred.tenant_id cred.user_assigned_identity_id;
      cloud = cloud;
      authorizer = none;
    })

  unfoldable pub from_aks_credential : Authentication → String → Result (AuthSettings Token)
  unfolding aks_settings
  from_aks_credential a filepath =
      if filepath == ""
      then ok (record {
        aks_credential = none;
        auth_config = a;
        cloud = azure_public;
        authorizer = none;
      })
      else aks_settings filepath

  unfoldable pub with_environment : Authentication → Authentication
  with_environment a = record {
    client_id = overridden (s.getenv "AZURE_CLIENT_ID") a.client_id;
    client_secret = overridden (s.getenv "AZURE_CLIENT_SECRET") a.client_secret;
    subscription_id = overridden (s.getenv "AZURE_SUBSCRIPTION_ID") a.subscription_id;
    tenant_id = overridden (s.getenv "AZURE_TENANT_ID") a.tenant_id;
    user_identity_client_id =
        overridden (s.getenv "VIRTUALNODE_USER_IDENTITY_CLIENTID") a.user_identity_client_id;
  }

  -- The check for an identity stands before the tenant and the subscription are read; it reads neither.
  unfoldable pub set_auth_config : Result (AuthSettings Token)
  unfolding from_auth_location from_aks_credential with_environment
  set_auth_config = do
    a ← from_auth_location (s.getenv "AZURE_AUTH_LOCATION")
    c ← from_aks_credential a (s.getenv "AKS_CREDENTIAL_LOCATION")
    let a' = with_environment c.auth_config
    fail_if (a'.client_id == "" && (a'.user_identity_client_id == "")) identity_unset >> (do
      token ← get_authorizer c.cloud a' (s.endpoint c.cloud)
      ok (record c { auth_config = a'; authorizer = some token }))
