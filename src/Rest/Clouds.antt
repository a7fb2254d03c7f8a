-- ===== src/Rest/Clouds.antt =====
-- client/auth.go and client/environments.go: the clouds, and the authentication for one of them.
use azure_aci.Prelude.{String, ◌==◌, Bool, false, if◌then◌else◌}

pub record Environment : Type 0 where
  pub name : String
  pub management_portal_url : String
  pub publish_settings_url : String
  pub service_management_endpoint : String
  pub resource_manager_endpoint : String
  pub active_directory_endpoint : String
  pub gallery_endpoint : String
  pub key_vault_endpoint : String
  pub graph_endpoint : String
  pub storage_endpoint_suffix : String
  pub sql_database_dns_suffix : String
  pub traffic_manager_dns_suffix : String
  pub key_vault_dns_suffix : String
  pub service_bus_endpoint_suffix : String
  pub service_management_vm_dns_suffix : String
  pub resource_manager_vm_dns_suffix : String
  pub container_registry_dns_suffix : String

abbrev pub public_cloud : Environment
public_cloud = record {
  name = "AzurePublicCloud";
  management_portal_url = "https://manage.windowsazure.com/";
  publish_settings_url = "https://manage.windowsazure.com/publishsettings/index";
  service_management_endpoint = "https://management.core.windows.net/";
  resource_manager_endpoint = "https://management.azure.com/";
  active_directory_endpoint = "https://login.microsoftonline.com/";
  gallery_endpoint = "https://gallery.azure.com/";
  key_vault_endpoint = "https://vault.azure.net/";
  graph_endpoint = "https://graph.windows.net/";
  storage_endpoint_suffix = "core.windows.net";
  sql_database_dns_suffix = "database.windows.net";
  traffic_manager_dns_suffix = "trafficmanager.net";
  key_vault_dns_suffix = "vault.azure.net";
  service_bus_endpoint_suffix = "servicebus.azure.com";
  service_management_vm_dns_suffix = "cloudapp.net";
  resource_manager_vm_dns_suffix = "cloudapp.azure.com";
  container_registry_dns_suffix = "azurecr.io";
}

abbrev pub us_government_cloud : Environment
us_government_cloud = record {
  name = "AzureUSGovernmentCloud";
  management_portal_url = "https://manage.windowsazure.us/";
  publish_settings_url = "https://manage.windowsazure.us/publishsettings/index";
  service_management_endpoint = "https://management.core.usgovcloudapi.net/";
  resource_manager_endpoint = "https://management.usgovcloudapi.net/";
  active_directory_endpoint = "https://login.microsoftonline.com/";
  gallery_endpoint = "https://gallery.usgovcloudapi.net/";
  key_vault_endpoint = "https://vault.usgovcloudapi.net/";
  graph_endpoint = "https://graph.usgovcloudapi.net/";
  storage_endpoint_suffix = "core.usgovcloudapi.net";
  sql_database_dns_suffix = "database.usgovcloudapi.net";
  traffic_manager_dns_suffix = "usgovtrafficmanager.net";
  key_vault_dns_suffix = "vault.usgovcloudapi.net";
  service_bus_endpoint_suffix = "servicebus.usgovcloudapi.net";
  service_management_vm_dns_suffix = "usgovcloudapp.net";
  resource_manager_vm_dns_suffix = "cloudapp.windowsazure.us";
  container_registry_dns_suffix = "azurecr.io";
}

abbrev pub china_cloud : Environment
china_cloud = record {
  name = "AzureChinaCloud";
  management_portal_url = "https://manage.chinacloudapi.com/";
  publish_settings_url = "https://manage.chinacloudapi.com/publishsettings/index";
  service_management_endpoint = "https://management.core.chinacloudapi.cn/";
  resource_manager_endpoint = "https://management.chinacloudapi.cn/";
  active_directory_endpoint = "https://login.chinacloudapi.cn/";
  gallery_endpoint = "https://gallery.chinacloudapi.cn/";
  key_vault_endpoint = "https://vault.azure.cn/";
  graph_endpoint = "https://graph.chinacloudapi.cn/";
  storage_endpoint_suffix = "core.chinacloudapi.cn";
  sql_database_dns_suffix = "database.chinacloudapi.cn";
  traffic_manager_dns_suffix = "trafficmanager.cn";
  key_vault_dns_suffix = "vault.azure.cn";
  service_bus_endpoint_suffix = "servicebus.chinacloudapi.net";
  service_management_vm_dns_suffix = "chinacloudapp.cn";
  resource_manager_vm_dns_suffix = "cloudapp.azure.cn";
  container_registry_dns_suffix = "azurecr.io";
}

abbrev pub german_cloud : Environment
german_cloud = record {
  name = "AzureGermanCloud";
  management_portal_url = "http://portal.microsoftazure.de/";
  publish_settings_url = "https://manage.microsoftazure.de/publishsettings/index";
  service_management_endpoint = "https://management.core.cloudapi.de/";
  resource_manager_endpoint = "https://management.microsoftazure.de/";
  active_directory_endpoint = "https://login.microsoftonline.de/";
  gallery_endpoint = "https://gallery.cloudapi.de/";
  key_vault_endpoint = "https://vault.microsoftazure.de/";
  graph_endpoint = "https://graph.cloudapi.de/";
  storage_endpoint_suffix = "core.cloudapi.de";
  sql_database_dns_suffix = "database.cloudapi.de";
  traffic_manager_dns_suffix = "azuretrafficmanager.de";
  key_vault_dns_suffix = "vault.microsoftazure.de";
  service_bus_endpoint_suffix = "servicebus.cloudapi.de";
  service_management_vm_dns_suffix = "azurecloudapp.de";
  resource_manager_vm_dns_suffix = "cloudapp.microsoftazure.de";
  container_registry_dns_suffix = "azurecr.io";
}

-- The fields of an authentication file.
pub record Authentication : Type 0 where
  pub client_id : String
  pub client_secret : String
  pub subscription_id : String
  pub tenant_id : String
  pub active_directory_endpoint : String
  pub resource_manager_endpoint : String
  pub graph_resource_id : String
  pub sql_management_endpoint : String
  pub gallery_endpoint : String
  pub management_endpoint : String
  pub use_user_identity : Bool
  pub user_identity_client_id : String

-- The cloud of a name; the public one has any other name too.
unfoldable pub environment_of : String → Environment
environment_of azure_cloud =
    if azure_cloud == public_cloud.name
    then public_cloud
    else if azure_cloud == us_government_cloud.name
    then record us_government_cloud {
      active_directory_endpoint = "https://login.microsoftonline.us/";
    }
    else if azure_cloud == china_cloud.name
    then china_cloud
    else if azure_cloud == german_cloud.name
    then german_cloud
    else public_cloud

unfoldable pub new_authentication :
    String → String → String → String → String → String → Authentication
unfolding environment_of
new_authentication azure_cloud client_id client_secret subscription_id tenant_id identity_id =
    let environment = environment_of azure_cloud in
    record {
      client_id = client_id;
      client_secret = client_secret;
      subscription_id = subscription_id;
      tenant_id = tenant_id;
      active_directory_endpoint = environment.active_directory_endpoint;
      resource_manager_endpoint = environment.resource_manager_endpoint;
      graph_resource_id = environment.graph_endpoint;
      sql_management_endpoint = environment.sql_database_dns_suffix;
      gallery_endpoint = environment.gallery_endpoint;
      management_endpoint = environment.service_management_endpoint;
      use_user_identity = false;
      user_identity_client_id = identity_id;
    }
