-- ===== src/Extensions.antt =====
-- The extensions of a container group: pkg/client/extensions.go.
use azure_aci.Prelude.{
  String, Bool, true, false, not, ◌||◌, ◌==◌, ◌<>◌, Option, none, some, List, [], ◌∷◌, Result, ok,
  err, panics, wrapped, if◌then◌else◌, ◌>>=◌,
}

pub data ExtensionType : Type 0 where
  kube_proxy realtime_metrics : ExtensionType

-- ExtensionProperties, whose only version is "1.0".
pub record ExtensionProperties : Type 0 where
  pub kind : ExtensionType
  pub version : String
  pub settings : List (String × String)
  pub protected_settings : List (String × String)

pub record Extension : Type 0 where
  pub name : String
  pub properties : ExtensionProperties

-- clientcmdapi.AuthInfo
pub record AuthInfo : Type 0 where
  pub client_certificate : String
  pub client_certificate_data : String
  pub client_key : String
  pub client_key_data : String
  pub token : String
  pub username : String
  pub password : String

-- clientcmdapi.Config, of each cluster the certificate. A map is the list of its values in the order in
-- which `range` meets them; a pointer in a map may be nil.
pub record KubeConfig : Type 0 where
  pub clusters : List (Option String)
  pub auth_infos : List (Option AuthInfo)

-- clientcmdapiv1.Config, as it is filled here; the one name stands for the cluster, the user and the context.
pub record ProxyConfig : Type 0 where
  pub name : String
  pub server : String
  pub certificate_authority_data : String
  pub auth_info : AuthInfo

-- The environment and the files, and the packages that read and write configurations.
pub record Kube : Type 0 where
  pub getenv : String → String
  pub file_exists : String → Bool
  pub load_from_file : String → Result KubeConfig
  pub read_file : String → Result String
  pub encode_json : ProxyConfig → Result String
  pub base64_encode : String → String

unfoldable pub get_kubeconfig_cert_auth_data : List (Option String) → Result String
get_kubeconfig_cert_auth_data [] = ok ""
get_kubeconfig_cert_auth_data (none ∷ clusters) = panics
get_kubeconfig_cert_auth_data (some v ∷ clusters) = ok v

unfoldable pub get_kubeconfig_auth_info : List (Option AuthInfo) → Option AuthInfo
get_kubeconfig_auth_info [] = none
get_kubeconfig_auth_info (v ∷ auth_infos) = v

abbrev pub is_nil : {A : Type 0} → List A → Bool
is_nil [] = true
is_nil (a ∷ rest) = false

-- The certificate and the user that are found, if any.
abbrev pub Found : Type 0
Found = String × Option AuthInfo

abbrev pub token_only : String → AuthInfo
token_only token = record {
  client_certificate = "";
  client_certificate_data = "";
  client_key = "";
  client_key_data = "";
  token = token;
  username = "";
  password = "";
}

module _ (k : Kube) where
  -- A configuration that cannot be loaded is passed over.
  unfoldable pub found_in : Result KubeConfig → Result Found
  unfolding get_kubeconfig_cert_auth_data get_kubeconfig_auth_info
  found_in panics = panics
  found_in (err e) = ok ("", none)
  found_in (ok config) =
      let found = (do
        cert ← get_kubeconfig_cert_auth_data config.clusters
        ok (cert, get_kubeconfig_auth_info config.auth_infos)) in
      if is_nil config.clusters || is_nil config.auth_infos then ok ("", none) else found

  unfoldable pub from_kubeconfig : String → Result Found
  unfolding found_in
  from_kubeconfig kubeconfig =
      let found = found_in (k.load_from_file kubeconfig) in
      if kubeconfig == "" || not (k.file_exists kubeconfig) then ok ("", none) else found

  unfoldable pub from_service_account : String → Result (String × AuthInfo)
  from_service_account secret_path = do
    cert ← wrapped "failed to read ca.crt file: " (k.read_file (secret_path <> "/ca.crt"))
    token ← wrapped "failed to read token file: " (k.read_file (secret_path <> "/token"))
    ok (cert, token_only token)

  -- Both are needed; the secret of the service account replaces them otherwise.
  unfoldable pub found_or_secret : String → Found → Result (String × AuthInfo)
  found_or_secret secret_path (cert, none) = from_service_account secret_path
  found_or_secret secret_path (cert, some info) =
      if cert == "" then from_service_account secret_path else ok (cert, info)

  unfoldable pub get_kube_proxy_extension : String → String → String → Result Extension
  unfolding from_kubeconfig found_or_secret
  get_kube_proxy_extension secret_path master_uri cluster_cidr = do
    found ← from_kubeconfig (k.getenv "KUBECONFIG")
    (cert, info) ← found_or_secret secret_path found
    encoded ← wrapped "failed to encode the kubeconfig: " (
        k.encode_json (record {
          name = "virtual-kubelet";
          server = master_uri;
          certificate_authority_data = cert;
          auth_info = info;
        }))
    ok (record {
      name = "kube-proxy";
      properties = record {
        kind = kube_proxy;
        version = "1.0";
        settings = ("clusterCidr", cluster_cidr) ∷ ("kubeVersion", "v1.9.10") ∷ [];
        protected_settings = ("kubeConfig", k.base64_encode encoded) ∷ [];
      };
    })

abbrev pub get_realtime_metrics_extension : Extension
get_realtime_metrics_extension = record {
  name = "vk-realtime-metrics";
  properties = record {
    kind = realtime_metrics;
    version = "1.0";
    settings = [];
    protected_settings = [];
  };
}
