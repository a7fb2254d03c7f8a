-- ===== src/Registry.antt =====
-- Registry credentials of a pod: pkg/provider/docker_config.go, and getImagePullSecrets with its readers
-- in pkg/provider/aci.go. An entry that was read from a map is a pair of its server and its value.
pub mod Split
pub mod Codec
pub mod Pulled
pub mod Entries
pub mod Credentials
mod Examples
use azure_aci.Prelude.{
  String, Bool, true, false, Option, none, some, List, [], ◌∷◌, ◌++◌, ◌≡◌, ◌==◌, ◌<>◌, Result, ok,
  err, panics, Error, plain, ◌>>=◌, ◌>>◌, fail_if, message_of, if◌then◌else◌,
}
use azure_aci.Registry.Split.{first_colon, at_colons}

-- encoding/base64: StdEncoding both ways, RawStdEncoding.DecodeString, and whether a text ends with
-- "=" once white space is trimmed.
pub record Base64 : Type 0 where
  pub std_encode : String → String
  pub std_decode : String → Result String
  pub raw_std_decode : String → Result String
  pub has_padding : String → Bool

-- What the documentation of encoding/base64 says of a text that was encoded.
pub record Base64Laws (b : Base64) : Type 0 where
  pub std : (s : String) → b.std_decode (b.std_encode s) ≡ ok s
  pub raw :
      (s : String)
      → b.has_padding (b.std_encode s) ≡ false
      → b.raw_std_decode (b.std_encode s) ≡ ok s
  pub some_text : (s : String) → (b.std_encode s == "") ≡ (s == "")

pub record DockerConfigEntry : Type 0 where
  pub username : String
  pub password : String
  pub email : String

pub record DockerConfigEntryWithAuth : Type 0 where
  pub username : String
  pub password : String
  pub email : String
  pub auth : String

-- AuthConfig, less the fields that the code does not read.
pub record AuthConfig : Type 0 where
  pub username : String
  pub password : String
  pub auth : String

-- azaci.ImageRegistryCredential
pub record ImageRegistryCredential : Type 0 where
  pub server : String
  pub username : String
  pub password : String

-- The two parts, if there are two.
abbrev pub parsed_auth : Option (String × String) → Result (String × String)
parsed_auth (some parts) = ok parts
parsed_auth none =
    err (plain "unable to parse auth field, must be formatted as base64(username:password)")

unfoldable pub decode_docker_config_field_auth : Base64 → String → Result (String × String)
decode_docker_config_field_auth b field = do
  decoded ← if b.has_padding field then b.std_decode field else b.raw_std_decode field
  parsed_auth (first_colon decoded)

unfoldable pub encode_docker_config_field_auth : Base64 → String → String → String
encode_docker_config_field_auth b username password = b.std_encode (username <> (":" <> password))

-- UnmarshalJSON, after json.Unmarshal.
unfoldable pub unmarshal_json : Base64 → DockerConfigEntryWithAuth → Result DockerConfigEntry
unmarshal_json b tmp =
    if tmp.auth == ""
    then ok (record { username = tmp.username; password = tmp.password; email = tmp.email })
    else do
      parts ← decode_docker_config_field_auth b tmp.auth
      ok (record { username = parts.0; password = parts.1; email = tmp.email })

-- MarshalJSON, before json.Marshal.
unfoldable pub marshal_json : Base64 → DockerConfigEntry → DockerConfigEntryWithAuth
marshal_json b ident = record {
  username = ident.username;
  password = ident.password;
  email = ident.email;
  auth = encode_docker_config_field_auth b ident.username ident.password;
}

-- The parts between the colons, of which there must be two.
pub two_parts : String → List String → Result (String × String)
two_parts server (username ∷ password ∷ []) = ok (username, password)
two_parts server _ = err (plain ("malformed auth for server: " <> server))

pub decoded_credential : Base64 → String → AuthConfig → Result (String × String)
unfolding two_parts
decoded_credential b server auth_config =
    if auth_config.auth == ""
    then err (plain ("no username present in auth config for server: " <> server))
    else elim (b.std_decode auth_config.auth) [
      | ok decoded ↦ two_parts server (at_colons decoded)
      | err e ↦ err (
          plain
            ("error decoding the auth for server: " <> (server <> (" Error: " <> message_of e))))
      | panics ↦ panics
    ]

unfoldable pub make_registry_credential :
    Base64 → String → AuthConfig → Result ImageRegistryCredential
unfolding decoded_credential
make_registry_credential b server auth_config = do
  login ←
      if auth_config.username == ""
      then decoded_credential b server auth_config
      else ok (auth_config.username, auth_config.password)
  ok (record { server = server; username = login.0; password = login.1 })

unfoldable pub make_registry_credential_from_docker_config :
    String → DockerConfigEntry → Result ImageRegistryCredential
make_registry_credential_from_docker_config server config_entry =
    if config_entry.username == ""
    then err (plain ("no username present in auth config for server: " <> server))
    else ok (record {
      server = server;
      username = config_entry.username;
      password = config_entry.password;
    })

pub data SecretType : Type 0 where
  dockercfg docker_config_json : SecretType
  other : String → SecretType

-- v1.Secret: its type, and the text under the key of that type.
pub record Secret : Type 0 where
  pub kind : SecretType
  pub data_of_kind : Option String

-- What is asked of encoding/json and of the resource manager. `GetSecret` may return nil.
pub record Secrets : Type 0 where
  pub base64 : Base64
  pub parse_auth_configs : String → Result (List (String × AuthConfig))
  pub parse_docker_config : String → Result (List (String × DockerConfigEntryWithAuth))
  pub get_secret : String → String → Result (Option Secret)

-- A loop over a map that makes one credential of each entry and stops at the first failure.
pub make_each :
    {V : Type 0}
    → (String → V → Result ImageRegistryCredential)
    → List (String × V)
    → List ImageRegistryCredential
    → Result (List ImageRegistryCredential)
make_each make [] ips = ok ips
make_each make ((server, entry) ∷ rest) ips = do
  cred ← make server entry
  make_each make rest (ips ++ (cred ∷ []))

-- The entries of .dockerconfigjson, each through UnmarshalJSON.
pub unmarshal_each :
    Base64 → List (String × DockerConfigEntryWithAuth) → Result (List (String × DockerConfigEntry))
unmarshal_each b [] = ok []
unmarshal_each b ((server, tmp) ∷ rest) = do
  entry ← unmarshal_json b tmp
  entries ← unmarshal_each b rest
  ok ((server, entry) ∷ entries)

abbrev pub is_empty : {A : Type 0} → List A → Bool
is_empty [] = true
is_empty (x ∷ xs) = false

-- The two readers take the text under the key of their type, which may be missing. What they return
-- beside an error is dropped by the callers.
unfoldable pub read_docker_cfg_secret :
    Secrets → Option String → List ImageRegistryCredential → Result (List ImageRegistryCredential)
unfolding make_each
read_docker_cfg_secret s none ips = err (plain "no dockercfg present in secret")
read_docker_cfg_secret s (some repo_data) ips = do
  auth_configs ← s.parse_auth_configs repo_data
  make_each (make_registry_credential s.base64) auth_configs ips

unfoldable pub read_docker_config_json_secret :
    Secrets → Option String → List ImageRegistryCredential → Result (List ImageRegistryCredential)
unfolding make_each unmarshal_each
read_docker_config_json_secret s none ips = err (plain "no dockerconfigjson present in secret")
read_docker_config_json_secret s (some repo_data) ips = do
  raw ← s.parse_docker_config repo_data
  auths ← unmarshal_each s.base64 raw
  fail_if (is_empty auths) (plain "malformed dockerconfigjson in secret")
  make_each make_registry_credential_from_docker_config auths ips

-- The switch over the type of the secret.
pub read_typed :
    Secrets
    → SecretType
    → Option String
    → List ImageRegistryCredential
    → Result (List ImageRegistryCredential)
unfolding read_docker_cfg_secret read_docker_config_json_secret
read_typed s dockercfg text ips = read_docker_cfg_secret s text ips
read_typed s docker_config_json text ips = read_docker_config_json_secret s text ips
read_typed s (other _) text ips = err (
    plain
      "image pull secret type is not one of kubernetes.io/dockercfg or kubernetes.io/dockerconfigjson")

pub read_secret :
    Secrets → Option Secret → List ImageRegistryCredential → Result (List ImageRegistryCredential)
unfolding read_typed
read_secret s none ips = err (plain "error getting image pull secret")
read_secret s (some secret) ips = read_typed s secret.kind secret.data_of_kind ips

-- The loop over the references, with the credentials that it has so far.
unfoldable pub pull_each :
    Secrets
    → String
    → List String
    → List ImageRegistryCredential
    → Result (List ImageRegistryCredential)
unfolding read_secret
pull_each s namespace [] ips = ok ips
pull_each s namespace (name ∷ names) ips = do
  secret ← s.get_secret name namespace
  ips' ← read_secret s secret ips
  pull_each s namespace names ips'

unfoldable pub get_image_pull_secrets :
    Secrets → String → List String → Result (List ImageRegistryCredential)
unfolding pull_each
get_image_pull_secrets s namespace image_pull_secrets = pull_each s namespace image_pull_secrets []
