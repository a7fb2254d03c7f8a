-- ===== src/Registry/Credentials.antt =====
-- Which credentials getImagePullSecrets returns.
use azure_aci.Prelude.{
  String, true, false, Option, none, some, List, [], ◌∷◌, ◌++◌, ◌≡◌, refl, sym, ap, ◌∙◌, subst,
  Result, ok, err, panics, >>=-eq-ok, ok-injective, fail_if, fail_if-eq-ok,
}
use azure_aci.Registry.{
  Base64, AuthConfig, DockerConfigEntry, DockerConfigEntryWithAuth, ImageRegistryCredential,
  Secrets, Secret, SecretType, dockercfg, docker_config_json, other, make_registry_credential,
  make_registry_credential_from_docker_config, unmarshal_each, is_empty, read_docker_cfg_secret,
  read_docker_config_json_secret, read_typed, read_secret, get_image_pull_secrets,
}
use azure_aci.Registry.Entries.{
  OfAuthConfig, OfDockerConfig, Each, make_registry_credential-OfAuthConfig, make_each-Each,
  Each-map, unmarshal_each-Each,
}
use azure_aci.Registry.Pulled.{after, pulled, get_image_pull_secrets-pulled}

-- The credentials of a secret, by its type.
pub data Gives (s : Secrets) (secret : Secret) (creds : List ImageRegistryCredential) : Type 0 where
  from_dockercfg :
      (text : String) (entries : List (String × AuthConfig))
      → secret.kind ≡ dockercfg
      → secret.data_of_kind ≡ some text
      → s.parse_auth_configs text ≡ ok entries
      → Each (OfAuthConfig s.base64) entries creds
      → Gives s secret creds
  from_json :
      (text : String) (entries : List (String × DockerConfigEntryWithAuth))
      → secret.kind ≡ docker_config_json
      → secret.data_of_kind ≡ some text
      → s.parse_docker_config text ≡ ok entries
      → is_empty entries ≡ false
      → Each (OfDockerConfig s.base64) entries creds
      → Gives s secret creds

-- The credentials of all secrets, which are there, in the order of the references.
pub data AllPulled (s : Secrets) (namespace : String)
    : List String → List ImageRegistryCredential → Type 0 where
  no_secret : AllPulled s namespace [] []
  one_secret :
      {name : String} {names : List String} {own rest : List ImageRegistryCredential}
      (secret : Secret)
      → s.get_secret name namespace ≡ ok (some secret)
      → Gives s secret own
      → AllPulled s namespace names rest
      → AllPulled s namespace (name ∷ names) (own ++ rest)

read_docker_cfg-Gives :
    (s : Secrets) (secret : Secret) (text : Option String) (out : List ImageRegistryCredential)
    → secret.kind ≡ dockercfg
    → secret.data_of_kind ≡ text
    → read_docker_cfg_secret s text [] ≡ ok out
    → Gives s secret out
unfolding read_docker_cfg_secret
read_docker_cfg-Gives s secret none out kind has h = cc
read_docker_cfg-Gives s secret (some text) out kind has h =
    let (entries, parsed, h1) = >>=-eq-ok (s.parse_auth_configs text) _ h in
    let (own, same, each) = make_each-Each (make_registry_credential s.base64) entries [] out h1 in
    from_dockercfg text entries kind has parsed (
      subst (Each (OfAuthConfig s.base64) entries) (sym same)
        (Each-map (make_registry_credential-OfAuthConfig s.base64) each))

not_empty : ¬ (true ≡ false)
not_empty h = cc

unmarshal_each-filled :
    (b : Base64) (raw : List (String × DockerConfigEntryWithAuth))
    (es : List (String × DockerConfigEntry))
    → unmarshal_each b raw ≡ ok es
    → is_empty es ≡ false
    → is_empty raw ≡ false
unfolding unmarshal_each
unmarshal_each-filled b [] es h filled =
    absurd (not_empty (subst (λ x. is_empty x ≡ false) (sym (ok-injective [] es h)) filled))
unmarshal_each-filled b (e ∷ raw) es h filled = refl

read_docker_config_json-Gives :
    (s : Secrets) (secret : Secret) (text : Option String) (out : List ImageRegistryCredential)
    → secret.kind ≡ docker_config_json
    → secret.data_of_kind ≡ text
    → read_docker_config_json_secret s text [] ≡ ok out
    → Gives s secret out
unfolding read_docker_config_json_secret
read_docker_config_json-Gives s secret none out kind has h = cc
read_docker_config_json-Gives s secret (some text) out kind has h =
    let (raw, parsed, h1) = >>=-eq-ok (s.parse_docker_config text) _ h in
    let (auths, unmarshalled, h2) = >>=-eq-ok (unmarshal_each s.base64 raw) _ h1 in
    let (u, filled, h3) = >>=-eq-ok (fail_if (is_empty auths) _) _ h2 in
    let (own, same, each) =
      make_each-Each make_registry_credential_from_docker_config auths [] out h3 in
    from_json text raw kind has parsed
      (unmarshal_each-filled s.base64 raw auths unmarshalled (fail_if-eq-ok _ _ filled))
      (subst (Each (OfDockerConfig s.base64) raw) (sym same)
        (unmarshal_each-Each s.base64 raw auths own unmarshalled each))

read_typed-Gives :
    (s : Secrets) (secret : Secret) (kind : SecretType) (out : List ImageRegistryCredential)
    → secret.kind ≡ kind
    → read_typed s kind secret.data_of_kind [] ≡ ok out
    → Gives s secret out
unfolding read_typed
read_typed-Gives s secret dockercfg out same h =
    read_docker_cfg-Gives s secret secret.data_of_kind out same refl h
read_typed-Gives s secret docker_config_json out same h =
    read_docker_config_json-Gives s secret secret.data_of_kind out same refl h
read_typed-Gives s secret (other name) out same h = cc

read_secret-Gives :
    (s : Secrets) (o : Option Secret) (out : List ImageRegistryCredential)
    → read_secret s o [] ≡ ok out
    → (secret : Secret) × (o ≡ some secret) × Gives s secret out
unfolding read_secret
read_secret-Gives s none out h = cc
read_secret-Gives s (some secret) out h =
    (secret, refl, read_typed-Gives s secret secret.kind out refl h)

after-eq-ok :
    (ips : List ImageRegistryCredential) (r : Result (List ImageRegistryCredential))
    (out : List ImageRegistryCredential)
    → after ips r ≡ ok out
    → (own : List ImageRegistryCredential) × (r ≡ ok own) × (ips ++ own ≡ out)
after-eq-ok ips panics out h = cc
after-eq-ok ips (err e) out h = cc
after-eq-ok ips (ok own) out h = (own, refl, ok-injective (ips ++ own) out h)

pulled-AllPulled :
    (s : Secrets) (namespace : String) (names : List String) (out : List ImageRegistryCredential)
    → pulled s namespace names ≡ ok out
    → AllPulled s namespace names out
unfolding pulled
pulled-AllPulled s namespace [] out h =
    subst (AllPulled s namespace []) (ok-injective [] out h) no_secret
pulled-AllPulled s namespace (name ∷ names) out h =
    let (o, got, h1) = >>=-eq-ok (s.get_secret name namespace) _ h in
    let (own, read, h2) = >>=-eq-ok (read_secret s o []) _ h1 in
    let (rest, at_rest, all) = after-eq-ok own (pulled s namespace names) out h2 in
    let (secret, there, gives) = read_secret-Gives s o own read in
    subst (AllPulled s namespace (name ∷ names)) all (
      one_secret secret (got ∙ ap ok there) gives (pulled-AllPulled s namespace names rest at_rest))

-- The credentials that are returned are those of the secrets that are referred to, which are all there, one
-- secret after the other: for each entry of the secret one, with the entry's server, and the user and password
-- of the entry or of its decoded auth field.
pub get_image_pull_secrets-AllPulled :
    (s : Secrets) (namespace : String) (names : List String) (out : List ImageRegistryCredential)
    → get_image_pull_secrets s namespace names ≡ ok out
    → AllPulled s namespace names out
get_image_pull_secrets-AllPulled s namespace names out h =
    pulled-AllPulled s namespace names out
      (sym (get_image_pull_secrets-pulled s namespace names) ∙ h)
