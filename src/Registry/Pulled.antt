-- ===== src/Registry/Pulled.antt =====
-- getImagePullSecrets against its reference: the credentials of the secrets, one after the other.
use azure_aci.Prelude.{
  String, Option, none, some, List, [], ◌∷◌, ◌++◌, ◌≡◌, refl, Result, ok, err, panics, ◌>>=◌, ◌>>◌,
  Result-cases, inl, inr, ◌∙◌, sym, ap, fail_if, plain,
}
use mathlib.Core.List.{append_assoc, append-nil}
use azure_aci.Registry.{
  read_typed, Secrets, Secret, DockerConfigEntry, ImageRegistryCredential, make_each, read_secret,
  pull_each, SecretType, dockercfg, docker_config_json, other, read_docker_cfg_secret,
  read_docker_config_json_secret, is_empty, unmarshal_each, get_image_pull_secrets,
  make_registry_credential, make_registry_credential_from_docker_config,
}

-- The credentials `r` after those of `ips`.
abbrev pub after :
    List ImageRegistryCredential
    → Result (List ImageRegistryCredential)
    → Result (List ImageRegistryCredential)
after ips panics = panics
after ips (err e) = err e
after ips (ok own) = ok (ips ++ own)

after-after :
    (a b : List ImageRegistryCredential) (r : Result (List ImageRegistryCredential))
    → after (a ++ b) r ≡ after a (after b r)
after-after a b panics = refl
after-after a b (err e) = refl
after-after a b (ok own) = ap ok (append_assoc a b own)

make_each-after :
    {V : Type 0} (make : String → V → Result ImageRegistryCredential) (es : List (String × V))
    (ips : List ImageRegistryCredential)
    → make_each make es ips ≡ after ips (make_each make es [])
unfolding make_each
make_each-after make [] ips = ap ok (sym (append-nil ips))
make_each-after make (entry ∷ es) ips = elim (Result-cases (make entry.0 entry.1)) [
  | inl (cred, e) ↦ rw e (
      make_each-after make es (ips ++ (cred ∷ []))
      ∙ after-after ips (cred ∷ []) (make_each make es [])
      ∙ ap (after ips) (sym (make_each-after make es (cred ∷ []))))
  | inr (inl (error, e)) ↦ rw e refl
  | inr (inr e) ↦ rw e refl
]

docker_cfg-after :
    (s : Secrets) (text : Option String) (ips : List ImageRegistryCredential)
    → read_docker_cfg_secret s text ips ≡ after ips (read_docker_cfg_secret s text [])
unfolding read_docker_cfg_secret
docker_cfg-after s none ips = refl
docker_cfg-after s (some repo_data) ips = elim (Result-cases (s.parse_auth_configs repo_data)) [
  | inl (auth_configs, e) ↦
      rw e (make_each-after (make_registry_credential s.base64) auth_configs ips)
  | inr (inl (error, e)) ↦ rw e refl
  | inr (inr e) ↦ rw e refl
]

json_entries-after :
    (auths : List (String × DockerConfigEntry)) (ips : List ImageRegistryCredential)
    → (fail_if (is_empty auths) (plain "malformed dockerconfigjson in secret")
        >> make_each make_registry_credential_from_docker_config auths ips)
      ≡ after ips (
          fail_if (is_empty auths) (plain "malformed dockerconfigjson in secret")
          >> make_each make_registry_credential_from_docker_config auths [])
json_entries-after [] ips = refl
json_entries-after (entry ∷ auths) ips =
    make_each-after make_registry_credential_from_docker_config (entry ∷ auths) ips

docker_config_json-after :
    (s : Secrets) (text : Option String) (ips : List ImageRegistryCredential)
    → read_docker_config_json_secret s text ips
      ≡ after ips (read_docker_config_json_secret s text [])
unfolding read_docker_config_json_secret
docker_config_json-after s none ips = refl
docker_config_json-after s (some repo_data) ips =
    elim (Result-cases (s.parse_docker_config repo_data)) [
      | inl (raw, e) ↦ elim (Result-cases (unmarshal_each s.base64 raw)) [
        | inl (auths, e') ↦ rw (e, e') (json_entries-after auths ips)
        | inr (inl (error, e')) ↦ rw (e, e') refl
        | inr (inr e') ↦ rw (e, e') refl
      ]
      | inr (inl (error, e)) ↦ rw e refl
      | inr (inr e) ↦ rw e refl
    ]

read_typed-after :
    (s : Secrets) (kind : SecretType) (text : Option String) (ips : List ImageRegistryCredential)
    → read_typed s kind text ips ≡ after ips (read_typed s kind text [])
unfolding read_typed
read_typed-after s dockercfg text ips = docker_cfg-after s text ips
read_typed-after s docker_config_json text ips = docker_config_json-after s text ips
read_typed-after s (other name) text ips = refl

read_secret-after :
    (s : Secrets) (secret : Option Secret) (ips : List ImageRegistryCredential)
    → read_secret s secret ips ≡ after ips (read_secret s secret [])
unfolding read_secret
read_secret-after s none ips = refl
read_secret-after s (some secret) ips = read_typed-after s secret.kind secret.data_of_kind ips

-- The credentials of each secret on its own, in the order of the references; the first secret that is
-- missing, or cannot be read, decides on the error.
unfoldable pub pulled : Secrets → String → List String → Result (List ImageRegistryCredential)
pulled s namespace [] = ok []
pulled s namespace (name ∷ names) = do
  secret ← s.get_secret name namespace
  own ← read_secret s secret []
  after own (pulled s namespace names)

pull_each-after :
    (s : Secrets) (namespace : String) (names : List String) (ips : List ImageRegistryCredential)
    → pull_each s namespace names ips ≡ after ips (pulled s namespace names)
unfolding pull_each pulled
pull_each-after s namespace [] ips = ap ok (sym (append-nil ips))
pull_each-after s namespace (name ∷ names) ips = elim (Result-cases (s.get_secret name namespace)) [
  | inl (secret, e) ↦ elim (Result-cases (read_secret s secret [])) [
    | inl (own, e') ↦
        rw (e, read_secret-after s secret ips, e')
          (pull_each-after s namespace names (ips ++ own)
            ∙ after-after ips own (pulled s namespace names))
    | inr (inl (error, e')) ↦ rw (e, read_secret-after s secret ips, e') refl
    | inr (inr e') ↦ rw (e, read_secret-after s secret ips, e') refl
  ]
  | inr (inl (error, e)) ↦ rw e refl
  | inr (inr e) ↦ rw e refl
]

after-nil : (r : Result (List ImageRegistryCredential)) → after [] r ≡ r
after-nil panics = refl
after-nil (err e) = refl
after-nil (ok own) = refl

-- The loops with their growing list return the credentials of the secrets one after the other, or the
-- error of the first secret that fails.
pub get_image_pull_secrets-pulled :
    (s : Secrets) (namespace : String) (names : List String)
    → get_image_pull_secrets s namespace names ≡ pulled s namespace names
unfolding get_image_pull_secrets
get_image_pull_secrets-pulled s namespace names =
    pull_each-after s namespace names [] ∙ after-nil (pulled s namespace names)
