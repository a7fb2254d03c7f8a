-- ===== src/Registry/Examples.antt =====
-- A sample user whose password has a colon, over an encoding that keeps the text.
use azure_aci.Prelude.{false, some, [], ◌∷◌, ◌≡◌, refl, ok, err, plain}
use azure_aci.Registry.{
  Base64, Base64Laws, DockerConfigEntry, Secrets, dockercfg, unmarshal_json, marshal_json,
  make_registry_credential, get_image_pull_secrets, read_typed, read_docker_cfg_secret,
  decoded_credential, two_parts, pull_each, read_secret, make_each,
}
use azure_aci.Registry.Codec.{unmarshal_json-marshal_json, make_registry_credential-auth, auth_only}
use azure_aci.Registry.Credentials.{AllPulled, get_image_pull_secrets-AllPulled}
use azure_aci.Registry.Split.{colons, at_colons}

abbrev plain_text : Base64
plain_text = record {
  std_encode = λ s. s;
  std_decode = λ s. ok s;
  raw_std_decode = λ s. ok s;
  has_padding = λ s. false;
}

plain_text-Base64Laws : Base64Laws plain_text
plain_text-Base64Laws = record { std = λ s. refl; raw = λ s h. refl; some_text = λ s. refl }

abbrev ident : DockerConfigEntry
ident = record { username = "ann"; password = "a:b"; email = "ann@example.org" }

unmarshal_json-marshal_json_example :
    unmarshal_json plain_text (marshal_json plain_text ident) ≡ ok ident
unfolding colons
unmarshal_json-marshal_json_example =
    unmarshal_json-marshal_json plain_text plain_text-Base64Laws ident refl

make_registry_credential-auth_example :
    make_registry_credential plain_text "r.io"
      (auth_only plain_text plain_text-Base64Laws "ann" "a:b")
    ≡ err (plain "malformed auth for server: r.io")
unfolding colons
make_registry_credential-auth_example =
    make_registry_credential-auth plain_text plain_text-Base64Laws "r.io" "ann" "a:b" refl

abbrev secrets : Secrets
secrets = record {
  base64 = plain_text;
  parse_auth_configs = λ text. ok (
      (text, record { username = "ann"; password = "pw"; auth = "" })
      ∷ ("b.io", record { username = ""; password = ""; auth = "bob:pw" })
      ∷ []);
  parse_docker_config = λ text. err (plain "no JSON");
  get_secret = λ name namespace. ok (some (record { kind = dockercfg; data_of_kind = some name }));
}

pull_secrets :
    get_image_pull_secrets secrets "ns" ("a.io" ∷ [])
    ≡ ok (
        record { server = "a.io"; username = "ann"; password = "pw" }
        ∷ record { server = "b.io"; username = "bob"; password = "pw" }
        ∷ [])
unfolding get_image_pull_secrets pull_each read_secret read_typed read_docker_cfg_secret make_each
    make_registry_credential decoded_credential two_parts at_colons
pull_secrets = refl

get_image_pull_secrets-AllPulled_example : AllPulled secrets "ns" ("a.io" ∷ []) (
    record { server = "a.io"; username = "ann"; password = "pw" }
    ∷ record { server = "b.io"; username = "bob"; password = "pw" }
    ∷ [])
get_image_pull_secrets-AllPulled_example =
    get_image_pull_secrets-AllPulled secrets "ns" ("a.io" ∷ []) _ pull_secrets
