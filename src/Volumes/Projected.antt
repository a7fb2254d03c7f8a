-- ===== src/Volumes/Projected.antt =====
-- The projected volumes of getVolumes.
use azure_aci.Prelude.{
  String, Bool, true, false, ◌&&◌, ◌==◌, ◌<>◌, Option, none, some, List, [], ◌∷◌, plain, Result, ok,
  ◌>>=◌, ◌>>◌, fail_if, if◌then◌else◌,
}
use azure_aci.Registry.{Base64}
use azure_aci.Volumes.{
  Texts, ClusterSecret, ConfigMap, Resources, Projection, VolumeProjection, VolumesOf, is_required,
  is_missing, encode_all,
}

-- The loop that puts every entry, decoded, into the paths.
unfoldable pub decode_all : Base64 → Texts → Texts → Result Texts
decode_all b [] paths = ok paths
decode_all b ((k, v) ∷ m) paths = do text ← b.std_decode v; decode_all b m ((k, text) ∷ paths)

-- Whether an annotation says that the token is the account's.
pub is_of_account : String → Texts → Bool
is_of_account account [] = false
is_of_account account ((k, a) ∷ annotations) =
    if (k == "kubernetes.io/service-account.name") && (a == account)
    then true
    else is_of_account account annotations

-- The first token of the account; no other is read after it.
unfoldable pub token_texts : Base64 → String → List ClusterSecret → Texts → Result Texts
unfolding decode_all is_of_account encode_all
token_texts b account [] paths = ok paths
token_texts b account (secret ∷ secrets) paths =
    let later = token_texts b account secrets paths in
    if secret.is_service_account_token && is_of_account account secret.annotations
    then (do
      decoded ← decode_all b secret.string_data paths
      ok (encode_all b secret.bytes decoded))
    else later

-- The entries of a map under a key that an item names, decoded or encoded.
unfoldable pub decode_item : Base64 → String → Texts → Texts → Result Texts
decode_item b key [] paths = ok paths
decode_item b key ((k, v) ∷ m) paths =
    let later = decode_item b key m paths in
    if key == k then (do text ← b.std_decode v; decode_item b key m ((k, text) ∷ paths)) else later

unfoldable pub encode_item : Base64 → String → Texts → Texts → Texts
encode_item b key [] paths = paths
encode_item b key ((k, v) ∷ m) paths =
    encode_item b key m (if key == k then (k, b.std_encode v) ∷ paths else paths)

unfoldable pub secret_items : Base64 → ClusterSecret → List String → Texts → Result Texts
unfolding decode_item encode_item
secret_items b secret [] paths = ok paths
secret_items b secret (key ∷ items) paths = do
  decoded ← decode_item b key secret.string_data paths
  secret_items b secret items (encode_item b key secret.bytes decoded)

unfoldable pub config_map_items : Base64 → ConfigMap → List String → Texts → Texts
unfolding encode_item
config_map_items b config_map [] paths = paths
config_map_items b config_map (key ∷ items) paths =
    config_map_items b config_map items
      (encode_item b key config_map.binary_data (encode_item b key config_map.texts paths))

-- Nothing is put in where the object is nil.
unfoldable pub projected_secret : Base64 → Option ClusterSecret → List String → Texts → Result Texts
unfolding secret_items
projected_secret b none items paths = ok paths
projected_secret b (some secret) items paths = secret_items b secret items paths

unfoldable pub projected_config_map : Base64 → Option ConfigMap → List String → Texts → Texts
unfolding config_map_items
projected_config_map b none items paths = paths
projected_config_map b (some config_map) items paths = config_map_items b config_map items paths

-- The switch over a source: the token, a secret, a config map.
unfoldable pub from_source :
    VolumesOf → Resources → Bool → Option Projection → Option Projection → Texts → Result Texts
unfolding token_texts projected_secret projected_config_map
from_source p r true secret config_map paths = do
  secrets ← r.get_secrets
  token_texts r.base64 p.service_account_name secrets paths
from_source p r false (some s) config_map paths = do
  let found = r.get_secret s.source.name
  fail_if (is_required s.source.optional && is_missing found.error) (
      plain (
        "projected secret "
        <> (s.source.name <> (" is required by pod " <> (p.pod_name <> " and does not exist")))))
  projected_secret r.base64 found.object s.items paths
from_source p r false none (some c) paths = do
  let found = r.get_config_map c.source.name
  fail_if (is_required c.source.optional && is_missing found.error) (
      plain (
        "projected configMap "
        <> (c.source.name <> (" is required by pod " <> (p.pod_name <> " and does not exist")))))
  ok (projected_config_map r.base64 found.object c.items paths)
from_source p r false none none paths = ok paths

unfoldable pub from_projected : VolumesOf → Resources → List VolumeProjection → Texts → Result Texts
unfolding from_source
from_projected p r [] paths = ok paths
from_projected p r (s ∷ sources) paths = do
  paths' ← from_source p r s.has_service_account_token s.secret s.config_map paths
  from_projected p r sources paths'
