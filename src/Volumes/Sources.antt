-- ===== src/Volumes/Sources.antt =====
-- The cases of getVolumes for one volume, but for projected ones, and getAzureFileCSI.
use azure_aci.Prelude.{
  String, Bool, ◌&&◌, ◌==◌, ◌<>◌, Option, none, some, [], ◌∷◌, Error, plain, Result, ok, err, ◌>>=◌,
  ◌>>◌, fail_if, if◌then◌else◌,
}
use azure_aci.Volumes.{
  Texts, ClusterSecret, ConfigMap, Resources, CsiSource, AzureFileSource, ObjectSource, AciVolume,
  azure_file, value_at, attribute, azure_file_share_name, azure_file_secret_name,
  azure_file_driver_name, azure_file_storage_account_name, azure_file_storage_account_key,
  is_required, is_missing, texts_volume, encode_all,
}

-- A volume of Azure Files with the account that a secret names.
abbrev pub azure_file_volume : String → String → Option Bool → ClusterSecret → AciVolume
azure_file_volume name share_name read_only secret = record {
  name = name;
  content =
      azure_file share_name (value_at secret.bytes azure_file_storage_account_name)
        (value_at secret.bytes azure_file_storage_account_key) read_only;
}

-- The secret of a CSI volume, which must be there with no error.
unfoldable pub csi_secret :
    String → String → Option ClusterSecret → Option Error → Result ClusterSecret
csi_secret secret_name volume_name (some secret) none = ok secret
csi_secret secret_name volume_name _ _ = err (
    plain (
      "the secret "
      <> (secret_name <> (" for AzureFile CSI driver " <> (volume_name <> " is not found")))))

-- getAzureFileCSI once the attributes were looked through.
unfoldable pub csi_volume : Resources → String → String → String → Result AciVolume
unfolding csi_secret
csi_volume r volume_name secret_name share_name = do
  fail_if (share_name == "")
      (plain ("share name for AzureFile CSI driver " <> (volume_name <> " cannot be empty or nil")))
  fail_if (secret_name == "") (
      plain ("secret name for AzureFile CSI driver " <> (volume_name <> " cannot be empty or nil")))
  let found = r.get_secret secret_name
  secret ← csi_secret secret_name volume_name found.object found.error
  ok (azure_file_volume volume_name share_name none secret)

unfoldable pub get_azure_file_csi : Resources → String → Texts → Result AciVolume
unfolding csi_volume attribute
get_azure_file_csi r volume_name [] = err (
    plain (
      "secret volume attribute for AzureFile CSI driver "
      <> (volume_name <> " cannot be empty or nil")))
get_azure_file_csi r volume_name (a ∷ attributes) =
    csi_volume r volume_name (attribute azure_file_secret_name (a ∷ attributes) "")
      (attribute azure_file_share_name (a ∷ attributes) "")

unfoldable pub from_csi : Resources → String → String → CsiSource → Result AciVolume
unfolding get_azure_file_csi
from_csi r pod_name volume_name csi =
    if csi.driver == azure_file_driver_name
    then get_azure_file_csi r volume_name csi.volume_attributes
    else err (
        plain (
          "pod "
          <> (pod_name
              <> (" requires volume "
                  <> (volume_name <> (" which is of an unsupported type " <> csi.driver))))))

-- The secret of a volume of Azure Files: the error first, then nil.
unfoldable pub account_secret : Option ClusterSecret → Option Error → Result ClusterSecret
account_secret secret (some e) = err e
account_secret none none =
    err (plain "getting secret for AzureFile volume returned an empty secret")
account_secret (some secret) none = ok secret

unfoldable pub from_azure_file : Resources → String → AzureFileSource → Result AciVolume
unfolding account_secret
from_azure_file r volume_name source = do
  let found = r.get_secret source.secret_name
  secret ← account_secret found.object found.error
  ok (azure_file_volume volume_name source.share_name (some source.read_only) secret)

-- The texts of a secret volume. An error other than "not found" is not looked at.
unfoldable pub secret_texts : Resources → Option ClusterSecret → Texts
unfolding encode_all
secret_texts r none = []
secret_texts r (some secret) = encode_all r.base64 secret.bytes []

unfoldable pub from_secret : Resources → String → String → ObjectSource → Result (Option AciVolume)
unfolding secret_texts
from_secret r pod_name volume_name source = do
  let found = r.get_secret source.name
  fail_if (is_required source.optional && is_missing found.error) (
      plain (
        "Secret "
        <> (source.name <> (" is required by Pod " <> (pod_name <> " and does not exist")))))
  ok (texts_volume volume_name (secret_texts r found.object))

unfoldable pub config_map_texts : Resources → Option ConfigMap → Texts
unfolding encode_all
config_map_texts r none = []
config_map_texts r (some config_map) =
    encode_all r.base64 config_map.binary_data (encode_all r.base64 config_map.texts [])

unfoldable pub from_config_map :
    Resources → String → String → ObjectSource → Result (Option AciVolume)
unfolding config_map_texts
from_config_map r pod_name volume_name source = do
  let found = r.get_config_map source.name
  fail_if (is_required source.optional && is_missing found.error) (
      plain (
        "ConfigMap "
        <> (source.name <> (" is required by Pod " <> (pod_name <> " and does not exist")))))
  ok (texts_volume volume_name (config_map_texts r found.object))
