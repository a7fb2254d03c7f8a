-- ===== src/Volumes.antt =====
-- pkg/provider/aci_volumes.go: the volumes of a container group.
-- A map of texts is the list of its entries; where a map is filled, an entry that is put in later stands
-- in front, and hides an earlier one of the same key. Bytes are texts.
pub mod Sources
pub mod Projected
pub mod All
pub mod Held
pub mod Converted
mod Examples
use azure_aci.Prelude.{
  String, Bool, true, false, ◌&&◌, ◌==◌, ◌<>◌, Option, none, some, List, [], ◌∷◌, Error, plain,
  Result, ok, err, panics, ◌>>=◌, ◌>>◌, fail_if, if◌then◌else◌, lookup, is_k8s_missing,
}
use azure_aci.Registry.{Base64}

abbrev pub Texts : Type 0
Texts = List (String × String)

-- v1.Secret
pub record ClusterSecret : Type 0 where
  pub is_service_account_token : Bool
  pub annotations : Texts
  pub bytes : Texts
  pub string_data : Texts

-- v1.ConfigMap
pub record ConfigMap : Type 0 where
  pub texts : Texts
  pub binary_data : Texts

-- What the resource manager answers: an object or nil, and an error or nil.
pub record Found (V : Type 0) : Type 0 where
  pub object : Option V
  pub error : Option Error

-- The resource manager, for the namespace of the pod, and encoding/base64.
pub record Resources : Type 0 where
  pub base64 : Base64
  pub get_secret : String → Found ClusterSecret
  pub get_config_map : String → Found ConfigMap
  pub get_secrets : Result (List ClusterSecret)

-- v1.CSIVolumeSource
pub record CsiSource : Type 0 where
  pub driver : String
  pub volume_attributes : Texts

-- v1.AzureFileVolumeSource
pub record AzureFileSource : Type 0 where
  pub secret_name : String
  pub share_name : String
  pub read_only : Bool

-- v1.GitRepoVolumeSource
pub record GitRepoSource : Type 0 where
  pub directory : String
  pub repository : String
  pub revision : String

-- v1.SecretVolumeSource, and v1.ConfigMapVolumeSource
pub record ObjectSource : Type 0 where
  pub name : String
  pub optional : Option Bool

-- v1.SecretProjection, and v1.ConfigMapProjection; of an item its key.
pub record Projection : Type 0 where
  pub source : ObjectSource
  pub items : List String

-- v1.VolumeProjection; a pointer that is not read by the code is left out.
pub record VolumeProjection : Type 0 where
  pub has_service_account_token : Bool
  pub secret : Option Projection
  pub config_map : Option Projection

-- v1.Volume, with the sources that the code knows.
pub record PodVolume : Type 0 where
  pub name : String
  pub csi : Option CsiSource
  pub azure_file : Option AzureFileSource
  pub has_empty_dir : Bool
  pub git_repo : Option GitRepoSource
  pub secret : Option ObjectSource
  pub config_map : Option ObjectSource
  pub projected : Option (List VolumeProjection)

-- What an azaci.Volume holds.
pub data Content : Type 0 where
  azure_file : (share_name account_name account_key : String) (read_only : Option Bool) → Content
  empty_dir : Content
  git_repo : GitRepoSource → Content
  texts : Texts → Content

-- azaci.Volume
pub record AciVolume : Type 0 where
  pub name : String
  pub content : Content

-- The pod that the volumes are of.
pub record VolumesOf : Type 0 where
  pub pod_name : String
  pub service_account_name : String

-- m[k], which is empty for a key that is not there
abbrev pub value_at : Texts → String → String
value_at m k = elim (lookup m k) [ none ↦ "" | some v ↦ v ]

-- The loop over the attributes that looks for one of them.
pub attribute : String → Texts → String → String
attribute key [] found = found
attribute key ((k, v) ∷ attributes) found = attribute key attributes (if k == key then v else found)

-- The constants of pkg/provider/aci.go.
abbrev pub azure_file_share_name : String
azure_file_share_name = "shareName"

abbrev pub azure_file_secret_name : String
azure_file_secret_name = "secretName"

abbrev pub azure_file_driver_name : String
azure_file_driver_name = "file.csi.azure.com"

abbrev pub azure_file_storage_account_name : String
azure_file_storage_account_name = "azurestorageaccountname"

abbrev pub azure_file_storage_account_key : String
azure_file_storage_account_key = "azurestorageaccountkey"

-- `Optional != nil && !*Optional && IsNotFound(err)`
abbrev pub is_required : Option Bool → Bool
is_required (some false) = true
is_required _ = false

abbrev pub is_missing : Option Error → Bool
is_missing none = false
is_missing (some e) = is_k8s_missing e

-- A volume of texts, unless there is none.
abbrev pub texts_volume : String → Texts → Option AciVolume
texts_volume name [] = none
texts_volume name (path ∷ paths) = some (record { name = name; content = texts (path ∷ paths) })

-- The loop that puts every entry, encoded, into the paths.
unfoldable pub encode_all : Base64 → Texts → Texts → Texts
encode_all b [] paths = paths
encode_all b ((k, v) ∷ m) paths = encode_all b m ((k, b.std_encode v) ∷ paths)
