-- ===== src/Volumes/Examples.antt =====
-- A pod with a share, an empty directory and an optional secret that is missing.
use azure_aci.Prelude.{String, true, false, none, some, List, [], ◌∷◌, ok, k8s, ◌==◌, if◌then◌else◌}
use azure_aci.Volumes.{
  ClusterSecret, Resources, PodVolume, VolumesOf, AciVolume, azure_file, empty_dir,
}

abbrev account : ClusterSecret
account = record {
  is_service_account_token = false;
  annotations = [];
  bytes = ("azurestorageaccountname", "acc") ∷ ("azurestorageaccountkey", "key") ∷ [];
  string_data = [];
}

abbrev resources : Resources
resources = record {
  base64 = record {
    std_encode = λ s. s;
    std_decode = λ s. ok s;
    raw_std_decode = λ s. ok s;
    has_padding = λ s. false;
  };
  get_secret = λ name.
      if name == "account"
      then record { object = some account; error = none }
      else record { object = none; error = some (k8s true "not found") };
  get_config_map = λ name. record { object = none; error = some (k8s true "not found") };
  get_secrets = ok [];
}

abbrev volume_of : String → PodVolume
volume_of name = record {
  name = name;
  csi = none;
  azure_file = none;
  has_empty_dir = false;
  git_repo = none;
  secret = none;
  config_map = none;
  projected = none;
}

abbrev volumes : List PodVolume
volumes =
    record (volume_of "share") {
      azure_file = some (record { secret_name = "account"; share_name = "s"; read_only = true });
    }
    ∷ record (volume_of "tmp") { has_empty_dir = true }
    ∷ record (volume_of "gone") { secret = some (record { name = "no"; optional = some true }) }
    ∷ []

abbrev pod : VolumesOf
pod = record { pod_name = "web"; service_account_name = "default" }

abbrev made : List AciVolume
made =
    record { name = "share"; content = azure_file "s" "acc" "key" (some true) }
    ∷ record { name = "tmp"; content = empty_dir }
    ∷ []
