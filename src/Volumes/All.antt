-- ===== src/Volumes/All.antt =====
-- getVolumes of pkg/provider/aci_volumes.go.
use azure_aci.Prelude.{
  String, Bool, true, false, ◌<>◌, Option, none, some, List, [], ◌∷◌, plain, Result, ok, err, ◌>>=◌,
}
use azure_aci.Volumes.{
  Resources, CsiSource, AzureFileSource, GitRepoSource, ObjectSource, VolumeProjection, PodVolume,
  VolumesOf, AciVolume, empty_dir, git_repo, texts_volume,
}
use azure_aci.Volumes.Sources.{from_csi, from_azure_file, from_secret, from_config_map}
use azure_aci.Volumes.Projected.{from_projected}

-- One round of the loop: the first source that is there counts.
unfoldable pub convert_sources :
    VolumesOf
    → Resources
    → String
    → Option CsiSource
    → Option AzureFileSource
    → Bool
    → Option GitRepoSource
    → Option ObjectSource
    → Option ObjectSource
    → Option (List VolumeProjection)
    → Result (Option AciVolume)
unfolding from_csi from_azure_file from_secret from_config_map from_projected
convert_sources p r name (some c) a e g s m pr = do
  volume ← from_csi r p.pod_name name c
  ok (some volume)
convert_sources p r name none (some a) e g s m pr = do
  volume ← from_azure_file r name a
  ok (some volume)
convert_sources p r name none none true g s m pr =
    ok (some (record { name = name; content = empty_dir }))
convert_sources p r name none none false (some g) s m pr =
    ok (some (record { name = name; content = git_repo g }))
convert_sources p r name none none false none (some s) m pr = from_secret r p.pod_name name s
convert_sources p r name none none false none none (some m) pr = from_config_map r p.pod_name name m
convert_sources p r name none none false none none none (some sources) = do
  paths ← from_projected p r sources []
  ok (texts_volume name paths)
convert_sources p r name none none false none none none none = err (
    plain (
      "pod "
      <> (p.pod_name <> (" requires volume " <> (name <> " which is of an unsupported type")))))

unfoldable pub convert_volume : VolumesOf → Resources → PodVolume → Result (Option AciVolume)
unfolding convert_sources
convert_volume p r v =
    convert_sources p r v.name v.csi v.azure_file v.has_empty_dir v.git_repo v.secret v.config_map
      v.projected

-- A round that appends a volume, and one that goes on without.
abbrev pub append_made : Option AciVolume → List AciVolume → List AciVolume
append_made none volumes = volumes
append_made (some v) volumes = v ∷ volumes

unfoldable pub get_volumes : VolumesOf → Resources → List PodVolume → Result (List AciVolume)
unfolding convert_volume
get_volumes p r [] = ok []
get_volumes p r (v ∷ volumes) = do
  made ← convert_volume p r v
  rest ← get_volumes p r volumes
  ok (append_made made rest)
