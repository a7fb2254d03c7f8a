-- ===== src/Volumes/Converted.antt =====
-- What becomes of each volume of a pod.
use azure_aci.Prelude.{
  String, Bool, true, false, ◌==◌, Option, none, some, List, [], ◌∷◌, ◌≡◌, refl, ap, subst, Error,
  ok, ◌>>◌, >>=-eq-ok, ok-injective, fail_if, fail_if-eq-ok, else_err-eq-ok,
}
use azure_aci.Volumes.{
  Texts, ClusterSecret, Resources, CsiSource, AzureFileSource, GitRepoSource, ObjectSource,
  VolumeProjection, PodVolume, VolumesOf, AciVolume, empty_dir, git_repo, texts, texts_volume,
  azure_file_driver_name, azure_file_secret_name, azure_file_share_name, attribute,
}
use azure_aci.Volumes.Sources.{
  azure_file_volume, csi_secret, csi_volume, get_azure_file_csi, from_csi, account_secret,
  from_azure_file, from_secret, from_config_map,
}
use azure_aci.Volumes.Projected.{from_projected}
use azure_aci.Volumes.Held.{
  TextsOf, of_secret, of_config_map, of_projected, secret_texts-SameEntries,
  config_map_texts-SameEntries,
}
use azure_aci.Volumes.All.{convert_sources, convert_volume, append_made, get_volumes}

-- `secret` is what the resource manager has under the name, without an error.
pub record Holds (r : Resources) (secret_name : String) (secret : ClusterSecret) : Type 0 where
  pub object : (r.get_secret secret_name).object ≡ some secret
  pub no_error : (r.get_secret secret_name).error ≡ none

module _ (p : VolumesOf) (r : Resources) (name : String) where
  -- What a volume with these sources becomes: a share of Azure Files with the account of a secret that
  -- is there, an empty directory, a repository, or texts; or nothing, if the texts it asks for are none.
  pub data Converted
      : Option CsiSource
        → Option AzureFileSource
        → Bool
        → Option GitRepoSource
        → Option ObjectSource
        → Option ObjectSource
        → Option (List VolumeProjection)
        → Option AciVolume
        → Type 0 where
    by_driver :
        {c : CsiSource} {a : Option AzureFileSource} {e : Bool} {g : Option GitRepoSource}
        {s m : Option ObjectSource} {pr : Option (List VolumeProjection)}
        (secret_name share_name : String) (secret : ClusterSecret)
        → secret_name ≡ attribute azure_file_secret_name c.volume_attributes ""
        → share_name ≡ attribute azure_file_share_name c.volume_attributes ""
        → Holds r secret_name secret
        → (share_name == "") ≡ false
        → Converted (some c) a e g s m pr (some (azure_file_volume name share_name none secret))
    by_share :
        {a : AzureFileSource} {e : Bool} {g : Option GitRepoSource} {s m : Option ObjectSource}
        {pr : Option (List VolumeProjection)} (secret : ClusterSecret)
        → Holds r a.secret_name secret
        → Converted none
            (some a)
            e
            g
            s
            m
            pr
            (some (azure_file_volume name a.share_name (some a.read_only) secret))
    by_directory :
        {g : Option GitRepoSource} {s m : Option ObjectSource} {pr : Option (List VolumeProjection)}
        → Converted none none true g s m pr (some (record { name = name; content = empty_dir }))
    by_repository :
        {g : GitRepoSource} {s m : Option ObjectSource} {pr : Option (List VolumeProjection)}
        → Converted none none false
            (some g)
            s
            m
            pr
            (some (record { name = name; content = git_repo g }))
    by_texts :
        {s m : Option ObjectSource} {pr : Option (List VolumeProjection)} (path : String × String)
        (paths : Texts)
        → TextsOf p r s m pr (path ∷ paths)
        → Converted none none false none s m pr
            (some (record { name = name; content = texts (path ∷ paths) }))
    no_texts :
        {s m : Option ObjectSource} {pr : Option (List VolumeProjection)}
        → TextsOf p r s m pr []
        → Converted none none false none s m pr none

  texts_volume-Converted :
      {s m : Option ObjectSource} {pr : Option (List VolumeProjection)} (paths : Texts)
      → TextsOf p r s m pr paths
      → Converted none none false none s m pr (texts_volume name paths)
  texts_volume-Converted [] t = no_texts t
  texts_volume-Converted (path ∷ paths) t = by_texts path paths t

  csi_secret-found :
      (secret_name : String) (o : Option ClusterSecret) (e : Option Error) {secret : ClusterSecret}
      → csi_secret secret_name name o e ≡ ok secret
      → (o ≡ some secret) × (e ≡ none)
  unfolding csi_secret
  csi_secret-found secret_name (some s) none h = (ap some (ok-injective _ _ h), refl)
  csi_secret-found secret_name (some s) (some e) h = cc
  csi_secret-found secret_name none none h = cc
  csi_secret-found secret_name none (some e) h = cc

  account_secret-found :
      (o : Option ClusterSecret) (e : Option Error) {secret : ClusterSecret}
      → account_secret o e ≡ ok secret
      → (o ≡ some secret) × (e ≡ none)
  unfolding account_secret
  account_secret-found (some s) none h = (ap some (ok-injective _ _ h), refl)
  account_secret-found none none h = cc
  account_secret-found o (some e) h = cc

  csi_volume-Converted :
      {c : CsiSource} {a : Option AzureFileSource} {e : Bool} {g : Option GitRepoSource}
      {s m : Option ObjectSource} {pr : Option (List VolumeProjection)}
      (secret_name share_name : String) (made : AciVolume)
      → secret_name ≡ attribute azure_file_secret_name c.volume_attributes ""
      → share_name ≡ attribute azure_file_share_name c.volume_attributes ""
      → csi_volume r name secret_name share_name ≡ ok made
      → Converted (some c) a e g s m pr (some made)
  unfolding csi_volume
  csi_volume-Converted {c} {a} {e} {g} {s} {m} {pr} secret_name share_name made is_secret is_share
        h =
      let (u, share, h1) = >>=-eq-ok (fail_if (share_name == "") _) _ h in
      let (u', named, h2) = >>=-eq-ok (fail_if (secret_name == "") _) _ h1 in
      let (secret, at_secret, h3) = >>=-eq-ok (csi_secret secret_name name _ _) _ h2 in
      let (object, no_error) = csi_secret-found secret_name _ _ at_secret in
      subst (λ v. Converted (some c) a e g s m pr (some v)) (ok-injective _ _ h3)
        (by_driver secret_name share_name secret is_secret is_share
          (record { object = object; no_error = no_error }) (fail_if-eq-ok _ _ share))

  csi-Converted :
      {c : CsiSource} {a : Option AzureFileSource} {e : Bool} {g : Option GitRepoSource}
      {s m : Option ObjectSource} {pr : Option (List VolumeProjection)} (attributes : Texts)
      (made : AciVolume)
      → attributes ≡ c.volume_attributes
      → get_azure_file_csi r name attributes ≡ ok made
      → Converted (some c) a e g s m pr (some made)
  unfolding get_azure_file_csi
  csi-Converted [] made same h = cc
  csi-Converted (x ∷ attributes) made same h =
      csi_volume-Converted (attribute azure_file_secret_name (x ∷ attributes) "")
        (attribute azure_file_share_name (x ∷ attributes) "") made
        (ap (λ m. attribute azure_file_secret_name m "") same)
        (ap (λ m. attribute azure_file_share_name m "") same) h

  from_csi-Converted :
      {a : Option AzureFileSource} {e : Bool} {g : Option GitRepoSource} {s m : Option ObjectSource}
      {pr : Option (List VolumeProjection)} (pod_name : String) (c : CsiSource) (made : AciVolume)
      → from_csi r pod_name name c ≡ ok made
      → Converted (some c) a e g s m pr (some made)
  unfolding from_csi
  from_csi-Converted pod_name c made h =
      csi-Converted c.volume_attributes made refl
        (else_err-eq-ok (c.driver == azure_file_driver_name) _ _ h)

  from_azure_file-Converted :
      {e : Bool} {g : Option GitRepoSource} {s m : Option ObjectSource}
      {pr : Option (List VolumeProjection)} (a : AzureFileSource) (made : AciVolume)
      → from_azure_file r name a ≡ ok made
      → Converted none (some a) e g s m pr (some made)
  unfolding from_azure_file
  from_azure_file-Converted {e} {g} {s} {m} {pr} a made h =
      let (secret, at_secret, h1) = >>=-eq-ok (account_secret _ _) _ h in
      let (object, no_error) = account_secret-found _ _ at_secret in
      subst (λ v. Converted none (some a) e g s m pr (some v)) (ok-injective _ _ h1)
        (by_share secret (record { object = object; no_error = no_error }))

  -- A volume that asks for one object of texts.
  object-Converted :
      {s m : Option ObjectSource} {pr : Option (List VolumeProjection)} (b : Bool) (e : Error)
      (paths : Texts) (made : Option AciVolume)
      → (b ≡ false → TextsOf p r s m pr paths)
      → (fail_if b e >> ok (texts_volume name paths)) ≡ ok made
      → Converted none none false none s m pr made
  object-Converted true e paths made t h = cc
  object-Converted {s} {m} {pr} false e paths made t h =
      subst (Converted none none false none s m pr) (ok-injective _ _ h)
        (texts_volume-Converted paths (t refl))

  convert_sources-Converted :
      (c : Option CsiSource) (a : Option AzureFileSource) (e : Bool) (g : Option GitRepoSource)
      (s m : Option ObjectSource) (pr : Option (List VolumeProjection)) (made : Option AciVolume)
      → convert_sources p r name c a e g s m pr ≡ ok made
      → Converted c a e g s m pr made
  unfolding convert_sources from_secret from_config_map
  convert_sources-Converted (some c) a e g s m pr made h =
      let (v, at, h1) = >>=-eq-ok (from_csi r p.pod_name name c) _ h in
      subst (Converted (some c) a e g s m pr) (ok-injective _ _ h1)
        (from_csi-Converted p.pod_name c v at)
  convert_sources-Converted none (some a) e g s m pr made h =
      let (v, at, h1) = >>=-eq-ok (from_azure_file r name a) _ h in
      subst (Converted none (some a) e g s m pr) (ok-injective _ _ h1)
        (from_azure_file-Converted a v at)
  convert_sources-Converted none none true g s m pr made h =
      subst (Converted none none true g s m pr) (ok-injective _ _ h) by_directory
  convert_sources-Converted none none false (some g) s m pr made h =
      subst (Converted none none false (some g) s m pr) (ok-injective _ _ h) by_repository
  convert_sources-Converted none none false none (some s) m pr made h =
      object-Converted _ _ _ made
        (λ fits. of_secret fits (secret_texts-SameEntries r (r.get_secret s.name).object)) h
  convert_sources-Converted none none false none none (some m) pr made h =
      object-Converted _ _ _ made
        (λ fits.
          of_config_map fits (config_map_texts-SameEntries r (r.get_config_map m.name).object))
        h
  convert_sources-Converted none none false none none none (some sources) made h =
      let (paths, at, h1) = >>=-eq-ok (from_projected p r sources []) _ h in
      subst (Converted none none false none none none (some sources)) (ok-injective _ _ h1)
        (texts_volume-Converted paths (of_projected at))
  convert_sources-Converted none none false none none none none made h = cc

-- The volumes that are made, in the order of those of the pod.
pub data AllConverted (p : VolumesOf) (r : Resources)
    : List PodVolume → List AciVolume → Type 0 where
  no_volume : AllConverted p r [] []
  one_volume :
      {v : PodVolume} {made : Option AciVolume} {vs : List PodVolume} {all : List AciVolume}
      → Converted p r v.name v.csi v.azure_file v.has_empty_dir v.git_repo v.secret v.config_map
          v.projected made
      → AllConverted p r vs all
      → AllConverted p r (v ∷ vs) (append_made made all)

pub get_volumes-AllConverted :
    (p : VolumesOf) (r : Resources) (vs : List PodVolume) (all : List AciVolume)
    → get_volumes p r vs ≡ ok all
    → AllConverted p r vs all
unfolding get_volumes convert_volume
get_volumes-AllConverted p r [] all h = subst (AllConverted p r []) (ok-injective _ _ h) no_volume
get_volumes-AllConverted p r (v ∷ vs) all h =
    let (made, at_made, h1) = >>=-eq-ok (convert_volume p r v) _ h in
    let (rest, at_rest, h2) = >>=-eq-ok (get_volumes p r vs) _ h1 in
    subst (AllConverted p r (v ∷ vs)) (ok-injective _ _ h2) (
      one_volume
        (convert_sources-Converted p r v.name v.csi v.azure_file v.has_empty_dir v.git_repo v.secret
          v.config_map v.projected made at_made)
        (get_volumes-AllConverted p r vs rest at_rest))
