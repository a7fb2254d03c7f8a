-- ===== src/Create/Described.antt =====
-- The group that Azure is asked for describes the pod.
use azure_aci.Prelude.{
  ℕ, String, Bool, none, true, false, not, ◌==◌, Option, some, is_some, List, [], ◌∷◌, ◌++◌, ◌≡◌,
  refl, sym, ap, subst, ◌∙◌, map, ok, lookup, >>=-eq-ok, ok-injective, arith, if◌then◌else◌, is_ok,
  keep, Bool-cases, inl, inr,
}
use azure_aci.Workload.{VolumeMount}
use azure_aci.Workload.Containers.{AciContainer, get_containers, get_init_containers}
use azure_aci.Workload.Built.{AllBuilt, get_containers-AllBuilt}
use azure_aci.Workload.Windows.{is_secret_mount, some_mounts_secret, filter_windows_exact}
use azure_aci.Workload.Init.{all_allowed, get_init_containers-allowed}
use azure_aci.Registry.{get_image_pull_secrets}
use azure_aci.Registry.Credentials.{AllPulled, get_image_pull_secrets-AllPulled}
use azure_aci.Volumes.{VolumesOf, AciVolume}
use azure_aci.Volumes.All.{get_volumes}
use azure_aci.Volumes.Converted.{AllConverted, get_volumes-AllConverted}
use azure_aci.Create.Shared.{Diagnostics}
use azure_aci.Create.{
  filtered, NewPod, PublicAddress, NewGroup, Creator, Parts, with_mounts, all_ports, port_numbers,
  gpu_input, parts_of, public_address, in_vnet, plain_group, amend_vnet_resources, group_of,
}

-- The ports of an address, and those that a group without a subnet has.
abbrev pub address_ports : Option PublicAddress → Option (List ℕ)
address_ports none = none
address_ports (some a) = some a.ports

abbrev pub public_ports : Bool → List ℕ → Option (List ℕ)
public_ports outside [] = none
public_ports outside (port ∷ ports) = if outside then some (port ∷ ports) else none

abbrev pub volumes_of : NewPod → VolumesOf
volumes_of p = record { pod_name = p.pod.name; service_account_name = p.service_account_name }

-- A container without its mounts, and its mounts.
abbrev pub unmounted : AciContainer → AciContainer
unmounted a = record a { volume_mounts = [] }

abbrev pub mounts_of : AciContainer → List VolumeMount
mounts_of a = a.volume_mounts

module _ {W : Type 0} (c : Creator W) where
  -- The parts are those of the pod.
  pub record PartsOf (p : NewPod) (parts : Parts) : Type 0 where
    pub containers : AllBuilt p.containers parts.containers
    pub credentials : AllPulled c.secrets p.pod.namespace p.image_pull_secrets parts.credentials
    pub volumes : AllConverted (volumes_of p) (c.resources p.pod.namespace) p.volumes parts.volumes
    pub init_containers : all_allowed p.init_containers ≡ true

  pub parts_of-PartsOf : (p : NewPod) (parts : Parts) → parts_of c p ≡ ok parts → PartsOf p parts
  unfolding parts_of
  parts_of-PartsOf p parts h =
      let (cs, at_cs, h1) = >>=-eq-ok (get_containers (gpu_input c p) p.containers) _ h in
      let (creds, at_creds, h2) =
        >>=-eq-ok (get_image_pull_secrets c.secrets p.pod.namespace p.image_pull_secrets) _ h1 in
      let (vs, at_vs, h3) =
        >>=-eq-ok (get_volumes _ (c.resources p.pod.namespace) p.volumes) _ h2 in
      let (init, at_init, h4) = >>=-eq-ok (get_init_containers p.init_containers) _ h3 in
      subst (PartsOf p) (ok-injective _ _ h4) (record {
        containers = get_containers-AllBuilt (gpu_input c p) p.containers cs at_cs;
        credentials =
            get_image_pull_secrets-AllPulled c.secrets p.pod.namespace p.image_pull_secrets creds
              at_creds;
        volumes = get_volumes-AllConverted _ (c.resources p.pod.namespace) p.volumes vs at_vs;
        init_containers = sym (get_init_containers-allowed p.init_containers) ∙ ap is_ok at_init;
      })

  with_mounts-names :
      (cs : List AciContainer) (mounts : List (List VolumeMount))
      → map (λ (a : AciContainer). a.name) (with_mounts cs mounts)
        ≡ map (λ (a : AciContainer). a.name) cs
  unfolding with_mounts
  with_mounts-names [] [] = refl
  with_mounts-names [] (m ∷ mounts) = refl
  with_mounts-names (a ∷ cs) [] = refl
  with_mounts-names (a ∷ cs) (m ∷ mounts) =
      ap (λ names. a.name ∷ names) (with_mounts-names cs mounts)

  with_mounts-ports :
      (cs : List AciContainer) (mounts : List (List VolumeMount))
      → all_ports (with_mounts cs mounts) ≡ all_ports cs
  unfolding with_mounts all_ports
  with_mounts-ports [] [] = refl
  with_mounts-ports [] (m ∷ mounts) = refl
  with_mounts-ports (a ∷ cs) [] = refl
  with_mounts-ports (a ∷ cs) (m ∷ mounts) =
      ap (λ ports. port_numbers a.ports ++ ports) (with_mounts-ports cs mounts)

  with_mounts-unmounted :
      (cs : List AciContainer) (mounts : List (List VolumeMount))
      → map unmounted (with_mounts cs mounts) ≡ map unmounted cs
  unfolding with_mounts
  with_mounts-unmounted [] [] = refl
  with_mounts-unmounted [] (m ∷ mounts) = refl
  with_mounts-unmounted (a ∷ cs) [] = refl
  with_mounts-unmounted (a ∷ cs) (m ∷ mounts) =
      ap (λ rest. unmounted a ∷ rest) (with_mounts-unmounted cs mounts)

  with_mounts-mounts :
      (f : List VolumeMount → List VolumeMount) (cs : List AciContainer)
      → map mounts_of (with_mounts cs (map f (map mounts_of cs))) ≡ map f (map mounts_of cs)
  unfolding with_mounts
  with_mounts-mounts f [] = refl
  with_mounts-mounts f (a ∷ cs) = ap (λ rest. f a.volume_mounts ∷ rest) (with_mounts-mounts f cs)

  with_mounts-same :
      (cs : List AciContainer)
      → map mounts_of (with_mounts cs (map mounts_of cs)) ≡ map mounts_of cs
  unfolding with_mounts
  with_mounts-same [] = refl
  with_mounts-same (a ∷ cs) = ap (λ rest. a.volume_mounts ∷ rest) (with_mounts-same cs)

  abbrev volume_name : AciVolume → String
  volume_name v = v.name

  -- The mounts and volumes of the parts; for Windows without those at the path of the service account's secret.
  abbrev pub kept_of : Parts → List (List VolumeMount) × List AciVolume
  kept_of parts =
      let mounts = map mounts_of parts.containers in
      if c.equal_fold c.operating_system "Windows"
      then (
        map (keep (λ m. not (is_secret_mount c.equal_fold volume_name m))) mounts,
        keep (λ v. not (some_mounts_secret c.equal_fold volume_name v.name mounts)) parts.volumes,
      )
      else (mounts, parts.volumes)

  filtered-kept_of :
      (parts : Parts)
      → (map mounts_of (with_mounts parts.containers (filtered c parts).0), (filtered c parts).1)
        ≡ kept_of parts
  unfolding filtered
  filtered-kept_of parts =
      let exact =
        filter_windows_exact c.equal_fold volume_name c.operating_system
          (map mounts_of parts.containers) parts.volumes in
      ap (λ x. (map mounts_of (with_mounts parts.containers x.0), x.1)) exact
      ∙ elim (Bool-cases (c.equal_fold c.operating_system "Windows")) [
        | inl e ↦ rw (e, with_mounts-mounts) refl
        | inr e ↦ rw (e, with_mounts-same) refl
      ]

  -- `g` is the group of the pod `p`, made of `parts`.
  pub record Describes (p : NewPod) (parts : Parts) (g : NewGroup) : Type 0 where
    pub containers : map unmounted g.containers ≡ map unmounted parts.containers
    pub kept : (map mounts_of g.containers, g.volumes) ≡ kept_of parts
    pub restart_policy : g.restart_policy ≡ p.restart_policy
    pub os_type : g.os_type ≡ c.operating_system
    pub location : g.location ≡ c.region
    pub names :
        map (λ (a : AciContainer). a.name) g.containers
        ≡ map (λ (a : AciContainer). a.name) parts.containers
    pub init_containers : g.init_containers ≡ parts.init_containers
    pub credentials : g.image_registry_credentials ≡ parts.credentials
    pub node_name : lookup g.tags "NodeName" ≡ some p.node_name
    pub namespace : lookup g.tags "Namespace" ≡ some p.pod.namespace
    pub creation : lookup g.tags "CreationTimestamp" ≡ some (c.time_string p.pod.creation_timestamp)
    pub address :
        address_ports g.ip_address ≡ public_ports (c.subnet_name == "") (all_ports parts.containers)

  public_address-ports :
      (p : NewPod) (ports : List ℕ)
      → address_ports (public_address c p ports) ≡ public_ports (c.subnet_name == "") ports
  unfolding public_address
  public_address-ports p [] = ground arith
  public_address-ports p (port ∷ ports) = ground arith

  plain_group-Describes :
      (p : NewPod) (parts : Parts) (mounts : List (List VolumeMount)) (vs : List AciVolume)
      (d : Option Diagnostics)
      → (map mounts_of (with_mounts parts.containers mounts), vs) ≡ kept_of parts
      → Describes p parts (plain_group c p parts mounts vs d)
  unfolding plain_group
  plain_group-Describes p parts mounts vs d kept = record {
    containers = with_mounts-unmounted parts.containers mounts;
    kept = kept;
    restart_policy = refl;
    os_type = refl;
    location = refl;
    names = with_mounts-names parts.containers mounts;
    init_containers = refl;
    credentials = refl;
    node_name = refl;
    namespace = refl;
    creation = refl;
    address =
        public_address-ports p _
        ∙ ap (public_ports (c.subnet_name == "")) (with_mounts-ports parts.containers mounts);
  }

  amend_vnet_resources-Describes :
      (p : NewPod) (parts : Parts) (g : NewGroup)
      → Describes p parts g
      → Describes p parts (amend_vnet_resources c p g)
  unfolding amend_vnet_resources
  amend_vnet_resources-Describes p parts g h =
      elim (c.subnet_name == "") as (λ b. Describes p parts (if b then g else in_vnet c p g)) [
        | true ↦ h
        | false ↦ record {
          containers = h.containers;
          kept = h.kept;
          restart_policy = h.restart_policy;
          os_type = h.os_type;
          location = h.location;
          names = h.names;
          init_containers = h.init_containers;
          credentials = h.credentials;
          node_name = h.node_name;
          namespace = h.namespace;
          creation = h.creation;
          address = h.address;
        }
      ]

  pub group_of-Describes :
      (p : NewPod) (parts : Parts) (d : Option Diagnostics)
      → Describes p parts (group_of c p parts d)
  unfolding group_of
  group_of-Describes p parts d =
      amend_vnet_resources-Describes p parts _
        (plain_group-Describes p parts _ _ d (filtered-kept_of parts))

  pub group_of-in_subnet :
      (p : NewPod) (parts : Parts) (d : Option Diagnostics)
      → is_some (group_of c p parts d).subnet_ids ≡ not (c.subnet_name == "")
  unfolding group_of amend_vnet_resources plain_group
  group_of-in_subnet p parts d = ground arith
