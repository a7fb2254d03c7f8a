-- ===== src/Create.antt =====
-- CreatePod and getDiagnostics of pkg/provider/aci.go, and amendVnetResources of
-- pkg/provider/aci_network.go: a pod is turned into a container group, which Azure is asked for.
pub mod Shared
pub mod Described
pub mod Sent
pub mod Created
mod Examples
use azure_aci.Create.Shared.{
  LogAnalytics, Diagnostics, log_analytics_metadata_key_pod_uuid, container_insights, with_pod_uid,
  pod_diagnostics, shared_diagnostics,
}
use azure_aci.Prelude.{
  ℕ, String, Bool, true, false, ◌&&◌, ◌==◌, ◌<>◌, Option, none, some, List, [], ◌∷◌, ◌++◌, map,
  Result, ok, err, panics, if◌then◌else◌, lookup, length, ltb, ◌>>=◌,
}
use azure_aci.Prelude.Io
use azure_aci.Prelude.Io.{Io}
use azure_aci.K8s.{Time, Pod}
use azure_aci.Client.{Sdk, create_container_group}
use azure_aci.Dns.{DnsPolicy, PodDnsConfig, DnsInput, DnsConfiguration, get_dns_config}
use azure_aci.Registry.{Secrets, ImageRegistryCredential, get_image_pull_secrets}
use azure_aci.Extensions.{Extension}
use azure_aci.Volumes.{Resources, PodVolume, AciVolume}
use azure_aci.Volumes.All.{get_volumes}
use azure_aci.Workload.{ContainerSpec, VolumeMount}
use azure_aci.Workload.Resources.{GpuInput}
use azure_aci.Workload.Containers.{
  AciContainer, AciPort, InitContainerDefinition, get_containers, get_init_containers,
}
use azure_aci.Workload.Windows.{filter_windows_service_account_secret_volume}

-- v1.Pod with the parts of its specification that CreatePod reads.
pub record NewPod : Type 0 where
  pub pod : Pod
  pub node_name : String
  pub restart_policy : String
  pub containers : List ContainerSpec
  pub init_containers : List ContainerSpec
  pub image_pull_secrets : List String
  pub volumes : List PodVolume
  pub service_account_name : String
  pub dns_policy : DnsPolicy
  pub dns_config : Option PodDnsConfig

-- azaci.IPAddress of the public type; every port is a TCP port.
pub record PublicAddress : Type 0 where
  pub ports : List ℕ
  pub dns_name_label : Option String

-- client.ContainerGroupWrapper, as CreatePod fills it.
pub record NewGroup : Type 0 where
  pub location : String
  pub restart_policy : String
  pub os_type : String
  pub containers : List AciContainer
  pub init_containers : List InitContainerDefinition
  pub volumes : List AciVolume
  pub image_registry_credentials : List ImageRegistryCredential
  pub diagnostics : Option Diagnostics
  pub ip_address : Option PublicAddress
  pub tags : List (String × String)
  pub subnet_ids : Option (List String)
  pub dns_config : Option DnsConfiguration
  pub extensions : List Extension

-- The fields of the provider that CreatePod reads, the resource manager, and CreateContainerGroup of the
-- clients of Azure. The diagnostics of the provider stand in the world, since CreatePod changes them.
pub record Creator (W : Type 0) : Type 0 where
  pub resource_group : String
  pub region : String
  pub operating_system : String
  pub gpu_skus : List String
  pub vnet_subscription_id : String
  pub vnet_resource_group : String
  pub vnet_name : String
  pub subnet_name : String
  pub kube_dns_ip : String
  pub cluster_domain : String
  pub max_subdomain : ℕ
  pub container_group_extensions : List Extension
  pub secrets : Secrets
  pub resources : String → Resources
  pub equal_fold : String → String → Bool
  pub time_string : Time → String
  pub create_container_group : String → String → String → NewGroup → Io W (Unit {0})
  pub diagnostics : W → Option Diagnostics
  pub set_diagnostics : Option Diagnostics → W → W

-- What the getters return, one after the other.
pub record Parts : Type 0 where
  pub containers : List AciContainer
  pub credentials : List ImageRegistryCredential
  pub volumes : List AciVolume
  pub init_containers : List InitContainerDefinition

-- The mounts that the filter for Windows leaves, back in their containers.
pub with_mounts : List AciContainer → List (List VolumeMount) → List AciContainer
with_mounts (c ∷ cs) (mounts ∷ rest) = record c { volume_mounts = mounts } ∷ with_mounts cs rest
with_mounts cs [] = cs
with_mounts [] (mounts ∷ rest) = []

abbrev pub port_numbers : List AciPort → List ℕ
port_numbers ports = map (λ p. p.port) ports

pub all_ports : List AciContainer → List ℕ
all_ports [] = []
all_ports (c ∷ cs) = port_numbers c.ports ++ all_ports cs

-- The label is set unless it is empty.
abbrev pub label_of : Option String → Option String
label_of none = none
label_of (some label) = if label == "" then none else some label

-- CreateContainerGroup of the clients that the provider is given.
abbrev pub with_client : {W : Type 0} → Creator W → Sdk W NewGroup → Creator W
with_client c sdk = record c { create_container_group = create_container_group sdk }

module _ {W : Type 0} (c : Creator W) where
  abbrev pub gpu_input : NewPod → GpuInput
  gpu_input p = record {
    gpu_skus = c.gpu_skus;
    region = c.region;
    desired_sku = lookup p.pod.annotations "virtual-kubelet.io/gpu-type";
    equal_fold = c.equal_fold;
  }

  unfoldable pub parts_of : NewPod → Result Parts
  parts_of p = do
    containers ← get_containers (gpu_input p) p.containers
    credentials ← get_image_pull_secrets c.secrets p.pod.namespace p.image_pull_secrets
    volumes ←
        get_volumes
          (record { pod_name = p.pod.name; service_account_name = p.service_account_name })
          (c.resources p.pod.namespace) p.volumes
    init_containers ← get_init_containers p.init_containers
    ok (record {
      containers = containers;
      credentials = credentials;
      volumes = volumes;
      init_containers = init_containers;
    })

  -- The containers and volumes after the filter for Windows.
  pub filtered : Parts → List (List VolumeMount) × List AciVolume
  filtered parts =
      filter_windows_service_account_secret_volume c.equal_fold (λ (v : AciVolume). v.name)
        c.operating_system (map (λ (a : AciContainer). a.volume_mounts) parts.containers)
        parts.volumes

  pub public_address : NewPod → List ℕ → Option PublicAddress
  public_address p [] = none
  public_address p (port ∷ ports) =
      if c.subnet_name == ""
      then some (record {
        ports = port ∷ ports;
        dns_name_label = label_of (lookup p.pod.annotations "virtualkubelet.io/dnsnamelabel");
      })
      else none

  abbrev pub tags_of : NewPod → List (String × String)
  tags_of p =
      ("PodName", p.pod.name)
      ∷ ("ClusterName", p.pod.cluster_name)
      ∷ ("NodeName", p.node_name)
      ∷ ("Namespace", p.pod.namespace)
      ∷ ("UID", p.pod.uid)
      ∷ ("CreationTimestamp", c.time_string p.pod.creation_timestamp)
      ∷ []

  abbrev pub dns_input : NewPod → DnsInput
  dns_input p = record {
    kube_dns_ip = c.kube_dns_ip;
    cluster_domain = c.cluster_domain;
    max_subdomain = c.max_subdomain;
    namespace = p.pod.namespace;
    dns_policy = p.dns_policy;
    dns_config = p.dns_config;
  }

  abbrev pub subnet_id : String
  subnet_id =
      "/subscriptions/"
      <> (c.vnet_subscription_id
          <> ("/resourceGroups/"
              <> (c.vnet_resource_group
                  <> ("/providers/Microsoft.Network/virtualNetworks/"
                      <> (c.vnet_name <> ("/subnets/" <> c.subnet_name))))))

  abbrev pub in_vnet : NewPod → NewGroup → NewGroup
  in_vnet p g = record g {
    subnet_ids = some (subnet_id ∷ []);
    dns_config = get_dns_config (dns_input p);
    extensions = c.container_group_extensions;
  }

  pub amend_vnet_resources : NewPod → NewGroup → NewGroup
  amend_vnet_resources p g = if c.subnet_name == "" then g else in_vnet p g

  -- The group that is filled in, before it is put into the virtual network.
  pub plain_group :
      NewPod → Parts → List (List VolumeMount) → List AciVolume → Option Diagnostics → NewGroup
  unfolding public_address with_mounts all_ports
  plain_group p parts mounts volumes diagnostics = record {
    location = c.region;
    restart_policy = p.restart_policy;
    os_type = c.operating_system;
    containers = with_mounts parts.containers mounts;
    init_containers = parts.init_containers;
    volumes = volumes;
    image_registry_credentials = parts.credentials;
    diagnostics = diagnostics;
    ip_address = public_address p (all_ports (with_mounts parts.containers mounts));
    tags = tags_of p;
    subnet_ids = none;
    dns_config = none;
    extensions = [];
  }

  pub group_of : NewPod → Parts → Option Diagnostics → NewGroup
  unfolding filtered plain_group amend_vnet_resources
  group_of p parts diagnostics =
      let (mounts, volumes) = filtered parts in
      amend_vnet_resources p (plain_group p parts mounts volumes diagnostics)

  -- The diagnostics of the pod; those of the provider change with them.
  pub kept_diagnostics : Result (Option Diagnostics) → W → Result (Option Diagnostics) × W
  kept_diagnostics (ok d) w = (ok d, c.set_diagnostics d w)
  kept_diagnostics (err e) w = (err e, w)
  kept_diagnostics panics w = (panics, w)

  pub get_diagnostics : String → Io W (Option Diagnostics)
  unfolding shared_diagnostics kept_diagnostics
  get_diagnostics uid w = kept_diagnostics (shared_diagnostics uid (c.diagnostics w)) w

  unfoldable pub create_pod : NewPod → Io W (Unit {0})
  unfolding get_diagnostics group_of
  create_pod p = Io.◌>>=◌ (Io.lift (parts_of p)) λ parts.
      Io.◌>>=◌ (get_diagnostics p.pod.uid) λ diagnostics.
        c.create_container_group c.resource_group p.pod.namespace p.pod.name
          (group_of p parts diagnostics)
