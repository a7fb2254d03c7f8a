-- ===== src/Config/Node/Configured.antt =====
-- A provider that NewACIProvider returned configures its node.
use azure_aci.Prelude.{
  ◌++◌, String, Bool, true, false, ◌==◌, Option, none, some, List, [], ◌∷◌, ◌≡◌, refl, ap, ok,
  lookup, map, ◌∙◌,
}
use azure_aci.K8s.{Time}
use azure_aci.Config.{AciProviderSettings, Host, set_by}
use azure_aci.Config.Network.{Subnets}
use azure_aci.Config.Started.{Arguments}
use azure_aci.Config.Settled.{Usable}
use azure_aci.Config.Node.{
  NodeCondition, Node, node_labels, node_conditions, node_addresses, write_labels, must_parse,
  gpu_entry, capacity, configure_node,
}

abbrev pub status_of : NodeCondition → String × Bool
status_of c = (c.kind, c.status)

-- What Kubernetes schedules by: the node is ready and under no pressure, what can be allocated is all of the
-- capacity, it has no GPU, and its address is the provider's.
pub record Schedulable {Quantity : Type 0} (cpu memory pods : Quantity) (p : AciProviderSettings)
    (node : Node Quantity) : Type 0 where
  pub cpu_at : lookup node.capacity "cpu" ≡ some cpu
  pub memory_at : lookup node.capacity "memory" ≡ some memory
  pub pods_at : lookup node.capacity "pods" ≡ some pods
  pub no_gpu : lookup node.capacity "nvidia.com/gpu" ≡ none
  pub all_allocatable : node.allocatable ≡ node.capacity
  pub conditions :
      map status_of node.conditions
      ≡ ("Ready", true)
        ∷ ("OutOfDisk", false)
        ∷ ("MemoryPressure", false)
        ∷ ("DiskPressure", false)
        ∷ ("NetworkUnavailable", false)
        ∷ []
  pub operating_system : node.operating_system ≡ p.operating_system
  pub address : lookup node.addresses "InternalIP" ≡ some p.internal_ip

module _ {W Quantity : Type 0} (h : Host) (args : Arguments) (s : Subnets W)
    (subscription_id : String) (parse : String → Option Quantity) where
  configured :
      AciProviderSettings
      → Time
      → List (String × String)
      → Quantity
      → Quantity
      → Quantity
      → Node Quantity
  configured p now labels cpu memory pods = record {
    labels = some (node_labels ++ labels);
    capacity = ("cpu", cpu) ∷ ("memory", memory) ∷ ("pods", pods) ∷ [];
    allocatable = ("cpu", cpu) ∷ ("memory", memory) ∷ ("pods", pods) ∷ [];
    conditions = node_conditions now;
    addresses = node_addresses p;
    kubelet_port = p.daemon_endpoint_port;
    operating_system = p.operating_system;
  }

  capacity-eq :
      (p : AciProviderSettings) (cpu memory pods : Quantity)
      → p.gpu == "" ≡ true
      → parse p.cpu ≡ some cpu
      → parse p.memory ≡ some memory
      → parse p.pods ≡ some pods
      → capacity parse p ≡ ok (("cpu", cpu) ∷ ("memory", memory) ∷ ("pods", pods) ∷ [])
  unfolding capacity must_parse gpu_entry
  capacity-eq p cpu memory pods no_gpu at_cpu at_memory at_pods =
      rw (at_cpu, at_memory, at_pods, no_gpu) refl

  configure_node-eq :
      (p : AciProviderSettings) (now : Time) (node : Node Quantity)
      (labels : List (String × String)) (cpu memory pods : Quantity)
      → capacity parse p ≡ ok (("cpu", cpu) ∷ ("memory", memory) ∷ ("pods", pods) ∷ [])
      → node.labels ≡ some labels
      → configure_node parse p now node ≡ ok (configured p now labels cpu memory pods)
  unfolding configure_node configured write_labels
  configure_node-eq p now node labels cpu memory pods made labelled = rw (made, labelled) refl

  -- For a provider as NewACIProvider returns it, without GPUs, where the quotas of the environment (or the
  -- built-in ones) are quantities, and for a node whose map of labels is not nil, ConfigureNode does not panic; the node has these
  -- quotas as its capacity and can allocate all of it, has no GPU, is ready with no other condition true, and
  -- has the operating system and the address of the provider.
  pub configure_node-Schedulable :
      (p : AciProviderSettings) (now : Time) (node : Node Quantity)
      (labels : List (String × String)) (cpu memory pods : Quantity)
      → Usable h args s subscription_id p
      → p.gpu == "" ≡ true
      → parse (set_by h "ACI_QUOTA_CPU" "10000") ≡ some cpu
      → parse (set_by h "ACI_QUOTA_MEMORY" "4Ti") ≡ some memory
      → parse (set_by h "ACI_QUOTA_POD" "5000") ≡ some pods
      → node.labels ≡ some labels
      → (node' : Node Quantity) × (configure_node parse p now node ≡ ok node')
        × Schedulable cpu memory pods p node'
  unfolding configured node_conditions node_addresses
  configure_node-Schedulable p now node labels cpu memory pods u no_gpu at_cpu at_memory at_pods
        labelled =
      let made =
        capacity-eq p cpu memory pods no_gpu (ap parse u.cpu ∙ at_cpu)
          (ap parse u.memory ∙ at_memory) (ap parse u.pods ∙ at_pods) in
      (
        configured p now labels cpu memory pods,
        configure_node-eq p now node labels cpu memory pods made labelled,
        record {
          cpu_at = refl;
          memory_at = refl;
          pods_at = refl;
          no_gpu = refl;
          all_allocatable = refl;
          conditions = refl;
          operating_system = refl;
          address = refl;
        },
      )
