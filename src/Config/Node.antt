-- ===== src/Config/Node.antt =====
-- The node that the provider stands for: ConfigureNode of pkg/provider/vk_node.go.
pub mod Configured
use azure_aci.Prelude.{
  ℕ, String, Bool, true, false, ◌==◌, Option, none, some, List, [], ◌∷◌, ◌++◌, Result, ok, panics,
  if◌then◌else◌, ◌>>=◌,
}
use azure_aci.K8s.{Time}
use azure_aci.Config.{AciProviderSettings}

-- v1.NodeCondition; every status is true or false here.
pub record NodeCondition : Type 0 where
  pub kind : String
  pub status : Bool
  pub last_heartbeat_time : Time
  pub last_transition_time : Time
  pub reason : String
  pub message : String

-- v1.Node with the parts that ConfigureNode writes. The map of the labels may be nil.
pub record Node (Quantity : Type 0) : Type 0 where
  pub labels : Option (List (String × String))
  pub capacity : List (String × Quantity)
  pub allocatable : List (String × Quantity)
  pub conditions : List NodeCondition
  pub addresses : List (String × String)
  pub kubelet_port : ℕ
  pub operating_system : String

-- A condition at a moment. The source asks for the time at each of the fields, the model once.
abbrev pub condition_at : Time → String → Bool → String → String → NodeCondition
condition_at now kind status reason message = record {
  kind = kind;
  status = status;
  last_heartbeat_time = now;
  last_transition_time = now;
  reason = reason;
  message = message;
}

unfoldable pub node_conditions : Time → List NodeCondition
node_conditions now =
    condition_at now "Ready" true "KubeletReady" "kubelet is ready."
    ∷ condition_at now "OutOfDisk" false "KubeletHasSufficientDisk"
        "kubelet has sufficient disk space available"
    ∷ condition_at now "MemoryPressure" false "KubeletHasSufficientMemory"
        "kubelet has sufficient memory available"
    ∷ condition_at now "DiskPressure" false "KubeletHasNoDiskPressure"
        "kubelet has no disk pressure"
    ∷ condition_at now "NetworkUnavailable" false "RouteCreated" "RouteController created a route"
    ∷ []

unfoldable pub node_addresses : AciProviderSettings → List (String × String)
node_addresses p = ("InternalIP", p.internal_ip) ∷ []

abbrev pub node_labels : List (String × String)
node_labels =
    ("kubernetes.azure.com/managed", "false")
    ∷ ("node.kubernetes.io/exclude-from-external-load-balancers", "true")
    ∷ ("alpha.service-controller.kubernetes.io/exclude-balancer", "true")
    ∷ []

unfoldable pub write_labels : Option (List (String × String)) → Result (List (String × String))
write_labels none = panics
write_labels (some labels) = ok (node_labels ++ labels)

-- `parse` is resource.ParseQuantity.
module _ {Quantity : Type 0} (parse : String → Option Quantity) where
  unfoldable pub must_parse : Option Quantity → Result Quantity
  must_parse none = panics
  must_parse (some q) = ok q

  unfoldable pub gpu_entry : String → Result (List (String × Quantity))
  unfolding must_parse
  gpu_entry gpu =
      let entry = must_parse (parse gpu) >>= λ q. ok (("nvidia.com/gpu", q) ∷ []) in
      if gpu == "" then ok [] else entry

  unfoldable pub capacity : AciProviderSettings → Result (List (String × Quantity))
  unfolding gpu_entry
  capacity p = do
    cpu ← must_parse (parse p.cpu)
    memory ← must_parse (parse p.memory)
    pods ← must_parse (parse p.pods)
    gpu ← gpu_entry p.gpu
    ok (("cpu", cpu) ∷ ("memory", memory) ∷ ("pods", pods) ∷ gpu)

  unfoldable pub configure_node :
      AciProviderSettings → Time → Node Quantity → Result (Node Quantity)
  unfolding capacity node_conditions node_addresses write_labels
  configure_node p now node = do
    c ← capacity p
    a ← capacity p
    labels ← write_labels node.labels
    ok (record {
      labels = some labels;
      capacity = c;
      allocatable = a;
      conditions = node_conditions now;
      addresses = node_addresses p;
      kubelet_port = p.daemon_endpoint_port;
      operating_system = p.operating_system;
    })
