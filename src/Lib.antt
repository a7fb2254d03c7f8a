-- ===== src/Lib.antt =====
-- azure-aci: the Virtual Kubelet provider for Azure Container Instances.
--
-- A pod of Kubernetes is one container group of Azure. The provider (pkg/provider/aci.go) creates and
-- deletes groups through the clients of pkg/client, and turns the groups that it reads back into pods
-- (pkg/provider/containergroup_to_pod.go) after a check of their fields (pkg/validation/validator.go).
-- A tracker (pkg/provider/podsTracker.go) asks the provider for the status of every pod at an interval,
-- reports changes to the API server, and deletes groups that no pod stands for.
--
-- Files:
--   Prelude     shared names, lists, texts and maps, errors and panics (Prelude/Errors), and code
--               that acts on a world (Prelude/Io), with what it ensures (Prelude/Triples)
--   K8s, Azure  the objects of the two APIs, as far as the program reads or writes them
--   Tracker     pkg/provider/podsTracker.go; Outcome is one pod's update, Cleanup and Swept the dangling pods,
--               Loop the loop over the signals
--   Validation  pkg/validation/validator.go; Checked says what passes
--   Status      pkg/provider/containergroup_to_pod.go; States is one container's state, Described
--               what ACI's names stand for, Group the whole
--               status, Total the groups that are safe to convert
--   Client      pkg/client/client_apis.go and CreateCG of pkg/client/client.go over the Azure SDK; Reads is
--               what reads responses itself, Wire the JSON that is sent and the making of the clients,
--               Answers and Accepted hold what is proved
--   Provider    the reading, listing and deleting of pods in pkg/provider/aci.go; Listing, Deleting and
--               Lookup hold what is proved of it; Exec is RunInContainer, its two loops being turns of a
--               session that are taken in any order; Exec/Copied, Exec/Sent and Exec/Opened hold what is
--               proved
--   Dns         getDNSConfig and its limits in pkg/provider/aci_network.go, omitDuplicates of
--               pkg/provider/aci_utils.go; Unique, Limits and Config hold what is proved
--   Registry    pkg/provider/docker_config.go and getImagePullSecrets of pkg/provider/aci.go; Split is the
--               splitting at colons, Codec the round trip, Pulled the loops,
--               Entries and Credentials which credentials are made
--   Workload    the containers, init containers and probes that pkg/provider/aci.go sends; Probes,
--               Resources, Containers and Windows are the parts, Built and Init hold what is proved
--   Rest        client/: the transport of client/client.go with its retries (Attempts, Backoff), the address
--               and the check of a call (Api), the operations of client/aci (Groups, Containers), of
--               client/resourcegroups and of client/network/subnet.go (Resources), the constructors
--               (Clients) and clouds (Clouds); Answered holds what is proved of the operations
--   Old         provider/aci.go, which runs unless USE_VK_VERSION_2 is set: how a group becomes a pod, and in
--               Reading the reading, listing and deleting of pods; Listed and Lost hold what is proved
--   Retry       pkg/client/retry.go
--   Metrics     pkg/metrics: the conversion of statistics; Usage is the CPU usage over a window, Getters the
--               getters and their caches, Summary the summary; Owned, OneEach and Aliased hold what is proved;
--               Insights is provider/metrics/container_insights.go, with its totals in Cumulative and what
--               is proved of them in Overlap and Counted; Decider is provider/metrics/metrics.go and cache.go, what is
--               proved in Remembered
--   Volumes     pkg/provider/aci_volumes.go; Sources and Projected are the kinds of volumes, All the loop,
--               Held what a volume of texts holds, Converted what is proved
--   Auth        pkg/auth/auth.go; Decode is the decoding of UTF-16, Settled what SetAuthConfig ensures
--   Extensions  pkg/client/extensions.go
--   Config      how NewACIProvider of pkg/provider/aci.go starts the provider (Started): Loaded is
--               pkg/provider/config.go, pkg/analytics/analytics.go and the capacity, Network the virtual
--               network of pkg/provider/aci_network.go with IsNotFound of client/network/client.go, Node
--               ConfigureNode of pkg/provider/vk_node.go; Settled, Usable, Network/Fits,
--               Network/Delegated, Network/Missing and Node/Configured hold what is proved
--   Create      CreatePod and getDiagnostics (Shared) of pkg/provider/aci.go, amendVnetResources;
--               Described, Sent and Created hold what is proved
--
-- Correspondence: a Go function keeps its name in snake case, and a step of a long function or of a
-- loop is a function beside it. A pointer that may be nil is an `Option`, a read through a nil pointer is
-- the result `panics`, an error value is seen by its text and by what `IsNotFound` says of it. A Go map
-- is an association list in the order in which it is iterated. The SDK, the API server and the resource
-- manager are parameters that act on a world `W`. Loops are recursions on lists, or on the
-- index they count down, so no fuel is needed.
-- Times are numbers, with Go's zero time as 0. Logging, tracing and `DeepCopy` are left out.
--
-- Not modelled: the creation of groups, the terminal, the node and the configuration of the old provider, which
-- pkg/ rewrites, and its mocks; of client/, the reading of an authentication file, which pkg/auth repeats,
-- JSONTime and the random names; the preparation of a request by the Azure SDK in pkg/client/client.go, and the
-- command line.
mod Prelude
pub mod K8s
pub mod Azure
pub mod Tracker
pub mod Validation
pub mod Status
pub mod Client
pub mod Provider
pub mod Dns
pub mod Registry
pub mod Workload
pub mod Rest
pub mod Old
pub mod Retry
pub mod Metrics
pub mod Volumes
pub mod Auth
pub mod Extensions
pub mod Config
pub mod Create
mod Samples
