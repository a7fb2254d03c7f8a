-- ===== src/Config/Network.antt =====
-- The virtual network of the provider: setVNETConfig and setupNetwork of pkg/provider/aci_network.go, and
-- IsNotFound of client/network/client.go.
pub mod Fits
pub mod Delegated
pub mod Missing
use azure_aci.Prelude.{
  String, Bool, true, false, not, ◌&&◌, ◌==◌, ◌<>◌, Option, none, some, List, [], ◌∷◌, ◌++◌, map,
  Result, ok, err, panics, deref, plain, Error, not_found, invalid_input, k8s, azure, api,
  message_of, wrapped, ℕ, eqb, if◌then◌else◌, ◌>>=◌, ◌>>◌, fail_if,
}
use azure_aci.Prelude.Io
use azure_aci.Prelude.Io.{wrapped_io, Io, Answer, returned, failed_with, attempt, raise, pure, lift}
use azure_aci.Extensions.{Extension, get_kube_proxy_extension, get_realtime_metrics_extension}
use azure_aci.Config.{AciProviderSettings, Host, set_by}
use azure_aci.Config.Loaded.{check_cidr, or_default}

-- aznetwork.ServiceDelegationPropertiesFormat, and aznetwork.Delegation
pub record ServiceDelegation : Type 0 where
  pub service_name : Option String
  pub actions : Option (List String)

pub record Delegation : Type 0 where
  pub name : Option String
  pub properties : Option ServiceDelegation

-- aznetwork.SubnetPropertiesFormat: of a route table its ID, of a link that has properties the type that it
-- names. Every pointer may be nil.
pub record SubnetProperties : Type 0 where
  pub address_prefix : Option String
  pub route_table : Option (Option String)
  pub service_association_links : Option (List (Option (Option String)))
  pub delegations : Option (List Delegation)

pub record Subnet : Type 0 where
  pub name : Option String
  pub properties : Option SubnetProperties

-- The client of subnets of the Azure SDK, for a subscription: its calls take the resource group, the network and the
-- name of the subnet. `show_link` is how `%v` writes a link.
pub record Subnets (W : Type 0) : Type 0 where
  pub get : String → String → String → String → Io W Subnet
  pub create_or_update : String → String → String → String → Subnet → Io W (Unit {0})
  pub show_link : Option (Option String) → String

abbrev pub subnet_delegation_service : String
subnet_delegation_service = "Microsoft.ContainerInstance/containerGroups"

-- Only an error of the REST client in client/api can be a missing subnet.
abbrev pub network_is_not_found : Error → Bool
network_is_not_found (api code text) = eqb code 404
network_is_not_found (plain text) = false
network_is_not_found (not_found text) = false
network_is_not_found (invalid_input text) = false
network_is_not_found (k8s missing text) = false
network_is_not_found (azure code text) = false

-- The service that a delegation with properties names.
abbrev pub service_of : Delegation → Option (Option String)
service_of d = elim d.properties [ none ↦ none | some p ↦ some p.service_name ]

-- Whether the subnet has still to be delegated, from the services of its delegations.
unfoldable pub search_delegations : List (Option (Option String)) → Result Bool
search_delegations [] = ok true
search_delegations (none ∷ ds) = search_delegations ds
search_delegations (some name ∷ ds) =
    let rest = search_delegations ds in
    deref name >>= λ n. if n == subnet_delegation_service then ok false else rest

module _ (show_link : Option (Option String) → String) (subnet_name : String) where
  unfoldable pub search_links : List (Option (Option String)) → Result Bool
  search_links [] = ok true
  search_links (none ∷ ls) = search_links ls
  search_links (some linked ∷ ls) = deref linked >>= λ t.
      if t == subnet_delegation_service
      then ok false
      else err (
          plain (
            "unable to delegate subnet '"
            <> (subnet_name
                <> ("' to Azure Container Instance as it is used by other Azure resource: '"
                    <> (show_link (some linked) <> "'")))))

  unfoldable pub must_delegate :
      SubnetProperties → Option (List (Option (Option String))) → Result Bool
  unfolding search_links search_delegations
  must_delegate props (some links) = search_links links
  must_delegate props none =
      deref props.delegations >>= λ ds. search_delegations (map service_of ds)

  -- `subnet.RouteTable != nil` fails.
  unfoldable pub no_route_table : Option (Option String) → Result (Unit {0})
  no_route_table none = ok tt
  no_route_table (some id) = deref id >>= λ i. err (
      plain (
        "unable to delegate subnet '"
        <> (subnet_name
            <> ("' to Azure Container Instance since it references the route table '"
                <> (i <> "'")))))

  -- The CIDR of the provider after the subnet was found, and whether it has still to be delegated.
  unfoldable pub examine : String → Subnet → Result (String × Bool)
  unfolding no_route_table must_delegate
  examine subnet_cidr subnet = do
    props ← deref subnet.properties
    prefix ← deref props.address_prefix
    let cidr = or_default subnet_cidr prefix
    same ← fail_if (not (cidr == prefix)) (
        plain (
          "found subnet '"
          <> (subnet_name
              <> ("' using different CIDR: '" <> (prefix <> ("'. desired: '" <> (cidr <> "'")))))))
    unrouted ← no_route_table props.route_table
    create ← must_delegate props props.service_association_links
    ok (cidr, create)

abbrev pub delegated_subnet : String → String → Subnet
delegated_subnet name cidr = record {
  name = some name;
  properties = some (record {
    address_prefix = some cidr;
    route_table = none;
    service_association_links = none;
    delegations = some (
        record {
          name = some "aciDelegation";
          properties = some (record {
            service_name = some "Microsoft.ContainerInstance/containerGroups";
            actions = some ("Microsoft.Network/virtualNetworks/subnets/action" ∷ []);
          });
        }
        ∷ []);
  });
}

module _ {W : Type 0} (s : Subnets W) (subscription_id : String) where
  unfoldable pub create_subnet : AciProviderSettings → Io W AciProviderSettings
  create_subnet p =
      Io.◌>>◌
        (wrapped_io "error creating subnet: " (
          s.create_or_update subscription_id p.vnet_resource_group p.vnet_name p.subnet_name
            (delegated_subnet p.subnet_name p.subnet_cidr)))
        (pure p)

  abbrev pub missing_subnet : AciProviderSettings → Error
  missing_subnet p = plain (
      "subnet '"
      <> (p.subnet_name
          <> ("' is not found in vnet '"
              <> (p.vnet_name
                  <> ("' in resource group '"
                      <> (p.vnet_resource_group
                          <> ("' and subscription '"
                              <> (p.vnet_subscription_id
                                  <> "' and subnet CIDR is not specified"))))))))

  -- What is done with a subnet that was found.
  unfoldable pub use_found : AciProviderSettings → String × Bool → Io W AciProviderSettings
  unfolding create_subnet
  use_found p (cidr, true) = create_subnet (record p { subnet_cidr = cidr })
  use_found p (cidr, false) = pure (record p { subnet_cidr = cidr })

  unfoldable pub looked_up : AciProviderSettings → Answer Subnet → Io W AciProviderSettings
  unfolding create_subnet examine use_found
  looked_up p (failed_with e) =
      if not (network_is_not_found e)
      then raise (plain ("error while looking up subnet: " <> message_of e))
      else if p.subnet_cidr == ""
      then raise (missing_subnet p)
      else create_subnet p
  looked_up p (returned subnet) =
      Io.◌>>=◌ (lift (examine s.show_link p.subnet_name p.subnet_cidr subnet)) (use_found p)

  unfoldable pub setup_network : AciProviderSettings → Io W AciProviderSettings
  unfolding looked_up
  setup_network p =
      Io.◌>>=◌ (attempt (s.get subscription_id p.vnet_resource_group p.vnet_name p.subnet_name))
        (looked_up p)

module _ {W : Type 0} (h : Host) (s : Subnets W) (subscription_id : String) where
  unfoldable pub with_vnet_variables : AciProviderSettings → AciProviderSettings
  with_vnet_variables p =
      let vnet_name = set_by h "ACI_VNET_NAME" p.vnet_name in
      record p {
        vnet_subscription_id = set_by h "ACI_VNET_SUBSCRIPTION_ID" subscription_id;
        vnet_name = vnet_name;
        vnet_resource_group = set_by h "ACI_VNET_RESOURCE_GROUP" p.vnet_resource_group;
        subnet_name =
            if vnet_name == "" then p.subnet_name else set_by h "ACI_SUBNET_NAME" p.subnet_name;
      }

  unfoldable pub with_subnet_cidr : AciProviderSettings → String → Result AciProviderSettings
  unfolding check_cidr
  with_subnet_cidr p cidr =
      let checked =
        fail_if (p.subnet_name == "") (
          plain
            "subnet CIDR defined but no subnet name, subnet name is required to set a subnet CIDR")
        >> (check_cidr h "error parsing provided subnet range: " cidr
            >> ok (record p { subnet_cidr = cidr })) in
      if cidr == "" then ok p else checked

  -- The extensions that the provider gets, the one for metrics if it is asked for.
  abbrev pub extensions_with : Extension → List Extension
  extensions_with proxy =
      if h.kube.getenv "ENABLE_REAL_TIME_METRICS" == "true"
      then proxy ∷ get_realtime_metrics_extension ∷ []
      else proxy ∷ []

  unfoldable pub proxy_extension : Result Extension
  proxy_extension = wrapped "error creating kube proxy extension: " (
      get_kube_proxy_extension h.kube "/var/run/secrets/kubernetes.io/serviceaccount"
        (set_by h "MASTER_URI" "10.0.0.1") (set_by h "CLUSTER_CIDR" "10.240.0.0/16"))

  unfoldable pub in_network : AciProviderSettings → Io W AciProviderSettings
  unfolding setup_network proxy_extension
  in_network p =
      Io.◌>>=◌ (wrapped_io "error setting up network: " (setup_network s subscription_id p)) λ p1.
        Io.◌>>=◌ (lift proxy_extension) λ proxy. pure (record p1 {
          container_group_extensions = p1.container_group_extensions ++ extensions_with proxy;
          kube_dns_ip = set_by h "KUBE_DNS_IP" p1.kube_dns_ip;
        })

  unfoldable pub set_vnet_config : AciProviderSettings → Io W AciProviderSettings
  unfolding with_vnet_variables with_subnet_cidr in_network
  set_vnet_config p =
      Io.◌>>=◌ (lift (with_subnet_cidr (with_vnet_variables p) (h.kube.getenv "ACI_SUBNET_CIDR")))
        λ p1. if p1.subnet_name == "" then pure p1 else in_network p1
