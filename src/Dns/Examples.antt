-- ===== src/Dns/Examples.antt =====
-- A pod of the cluster with too many name servers and search paths.
use azure_aci.Prelude.{none, some, [], ◌∷◌, ◌≡◌, refl}
use azure_aci.Dns.{
  DnsInput, DnsConfiguration, cluster_first, PodDnsConfig, get_dns_config, omit_duplicates,
  omit_seen, cut_searches, form_dns_configuration, requested, with_pod_config,
  generate_searches_for_dns_cluster_first, option_texts, option_text,
  form_dns_nameservers_fits_limits, form_dns_search_fits_limits, candidate_searches,
}
use azure_aci.Dns.Config.{Configured, get_dns_config-Configured}

abbrev pod_config : PodDnsConfig
pod_config = record {
  nameservers = "8.8.8.8" ∷ "10.0.0.10" ∷ "1.1.1.1" ∷ "9.9.9.9" ∷ [];
  searches = "a" ∷ "b" ∷ "a" ∷ [];
  options =
      record { name = "ndots"; value = some "5" } ∷ record { name = "debug"; value = none } ∷ [];
}

abbrev input : DnsInput
input = record {
  kube_dns_ip = "10.0.0.10";
  cluster_domain = "cluster.local";
  max_subdomain = 253;
  namespace = "ns";
  dns_policy = cluster_first;
  dns_config = some pod_config;
}

abbrev expected : DnsConfiguration
expected = record {
  name_servers = "10.0.0.10" ∷ "8.8.8.8" ∷ "1.1.1.1" ∷ [];
  search_domains = "ns.svc.cluster.local svc.cluster.local cluster.local a b";
  options = "ndots:5 debug";
}

input_answer : get_dns_config input ≡ some expected
unfolding get_dns_config form_dns_configuration requested with_pod_config omit_duplicates omit_seen
    generate_searches_for_dns_cluster_first option_texts option_text
    form_dns_nameservers_fits_limits form_dns_search_fits_limits candidate_searches cut_searches
input_answer = refl

get_dns_config-Configured_example : Configured input expected
get_dns_config-Configured_example = get_dns_config-Configured input expected input_answer
