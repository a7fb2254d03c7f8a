-- ===== src/Dns.antt =====
-- The DNS configuration of a container group: getDNSConfig, generateSearchesForDNSClusterFirst and the
-- two limits of pkg/provider/aci_network.go, and omitDuplicates of pkg/provider/aci_utils.go.
pub mod Unique
pub mod Limits
pub mod Config
mod Examples
use azure_aci.Prelude.{
  ℕ, zero, suc, ◌+◌, ◌-◌, String, Bool, true, false, ◌||◌, Option, none, some, List, [], ◌∷◌, ◌++◌,
  map, ◌==◌, ◌<>◌, len, length, take, keep, contains, leb, ltb, eqb, not, if◌then◌else◌, join,
}

-- The map of the strings that were seen is the list of them.
omit_seen : List String → List String → List String
omit_seen seen [] = []
omit_seen seen (s ∷ rest) = elim (contains seen s) [
  | true ↦ omit_seen seen rest
  | false ↦ s ∷ omit_seen (s ∷ seen) rest
]

unfoldable pub omit_duplicates : List String → List String
unfolding omit_seen
omit_duplicates strs = omit_seen [] strs

abbrev pub max_dns_nameservers : ℕ
max_dns_nameservers = 3

abbrev pub max_dns_search_paths : ℕ
max_dns_search_paths = 6

abbrev pub max_dns_search_list_chars : ℕ
max_dns_search_list_chars = 256

unfoldable pub form_dns_nameservers_fits_limits : List String → List String
form_dns_nameservers_fits_limits nameservers =
    if ltb max_dns_nameservers (length nameservers)
    then take max_dns_nameservers nameservers
    else nameservers

-- len(searches[i]); an index out of range, where Go panics, does not come up.
abbrev pub len_at : List String → ℕ → ℕ
len_at [] i = 0
len_at (x ∷ xs) zero = len x
len_at (x ∷ xs) (suc i) = len_at xs i

-- How many domains the loop cuts from the end. `i` counts the domains that are not yet looked at, and
-- `line - cut <= max` is written without the subtraction, which may go below zero.
pub cut_domains : List String → ℕ → ℕ → ℕ → ℕ → ℕ
cut_domains searches line zero cut_num cut_len = cut_num
cut_domains searches line (suc i) cut_num cut_len =
    let cut_len' = cut_len + (len_at searches i + 1) in
    elim (leb line (max_dns_search_list_chars + cut_len')) [
      | true ↦ suc cut_num
      | false ↦ cut_domains searches line i (suc cut_num) cut_len'
    ]

-- The search paths whose joined length is within the limit.
unfoldable pub cut_searches : List String → List String
cut_searches searches =
    let line = len (join " " searches) in
    if ltb max_dns_search_list_chars line
    then take (length searches - cut_domains searches line (length searches) 0 0) searches
    else searches

-- The first six paths, without those longer than a subdomain may be. That length,
-- `DNS1123SubdomainMaxLength` of Kubernetes, is a parameter.
unfoldable pub candidate_searches : ℕ → List String → List String
candidate_searches max_subdomain searches =
    keep (λ s. not (ltb max_subdomain (len s)))
      (if ltb max_dns_search_paths (length searches)
        then take max_dns_search_paths searches
        else searches)

unfoldable pub form_dns_search_fits_limits : ℕ → List String → String
form_dns_search_fits_limits max_subdomain searches =
    join " " (cut_searches (candidate_searches max_subdomain searches))

pub data DnsPolicy : Type 0 where
  cluster_first cluster_first_with_host_net default no_policy : DnsPolicy

-- v1.PodDNSConfigOption
pub record DnsOption : Type 0 where
  pub name : String
  pub value : Option String

-- v1.PodDNSConfig
pub record PodDnsConfig : Type 0 where
  pub nameservers : List String
  pub searches : List String
  pub options : List DnsOption

-- The fields of the provider and of the pod that decide on the configuration.
pub record DnsInput : Type 0 where
  pub kube_dns_ip : String
  pub cluster_domain : String
  pub max_subdomain : ℕ
  pub namespace : String
  pub dns_policy : DnsPolicy
  pub dns_config : Option PodDnsConfig

-- azaci.DNSConfiguration
pub record DnsConfiguration : Type 0 where
  pub name_servers : List String
  pub search_domains : String
  pub options : String

abbrev pub is_cluster_first : DnsPolicy → Bool
is_cluster_first cluster_first = true
is_cluster_first cluster_first_with_host_net = true
is_cluster_first _ = false

abbrev pub host_search : Option PodDnsConfig → List String
host_search none = []
host_search (some c) = c.searches

unfoldable pub generate_searches_for_dns_cluster_first : DnsInput → List String
generate_searches_for_dns_cluster_first p =
    if p.cluster_domain == ""
    then host_search p.dns_config
    else omit_duplicates (
        ((p.namespace <> (".svc." <> p.cluster_domain))
          ∷ ("svc." <> p.cluster_domain)
          ∷ p.cluster_domain
          ∷ [])
        ++ host_search p.dns_config)

option_text : DnsOption → String
option_text o = elim o.value [
  | none ↦ o.name
  | some v ↦ if v == "" then o.name else o.name <> (":" <> v)
]

pub with_pod_config : Option PodDnsConfig → List String → List String → List String × List String
with_pod_config none nameservers searches = (nameservers, searches)
with_pod_config (some c) nameservers searches =
    (omit_duplicates (nameservers ++ c.nameservers), omit_duplicates (searches ++ c.searches))

option_texts : Option PodDnsConfig → List String
unfolding option_text
option_texts none = []
option_texts (some c) = map option_text c.options

-- The name servers and search paths before the limits.
unfoldable pub requested : DnsInput → List String × List String
unfolding with_pod_config
requested p =
    if is_cluster_first p.dns_policy
    then with_pod_config p.dns_config (p.kube_dns_ip ∷ [])
        (generate_searches_for_dns_cluster_first p)
    else with_pod_config p.dns_config [] []

-- What is returned if there is a name server.
pub form_dns_configuration : DnsInput → List String → List String → DnsConfiguration
unfolding option_texts
form_dns_configuration p nameservers searches = record {
  name_servers = form_dns_nameservers_fits_limits nameservers;
  search_domains = form_dns_search_fits_limits p.max_subdomain searches;
  options = join " " (option_texts p.dns_config);
}

unfoldable pub get_dns_config : DnsInput → Option DnsConfiguration
unfolding form_dns_configuration
get_dns_config p =
    let (nameservers, searches) = requested p in
    if eqb (length nameservers) 0
    then none
    else some (form_dns_configuration p nameservers searches)
