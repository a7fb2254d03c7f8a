-- ===== src/Dns/Config.antt =====
-- The DNS configuration as a whole.
use azure_aci.Prelude.{
  suc, ◌≤◌, String, true, false, Option, none, some, List, [], ◌∷◌, ◌≡◌, refl, length, take, arith,
  Bool-cases, inl, inr, length-take, eqb, ◌∙◌, ap, subst,
}
use azure_aci.Dns.{
  DnsInput, DnsConfiguration, generate_searches_for_dns_cluster_first, form_dns_configuration,
  PodDnsConfig, get_dns_config, requested, is_cluster_first, max_dns_nameservers, omit_duplicates,
  omit_seen, with_pod_config,
}
use azure_aci.Dns.Limits.{
  Searched, form_dns_search_fits_limits-Searched, form_dns_nameservers_fits_limits_lem,
}

-- What the configuration `d` of the pod and provider `p` says.
pub record Configured (p : DnsInput) (d : DnsConfiguration) : Type 0 where
  pub servers : d.name_servers ≡ take max_dns_nameservers (requested p).0
  pub some_server : 1 ≤ length d.name_servers
  pub few_servers : length d.name_servers ≤ max_dns_nameservers
  pub searched : Searched p.max_subdomain (requested p).1 d.search_domains

form_dns_configuration-Configured :
    (p : DnsInput)
    → eqb (length (requested p).0) 0 ≡ false
    → Configured p (form_dns_configuration p (requested p).0 (requested p).1)
unfolding form_dns_configuration
form_dns_configuration-Configured p e = record {
  servers = form_dns_nameservers_fits_limits_lem (requested p).0;
  some_server =
      rw (form_dns_nameservers_fits_limits_lem (requested p).0)
        (ground (arith, e, length-take max_dns_nameservers (requested p).0));
  few_servers =
      rw (form_dns_nameservers_fits_limits_lem (requested p).0)
        (omega (arith, length-take max_dns_nameservers (requested p).0));
  searched = form_dns_search_fits_limits-Searched p.max_subdomain (requested p).1;
}

-- A configuration that is returned has one to three name servers, the first that were asked for. Its
-- search line joins the longest prefix, of at most 256 bytes, of those among the first six paths that
-- are not too long.
pub get_dns_config-Configured :
    (p : DnsInput) (d : DnsConfiguration) → get_dns_config p ≡ some d → Configured p d
unfolding get_dns_config
get_dns_config-Configured p d h = elim (Bool-cases (eqb (length (requested p).0) 0)) [
  | inl e ↦ let nothing : get_dns_config p ≡ none = rw e refl in absurd cc
  | inr e ↦
      let built : get_dns_config p
          ≡ some (form_dns_configuration p (requested p).0 (requested p).1) =
        rw e refl in
      let same : form_dns_configuration p (requested p).0 (requested p).1 ≡ d = cc in
      subst (Configured p) same (form_dns_configuration-Configured p e)
]

first_server :
    (c : Option PodDnsConfig) (ip : String) (searches : List String)
    → (rest : List String) × ((with_pod_config c (ip ∷ []) searches).0 ≡ ip ∷ rest)
unfolding with_pod_config omit_duplicates omit_seen
first_server none ip searches = ([], refl)
first_server (some c) ip searches = (omit_seen (ip ∷ []) c.nameservers, refl)

asked-cluster_first :
    (p : DnsInput)
    → is_cluster_first p.dns_policy ≡ true
    → (rest : List String) × ((requested p).0 ≡ p.kube_dns_ip ∷ rest)
unfolding requested
asked-cluster_first p h =
    let (rest, first) =
      first_server p.dns_config p.kube_dns_ip (generate_searches_for_dns_cluster_first p) in
    (rest, rw h first)

built-first :
    (p : DnsInput) (ip : String) (rest : List String)
    → (requested p).0 ≡ ip ∷ rest
    → (get_dns_config p ≡ some (form_dns_configuration p (requested p).0 (requested p).1))
      × ((form_dns_configuration p (requested p).0 (requested p).1).name_servers ≡ ip ∷ take 2 rest)
unfolding get_dns_config form_dns_configuration
built-first p ip rest h =
    let counted : length (requested p).0 ≡ suc (length rest) = rw h refl in
    let positive : eqb (length (requested p).0) 0 ≡ false = ground (arith, counted) in
    (
      rw positive refl,
      form_dns_nameservers_fits_limits_lem (requested p).0 ∙ ap (take max_dns_nameservers) h,
    )

-- Under the policies ClusterFirst and ClusterFirstWithHostNet there is a configuration, and its first
-- name server is that of the cluster.
get_dns_config-cluster_first :
    (p : DnsInput)
    → is_cluster_first p.dns_policy ≡ true
    → (d : DnsConfiguration) × (rest : List String) × (get_dns_config p ≡ some d)
      × (d.name_servers ≡ p.kube_dns_ip ∷ rest)
get_dns_config-cluster_first p h =
    let (rest, asked) = asked-cluster_first p h in
    let (built, servers) = built-first p p.kube_dns_ip rest asked in
    (form_dns_configuration p (requested p).0 (requested p).1, take 2 rest, built, servers)
