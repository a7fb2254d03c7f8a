-- ===== src/Config/Settled.antt =====
-- What holds of the provider before its network is set up.
use azure_aci.Prelude.{
  String, true, false, not, ◌==◌, Option, none, some, ◌≡◌, refl, sym, ap, ◌∙◌, subst, ok, panics,
  ◌⊎◌, inl, inr, ◌≢◌, In, >>=-eq-ok, fail_if, fail_if-eq-ok, fail_if-not-eq-ok, ok-injective,
  eq_iff, Bool-cases, plain,
}
use azure_aci.Auth.{AksCredential}
use azure_aci.Extensions.{Extension}
use azure_aci.Create.Shared.{
  Diagnostics, LogAnalytics, shared_diagnostics, pod_diagnostics, with_pod_uid,
}
use azure_aci.Config.{AciProviderSettings, Host, set_by}
use azure_aci.Config.Loaded.{setup_node_capacity, is_valid_aci_region}
use azure_aci.Config.Network.{Subnets, proxy_extension}
use azure_aci.Config.Started.{
  Arguments, from_config, before_diagnostics, with_diagnostics, with_place, settled,
  cluster_diagnostics, for_cluster, with_insights, invalid_region, file_diagnostics,
  key_diagnostics,
}

module _ {W : Type 0} (h : Host) (args : Arguments) (s : Subnets W) (subscription_id : String) where
  -- The provider has a place, the capacity of the environment, the operating system of its arguments, and a proxy for
  -- Kubernetes where it has a subnet.
  pub record Usable (p : AciProviderSettings) : Type 0 where
    pub resource_group : p.resource_group == "" ≡ false
    pub region : is_valid_aci_region h p.region ≡ true
    pub operating_system : p.operating_system ≡ args.operating_system
    pub cpu : p.cpu ≡ set_by h "ACI_QUOTA_CPU" "10000"
    pub memory : p.memory ≡ set_by h "ACI_QUOTA_MEMORY" "4Ti"
    pub pods : p.pods ≡ set_by h "ACI_QUOTA_POD" "5000"
    pub diagnostics :
        (h.kube.getenv "CLUSTER_RESOURCE_ID" ≡ "")
        ⊎ ((uid : String) → shared_diagnostics uid p.diagnostics ≢ panics)

  -- The extensions have the proxy.
  abbrev pub HasProxy : AciProviderSettings → Type 0
  HasProxy p =
      (proxy : Extension) × (proxy_extension h s subscription_id ≡ ok proxy)
      × In proxy p.container_group_extensions

  -- Diagnostics for a cluster have a map that the UID of a pod can be written to.
  for_cluster-safe :
      (d : Option Diagnostics) (uid : String)
      → shared_diagnostics uid (for_cluster h args d) ≢ panics
  unfolding shared_diagnostics pod_diagnostics with_pod_uid
  for_cluster-safe d uid = for_each d
    where
      for_log :
          (la : Option LogAnalytics)
          → shared_diagnostics uid (some (record { log_analytics = with_insights h args la }))
            ≢ panics
      for_log none = λ e. cc
      for_log (some la) = λ e. cc

      for_each : (d : Option Diagnostics) → shared_diagnostics uid (for_cluster h args d) ≢ panics
      for_each none = λ e. cc
      for_each (some d) = for_log d.log_analytics

  cluster_diagnostics-safe :
      (d : Option Diagnostics)
      → (h.kube.getenv "CLUSTER_RESOURCE_ID" ≡ "")
        ⊎ ((uid : String) → shared_diagnostics uid (cluster_diagnostics h args d) ≢ panics)
  unfolding cluster_diagnostics
  cluster_diagnostics-safe d = elim (Bool-cases (h.kube.getenv "CLUSTER_RESOURCE_ID" == "")) [
    | inl e ↦ inl ((eq_iff _ "").0 e)
    | inr e ↦ inr (rw e (for_cluster-safe d))
  ]

  credential_system :
      (cred : Option AksCredential) (p : AciProviderSettings)
      → (before_diagnostics h args cred p).operating_system ≡ args.operating_system
  credential_system none p = refl
  credential_system (some c) p = refl

  with_place-known :
      (p p' : AciProviderSettings)
      → with_place h args p ≡ ok p'
      → (p'.resource_group == "" ≡ false)
        × (is_valid_aci_region h p'.region ≡ true)
        × (p' ≡ record p { resource_group = p'.resource_group; region = p'.region })
  unfolding with_place
  with_place-known p p' r =
      let group = set_by h "ACI_RESOURCE_GROUP" p.resource_group in
      let region = set_by h "ACI_REGION" p.region in
      let (u1, has_group, t1) =
        >>=-eq-ok
          (fail_if (group == "")
            (plain "Resource group can not be empty please set ACI_RESOURCE_GROUP"))
          _ r in
      let (u2, has_region, t2) =
        >>=-eq-ok (fail_if (region == "") (plain "Region can not be empty please set ACI_REGION")) _
          t1 in
      let (u3, is_valid, t3) =
        >>=-eq-ok
          (fail_if (not (is_valid_aci_region h region)) (plain (invalid_region h args region))) _
          t2 in
      subst
        (λ p'.
          (p'.resource_group == "" ≡ false)
          × (is_valid_aci_region h p'.region ≡ true)
          × (p' ≡ record p { resource_group = p'.resource_group; region = p'.region }))
        (ok-injective _ _ t3) (fail_if-eq-ok _ _ has_group, fail_if-not-eq-ok _ _ is_valid, refl)

  with_diagnostics-made :
      (p p' : AciProviderSettings)
      → with_diagnostics h args p ≡ ok p'
      → (d : Option Diagnostics) × (record p { diagnostics = cluster_diagnostics h args d } ≡ p')
  unfolding with_diagnostics
  with_diagnostics-made p p' r =
      let (d, at_d, r1) = >>=-eq-ok (file_diagnostics h args p.diagnostics) _ r in
      let (d1, at_d1, r2) = >>=-eq-ok (key_diagnostics h args d) _ r1 in (d1, ok-injective _ _ r2)

  with_capacity-Usable :
      (cred : Option AksCredential) (p p1 p2 : AciProviderSettings)
      → with_diagnostics h args (before_diagnostics h args cred p) ≡ ok p1
      → with_place h args p1 ≡ ok p2
      → Usable (setup_node_capacity h p2)
  unfolding setup_node_capacity
  with_capacity-Usable cred p p1 p2 r1 r2 =
      let (d, made) = with_diagnostics-made (before_diagnostics h args cred p) p1 r1 in
      let (group, region, same) = with_place-known p1 p2 r2 in
      record {
        resource_group = group;
        region = region;
        operating_system =
            ap (λ p. p.operating_system) same
            ∙ sym (ap (λ p. p.operating_system) made)
            ∙ credential_system cred p;
        cpu = refl;
        memory = refl;
        pods = refl;
        diagnostics =
            subst
              (λ d.
                (h.kube.getenv "CLUSTER_RESOURCE_ID" ≡ "")
                ⊎ ((uid : String) → shared_diagnostics uid d ≢ panics))
              (ap (λ p. p.diagnostics) made ∙ sym (ap (λ p. p.diagnostics) same))
              (cluster_diagnostics-safe d);
      }

  pub settled-Usable :
      (cred : Option AksCredential) (p : AciProviderSettings)
      → settled h args cred ≡ ok p
      → Usable p
  unfolding settled
  settled-Usable cred p r =
      let (p0, at_p0, r1) = >>=-eq-ok (from_config h args) _ r in
      let (p1, at_p1, r2) =
        >>=-eq-ok (with_diagnostics h args (before_diagnostics h args cred p0)) _ r1 in
      let (p2, at_p2, r3) = >>=-eq-ok (with_place h args p1) _ r2 in
      subst Usable (ok-injective _ _ r3) (with_capacity-Usable cred p0 p1 p2 at_p1 at_p2)
