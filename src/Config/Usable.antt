-- ===== src/Config/Usable.antt =====
-- What holds of the provider that NewACIProvider returns.
use azure_aci.Prelude.{
  String, Bool, true, false, ◌==◌, List, [], ◌∷◌, ◌≡◌, refl, sym, ap, subst, ok, ◌⊎◌, inl, inr, In,
  >>=-eq-ok, fail_if, ok-injective, if◌then◌else◌, if-eq-ok, eq_iff, In-append_right,
}
use azure_aci.Prelude.Io
use azure_aci.Prelude.Io.{Io, lift, wrapped_io, wrapped_io-eq-ok}
use azure_aci.Auth.{AuthSettings}
use azure_aci.Extensions.{Extension, get_realtime_metrics_extension}
use azure_aci.Config.{AciProviderSettings, Host}
use azure_aci.Config.Loaded.{check_cidr}
use azure_aci.Config.Network.{
  Subnets, set_vnet_config, with_vnet_variables, with_subnet_cidr, in_network, setup_network,
  proxy_extension, extensions_with,
}
use azure_aci.Config.Network.Delegated.{setup_network-SetUp}
use azure_aci.Config.Started.{Arguments, settled, new_aci_provider}
use azure_aci.Config.Settled.{Usable, HasProxy, settled-Usable}

module _ {W : Type 0} (h : Host) (args : Arguments) (s : Subnets W) (subscription_id : String) where
  -- What is kept by setting up the network.
  Usable-in_network :
      (p : AciProviderSettings) (extensions : List Extension)
      (subnet_name subnet_cidr subscription vnet_name vnet_group dns : String)
      → Usable h args s subscription_id p
      → Usable h args s subscription_id (record p {
        container_group_extensions = extensions;
        subnet_name = subnet_name;
        subnet_cidr = subnet_cidr;
        vnet_subscription_id = subscription;
        vnet_name = vnet_name;
        vnet_resource_group = vnet_group;
        kube_dns_ip = dns;
      })
  Usable-in_network p extensions subnet_name subnet_cidr subscription vnet_name vnet_group dns u =
      record {
        resource_group = u.resource_group;
        region = u.region;
        operating_system = u.operating_system;
        cpu = u.cpu;
        memory = u.memory;
        pods = u.pods;
        diagnostics = u.diagnostics;
      }

  with_vnet_variables-Usable :
      (p : AciProviderSettings)
      → Usable h args s subscription_id p
      → Usable h args s subscription_id (with_vnet_variables h s subscription_id p)
  unfolding with_vnet_variables
  with_vnet_variables-Usable p u = Usable-in_network p _ _ _ _ _ _ _ u

  with_cidr-Usable :
      (p : AciProviderSettings) (cidr : String)
      → Usable h args s subscription_id p
      → Usable h args s subscription_id (record p { subnet_cidr = cidr })
  with_cidr-Usable p cidr u = Usable-in_network p _ _ _ _ _ _ _ u

  with_extensions-Usable :
      (p : AciProviderSettings) (extensions : List Extension) (dns : String)
      → Usable h args s subscription_id p
      → Usable h args s subscription_id
          (record p { container_group_extensions = extensions; kube_dns_ip = dns })
  with_extensions-Usable p extensions dns u = Usable-in_network p _ _ _ _ _ _ _ u

  proxy_first : (proxy : Extension) → In proxy (extensions_with h s subscription_id proxy)
  proxy_first proxy =
      elim (h.kube.getenv "ENABLE_REAL_TIME_METRICS" == "true")
        as (λ b. In proxy (if b then proxy ∷ get_realtime_metrics_extension ∷ [] else proxy ∷ [])) [
          | true ↦ inl refl
          | false ↦ inl refl
        ]

  with_subnet_cidr-Usable :
      (p p1 : AciProviderSettings) (cidr : String)
      → with_subnet_cidr h s subscription_id p cidr ≡ ok p1
      → Usable h args s subscription_id p
      → Usable h args s subscription_id p1
  unfolding with_subnet_cidr
  with_subnet_cidr-Usable p p1 cidr r u = elim (if-eq-ok (cidr == "") _ _ r) [
    | inl (unset, r1) ↦ subst (Usable h args s subscription_id) (ok-injective _ _ r1) u
    | inr (set, r1) ↦
        let (u1, named, r2) = >>=-eq-ok (fail_if (p.subnet_name == "") _) _ r1 in
        let (u2, checked, r3) = >>=-eq-ok (check_cidr h _ cidr) _ r2 in
        subst (Usable h args s subscription_id) (ok-injective _ _ r3) (with_cidr-Usable p cidr u)
  ]

  in_network-Usable :
      (p p' : AciProviderSettings) (w w' : W)
      → in_network h s subscription_id p w ≡ (ok p', w')
      → Usable h args s subscription_id p
      → Usable h args s subscription_id p' × HasProxy h args s subscription_id p'
  unfolding in_network
  in_network-Usable p p' w w' r u =
      let (p1, w1, at_p1, r1) =
        Io.>>=-eq-ok (wrapped_io "error setting up network: " (setup_network s subscription_id p)) _
          w r in
      let (proxy, at_proxy, r2) = Io.lift->>=-eq-ok (proxy_extension h s subscription_id) _ w1 r1 in
      let set_up =
        setup_network-SetUp s subscription_id p p1 w w1
          (wrapped_io-eq-ok _ (setup_network s subscription_id p) w at_p1) in
      let usable =
        subst (Usable h args s subscription_id) (sym set_up.cidr) (with_cidr-Usable p _ u) in
      subst (λ p'. Usable h args s subscription_id p' × HasProxy h args s subscription_id p')
        (ok-injective _ _ (ap (λ x. x.0) r2))
        (
          with_extensions-Usable p1 _ _ usable,
          (proxy, at_proxy, In-append_right _ p1.container_group_extensions _ (proxy_first proxy)),
        )

  set_vnet_config-Usable :
      (p p' : AciProviderSettings) (w w' : W)
      → set_vnet_config h s subscription_id p w ≡ (ok p', w')
      → Usable h args s subscription_id p
      → Usable h args s subscription_id p'
        × ((p'.subnet_name ≡ "") ⊎ HasProxy h args s subscription_id p')
  unfolding set_vnet_config
  set_vnet_config-Usable p p' w w' r u =
      let (p1, at_p1, r1) =
        Io.lift->>=-eq-ok
          (with_subnet_cidr h s subscription_id (with_vnet_variables h s subscription_id p)
            (h.kube.getenv "ACI_SUBNET_CIDR"))
          _ w r in
      let u1 = with_subnet_cidr-Usable _ p1 _ at_p1 (with_vnet_variables-Usable p u) in
      chosen (p1.subnet_name == "") p1 refl u1 r1
    where
      chosen :
          (b : Bool) (p1 : AciProviderSettings)
          → p1.subnet_name == "" ≡ b
          → Usable h args s subscription_id p1
          → (if b then Io.pure p1 else in_network h s subscription_id p1) w ≡ (ok p', w')
          → Usable h args s subscription_id p'
            × ((p'.subnet_name ≡ "") ⊎ HasProxy h args s subscription_id p')
      chosen true p1 e u1 r1 =
          subst
            (λ p'.
              Usable h args s subscription_id p'
              × ((p'.subnet_name ≡ "") ⊎ HasProxy h args s subscription_id p'))
            (ok-injective _ _ (ap (λ x. x.0) r1)) (u1, inl ((eq_iff _ "").0 e))
      chosen false p1 e u1 r1 =
          let (u', proxied) = in_network-Usable p1 p' w w' r1 u1 in (u', inr proxied)

-- When NewACIProvider returns a provider, that has a resource group, a region that is known, the operating system of the
-- arguments and the capacity that the environment or the built-in values give (whatever the file of the
-- configuration says of them); unless the resource ID of the cluster is unset, CreatePod does not panic on its diagnostics; and
-- unless it has no subnet, the proxy for Kubernetes is among its extensions.
pub new_aci_provider-Usable :
    {W Token : Type 0} (h : Host) (args : Arguments) (s : Subnets W) (auth : AuthSettings Token)
    (p : AciProviderSettings) (w w' : W)
    → new_aci_provider h args s auth w ≡ (ok p, w')
    → Usable h args s auth.auth_config.subscription_id p
      × ((p.subnet_name ≡ "") ⊎ HasProxy h args s auth.auth_config.subscription_id p)
unfolding new_aci_provider
new_aci_provider-Usable h args s auth p w w' r =
    let (p0, at_p0, r1) = Io.lift->>=-eq-ok (settled h args auth.aks_credential) _ w r in
    set_vnet_config-Usable h args s auth.auth_config.subscription_id p0 p w w' r1
      (settled-Usable h args s auth.auth_config.subscription_id auth.aks_credential p0 at_p0)
