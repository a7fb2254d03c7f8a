-- ===== src/Config/Network/Missing.antt =====
-- A subnet that the Azure SDK does not find.
use azure_aci.Prelude.{ℕ, String, false, ◌==◌, ◌<>◌, ◌≡◌, refl, err, ok, plain, azure}
use azure_aci.Config.{AciProviderSettings, Host}
use azure_aci.Config.Network.{
  Subnets, looked_up, setup_network, with_vnet_variables, with_subnet_cidr, in_network,
  set_vnet_config,
}

module _ {W : Type 0} (h : Host) (s : Subnets W) (subscription_id : String) where
  -- When the provider is to use a subnet (and what the environment says of it is accepted), and the lookup of
  -- the subnet by the Azure SDK fails, with the status "not found" or any other, setting up the virtual network
  -- fails too, in the world that the lookup left: the subnet is not created, whether a CIDR is given or not.
  pub set_vnet_config-missing :
      (p p1 : AciProviderSettings) (w w1 : W) (code : ℕ) (text : String)
      → with_subnet_cidr h s subscription_id
          (with_vnet_variables h s subscription_id p)
          (h.kube.getenv "ACI_SUBNET_CIDR")
        ≡ ok p1
      → p1.subnet_name == "" ≡ false
      → s.get subscription_id p1.vnet_resource_group p1.vnet_name p1.subnet_name w
        ≡ (err (azure code text), w1)
      → set_vnet_config h s subscription_id p w ≡ (
        err (plain ("error setting up network: " <> ("error while looking up subnet: " <> text))),
        w1,
      )
  unfolding set_vnet_config in_network setup_network looked_up
  set_vnet_config-missing p p1 w w1 code text checked named got = rw (checked, named, got) refl
